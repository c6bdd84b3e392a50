-- ===== src/Resources/Lazy/System.antt =====
-- A resource with any number of concurrent calls, and what its factory and its closer have done.
use fast_api_scaff.Prelude.{ℕ, ◌≡◌, true, false, none, some, List, [], ◌∷◌}
use fast_api_scaff.Resources.Tasks.{update}
use fast_api_scaff.Resources.Lazy.{
  Call, unused, awaiting_value, creating, refused, awaiting_close, closing, AsyncLazy, call_get,
  enter_get, leave_factory, begin_close, call_aclose, enter_aclose, leave_closer,
}

-- The factory has returned a value, the closer has released one.
pub data Event (T : Type 0) : Type 0 where
  created : T → Event T
  released : T → Event T

-- `log` has the last event first.
pub record System (T : Type 0) : Type 0 where
  pub lazy : AsyncLazy T
  pub calls : ℕ → Call T
  pub log : List (Event T)

module _ {T : Type 0} where
  -- `AsyncLazy(factory, closer)`
  abbrev pub new_system : System T
  new_system = record {
    lazy = record { value = none; lock = none; closed = false };
    calls = λ _. unused;
    log = [];
  }

  -- Call `i` has gone on to `p.0`, and has left the resource as `p.1`.
  abbrev pub moved : System T → ℕ → Call T × AsyncLazy T → System T
  moved s i p = record { lazy = p.1; calls = update s.calls i p.0; log = s.log }

  abbrev pub logged : Event T → System T → System T
  logged event s = record s { log = event ∷ s.log }

  -- One step of one call. A call that waits for the lock may be cancelled; a cancellation in the
  -- factory or in the closer is an error of theirs.
  pub data Step (s : System T) : System T → Type 0 where
    gets : (i : ℕ) → s.calls i ≡ unused → Step s (moved s i (call_get s.lazy, s.lazy))
    enters :
        (i : ℕ)
        → s.calls i ≡ awaiting_value
        → s.lazy.lock ≡ none
        → Step s (moved s i (enter_get i s.lazy))
    creates :
        (i : ℕ) (value : T)
        → s.calls i ≡ creating
        → Step s (logged (created value) (moved s i (leave_factory (some value) s.lazy)))
    fails : (i : ℕ) → s.calls i ≡ creating → Step s (moved s i (leave_factory none s.lazy))
    blocks : Step s (record s { lazy = begin_close s.lazy })
    closes : (i : ℕ) → s.calls i ≡ unused → Step s (moved s i (call_aclose s.lazy))
    enters_close :
        (i : ℕ)
        → s.calls i ≡ awaiting_close
        → s.lazy.lock ≡ none
        → Step s (moved s i (enter_aclose i s.lazy))
    releases :
        (i : ℕ) (value : T)
        → s.calls i ≡ closing value
        → Step s (logged (released value) (moved s i (leave_closer true s.lazy)))
    keeps :
        (i : ℕ) (value : T)
        → s.calls i ≡ closing value
        → Step s (moved s i (leave_closer false s.lazy))
    cancels : (i : ℕ) → s.calls i ≡ awaiting_value → Step s (moved s i (refused, s.lazy))
    cancels_close : (i : ℕ) → s.calls i ≡ awaiting_close → Step s (moved s i (refused, s.lazy))

  pub data Reach (s : System T) : System T → Type 0 where
    start : Reach s s
    later : {t u : System T} → Reach s t → Step t u → Reach s u
