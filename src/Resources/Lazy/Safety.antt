-- ===== src/Resources/Lazy/Safety.antt =====
-- What the users of one resource can rely on, whatever the interleaving of their calls.
use fast_api_scaff.Prelude.{ℕ, ◌+◌, ◌≡◌, refl, List, some, ==_iff, arith, [], ◌∷◌}
use fast_api_scaff.Resources.Lazy.{unused, received, awaiting_close, begin_close, call_aclose}
use fast_api_scaff.Resources.Lazy.System.{
  Event, created, released, System, new_system, moved, Step, gets, enters, creates, fails, blocks,
  closes, enters_close, releases, keeps, cancels, cancels_close, Reach, start, later,
}
use fast_api_scaff.Resources.Lazy.Invariant.{made, Inv, Inv-new, Inv-moved}
use fast_api_scaff.Resources.Lazy.Steps.{
  Fits-call, Inv-refused, Inv-gets, Inv-enters, Inv-fails, Inv-keeps, Inv-blocks, Inv-enters_close,
}
use fast_api_scaff.Resources.Lazy.Creation.{Inv-releases, Inv-creates}

module _ {T : Type 0} where
  Inv-closes :
      (s : System T) (i : ℕ) → s.calls i ≡ unused → Inv s → Inv (moved s i (call_aclose s.lazy))
  unfolding call_aclose
  Inv-closes s i h inv =
      let blocked = Inv-blocks s i inv in
      Inv-moved (record s { lazy = begin_close s.lazy }) i awaiting_close s.lazy.lock blocked
        (λ j. ground (arith, inv.held j, inv.held i, ==_iff i j)) refl
        (λ j k q. ground (arith, inv.settled j k))

  pub Step-Inv : {s t : System T} → Step s t → Inv s → Inv t
  Step-Inv {s} (gets i h) inv = Inv-gets s i inv h
  Step-Inv {s} (enters i h free) inv = Inv-enters s i inv h free
  Step-Inv {s} (creates i v h) inv = Inv-creates s i inv v h
  Step-Inv {s} (fails i h) inv = Inv-fails s i inv h
  Step-Inv {s} blocks inv = Inv-blocks s 0 inv
  Step-Inv {s} (closes i h) inv = Inv-closes s i h inv
  Step-Inv {s} (enters_close i h free) inv = Inv-enters_close s i inv h free
  Step-Inv {s} (releases i v h) inv = Inv-releases s i inv v h
  Step-Inv {s} (keeps i v h) inv = Inv-keeps s i inv v h
  Step-Inv {s} (cancels i h) inv = Inv-refused s i inv (rw h refl)
  Step-Inv {s} (cancels_close i h) inv = Inv-refused s i inv (rw h refl)

  pub Reach-Inv : {s t : System T} → Reach s t → Inv s → Inv t
  Reach-Inv start inv = inv
  Reach-Inv (later r step) inv = Step-Inv step (Reach-Inv r inv)

  abbrev pub creations : List (Event T) → ℕ
  creations [] = 0
  creations (created _ ∷ log) = 1 + creations log
  creations (released _ ∷ log) = creations log

  abbrev pub releases_of : List (Event T) → ℕ
  releases_of [] = 0
  releases_of (created _ ∷ log) = releases_of log
  releases_of (released _ ∷ log) = 1 + releases_of log

  creations-made : (log : List (Event T)) (v : T) → made log ≡ some v → creations log ≡ 1
  creations-made [] v h = cc
  creations-made (created w ∷ []) v h = refl
  creations-made (released x ∷ created w ∷ []) v h = refl
  creations-made (created w ∷ _ ∷ log) v h = cc
  creations-made (released w ∷ []) v h = cc
  creations-made (released w ∷ released x ∷ log) v h = cc
  creations-made (released w ∷ created x ∷ _ ∷ log) v h = cc

  -- However the calls interleave: all calls of `get` that return have returned the same value, and
  -- the factory has returned exactly once.
  pub get-once :
      (s : System T)
      → Reach new_system s
      → (i j : ℕ) (v w : T) → s.calls i ≡ received v
      → s.calls j ≡ received w
      → (v ≡ w) × (creations s.log ≡ 1)
  get-once s r i j v w h k =
      let inv = Reach-Inv r Inv-new in
      let first = Fits-call s i inv i h in
      let second = Fits-call s i inv j k in (cc, creations-made s.log v first)
