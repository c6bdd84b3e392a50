-- ===== src/Resources/Lazy/Invariant.antt =====
-- What holds in every state that the calls of one resource can reach.
use fast_api_scaff.Prelude.{
  ℕ, ◌≡◌, ◌≢◌, refl, Bool, true, false, Option, none, some, List, [], ◌∷◌, ◌==◌, arith,
}
use fast_api_scaff.Resources.Tasks.{update}
use fast_api_scaff.Resources.Lazy.{
  Call, unused, awaiting_value, creating, received, refused, awaiting_close, closing, done,
}
use fast_api_scaff.Resources.Lazy.System.{Event, created, released, System, new_system, moved}

abbrev pub is_holder : Option ℕ → ℕ → Bool
is_holder none i = false
is_holder (some j) i = j == i

module _ {T : Type 0} where
  -- The call is in the factory or in the closer.
  abbrev pub holding : Call T → Bool
  holding creating = true
  holding (closing _) = true
  holding _ = false

  abbrev pub is_creating : Call T → Bool
  is_creating creating = true
  is_creating _ = false

  -- The value that the factory has made.
  abbrev pub made : List (Event T) → Option T
  made (created v ∷ []) = some v
  made (released _ ∷ created v ∷ []) = some v
  made _ = none

  -- What the log says of the resource: nothing was made, or one value that is held, or one value that
  -- was released after the close.
  abbrev pub Ledger : Option T → Bool → List (Event T) → Type 0
  Ledger value closed [] = value ≡ none
  Ledger value closed (created v ∷ []) = value ≡ some v
  Ledger value closed (released w ∷ created v ∷ []) = (w ≡ v) × (value ≡ none) × (closed ≡ true)
  Ledger value closed _ = true ≡ false

  -- What a call in a phase says of the resource.
  abbrev pub Fits : Option T → Bool → List (Event T) → Call T → Type 0
  Fits value closed log creating = log ≡ []
  Fits value closed log (received v) = made log ≡ some v
  Fits value closed log awaiting_close = closed ≡ true
  Fits value closed log (closing v) = (value ≡ some v) × (closed ≡ true)
  Fits value closed log done = (value ≡ none) × (closed ≡ true)
  Fits value closed log _ = Unit

  pub record Inv (s : System T) : Type 0 where
    pub held : (i : ℕ) → holding (s.calls i) ≡ is_holder s.lazy.lock i
    pub ledger : Ledger s.lazy.value s.lazy.closed s.log
    pub fits : (i : ℕ) → Fits s.lazy.value s.lazy.closed s.log (s.calls i)
    pub settled : (i j : ℕ) → s.calls i ≡ done → is_creating (s.calls j) ≡ false

  pub Inv-new : Inv new_system
  Inv-new = record { held = λ _. refl; ledger = refl; fits = λ _. tt; settled = λ i j h. refl }

  pub Ledger-at :
      (value : Option T) (closed : Bool) {log past : List (Event T)}
      → log ≡ past
      → Ledger value closed log
      → Ledger value closed past
  Ledger-at value closed e h = rw (← e) h

  pub Ledger-made :
      (v : T) (closed : Bool) (log : List (Event T))
      → Ledger (some v) closed log
      → made log ≡ some v
  Ledger-made v closed [] h = cc
  Ledger-made v closed (created w ∷ []) h = ground arith
  Ledger-made v closed (released x ∷ created w ∷ []) h = cc
  Ledger-made v closed (created w ∷ _ ∷ log) h = cc
  Ledger-made v closed (released w ∷ []) h = cc
  Ledger-made v closed (released w ∷ released x ∷ log) h = cc
  Ledger-made v closed (released w ∷ created x ∷ _ ∷ log) h = cc

  pub Ledger-fresh : (log : List (Event T)) → Ledger none false log → log ≡ []
  Ledger-fresh [] h = refl
  Ledger-fresh (created w ∷ []) h = cc
  Ledger-fresh (released x ∷ created w ∷ []) h = cc
  Ledger-fresh (created w ∷ _ ∷ log) h = cc
  Ledger-fresh (released w ∷ []) h = cc
  Ledger-fresh (released w ∷ released x ∷ log) h = cc
  Ledger-fresh (released w ∷ created x ∷ _ ∷ log) h = cc

  pub Ledger-closed :
      (value : Option T) (closed : Bool) (log : List (Event T))
      → Ledger value closed log
      → Ledger value true log
  Ledger-closed value closed [] h = h
  Ledger-closed value closed (created w ∷ []) h = h
  Ledger-closed value closed (released x ∷ created w ∷ []) h = (h.0, h.1, refl)
  Ledger-closed value closed (created w ∷ _ ∷ log) h = cc
  Ledger-closed value closed (released w ∷ []) h = cc
  Ledger-closed value closed (released w ∷ released x ∷ log) h = cc
  Ledger-closed value closed (released w ∷ created x ∷ _ ∷ log) h = cc

  -- A value that is held is the one event of the log.
  pub Ledger-held :
      (v : T) (closed : Bool) (log : List (Event T))
      → Ledger (some v) closed log
      → log ≡ created v ∷ []
  Ledger-held v closed [] h = cc
  Ledger-held v closed (created w ∷ []) h = ground arith
  Ledger-held v closed (released x ∷ created w ∷ []) h = cc
  Ledger-held v closed (created w ∷ _ ∷ log) h = cc
  Ledger-held v closed (released w ∷ []) h = cc
  Ledger-held v closed (released w ∷ released x ∷ log) h = cc
  Ledger-held v closed (released w ∷ created x ∷ _ ∷ log) h = cc

  pub Fits-at :
      (value : Option T) (closed : Bool) (log : List (Event T)) {c d : Call T}
      → c ≡ d
      → Fits value closed log c
      → Fits value closed log d
  Fits-at value closed log e h = rw (← e) h

  -- The phases while the resource is closed, filled or emptied.
  pub Fits-closed :
      (value : Option T) (closed : Bool) (log : List (Event T)) (c : Call T)
      → Fits value closed log c
      → Fits value true log c
  Fits-closed value closed log unused h = tt
  Fits-closed value closed log awaiting_value h = tt
  Fits-closed value closed log creating h = h
  Fits-closed value closed log (received v) h = h
  Fits-closed value closed log refused h = tt
  Fits-closed value closed log awaiting_close h = refl
  Fits-closed value closed log (closing v) h = (h.0, refl)
  Fits-closed value closed log done h = (h.0, refl)

  pub Fits-created :
      (v : T) (closed : Bool) (c : Call T)
      → holding c ≡ false
      → c ≢ done
      → Fits none closed [] c
      → Fits (some v) closed (created v ∷ []) c
  Fits-created v closed unused f d h = tt
  Fits-created v closed awaiting_value f d h = tt
  Fits-created v closed creating f d h = cc
  Fits-created v closed (received w) f d h = cc
  Fits-created v closed refused f d h = tt
  Fits-created v closed awaiting_close f d h = h
  Fits-created v closed (closing w) f d h = cc
  Fits-created v closed done f d h = absurd (d refl)

  pub Fits-released :
      (v : T) (c : Call T)
      → holding c ≡ false
      → Fits (some v) true (created v ∷ []) c
      → Fits none true (released v ∷ created v ∷ []) c
  Fits-released v unused f h = tt
  Fits-released v awaiting_value f h = tt
  Fits-released v creating f h = cc
  Fits-released v (received w) f h = h
  Fits-released v refused f h = tt
  Fits-released v awaiting_close f h = refl
  Fits-released v (closing w) f h = cc
  Fits-released v done f h = (refl, refl)

  -- Call `i` moves, and neither the value, nor the flag, nor the log changes.
  pub Inv-moved :
      (s : System T) (i : ℕ) (c : Call T) (lock : Option ℕ)
      → Inv s
      → ((j : ℕ) → holding (update s.calls i c j) ≡ is_holder lock j)
      → Fits s.lazy.value s.lazy.closed s.log c
      → ((j k : ℕ) → update s.calls i c j ≡ done → is_creating (update s.calls i c k) ≡ false)
      → Inv (moved s i (c, record s.lazy { lock = lock }))
  Inv-moved s i c lock inv held own settled = record {
    held = held;
    ledger = inv.ledger;
    fits = λ j. ground (arith, inv.fits j);
    settled = settled;
  }
