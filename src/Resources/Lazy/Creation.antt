-- ===== src/Resources/Lazy/Creation.antt =====
-- The steps in which the factory returns or the closer releases keep the invariant.
use fast_api_scaff.Prelude.{
  ℕ, ◌≡◌, refl, Bool, true, false, ◌==◌, Option, List, none, some, ==_iff, Bool-cases, inl, inr,
  arith, [], ◌∷◌,
}
use fast_api_scaff.Resources.Tasks.{update}
use fast_api_scaff.Resources.Lazy.{
  Call, AsyncLazy, creating, closing, done, hand_out, leave_factory, leave_closer,
}
use fast_api_scaff.Resources.Lazy.System.{Event, created, released, System, moved, logged}
use fast_api_scaff.Resources.Lazy.Invariant.{
  holding, is_holder, made, Ledger-at, Ledger-held, Fits, Inv, Fits-created, Fits-released,
}
use fast_api_scaff.Resources.Lazy.Steps.{Fits-call}

module _ {T : Type 0} (s : System T) (i : ℕ) (inv : Inv s) where
  -- While call `i` holds the lock no other call does.
  pub alone : holding (s.calls i) ≡ true → (j : ℕ) → (i == j) ≡ false → holding (s.calls j) ≡ false
  alone h j other = only s.lazy.lock (rw (← inv.held i) h) (inv.held j)
    where
      only :
          (lock : Option ℕ)
          → is_holder lock i ≡ true
          → holding (s.calls j) ≡ is_holder lock j
          → holding (s.calls j) ≡ false
      only none mine theirs = cc
      only (some k) mine theirs = ground (arith, ==_iff i j)

  -- After the holder has left, nobody holds the lock.
  released_lock :
      (c : Call T)
      → holding (s.calls i) ≡ true
      → holding c ≡ false
      → (j : ℕ) → holding (update s.calls i c j) ≡ false
  released_lock c h free j = elim (Bool-cases (i == j)) [
    | inl e ↦ ground arith
    | inr e ↦ let other = alone h j e in ground arith
  ]

  Fits-update :
      (value : Option T) (closed : Bool) (log : List (Event T)) (c : Call T) (j : ℕ)
      → Fits value closed log c
      → ((i == j) ≡ false → Fits value closed log (s.calls j))
      → Fits value closed log (update s.calls i c j)
  Fits-update value closed log c j own other = elim (Bool-cases (i == j)) [
    | inl e ↦ rw e own
    | inr e ↦ rw e (other e)
  ]

  pub Inv-releases :
      (v : T)
      → s.calls i ≡ closing v
      → Inv (logged (released v) (moved s i (leave_closer true s.lazy)))
  unfolding leave_closer
  Inv-releases v h =
      let (held, shut) = Fits-call s i inv i h in
      let one = Ledger-held v s.lazy.closed s.log (rw (← held) inv.ledger) in
      let mine : holding (s.calls i) ≡ true = rw h refl in
      record {
        held = released_lock done mine refl;
        ledger = rw (one, shut) (refl, refl, refl);
        fits = λ j.
            Fits-update none s.lazy.closed (released v ∷ s.log) done j (refl, shut)
              (λ other.
                rw (one, shut)
                  (Fits-released v (s.calls j) (alone mine j other)
                    (rw (← held, ← shut, ← one) (inv.fits j))));
        settled = λ j k q. ground (arith, released_lock done mine refl k);
      }

  Fits-hand_out :
      (lazy : AsyncLazy T) (v : T) (log : List (Event T))
      → made log ≡ some v
      → Fits lazy.value lazy.closed log (hand_out lazy v)
  unfolding hand_out
  Fits-hand_out lazy v log h = elim (Bool-cases lazy.closed) [ inl e ↦ rw e tt | inr e ↦ rw e h ]

  pub Inv-creates :
      (v : T)
      → s.calls i ≡ creating
      → Inv (logged (created v) (moved s i (leave_factory (some v) s.lazy)))
  unfolding leave_factory hand_out
  Inv-creates v h =
      let one : s.log ≡ [] = Fits-call s i inv i h in
      let mine : holding (s.calls i) ≡ true = rw h refl in
      let empty : s.lazy.value ≡ none = Ledger-at s.lazy.value s.lazy.closed one inv.ledger in
      let stored = record s.lazy { value = some v; lock = none } in
      record {
        held = released_lock (hand_out stored v) mine (ground arith);
        ledger = rw one refl;
        fits = λ j.
            Fits-update (some v) s.lazy.closed (created v ∷ s.log) (hand_out stored v) j
              (rw one (Fits-hand_out stored v (created v ∷ []) refl))
              (λ other. rw one (
                Fits-created v s.lazy.closed (s.calls j) (alone mine j other)
                  (λ d. let none_creates = inv.settled j i d in ground (arith, h))
                  (rw (← empty, ← one) (inv.fits j))));
        settled = λ j k q. ground (arith, released_lock (hand_out stored v) mine (ground arith) k);
      }
