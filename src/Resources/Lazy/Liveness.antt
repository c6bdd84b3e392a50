-- ===== src/Resources/Lazy/Liveness.antt =====
-- The lock of a resource is always given back.
use fast_api_scaff.Prelude.{
  ℕ, ◌≡◌, refl, Bool, true, false, ◌==◌, none, ==_iff, ==_refl, Bool-cases, ◌∙◌, Option-cases, inl,
  inr, arith,
}
use fast_api_scaff.Resources.Tasks.{update}
use fast_api_scaff.Resources.Lazy.{
  Call, unused, awaiting_value, creating, received, refused, awaiting_close, closing, done,
  leave_factory, leave_closer,
}
use fast_api_scaff.Resources.Lazy.System.{
  System, new_system, moved, fails, keeps, Reach, start, later,
}
use fast_api_scaff.Resources.Lazy.Invariant.{holding, Inv-new}
use fast_api_scaff.Resources.Lazy.Safety.{Reach-Inv}

module _ {T : Type 0} where
  -- A call that waits for the lock.
  abbrev pub waits : Call T → Bool
  waits awaiting_value = true
  waits awaiting_close = true
  waits _ = false

  update-waits :
      (s : System T) (i j : ℕ) (c : Call T)
      → waits (s.calls i) ≡ true
      → waits (s.calls j) ≡ false
      → update s.calls j c i ≡ s.calls i
  update-waits s i j c h other = elim (Bool-cases (j == i)) [
    | inl e ↦ let same = (==_iff j i).0 e in absurd (ground arith)
    | inr e ↦ rw e refl
  ]

  -- The lock is never lost: from every state in which a call waits for it, a state can be reached
  -- in which the lock is free and the call still waits.
  pub lock-freed :
      (s : System T)
      → Reach new_system s
      → (i : ℕ) → waits (s.calls i) ≡ true
      → (t : System T) × Reach s t × (t.calls i ≡ s.calls i) × (t.lazy.lock ≡ none)
  unfolding leave_factory leave_closer
  lock-freed s r i h =
      let inv = Reach-Inv r Inv-new in
      elim (Option-cases s.lazy.lock) [
        | inl free ↦ (s, start, refl, free)
        | inr (j, taken) ↦ holder j (s.calls j) refl (inv.held j ∙ (rw taken (==_refl j)))
      ]
    where
      holder :
          (j : ℕ) (c : Call T)
          → s.calls j ≡ c
          → holding c ≡ true
          → (t : System T) × Reach s t × (t.calls i ≡ s.calls i) × (t.lazy.lock ≡ none)
      holder j creating e k = (
        moved s j (leave_factory none s.lazy),
        later start (fails j e),
        update-waits s i j _ h (rw e refl),
        refl,
      )
      holder j (closing v) e k = (
        moved s j (leave_closer false s.lazy),
        later start (keeps j v e),
        update-waits s i j _ h (rw e refl),
        refl,
      )
      holder j unused e k = cc
      holder j awaiting_value e k = cc
      holder j (received v) e k = cc
      holder j refused e k = cc
      holder j awaiting_close e k = cc
      holder j done e k = cc
