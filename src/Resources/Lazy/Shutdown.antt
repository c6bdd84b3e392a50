-- ===== src/Resources/Lazy/Shutdown.antt =====
-- A resource from the moment it is closed.
use fast_api_scaff.Prelude.{
  ℕ, ◌≡◌, ◌≢◌, refl, Bool, true, false, ◌==◌, List, none, ==_iff, Bool-cases, ◌∙◌, Option-cases,
  inl, inr, arith, [], ◌∷◌,
}
use fast_api_scaff.Resources.Tasks.{update}
use fast_api_scaff.Resources.Lazy.{
  Call, received, done, hand_out, call_get, enter_get, leave_factory, begin_close, call_aclose,
  enter_aclose, leave_closer,
}
use fast_api_scaff.Resources.Lazy.System.{
  Event, created, released, System, new_system, Step, gets, enters, creates, fails, blocks, closes,
  enters_close, releases, keeps, cancels, cancels_close, Reach, start, later,
}
use fast_api_scaff.Resources.Lazy.Invariant.{Ledger, Inv, Inv-new}
use fast_api_scaff.Resources.Lazy.Steps.{Fits-call}
use fast_api_scaff.Resources.Lazy.Safety.{Reach-Inv, creations, releases_of}

module _ {T : Type 0} where
  Step-closed : {s t : System T} → Step s t → s.lazy.closed ≡ true → t.lazy.closed ≡ true
  unfolding call_get enter_get leave_factory begin_close call_aclose enter_aclose leave_closer
  Step-closed (gets i h) c = c
  Step-closed {s} (enters i h free) c = ground arith
  Step-closed {s} (creates i v h) c = c
  Step-closed {s} (fails i h) c = c
  Step-closed blocks c = refl
  Step-closed (closes i h) c = refl
  Step-closed {s} (enters_close i h free) c = elim (Option-cases s.lazy.value) [
    | inl n ↦ ground arith
    | inr (v, n) ↦ ground arith
  ]
  Step-closed (releases i v h) c = c
  Step-closed (keeps i v h) c = c
  Step-closed (cancels i h) c = c
  Step-closed (cancels_close i h) c = c

  is_received : Call T → Bool
  is_received (received _) = true
  is_received _ = false

  update-received :
      (calls : ℕ → Call T) (i : ℕ) (c : Call T) (j : ℕ) (v : T)
      → is_received c ≡ false
      → update calls i c j ≡ received v
      → calls j ≡ received v
  unfolding is_received
  update-received calls i c j v h e = ground arith

  Step-received :
      {s t : System T} (i : ℕ) (v : T)
      → Step s t
      → s.lazy.closed ≡ true
      → t.calls i ≡ received v
      → s.calls i ≡ received v
  unfolding is_received hand_out call_get enter_get leave_factory begin_close call_aclose
      enter_aclose leave_closer
  Step-received {s} i v (gets j h) c = update-received s.calls j _ i v (ground arith)
  Step-received {s} i v (enters j h free) c = update-received s.calls j _ i v (ground arith)
  Step-received {s} i v (creates j w h) c = update-received s.calls j _ i v (ground arith)
  Step-received {s} i v (fails j h) c = update-received s.calls j _ i v refl
  Step-received i v blocks c = λ e. e
  Step-received {s} i v (closes j h) c = update-received s.calls j _ i v refl
  Step-received {s} i v (enters_close j h free) c = elim (Option-cases s.lazy.value) [
    | inl n ↦ update-received s.calls j _ i v (ground arith)
    | inr (w, n) ↦ update-received s.calls j _ i v (ground arith)
  ]
  Step-received {s} i v (releases j w h) c = update-received s.calls j _ i v refl
  Step-received {s} i v (keeps j w h) c = update-received s.calls j _ i v refl
  Step-received {s} i v (cancels j h) c = update-received s.calls j _ i v refl
  Step-received {s} i v (cancels_close j h) c = update-received s.calls j _ i v refl

  Reach-closed : {s t : System T} → Reach s t → s.lazy.closed ≡ true → t.lazy.closed ≡ true
  Reach-closed start c = c
  Reach-closed (later r step) c = Step-closed step (Reach-closed r c)

  -- Once the resource is closed, no call of `get` returns a value any more, whatever happens: a call
  -- that has returned one had returned it before.
  pub closed-received :
      (s t : System T)
      → Reach s t
      → s.lazy.closed ≡ true
      → (i : ℕ) (v : T) → t.calls i ≡ received v
      → s.calls i ≡ received v
  closed-received s t start c i v e = e
  closed-received s t (later r step) c i v e =
      closed-received s _ r c i v (Step-received i v step (Reach-closed r c) e)

  -- A call that has ended stays so while another moves.
  update-done :
      (s : System T) (i j : ℕ) (c : Call T)
      → s.calls i ≡ done
      → s.calls j ≢ done
      → update s.calls j c i ≡ done
  update-done s i j c h other = elim (Bool-cases (j == i)) [
    | inl e ↦ absurd (other (rw ((==_iff j i).0 e) h))
    | inr e ↦ rw e h
  ]

  Step-done :
      {s t : System T} (i : ℕ)
      → Inv s
      → s.calls i ≡ done
      → Step s t
      → (t.calls i ≡ done) × (t.log ≡ s.log)
  Step-done {s} i inv h (gets j k) = (update-done s i j _ h (λ d. cc), refl)
  Step-done {s} i inv h (enters j k free) = (update-done s i j _ h (λ d. cc), refl)
  Step-done {s} i inv h (creates j v k) = let quiet = inv.settled i j h in absurd (ground arith)
  Step-done {s} i inv h (fails j k) = (update-done s i j _ h (λ d. cc), refl)
  Step-done {s} i inv h blocks = (h, refl)
  Step-done {s} i inv h (closes j k) = (update-done s i j _ h (λ d. cc), refl)
  Step-done {s} i inv h (enters_close j k free) = (update-done s i j _ h (λ d. cc), refl)
  Step-done {s} i inv h (releases j v k) =
      let gone = Fits-call s i inv i h in let full = Fits-call s i inv j k in absurd (ground arith)
  Step-done {s} i inv h (keeps j v k) = (update-done s i j _ h (λ d. cc), refl)
  Step-done {s} i inv h (cancels j k) = (update-done s i j _ h (λ d. cc), refl)
  Step-done {s} i inv h (cancels_close j k) = (update-done s i j _ h (λ d. cc), refl)

  Reach-done :
      {s t : System T} (i : ℕ)
      → Inv s
      → s.calls i ≡ done
      → Reach s t
      → (t.calls i ≡ done) × (t.log ≡ s.log)
  Reach-done i inv h start = (h, refl)
  Reach-done i inv h (later r step) =
      let before = Reach-done i inv h r in
      let after = Step-done i (Reach-Inv r inv) before.0 step in (after.0, after.1 ∙ before.1)

  releases_of-creations :
      (closed : Bool) (log : List (Event T))
      → Ledger none closed log
      → releases_of log ≡ creations log
  releases_of-creations closed [] h = refl
  releases_of-creations closed (created w ∷ []) h = cc
  releases_of-creations closed (released x ∷ created w ∷ []) h = refl
  releases_of-creations closed (created w ∷ _ ∷ log) h = cc
  releases_of-creations closed (released w ∷ []) h = cc
  releases_of-creations closed (released w ∷ released x ∷ log) h = cc
  releases_of-creations closed (released w ∷ created x ∷ _ ∷ log) h = cc

  -- Once a call of `aclose` has returned, every value that the factory has made has been released,
  -- and neither the factory nor the closer returns again, whatever calls follow.
  pub aclose-final :
      (s t : System T)
      → Reach new_system s
      → (i : ℕ) → s.calls i ≡ done
      → Reach s t
      → (releases_of s.log ≡ creations s.log) × (t.log ≡ s.log) × (t.lazy.value ≡ none)
  aclose-final s t r i h after =
      let inv = Reach-Inv r Inv-new in
      let (ended, same) = Reach-done i inv h after in
      let gone = Fits-call s i inv i h in
      let gone_after = Fits-call t i (Reach-Inv after inv) i ended in
      (releases_of-creations s.lazy.closed s.log (rw (← gone.0) inv.ledger), same, gone_after.0)
