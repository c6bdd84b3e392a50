-- ===== src/Resources/Lazy/Steps.antt =====
-- Every step of a call keeps the invariant.
use fast_api_scaff.Prelude.{
  ℕ, ◌≡◌, ◌≢◌, true, false, none, some, ==_iff, Bool-cases, Option-cases, inl, inr, arith, [],
}
use fast_api_scaff.Resources.Lazy.{
  Call, AsyncLazy, unused, awaiting_value, creating, received, refused, awaiting_close, closing,
  done, call_get, enter_get, leave_factory, begin_close, enter_aclose, leave_closer,
}
use fast_api_scaff.Resources.Lazy.System.{System, moved}
use fast_api_scaff.Resources.Lazy.Invariant.{
  holding, made, Ledger-closed, Fits, Ledger-made, Ledger-fresh, Fits-at, Inv, Fits-closed,
  Inv-moved,
}

module _ {T : Type 0} (s : System T) (i : ℕ) (inv : Inv s) where
  -- A call that has no lock, and gets none, moves to a phase in which it has none.
  pub Inv-refused : holding (s.calls i) ≡ false → Inv (moved s i (refused, s.lazy))
  Inv-refused h =
      Inv-moved s i refused s.lazy.lock inv (λ j. ground (arith, inv.held j, ==_iff i j)) tt
        (λ j k q. ground (arith, inv.settled j k))

  pub Inv-gets : s.calls i ≡ unused → Inv (moved s i (call_get s.lazy, s.lazy))
  unfolding call_get
  Inv-gets h =
      Inv-moved s i (call_get s.lazy) s.lazy.lock inv
        (λ j. ground (arith, inv.held j, inv.held i, ==_iff i j)) (ground arith)
        (λ j k q. ground (arith, inv.settled j k))

  -- The invariant of the state that a step leaves, where the step is computed.
  Inv-step : {p q : Call T × AsyncLazy T} → p ≡ q → Inv (moved s i q) → Inv (moved s i p)
  Inv-step e h = rw e h

  enter_get-closed : s.lazy.closed ≡ true → enter_get i s.lazy ≡ (refused, s.lazy)
  unfolding enter_get
  enter_get-closed e = ground (arith, e)

  enter_get-creating :
      s.lazy.closed ≡ false
      → s.lazy.value ≡ none
      → enter_get i s.lazy ≡ (creating, record s.lazy { lock = some i })
  unfolding enter_get
  enter_get-creating e n = ground (arith, e, n)

  enter_get-received :
      (v : T)
      → s.lazy.closed ≡ false
      → s.lazy.value ≡ some v
      → enter_get i s.lazy ≡ (received v, s.lazy)
  unfolding enter_get
  enter_get-received v e n = ground (arith, e, n)

  pub Fits-call : (j : ℕ) {c : Call T} → s.calls j ≡ c → Fits s.lazy.value s.lazy.closed s.log c
  Fits-call j h = Fits-at s.lazy.value s.lazy.closed s.log h (inv.fits j)

  log-made : (v : T) → s.lazy.value ≡ some v → made s.log ≡ some v
  log-made v n = Ledger-made v s.lazy.closed s.log (rw (← n) inv.ledger)

  log-fresh : s.lazy.closed ≡ false → s.lazy.value ≡ none → s.log ≡ []
  log-fresh e n = Ledger-fresh s.log (rw (← e, ← n) inv.ledger)

  -- Nobody is done with closing while the resource is open.
  not_done : s.lazy.closed ≡ false → (j : ℕ) → s.calls j ≢ done
  not_done e j h = let fit = Fits-call j h in cc

  pub Inv-enters :
      s.calls i ≡ awaiting_value → s.lazy.lock ≡ none → Inv (moved s i (enter_get i s.lazy))
  Inv-enters h free = elim (Bool-cases s.lazy.closed) [
    | inl e ↦ Inv-step (enter_get-closed e) (Inv-refused (ground (arith, h)))
    | inr e ↦ elim (Option-cases s.lazy.value) [
      | inl n ↦ Inv-step (enter_get-creating e n) (
          Inv-moved s i creating (some i) inv
            (λ j. ground (arith, inv.held j, inv.held i, ==_iff i j)) (log-fresh e n)
            (λ j k q. ground (arith, not_done e j)))
      | inr (v, n) ↦ Inv-step (enter_get-received v e n) (
          Inv-moved s i (received v) s.lazy.lock inv
            (λ j. ground (arith, inv.held j, inv.held i, ==_iff i j)) (log-made v n)
            (λ j k q. ground (arith, inv.settled j k)))
    ]
  ]

  -- A call leaves the factory without a value.
  pub Inv-fails : s.calls i ≡ creating → Inv (moved s i (leave_factory none s.lazy))
  unfolding leave_factory
  Inv-fails h =
      Inv-moved s i refused none inv (λ j. ground (arith, inv.held j, inv.held i, ==_iff i j)) tt
        (λ j k q. ground (arith, inv.settled j k))

  pub Inv-keeps : (v : T) → s.calls i ≡ closing v → Inv (moved s i (leave_closer false s.lazy))
  unfolding leave_closer
  Inv-keeps v h =
      Inv-moved s i refused none inv (λ j. ground (arith, inv.held j, inv.held i, ==_iff i j)) tt
        (λ j k q. ground (arith, inv.settled j k))

  pub Inv-blocks : Inv (record s { lazy = begin_close s.lazy })
  unfolding begin_close
  Inv-blocks = record {
    held = inv.held;
    ledger = Ledger-closed s.lazy.value s.lazy.closed s.log inv.ledger;
    fits = λ j. Fits-closed s.lazy.value s.lazy.closed s.log (s.calls j) (inv.fits j);
    settled = inv.settled;
  }

  enter_aclose-done : s.lazy.value ≡ none → enter_aclose i s.lazy ≡ (done, s.lazy)
  unfolding enter_aclose
  enter_aclose-done n = ground (arith, n)

  enter_aclose-closing :
      (v : T)
      → s.lazy.value ≡ some v
      → enter_aclose i s.lazy ≡ (closing v, record s.lazy { lock = some i })
  unfolding enter_aclose
  enter_aclose-closing v n = ground (arith, n)

  pub Inv-enters_close :
      s.calls i ≡ awaiting_close → s.lazy.lock ≡ none → Inv (moved s i (enter_aclose i s.lazy))
  Inv-enters_close h free = elim (Option-cases s.lazy.value) [
    | inl n ↦ Inv-step (enter_aclose-done n) (
        Inv-moved s i done s.lazy.lock inv (λ j. ground (arith, inv.held j, inv.held i, ==_iff i j))
          (n, Fits-call i h) (λ j k q. ground (arith, inv.held k)))
    | inr (v, n) ↦ Inv-step (enter_aclose-closing v n) (
        Inv-moved s i (closing v) (some i) inv
          (λ j. ground (arith, inv.held j, inv.held i, ==_iff i j)) (n, Fits-call i h)
          (λ j k q. ground (arith, inv.held k)))
  ]
