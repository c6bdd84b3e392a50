-- ===== src/Prelude/Rules.antt =====
-- Invariants of actions, one rule for each way to build an action.
use mathlib.Core.Path.{◌≡◌, refl}
use mathlib.Core.Bool.{Bool, true, false}
use fast_api_scaff.Prelude.Tests.{if◌then◌else◌}
use fast_api_scaff.Prelude.Results.{
  Result, ok, err, Action, pure, raise, lift, modify, raise_if, ◌>>=◌,
}

-- Where the action raises, it has kept `P`.
pub record Fails {ℓ} {E S A : Type ℓ} (P : S → Type ℓ) (action : Action E S A) : Type ℓ where
  pub at : (s : S) → P s → (e : E) → (action s).0 ≡ err e → P (action s).1

-- Whether the action returns or raises, what `P` says of the state before holds after it.
pub record Keeps {ℓ} {E S A : Type ℓ} (P : S → Type ℓ) (action : Action E S A) : Type ℓ where
  pub at : (before : S) → P before → P (action before).1

module _ {ℓ} {E S A : Type ℓ} {P : S → Type ℓ} where
  -- An action that leaves the state alone.
  Keeps-still : (action : Action E S A) → ((s : S) → (action s).1 ≡ s) → Keeps P action
  Keeps-still action still = record { at = λ s p. rw (still s) p }

  pub Keeps-lift : (result : Result E A) → Keeps P (lift result)
  unfolding lift
  Keeps-lift result = Keeps-still (lift result) (λ s. refl)

  pub Keeps-pure : (value : A) → Keeps {E = E} P (pure value)
  unfolding pure
  Keeps-pure value = Keeps-still (pure value) (λ s. refl)

  pub Keeps-raise : (error : E) → Keeps {A = A} P (raise error)
  unfolding raise
  Keeps-raise error = Keeps-still (raise error) (λ s. refl)

  pub Keeps-if :
      (test : Bool) (yes_action no_action : Action E S A)
      → Keeps P yes_action
      → Keeps P no_action
      → Keeps P (if test then yes_action else no_action)
  Keeps-if true _ _ p _ = p
  Keeps-if false _ _ _ q = q

  pub Fails-Keeps : (m : Action E S A) → Keeps P m → Fails P m
  Fails-Keeps m k = record { at = λ s h e f. k.at s h }

module _ {E S : Type 0} {P : S → Type 0} where
  pub Keeps-raise_if : (b : Bool) (e : E) → Keeps P (raise_if b e)
  unfolding raise_if
  Keeps-raise_if b e = record { at = λ s h. h }

  pub Keeps-modify : (f : S → S) → ((s : S) → P s → P (f s)) → Keeps {E = E} P (modify f)
  unfolding modify
  Keeps-modify f k = record { at = k }

module _ {ℓ} {E S A B : Type ℓ} {P : S → Type ℓ} where
  pub Keeps-bind :
      (first : Action E S A) (next : A → Action E S B)
      → Keeps P first
      → ((value : A) → Keeps P (next value))
      → Keeps P (first >>= next)
  unfolding ◌>>=◌
  Keeps-bind first next p q = record {
    at = λ before h. let (r, after) = first before in go r after (p.at before h);
  }
    where
      go : (r : Result E A) (after : S) → P after → P ((lift r >>= next) after).1
      go (ok value) after h = (q value).at after h
      go (err error) after h = h

  pub Fails-bind :
      (m : Action E S A) (f : A → Action E S B)
      → Keeps P m
      → ((a : A) → Fails P (f a))
      → Fails P (m >>= f)
  unfolding ◌>>=◌
  Fails-bind m f km kf = record { at = λ s h e. let (r, s') = m s in go r s' (km.at s h) e }
    where
      go :
          (r : Result E A) (s : S)
          → P s
          → (e : E) → ((lift r >>= f) s).0 ≡ err e
          → P ((lift r >>= f) s).1
      go (ok a) s h e q = (kf a).at s h e q
      go (err d) s h e q = h

  -- What is done with the result of the last action cannot raise.
  pub Fails-bind-pure : (m : Action E S A) (g : A → B) → Fails P m → Fails P (m >>= λ a. pure (g a))
  unfolding ◌>>=◌
  Fails-bind-pure m g fm = record { at = λ s h e. let (r, s') = m s in go r s' (fm.at s h) e }
    where
      go :
          (r : Result E A) (s : S)
          → ((d : E) → r ≡ err d → P s)
          → (e : E) → ((lift r >>= λ a. pure (g a)) s).0 ≡ err e
          → P ((lift r >>= λ a. pure (g a)) s).1
      go (ok a) s h e q = cc
      go (err d) s h e q = h d refl

pub ruleset keeps_rules =
    (Keeps-pure, Keeps-raise, Keeps-lift, Keeps-if, Keeps-raise_if, Keeps-bind)

pub ruleset fails_rules = (keeps_rules, Fails-bind-pure, Fails-bind, Fails-Keeps)
