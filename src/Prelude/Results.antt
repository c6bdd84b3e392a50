-- ===== src/Prelude/Results.antt =====
-- Results, and actions: a method that mutates state and may raise. What was written before a raise
-- stays written, so the state comes back beside the error too.
use mathlib.Core.Bool.{Bool}
use mathlib.Core.Path.{◌≡◌, refl}
use mathlib.Core.Logic.{◌⊎◌, inl, inr}
use fast_api_scaff.Prelude.Tests.{if◌then◌else◌}

pub data Result {ℓ} (E A : Type ℓ) : Type ℓ where
  ok : A → Result E A
  err : E → Result E A

module _ {ℓ} {E A B : Type ℓ} where
  abbrev pub and_then : Result E A → (A → Result E B) → Result E B
  and_then (ok a) f = f a
  and_then (err e) f = err e

abbrev pub Action {ℓ} : Type ℓ → Type ℓ → Type ℓ → Type ℓ
Action E S A = S → Result E A × S

module _ {ℓ} {E S A : Type ℓ} where
  unfoldable pub pure : A → Action E S A
  pure a s = (ok a, s)

  unfoldable pub raise : E → Action E S A
  raise e s = (err e, s)

  unfoldable pub lift : Result E A → Action E S A
  lift r s = (r, s)

module _ {E S : Type 0} where
  unfoldable pub modify : (S → S) → Action E S Unit
  modify f s = (ok tt, f s)

  unfoldable pub raise_if : Bool → E → Action E S Unit
  raise_if b e s = (if b then err e else ok tt, s)

module _ {ℓ} {E S A B : Type ℓ} where
  abbrev pub continue : Result E A → (A → Action E S B) → Action E S B
  continue (ok a) f s = f a s
  continue (err e) f s = (err e, s)

infixl 5 ◌>>=◌ ◌>>◌
-- Opening this opens the other ways to build an action too.
unfoldable pub ◌>>=◌ {ℓ} : {E S A B : Type ℓ} → Action E S A → (A → Action E S B) → Action E S B
unfolding pure raise lift modify raise_if
◌>>=◌ m f s = let (r, s') = m s in continue r f s'

abbrev pub ◌>>◌ {ℓ} : {E S A B : Type ℓ} → Action E S A → Action E S B → Action E S B
m >> k = m >>= λ _. k

pub ok_injective {ℓ} : {E A : Type ℓ} {a b : A} → ◌≡◌ {A = Result E A} (ok a) (ok b) → a ≡ b
ok_injective e = cc

module _ {ℓ} {E A B : Type ℓ} where
  -- Inversion of a chain that succeeds.
  pub and_then-eq_ok :
      (r : Result E A) (f : A → Result E B) {b : B}
      → and_then r f ≡ ok b
      → (a : A) × (r ≡ ok a) × (f a ≡ ok b)
  and_then-eq_ok (ok a) f h = (a, refl, h)
  and_then-eq_ok (err e) f h = cc

pub Result-cases {ℓ} :
    {E A : Type ℓ} (r : Result E A) → ((a : A) × (r ≡ ok a)) ⊎ ((e : E) × (r ≡ err e))
Result-cases (ok a) = inl (a, refl)
Result-cases (err e) = inr (e, refl)

pub pure-eq_ok {ℓ} :
    {E S A : Type ℓ} (a b : A) (s t : S) → pure {E = E} a s ≡ (ok b, t) → (a ≡ b) × (s ≡ t)
unfolding pure
pure-eq_ok a b s t e = (cc, cc)

pub lift-eq_ok {ℓ} :
    {E S A : Type ℓ} (r : Result E A) (a : A) (s t : S)
    → lift r s ≡ (ok a, t)
    → (r ≡ ok a) × (s ≡ t)
unfolding lift
lift-eq_ok r a s t e = (cc, cc)

-- Inversion of a step of an action that returns.
pub >>=-eq_ok {ℓ} :
    {E S A B : Type ℓ} (m : Action E S A) (f : A → Action E S B) (s : S) {b : B} {s'' : S}
    → (m >>= f) s ≡ (ok b, s'')
    → (a : A) × (s' : S) × (m s ≡ (ok a, s')) × (f a s' ≡ (ok b, s''))
unfolding ◌>>=◌
>>=-eq_ok {E} {S} {A} {B} m f s {b} {s''} h = let (r, s') = m s in go r s' refl h
  where
    go :
        (r : Result E A) (s' : S)
        → m s ≡ (r, s')
        → continue r f s' ≡ (ok b, s'')
        → (a : A) × (t : S) × (m s ≡ (ok a, t)) × (f a t ≡ (ok b, s''))
    go (ok a) s' e k = (a, s', e, k)
    go (err e') s' e k = cc

module _ {ℓ} {E S A B : Type ℓ} (m : Action E S A) (f : A → Action E S B) (s : S) where
  -- A step that returns, and one that raises.
  pub >>=-ok : {a : A} → (m s).0 ≡ ok a → (m >>= f) s ≡ f a (m s).1
  unfolding ◌>>=◌
  >>=-ok e = rw e refl

  pub >>=-err : {e : E} → (m s).0 ≡ err e → (m >>= f) s ≡ (err e, (m s).1)
  unfolding ◌>>=◌
  >>=-err e = rw e refl
