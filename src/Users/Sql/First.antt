-- ===== src/Users/Sql/First.antt =====
-- The first row that a test accepts.
use fast_api_scaff.Prelude.{
  ◌≡◌, refl, Bool, true, some, List, [], ◌∷◌, any, arith, Bool-cases, inl, inr,
}
use fast_api_scaff.Users.Sql.{first}

pub first-accepted :
    {A : Type 0} (p : A → Bool) (xs : List A) (x : A) → first p xs ≡ some x → p x ≡ true
first-accepted p [] x h = cc
first-accepted p (y ∷ xs) x h = ground (arith, first-accepted p xs x)

pub any-first :
    {A : Type 0} (p : A → Bool) (xs : List A) → any p xs ≡ true → (x : A) × (first p xs ≡ some x)
any-first p [] h = cc
any-first p (x ∷ xs) h = elim (Bool-cases (p x)) [
  | inl here ↦ (x, rw here refl)
  | inr later ↦ let (y, e) = any-first p xs (ground arith) in (y, rw later e)
]
