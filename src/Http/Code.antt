-- ===== src/Http/Code.antt =====
-- shared/response/codes: definitions of response codes, and the full code of ten digits.
use fast_api_scaff.Prelude.{
  ℕ, ◌+◌, ◌/◌, ◌%◌, ◌≡◌, refl, Bool, not, ◌||◌, ◌&&◌, [], ◌∷◌, ◌++◌, length, length-append, all,
  leb, ◌==◌, if◌then◌else◌, Text, Result, ok, err, arith,
}

-- `ValueError`, where a check of an argument fails.
pub data ArgumentError : Type 0 where
  value_error type_error : ArgumentError

pub record CodeDefinition : Type 0 where
  pub code : Text
  pub message : Text
  pub status_code : ℕ

-- `__post_init__`, with `str.isdigit` of a character as an argument.
unfoldable pub new_definition : (ℕ → Bool) → CodeDefinition → Result ArgumentError CodeDefinition
new_definition is_digit c =
    if not (length c.code == 4) || not (all is_digit c.code)
    then err value_error
    else if not (leb 100 c.status_code && leb c.status_code 599)
    then err value_error
    else ok c

-- `ResponseCodeBuilder.__init__`, on the service code.
unfoldable pub new_builder : (ℕ → Bool) → Text → Result ArgumentError Text
new_builder is_digit service_code =
    if not (length service_code == 3) || not (all is_digit service_code)
    then err value_error
    else ok service_code

-- The format `03d` of a number below 1000.
unfoldable pub three_digits : ℕ → Text
three_digits n = (b'0' + n / 100) ∷ (b'0' + n / 10 % 10) ∷ (b'0' + n % 10) ∷ []

-- `ResponseCodeBuilder.build`
unfoldable pub build : Text → CodeDefinition → Text
unfolding three_digits
build service_code c = three_digits c.status_code ++ (service_code ++ c.code)

append_cancel : (s t u v : Text) → length s ≡ length t → s ++ u ≡ t ++ v → (s ≡ t) × (u ≡ v)
append_cancel [] [] u v h e = (refl, e)
append_cancel [] (b ∷ t) u v h e = absurd (omega (arith, h))
append_cancel (a ∷ s) [] u v h e = absurd (omega (arith, h))
append_cancel (a ∷ s) (b ∷ t) u v h e =
    let (first, rest) = append_cancel s t u v (omega (arith, h)) (ground (arith, e)) in
    let head : a ≡ b = ground (arith, e) in (rw (head, first) refl, rest)

-- The full codes of two definitions that their class accepts are ten digits long, and differ where the
-- status or the local code differs.
pub build-eq :
    (is_digit : ℕ → Bool) (service_code : Text) (c d : CodeDefinition)
    → new_builder is_digit service_code ≡ ok service_code
    → new_definition is_digit c ≡ ok c
    → new_definition is_digit d ≡ ok d
    → (length (build service_code c) ≡ 10)
      × (build service_code c ≡ build service_code d
          → (c.status_code ≡ d.status_code) × (c.code ≡ d.code))
unfolding build new_builder new_definition
build-eq is_digit service_code c d b h k = (
  ground (arith, length-append service_code c.code),
  λ e.
      let (status, rest) =
        append_cancel (three_digits c.status_code) (three_digits d.status_code) _ _ refl e in
      let (_, local) = append_cancel service_code service_code c.code d.code refl rest in
      (ground (arith, status), local),
)
