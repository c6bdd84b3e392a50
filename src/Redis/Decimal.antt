-- ===== src/Redis/Decimal.antt =====
-- Decimal texts: `str` and `int` on integers, and the comparison of two such texts by their lengths
-- and then by their characters.
use fast_api_scaff.Prelude.{
  text_below, ℕ, suc, zero, ◌+◌, ◌-◌, ◌*◌, ◌/◌, ◌%◌, ◌≤◌, ◌<◌, ◌≡◌, refl, Bool, true, false, ◌&&◌,
  ◌||◌, ltb, leb, ◌==◌, if◌then◌else◌, [], ◌∷◌, ◌++◌, Text, length, all, arith, and-eq_true, sym,
  Bool-cases, inl, inr, all-append,
}

abbrev pub is_digit : ℕ → Bool
is_digit c = leb b'0' c && leb c b'9'

-- The number that digits denote, after those that denote `most`.
unfoldable pub number_after : ℕ → Text → ℕ
number_after most [] = most
number_after most (c ∷ digits) = number_after (most * 10 + (c - b'0')) digits

-- `int` of decimal digits
abbrev pub number : Text → ℕ
number digits = number_after 0 digits

-- `str` of an integer. Each turn takes one digit off, so `n` turns are enough.
unfoldable pub digits_of : ℕ → ℕ → Text
digits_of zero n = []
digits_of (suc turns) n =
    let most = digits_of turns (n / 10) in
    if ltb n 10 then (b'0' + n) ∷ [] else most ++ ((b'0' + n % 10) ∷ [])

abbrev pub decimal : ℕ → Text
decimal n = digits_of (suc n) n

-- The pattern '^[1-9][0-9]*$'.
abbrev pub is_canonical : Text → Bool
is_canonical [] = false
is_canonical (c ∷ digits) = (leb b'1' c && leb c b'9') && all is_digit digits

-- `#s < #t or (#s == #t and s < t)`
abbrev pub decimal_below : Text → Text → Bool
decimal_below s t = ltb (length s) (length t) || (length s == length t && text_below s t)

number_after-append :
    (s t : Text) (most : ℕ) → number_after most (s ++ t) ≡ number_after (number_after most s) t
unfolding number_after
number_after-append [] t most = refl
number_after-append (c ∷ s) t most = number_after-append s t _

-- Of two texts of one length, the one after the smaller number denotes the smaller number.
number_after-lt :
    (s t : Text) (m n : ℕ)
    → m < n
    → length s ≡ length t
    → all is_digit s ≡ true
    → number_after m s < number_after n t
unfolding number_after
number_after-lt [] [] m n h e d = h
number_after-lt [] (b ∷ t) m n h e d = absurd (omega (arith, e))
number_after-lt (a ∷ s) [] m n h e d = absurd (omega (arith, e))
number_after-lt (a ∷ s) (b ∷ t) m n h e d =
    let (digit, rest) = and-eq_true (is_digit a) (all is_digit s) d in
    let below : a - b'0' < 10 = ground arith in
    number_after-lt s t _ _ (omega arith) (omega arith) rest

text_below-number :
    (s t : Text) (m : ℕ)
    → length s ≡ length t
    → all is_digit s ≡ true
    → all is_digit t ≡ true
    → text_below s t ≡ ltb (number_after m s) (number_after m t)
unfolding number_after text_below
text_below-number [] [] m e d f = ground arith
text_below-number [] (b ∷ t) m e d f = absurd (omega (arith, e))
text_below-number (a ∷ s) [] m e d f = absurd (omega (arith, e))
text_below-number (a ∷ s) (b ∷ t) m e d f =
    let (digit, rest) = and-eq_true (is_digit a) (all is_digit s) d in
    let (digit_b, rest_b) = and-eq_true (is_digit b) (all is_digit t) f in
    let same : length s ≡ length t = omega (arith, e) in
    elim (Bool-cases (ltb a b)) [
      | inl less ↦ ground (
        arith,
        number_after-lt s t (m * 10 + (a - b'0')) (m * 10 + (b - b'0')) (ground arith) same rest,
      )
      | inr not_less ↦ elim (Bool-cases (a == b)) [
        | inl equal ↦ ground (arith, text_below-number s t (m * 10 + (a - b'0')) same rest rest_b)
        | inr other ↦ ground (
          arith,
          number_after-lt t s (m * 10 + (b - b'0')) (m * 10 + (a - b'0')) (ground arith) (sym same)
              rest_b,
        )
      ]
    ]

-- A shorter text denotes less, where the longer one begins with a digit that counts.
number_after-shorter :
    (s t : Text) (n : ℕ)
    → 1 ≤ n
    → length s < length t
    → all is_digit s ≡ true
    → number_after 0 s < number_after n t
unfolding number_after
number_after-shorter s [] n h e d = absurd (omega (arith, e))
number_after-shorter s (b ∷ t) n h e d = elim (Bool-cases (length s == length t)) [
  | inl same ↦ number_after-lt s t 0 (n * 10 + (b - b'0')) (omega arith) (ground arith) d
  | inr other ↦ number_after-shorter s t (n * 10 + (b - b'0')) (omega arith) (ground arith) d
]

canonical-shorter :
    (s t : Text)
    → is_canonical s ≡ true
    → is_canonical t ≡ true
    → length s < length t
    → number s < number t
unfolding number_after
canonical-shorter [] t c d h = cc
canonical-shorter (a ∷ s) [] c d h = cc
canonical-shorter (a ∷ s) (b ∷ t) c d h =
    let digits : all is_digit (a ∷ s) ≡ true = ground arith in
    elim (Bool-cases (length (a ∷ s) == length t)) [
      | inl same ↦ number_after-lt (a ∷ s) t 0 (0 + (b - b'0')) (ground arith) (ground arith) digits
      | inr other ↦
          number_after-shorter (a ∷ s) t (0 + (b - b'0')) (ground arith) (ground arith) digits
    ]

pub canonical-digits : (s : Text) → is_canonical s ≡ true → all is_digit s ≡ true
canonical-digits [] h = cc
canonical-digits (c ∷ s) h = ground arith

canonical-append :
    (s t : Text) → is_canonical s ≡ true → all is_digit t ≡ true → is_canonical (s ++ t) ≡ true
canonical-append [] t h d = cc
canonical-append (c ∷ s) t h d = ground (arith, all-append is_digit s t)

-- On canonical texts the comparison by length and then by characters is the one of the numbers.
pub decimal_below-number :
    (s t : Text)
    → is_canonical s ≡ true
    → is_canonical t ≡ true
    → decimal_below s t ≡ ltb (number s) (number t)
decimal_below-number s t c d = elim (Bool-cases (ltb (length s) (length t))) [
  | inl shorter ↦ ground (arith, canonical-shorter s t c d (ground arith))
  | inr not_shorter ↦ elim (Bool-cases (length s == length t)) [
    | inl same ↦ ground (
      arith,
      text_below-number s t 0 (ground arith) (canonical-digits s c) (canonical-digits t d),
    )
    | inr other ↦ ground (arith, canonical-shorter t s d c (ground arith))
  ]
]

number-digits_of : (turns n : ℕ) → n < turns → number_after 0 (digits_of turns n) ≡ n
unfolding number_after digits_of
number-digits_of zero n h = absurd (omega (arith, h))
number-digits_of (suc turns) n h = elim (Bool-cases (ltb n 10)) [
  | inl one ↦ ground arith
  | inr more ↦
      let most = digits_of turns (n / 10) in
      let ends = number_after-append most ((b'0' + n % 10) ∷ []) 0 in
      let before = number-digits_of turns (n / 10) (ground arith) in ground arith
]

digits_of-canonical : (turns n : ℕ) → 1 ≤ n → n < turns → is_canonical (digits_of turns n) ≡ true
unfolding digits_of
digits_of-canonical zero n g h = absurd (omega (arith, h))
digits_of-canonical (suc turns) n g h = elim (Bool-cases (ltb n 10)) [
  | inl one ↦ ground arith
  | inr more ↦
      let most = digits_of turns (n / 10) in
      let before = digits_of-canonical turns (n / 10) (ground arith) (ground arith) in
      let last : is_digit (b'0' + n % 10) ≡ true = ground arith in
      ground (arith, canonical-append most ((b'0' + n % 10) ∷ []) before (ground arith))
]

pub number-decimal : (n : ℕ) → number (decimal n) ≡ n
number-decimal n = number-digits_of (suc n) n (omega arith)

pub decimal-canonical : (n : ℕ) → 1 ≤ n → is_canonical (decimal n) ≡ true
decimal-canonical n h = digits_of-canonical (suc n) n h (omega arith)

-- On the texts of positive integers the comparison is the one of the integers.
pub decimal_below-decimal :
    (m n : ℕ) → 1 ≤ m → 1 ≤ n → decimal_below (decimal m) (decimal n) ≡ ltb m n
decimal_below-decimal m n g h =
    rw
      (decimal_below-number (decimal m) (decimal n) (decimal-canonical m g) (decimal-canonical n h))
      (ground (arith, number-decimal m, number-decimal n))
