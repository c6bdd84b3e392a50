-- ===== src/Users/Unicode.antt =====
-- What domain/values.py takes from Python's Unicode tables: `str.isspace`, by which `strip` and `\s`
-- go, and `str.lower`. The tables are data of the interpreter, so they are a parameter. The laws are
-- documented: lower-casing twice is lower-casing once, no letter, digit or underscore is white
-- space, and neither is the at sign or the full stop.
use fast_api_scaff.Prelude.{
  ℕ, ◌≡◌, Bool, true, false, ◌&&◌, ◌||◌, [], ◌∷◌, reverse, leb, ◌==◌, if◌then◌else◌, Text,
}

-- The class `[a-z0-9_]` of `_USERNAME_PATTERN`.
abbrev pub is_word : ℕ → Bool
is_word c = (leb b'a' c && leb c b'z') || ((leb b'0' c && leb c b'9') || c == b'_')

pub record Unicode : Type 0 where
  pub is_space : ℕ → Bool
  pub lower : Text → Text
  pub lower-lower : (t : Text) → lower (lower t) ≡ lower t
  pub word-not_space : (c : ℕ) → is_word c ≡ true → is_space c ≡ false
  pub at-not_space : is_space b'@' ≡ false
  pub dot-not_space : is_space b'.' ≡ false

module _ (is_space : ℕ → Bool) where
  unfoldable pub lstrip : Text → Text
  lstrip [] = []
  lstrip (c ∷ t) = let rest = lstrip t in if is_space c then rest else c ∷ t

  -- `str.strip`
  unfoldable pub strip : Text → Text
  unfolding lstrip
  strip t = reverse (lstrip (reverse (lstrip t)))
