-- ===== src/Users/Email.antt =====
-- `_EMAIL_PATTERN` of domain/values.py, `^[^@\s]+@[^@\s]+\.[^@\s]+$`, as a matcher.
pub mod Grammar
use fast_api_scaff.Prelude.{
  ℕ, Bool, false, not, ◌&&◌, ◌||◌, List, [], ◌∷◌, ◌==◌, if◌then◌else◌, Text, all, is_empty,
}

module _ (is_space : ℕ → Bool) where
  -- the class `[^@\s]`
  abbrev pub is_plain : ℕ → Bool
  is_plain c = not (c == b'@' || is_space c)

  -- `\.[^@\s]+` somewhere in a text of plain characters
  unfoldable pub has_dot : Text → Bool
  has_dot [] = false
  has_dot (c ∷ t) = (c == b'.' && not (is_empty t)) || has_dot t

  -- `[^@\s]+\.[^@\s]+$`
  unfoldable pub matches_domain : Text → Bool
  unfolding has_dot
  matches_domain [] = false
  matches_domain (c ∷ t) = (is_plain c && all is_plain t) && has_dot t

  -- `[^@\s]*@` and the rest
  unfoldable pub matches_local : Text → Bool
  unfolding matches_domain
  matches_local [] = false
  matches_local (c ∷ t) =
      let rest = matches_local t in if c == b'@' then matches_domain t else is_plain c && rest

  unfoldable pub matches_email : Text → Bool
  unfolding matches_local
  matches_email [] = false
  matches_email (c ∷ t) = is_plain c && matches_local t
