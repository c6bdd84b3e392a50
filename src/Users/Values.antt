-- ===== src/Users/Values.antt =====
-- domain/values.py: the value objects of the user context. A frozen dataclass whose
-- `__post_init__` may raise is a record with a function that makes it.
pub mod Normal
use fast_api_scaff.Prelude.{
  ℕ, Bool, not, ◌&&◌, ◌||◌, List, [], ◌∷◌, leb, ltb, if◌then◌else◌, Text, length, all, Result, ok,
  err,
}
use fast_api_scaff.Users.Errors.{
  Error, invalid_user_data, bad_username, bad_email, bad_password, bad_password_hash,
}
use fast_api_scaff.Users.Unicode.{Unicode, is_word, strip}
use fast_api_scaff.Users.Email.{matches_email}

pub record Username : Type 0 where
  pub value : Text

pub record EmailAddress : Type 0 where
  pub value : Text

pub record Password : Type 0 where
  pub value : Text

pub record PasswordHash : Type 0 where
  pub value : Text

pub data UserStatus : Type 0 where
  active disabled : UserStatus

-- `_USERNAME_PATTERN.fullmatch`
unfoldable pub matches_username : Text → Bool
matches_username t = all is_word t && (leb 3 (length t) && leb (length t) 32)

abbrev pub password_min_length : ℕ
password_min_length = 8

abbrev pub password_max_length : ℕ
password_max_length = 128

abbrev pub password_hash_max_length : ℕ
password_hash_max_length = 255

unfoldable pub new_password : Text → Result Error Password
new_password value =
    if leb password_min_length (length value) && leb (length value) password_max_length
    then ok (record { value = value })
    else err (invalid_user_data bad_password)

unfoldable pub new_password_hash : Text → Result Error PasswordHash
new_password_hash value =
    if leb 1 (length value) && leb (length value) password_hash_max_length
    then ok (record { value = value })
    else err (invalid_user_data bad_password_hash)

module _ (unicode : Unicode) where
  open unicode use {is_space, lower}

  -- `value.strip().lower()`
  unfoldable pub normalize : Text → Text
  normalize value = lower (strip is_space value)

  unfoldable pub new_username : Text → Result Error Username
  new_username value =
      let normalized = normalize value in
      if not (matches_username normalized)
      then err (invalid_user_data bad_username)
      else ok (record { value = normalized })

  unfoldable pub new_email_address : Text → Result Error EmailAddress
  new_email_address value =
      let normalized = normalize value in
      if ltb 254 (length normalized) || not (matches_email is_space normalized)
      then err (invalid_user_data bad_email)
      else ok (record { value = normalized })
