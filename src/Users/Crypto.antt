-- ===== src/Users/Crypto.antt =====
-- application/password_hasher.py and infrastructure/security/password_hasher.py over pwdlib, and
-- infrastructure/security/session_token.py over hashlib. The libraries are a parameter: pwdlib's
-- salted hash and its verification, where `none` is `UnknownHashError`, and SHA-256 in hexadecimal.
use fast_api_scaff.Prelude.{
  ℕ, ◌≡◌, Bool, true, false, ◌&&◌, Option, none, some, Text, codes, all, length, Result, ok, err,
}
use fast_api_scaff.Users.Errors.{Error, unknown_hash}
use fast_api_scaff.Users.Values.{Password, PasswordHash, new_password_hash}
use fast_api_scaff.Users.Session.{is_hex}

-- The laws are documented: a password is verified by its own hash, and a digest has 64 lower-case
-- hexadecimal digits.
pub record Crypto : Type 0 where
  pub hash_text : ℕ → Text → Text
  pub verify : Text → Text → Option Bool
  pub sha256 : Text → Text
  pub verify-hash_text :
      (salt : ℕ) (password : Text) → verify password (hash_text salt password) ≡ some true
  pub sha256_hex : (t : Text) → all is_hex (sha256 t) ≡ true
  pub length-sha256 : (t : Text) → length (sha256 t) ≡ 64

-- `_DUMMY_PASSWORD_HASH`
abbrev pub dummy_password_hash : Text
dummy_password_hash =
    codes
      "$argon2id$v=19$m=65536,t=3,p=4$02Keoy+DGPuHr5mUy59tsw$KlRhQ6wTlD0CHUm1FhjrgNWjseJuIFqTWejQfGj0C54"

module _ (crypto : Crypto) where
  unfoldable pub hash : ℕ → Password → Result Error PasswordHash
  hash salt password = new_password_hash (crypto.hash_text salt password.value)

  abbrev active_hash : Option PasswordHash → Text
  active_hash none = dummy_password_hash
  active_hash (some h) = h.value

  abbrev is_present : Option PasswordHash → Bool
  is_present none = false
  is_present (some h) = true

  unfoldable pub verify_or_dummy : Text → Option PasswordHash → Result Error Bool
  verify_or_dummy password password_hash =
      elim (crypto.verify password (active_hash password_hash)) [
        | none ↦ err unknown_hash
        | some verified ↦ ok (is_present password_hash && verified)
      ]
