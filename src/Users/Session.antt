-- ===== src/Users/Session.antt =====
-- domain/session.py: a session on the server, and its time range.
use fast_api_scaff.Prelude.{
  ℕ, Bool, not, ◌&&◌, ◌||◌, leb, ltb, ◌==◌, if◌then◌else◌, Text, length, all, Result, ok, err,
}
use fast_api_scaff.DateTime.{DateTime}
use fast_api_scaff.Users.Errors.{Error, value_error}

-- `[0-9a-f]`
abbrev pub is_hex : ℕ → Bool
is_hex c = (leb b'0' c && leb c b'9') || (leb b'a' c && leb c b'f')

pub record UserSession : Type 0 where
  pub token_digest : Text
  pub user_id : ℕ
  pub issued_at : DateTime
  pub expires_at : DateTime

-- `__post_init__`. Only values without an offset reach the comparison.
unfoldable pub new_session : UserSession → Result Error UserSession
new_session s =
    if not (all is_hex s.token_digest && length s.token_digest == 64)
    then err value_error
    else if s.issued_at.aware || s.expires_at.aware
    then err value_error
    else if leb s.expires_at.ticks s.issued_at.ticks
    then err value_error
    else ok s

unfoldable pub is_valid : UserSession → DateTime → Result Error Bool
is_valid s now =
    if now.aware
    then err value_error
    else ok (leb s.issued_at.ticks now.ticks && ltb now.ticks s.expires_at.ticks)
