-- ===== src/Users/Tables/Mapper.antt =====
-- A valid aggregate comes back from its row (mapper.py).
use fast_api_scaff.Prelude.{◌≡◌, refl, arith, ok, text_eq}
use fast_api_scaff.Users.Unicode.{Unicode}
use fast_api_scaff.Users.Values.{UserStatus, active, disabled}
use fast_api_scaff.Users.User.{User, advance_version}
use fast_api_scaff.Users.User.Valid.{IsValid, rehydrate-IsValid}
use fast_api_scaff.Users.Tables.{
  status_value, status_of, user_to_model, user_to_domain, user_update_values,
}

status_of-status_value : (s : UserStatus) → status_of (status_value s) ≡ ok s
unfolding status_of text_eq
status_of-status_value active = refl
status_of-status_value disabled = refl

module _ (unicode : Unicode) where
  -- The mapping to a row and back is the identity on valid aggregates: no check of the domain fails,
  -- and nothing is normalized to something else.
  pub user_to_domain-user_to_model :
      (u : User) → IsValid unicode u → user_to_domain unicode (user_to_model u) ≡ ok u
  unfolding user_to_domain user_to_model
  user_to_domain-user_to_model u h =
      rw (h.username, h.email, h.password_hash, status_of-status_value u.status)
        (rehydrate-IsValid unicode u h)

  -- An update of the aggregate's own row stores the aggregate at its next version.
  pub user_update_values-user_to_model :
      (u v : User)
      → v.id ≡ u.id
      → v.created_at ≡ u.created_at
      → user_update_values v (user_to_model u) ≡ user_to_model (advance_version v)
  unfolding user_update_values user_to_model advance_version
  user_update_values-user_to_model u v p q = ground arith
