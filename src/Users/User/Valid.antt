-- ===== src/Users/User/Valid.antt =====
-- The invariant of the user aggregate (domain/user.py), and that every operation keeps it.
use fast_api_scaff.Prelude.{ℕ, ◌≡◌, ◌≤◌, false, arith, Text, ok}
use fast_api_scaff.DateTime.{DateTime}
use fast_api_scaff.Users.Unicode.{Unicode}
use fast_api_scaff.Users.Values.{
  PasswordHash, UserStatus, new_username, new_email_address, new_password_hash,
}
use fast_api_scaff.Users.Values.Normal.{new_username_again, new_email_address_again}
use fast_api_scaff.Users.User.{
  User, rehydrate, create, update_profile, advance_version, change_status, reset_password,
}

module _ (unicode : Unicode) where
  -- Every field is a value that its own class would accept again unchanged, the times are local, and
  -- the version is at least 1.
  pub record IsValid (u : User) : Type 0 where
    pub username : new_username unicode u.username.value ≡ ok u.username
    pub email : new_email_address unicode u.email.value ≡ ok u.email
    pub password_hash : new_password_hash u.password_hash.value ≡ ok u.password_hash
    pub created_at : u.created_at.aware ≡ false
    pub updated_at : u.updated_at.aware ≡ false
    pub version : 1 ≤ u.version

  -- A user that `create` returns is valid, if the password hash is one that its class accepts.
  pub create-IsValid :
      (user_id : ℕ) (username email : Text) (h : PasswordHash) (now : DateTime) (u : User)
      → new_password_hash h.value ≡ ok h
      → create unicode user_id username email h now ≡ ok u
      → IsValid u
  unfolding create
  create-IsValid user_id username email h now u hash e = ground (
    arith,
    new_username_again unicode username u.username,
    new_email_address_again unicode email u.email,
  )

  -- `update_profile` keeps a valid user valid.
  pub update_profile-IsValid :
      (u : User) (username email : Text) (now : DateTime) (v : User)
      → IsValid u
      → update_profile unicode u username email now ≡ ok v
      → IsValid v
  unfolding update_profile
  update_profile-IsValid u username email now v h e = ground (
    arith,
    new_username_again unicode username v.username,
    new_email_address_again unicode email v.email,
  )

  -- `change_status` keeps a valid user valid.
  pub change_status-IsValid :
      (u : User) (status : UserStatus) (now : DateTime) (v : User)
      → IsValid u
      → change_status u status now ≡ ok v
      → IsValid v
  unfolding change_status
  change_status-IsValid u status now v h e = ground arith

  -- `reset_password` with a hash that its class accepts keeps a valid user valid.
  pub reset_password-IsValid :
      (u : User) (hash : PasswordHash) (now : DateTime) (v : User)
      → IsValid u
      → new_password_hash hash.value ≡ ok hash
      → reset_password u hash now ≡ ok v
      → IsValid v
  unfolding reset_password
  reset_password-IsValid u hash now v h k e = ground arith

  pub advance_version-IsValid : (u : User) → IsValid u → IsValid (advance_version u)
  unfolding advance_version
  advance_version-IsValid u h = ground arith

  -- A valid aggregate passes its own constructor.
  pub rehydrate-IsValid : (u : User) → IsValid u → rehydrate u ≡ ok u
  unfolding rehydrate
  rehydrate-IsValid u h = ground arith
