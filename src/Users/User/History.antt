-- ===== src/Users/User/History.antt =====
-- The life of a user aggregate: its creation, and any sequence of changes.
use fast_api_scaff.Prelude.{
  ℕ, ◌≡◌, List, [], ◌∷◌, All, Text, Result, ok, and_then, and_then-eq_ok, ok_injective,
}
use fast_api_scaff.DateTime.{DateTime}
use fast_api_scaff.Users.Errors.{Error}
use fast_api_scaff.Users.Unicode.{Unicode}
use fast_api_scaff.Users.Values.{PasswordHash, UserStatus, new_password_hash}
use fast_api_scaff.Users.User.{
  User, rehydrate, create, update_profile, advance_version, change_status, reset_password,
}
use fast_api_scaff.Users.User.Valid.{
  IsValid, create-IsValid, update_profile-IsValid, change_status-IsValid, reset_password-IsValid,
  advance_version-IsValid, rehydrate-IsValid,
}

-- A change of the aggregate, with the arguments of its method.
pub data Change : Type 0 where
  profile : Text → Text → DateTime → Change
  status : UserStatus → DateTime → Change
  password : PasswordHash → DateTime → Change
  version : Change

-- A password hash in a change is one that its class accepts.
abbrev pub Accepted : Change → Type 0
Accepted (password hash now) = new_password_hash hash.value ≡ ok hash
Accepted _ = Unit

module _ (unicode : Unicode) where
  unfoldable pub change : Change → User → Result Error User
  change (profile username email now) u = update_profile unicode u username email now
  change (status s now) u = change_status u s now
  change (password hash now) u = reset_password u hash now
  change version u = ok (advance_version u)

  unfoldable pub change_all : List Change → User → Result Error User
  change_all [] u = ok u
  change_all (c ∷ changes) u = and_then (change c u) (change_all changes)

  change-IsValid :
      (c : Change) (u v : User)
      → Accepted c
      → IsValid unicode u
      → change c u ≡ ok v
      → IsValid unicode v
  unfolding change
  change-IsValid (profile username email now) u v a h e =
      update_profile-IsValid unicode u username email now v h e
  change-IsValid (status s now) u v a h e = change_status-IsValid unicode u s now v h e
  change-IsValid (password hash now) u v a h e = reset_password-IsValid unicode u hash now v h a e
  change-IsValid version u v a h e = rw (← ok_injective e) (advance_version-IsValid unicode u h)

  change_all-IsValid :
      (changes : List Change) (u v : User)
      → All Accepted changes
      → IsValid unicode u
      → change_all changes u ≡ ok v
      → IsValid unicode v
  unfolding change_all
  change_all-IsValid [] u v accepted h e = rw (← ok_injective e) h
  change_all-IsValid (c ∷ changes) u v (a, accepted) h e =
      let (w, first, rest) = and_then-eq_ok (change c u) (change_all changes) e in
      change_all-IsValid changes w v accepted (change-IsValid c u w a h first) rest

  -- However a user is created and then changed, as long as every password hash is one that its class
  -- accepts: the user that results satisfies every rule of the values and of the aggregate, and its
  -- own constructor accepts it again.
  pub create-change_all :
      (user_id : ℕ) (username email : Text) (hash : PasswordHash) (now : DateTime)
      (changes : List Change) (u v : User)
      → new_password_hash hash.value ≡ ok hash
      → All Accepted changes
      → create unicode user_id username email hash now ≡ ok u
      → change_all changes u ≡ ok v
      → IsValid unicode v × (rehydrate v ≡ ok v)
  create-change_all user_id username email hash now changes u v accepted all_accepted e f =
      let first = create-IsValid unicode user_id username email hash now u accepted e in
      let last = change_all-IsValid changes u v all_accepted first f in
      (last, rehydrate-IsValid unicode v last)
