-- ===== src/Examples/Values.antt =====
-- Values and aggregates of the user context.
use fast_api_scaff.Prelude.{◌≡◌, ◌↔◌, refl, true, codes, ok, arith, List, [], ◌∷◌}
use fast_api_scaff.Users.Values.{active, disabled, PasswordHash, new_password_hash}
use fast_api_scaff.Users.User.{User, rehydrate, create}
use fast_api_scaff.Users.User.History.{
  Change, profile, status, password, version, change_all, create-change_all,
}
use fast_api_scaff.Users.User.Valid.{IsValid}
use fast_api_scaff.Users.Email.Grammar.{matches_email-iff-IsEmail, IsEmail}
use fast_api_scaff.Users.Email.{matches_email}
use fast_api_scaff.Users.Tables.{user_to_model, user_to_domain}
use fast_api_scaff.Users.Tables.Mapper.{user_to_domain-user_to_model}
use fast_api_scaff.Users.Conflict.{resolve_user_conflict_field, unique_constraint}
use fast_api_scaff.Users.Conflict.Drivers.{mysql_error, resolve-mysql_error, without_table}
use fast_api_scaff.Examples.{evaluation, ascii, at}

abbrev hashed : PasswordHash
hashed = record { value = codes "$2b$12$hash" }

abbrev other_hash : PasswordHash
other_hash = record { value = codes "$2b$12$other" }

abbrev carol : User
carol = record {
  id = 9;
  username = record { value = codes "carol" };
  email = record { value = codes "carol@example.org" };
  password_hash = hashed;
  status = active;
  created_at = at 100;
  updated_at = at 100;
  version = 1;
}

hashed_run : new_password_hash hashed.value ≡ ok hashed
unfolding evaluation
hashed_run = refl

other_hash_run : new_password_hash other_hash.value ≡ ok other_hash
unfolding evaluation
other_hash_run = refl

create_run : create ascii 9 (codes " Carol") (codes "Carol@Example.org ") hashed (at 100) ≡ ok carol
unfolding evaluation
create_run = refl

carol-IsValid : IsValid ascii carol
unfolding evaluation
carol-IsValid = record {
  username = refl;
  email = refl;
  password_hash = refl;
  created_at = refl;
  updated_at = refl;
  version = omega arith;
}

abbrev changes : List Change
changes =
    profile (codes "CARO") (codes "carol@example.org") (at 200)
    ∷ version
    ∷ status disabled (at 300)
    ∷ password other_hash (at 400)
    ∷ version
    ∷ []

abbrev changed : User
changed = record carol {
  username = record { value = codes "caro" };
  password_hash = other_hash;
  status = disabled;
  updated_at = at 400;
  version = 3;
}

changes_run : change_all ascii changes carol ≡ ok changed
unfolding evaluation
changes_run = refl

create-change_all_example : IsValid ascii changed × (rehydrate changed ≡ ok changed)
create-change_all_example =
    create-change_all ascii 9 (codes " Carol") (codes "Carol@Example.org ") hashed (at 100) changes
      carol changed hashed_run (tt, (tt, (tt, (other_hash_run, (tt, tt))))) create_run changes_run

user_to_domain-user_to_model_example : user_to_domain ascii (user_to_model carol) ≡ ok carol
user_to_domain-user_to_model_example = user_to_domain-user_to_model ascii carol carol-IsValid

matches_email-iff-IsEmail_example :
    (matches_email ascii.is_space (codes "a@b.c") ≡ true) ↔ IsEmail ascii.is_space (codes "a@b.c")
matches_email-iff-IsEmail_example = matches_email-iff-IsEmail ascii.is_space refl (codes "a@b.c")

resolve-mysql_error_example :
    resolve_user_conflict_field
      (mysql_error (codes "o'neil' for key 'x") (codes "users.uq_users_email"))
    ≡ unique_constraint (without_table (codes "users.uq_users_email"))
resolve-mysql_error_example =
    resolve-mysql_error (codes "o'neil' for key 'x") (codes "users.uq_users_email") (refl, refl)
