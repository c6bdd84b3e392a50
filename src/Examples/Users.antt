-- ===== src/Examples/Users.antt =====
-- Use cases on the database of one user.
use fast_api_scaff.Prelude.{◌≡◌, refl, codes, ok, err, []}
use fast_api_scaff.Users.Errors
use fast_api_scaff.Users.Errors.{user_conflict, concurrent_user_update, authentication_required}
use fast_api_scaff.Users.Values.{active, disabled}
use fast_api_scaff.Users.User.{User}
use fast_api_scaff.Users.Tables.{Database, user_to_model}
use fast_api_scaff.Users.Transaction.{TxState, begin, transaction}
use fast_api_scaff.Users.Repository
use fast_api_scaff.Users.Repository.{updated, conflict}
use fast_api_scaff.Users.Repository.Locking.{update-update}
use fast_api_scaff.Users.Service.{UserDto}
use fast_api_scaff.Users.UserService.{
  UseCase, create_user, perform, store_new, delete, change_status, reset_password,
}
use fast_api_scaff.Users.UserService.Atomic.{ByOthers, perform_atomic}
use fast_api_scaff.Users.UserService.Alone.{conflict_of, stored_or_conflict, store_new-alone}
use fast_api_scaff.Users.UserService.Revoked.{Revoked, delete-Revoked}
use fast_api_scaff.Users.AuthService.{current_user, logout}
use fast_api_scaff.Users.Logout.{current_user-logout}
use fast_api_scaff.Examples.{
  evaluation, ascii, toy_crypto, driver, alone, at, alice, one_user, one_session,
}

abbrev again : UseCase
again = create_user 8 (record {
  username = codes "ALICE";
  email = codes "other@example.org";
  password = codes "12345678";
})

again_run :
    (perform ascii driver alone (at 600) toy_crypto 1 again one_user).0
    ≡ err (user_conflict Errors.username)
unfolding evaluation
again_run = refl

perform_atomic_example :
    ByOthers alone one_user (perform ascii driver alone (at 600) toy_crypto 1 again one_user).1
perform_atomic_example =
    perform_atomic ascii driver alone (at 600) toy_crypto 1 again one_user
      (user_conflict Errors.username) again_run

abbrev alice_again : User
alice_again = record {
  id = 8;
  username = record { value = codes "alice" };
  email = record { value = codes "other@example.org" };
  password_hash = record { value = codes "h" };
  status = active;
  created_at = at 600;
  updated_at = at 600;
  version = 1;
}

store_new-alone_example :
    transaction (store_new ascii driver alone (at 600) alice_again) one_user
    ≡ stored_or_conflict
        (user_to_model alice_again)
        one_user
        (conflict_of (user_to_model alice_again) one_user.users)
store_new-alone_example = store_new-alone ascii driver alone (at 600) alice_again one_user refl refl

delete_run : delete ascii driver 7 one_session ≡ (ok tt, record { users = []; sessions = [] })
unfolding evaluation
delete_run = refl

delete-Revoked_example : Revoked 7 (record { users = []; sessions = [] })
delete-Revoked_example =
    delete-Revoked ascii driver alone (at 600) 7 one_session (record { users = []; sessions = [] })
      delete_run

abbrev off : UserDto
off = record {
  id = 7;
  username = codes "alice";
  email = codes "alice@example.org";
  status = disabled;
  created_at = at 100;
  updated_at = at 600;
}

abbrev after_off : Database
after_off =
    (change_status ascii driver alone (at 600) (record { user_id = 7; status = disabled })
      one_session).1

abbrev after_reset : Database
after_reset =
    (reset_password ascii driver alone (at 600) toy_crypto 2
      (record { user_id = 7; password = codes "new secret" }) one_session).1

current_user-logout_example :
    (db' : Database) × (transaction (logout ascii driver toy_crypto (codes "t")) one_session
      ≡ (ok tt, db'))
    × (db'.users ≡ one_session.users)
    × (transaction (current_user ascii driver toy_crypto (at 700) (codes "t")) db'
        ≡ (err authentication_required, db'))
current_user-logout_example =
    current_user-logout ascii driver toy_crypto (codes "t") (at 700) one_session

abbrev alice_user : User
alice_user = record {
  id = 7;
  username = record { value = codes "alice" };
  email = record { value = codes "alice@example.org" };
  password_hash = record { value = alice.password };
  status = active;
  created_at = at 100;
  updated_at = at 100;
  version = 1;
}

abbrev next_user : User
next_user = record alice_user { version = 2 }

abbrev after_update : TxState
after_update = (Repository.update driver alice_user (begin one_user)).1

update_run :
    Repository.update driver alice_user (begin one_user) ≡ (ok (updated, next_user), after_update)
unfolding evaluation
update_run = refl

update-update_example :
    Repository.update driver (record alice_user { status = disabled }) after_update
    ≡ (ok (conflict, record alice_user { status = disabled }), after_update)
update-update_example =
    update-update driver alice_user next_user (record alice_user { status = disabled })
      (begin one_user) after_update update_run (refl, refl)
