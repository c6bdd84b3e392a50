-- ===== src/Users/UserService/Atomic.antt =====
-- A use case that raises has committed nothing of its own.
use fast_api_scaff.Prelude.{ℕ, ◌≡◌, err, modify}
use fast_api_scaff.Prelude.Rules.{Keeps, Fails, Keeps-modify, Fails-bind-pure}
use fast_api_scaff.DateTime.{DateTime}
use fast_api_scaff.Users.Errors.{Error, DriverError}
use fast_api_scaff.Users.Unicode.{Unicode}
use fast_api_scaff.Users.User.{User}
use fast_api_scaff.Users.Tables.{Database}
use fast_api_scaff.Users.Sql.{Constraint}
use fast_api_scaff.Users.Transaction.Atomic.{Settled, Stable}
use fast_api_scaff.Users.Crypto.{Crypto}
use fast_api_scaff.Users.Service.{
  UpdateUserCommand, ChangeUserStatusCommand, CreateUserCommand, ResetUserPasswordCommand,
  Surroundings,
}
use fast_api_scaff.Users.Service.Keeps.{service_rules}
use fast_api_scaff.Users.UserService
use fast_api_scaff.Users.UserService.{
  delete, change_status, store_new, create, reset_password, UseCase, perform, create_user,
  update_user, change_user_status, reset_user_password, delete_user,
}

-- The databases that commits of others lead to.
pub data ByOthers (around : Surroundings) (db : Database) : Database → Type 0 where
  unchanged : ByOthers around db db
  while_hashing : {d : Database} → ByOthers around db d → ByOthers around db (around.meanwhile d)
  before_writing : {d : Database} → ByOthers around db d → ByOthers around db (around.beside d)

module _ (unicode : Unicode) (driver : Constraint → DriverError) (around : Surroundings)
    (start : Database) where
  beside-Stable : Stable (ByOthers around start) around.beside
  beside-Stable = record { at = λ d r. before_writing r }

  Keeps-meanwhile : Keeps (ByOthers around start) (modify {E = Error} around.meanwhile)
  Keeps-meanwhile = Keeps-modify around.meanwhile (λ d r. while_hashing r)

  delete-Fails : (id : ℕ) → Fails (ByOthers around start) (delete unicode driver id)
  unfolding delete
  delete-Fails id = search service_rules

  module _ (now : DateTime) where
    update-Fails :
        (c : UpdateUserCommand)
        → Fails (ByOthers around start) (UserService.update unicode driver around now c)
    unfolding UserService.update
    update-Fails c = search (service_rules, beside-Stable) depth 12

    change_status-Fails :
        (c : ChangeUserStatusCommand)
        → Fails (ByOthers around start) (change_status unicode driver around now c)
    unfolding change_status
    change_status-Fails c = search (service_rules, beside-Stable) depth 12

    store_new-Fails :
        (u : User) → Fails (Settled (ByOthers around start)) (store_new unicode driver around now u)
    unfolding store_new
    store_new-Fails u = search (service_rules, beside-Stable) depth 12 fits 6000

    module _ (crypto : Crypto) (salt : ℕ) where
      create-Fails :
          (id : ℕ) (c : CreateUserCommand)
          → Fails (ByOthers around start) (create unicode driver around now crypto salt id c)
      unfolding create
      create-Fails id c =
          search (service_rules, store_new-Fails, beside-Stable, Keeps-meanwhile) depth 14 fits 6000

      reset_password-Fails :
          (c : ResetUserPasswordCommand)
          → Fails (ByOthers around start) (reset_password unicode driver around now crypto salt c)
      unfolding reset_password
      reset_password-Fails c =
          search (service_rules, beside-Stable, Keeps-meanwhile) depth 14 fits 6000

      perform-Fails :
          (c : UseCase)
          → Fails (ByOthers around start) (perform unicode driver around now crypto salt c)
      unfolding perform
      perform-Fails (create_user id c) = Fails-bind-pure _ _ (create-Fails id c)
      perform-Fails (update_user c) = Fails-bind-pure _ _ (update-Fails c)
      perform-Fails (change_user_status c) = Fails-bind-pure _ _ (change_status-Fails c)
      perform-Fails (reset_user_password c) = reset_password-Fails c
      perform-Fails (delete_user id) = delete-Fails id

-- A use case that raises, at whatever point, leaves a database that commits of others alone explain:
-- it has committed none of its own writes.
pub perform_atomic :
    (unicode : Unicode) (driver : Constraint → DriverError) (around : Surroundings) (now : DateTime)
    (crypto : Crypto) (salt : ℕ) (c : UseCase) (db : Database) (e : Error)
    → (perform unicode driver around now crypto salt c db).0 ≡ err e
    → ByOthers around db (perform unicode driver around now crypto salt c db).1
perform_atomic unicode driver around now crypto salt c db e h =
    (perform-Fails unicode driver around db now crypto salt c).at db unchanged e h
