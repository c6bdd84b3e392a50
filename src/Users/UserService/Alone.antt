-- ===== src/Users/UserService/Alone.antt =====
-- The write of `create` while no other transaction commits between their checks and
-- their statements.
use fast_api_scaff.Prelude.{
  ◌≡◌, refl, Bool, true, false, not, ◌&&◌, List, [], ◌∷◌, any, ◌==◌, if◌then◌else◌, text_eq, codes,
  ◌||◌, Option, none, some, Result, ok, err, ◌>>=◌, arith, Bool-cases, inl, inr,
}
use fast_api_scaff.DateTime.{DateTime}
use fast_api_scaff.Users.Errors
use fast_api_scaff.Users.Errors.{Error, DriverError, user_conflict}
use fast_api_scaff.Users.Unicode.{Unicode}
use fast_api_scaff.Users.Values.{UserStatus, active, disabled}
use fast_api_scaff.Users.User.{User}
use fast_api_scaff.Users.Tables.{Database, UserRow, user_to_model, status_value}
use fast_api_scaff.Users.Sql.{Constraint, insert_user, broken_by_user, same_username, same_email}
use fast_api_scaff.Users.Transaction.{
  transaction, execute, query, flush, send_all, add, others, commit,
}
use fast_api_scaff.Users.Repository.{exists_by_username, exists_by_email}
use fast_api_scaff.Users.Service.{Surroundings, ensure_unique, ensure_unique_values}
use fast_api_scaff.Users.UserService.{store_new}

any-cong : {A : Type 0} (p q : A → Bool) (xs : List A) → ((x : A) → p x ≡ q x) → any p xs ≡ any q xs
any-cong p q [] h = refl
any-cong p q (x ∷ xs) h = rw (h x, any-cong p q xs h) refl

status_value-allowed :
    (status : UserStatus)
    → text_eq (status_value status) (codes "active")
        || text_eq (status_value status) (codes "disabled")
      ≡ true
unfolding text_eq
status_value-allowed active = refl
status_value-allowed disabled = refl

and_swap : (a b : Bool) → a && b ≡ b && a
and_swap true true = refl
and_swap true false = refl
and_swap false true = refl
and_swap false false = refl

-- What a new user meets: the first conflict in the order of the checks, or none.
unfoldable pub conflict_of : UserRow → List UserRow → Option Error
conflict_of row rows =
    if any (same_username row) rows
    then some (user_conflict Errors.username)
    else if any (same_email row) rows
    then some (user_conflict Errors.email)
    else none

unfoldable pub stored_or_conflict : UserRow → Database → Option Error → Result Error Unit × Database
stored_or_conflict row db none = (ok tt, record db { users = row ∷ db.users })
stored_or_conflict row db (some error) = (err error, db)

-- The second transaction of `create`, while no other commits between its checks and its writes, for a
-- new identifier and any driver: it adds exactly the row of the user, or it raises the conflict of
-- the username, or else of the address, that a stored user has, and leaves the database as it was.
-- No error of the driver comes out of it.
pub store_new-alone :
    (unicode : Unicode) (driver : Constraint → DriverError) (around : Surroundings) (now : DateTime)
    (u : User) (db : Database)
    → around.beside db ≡ db
    → any (λ row. row.id == u.id) db.users ≡ false
    → transaction (store_new unicode driver around now u) db
      ≡ stored_or_conflict (user_to_model u) db (conflict_of (user_to_model u) db.users)
unfolding user_to_model store_new ensure_unique ensure_unique_values exists_by_username
    exists_by_email query execute flush send_all add others commit transaction stored_or_conflict
    conflict_of insert_user broken_by_user ◌>>=◌
store_new-alone unicode driver around now u db alone fresh =
    let row = user_to_model u in
    let names : any
          (λ (other : UserRow). text_eq other.username u.username.value && not (other.id == u.id))
          db.users
        ≡ any (same_username row) db.users =
      any-cong _ _ db.users
        (λ other. and_swap (text_eq other.username u.username.value) (not (other.id == u.id))) in
    let addresses : any
          (λ (other : UserRow). text_eq other.email u.email.value && not (other.id == u.id))
          db.users
        ≡ any (same_email row) db.users =
      any-cong _ _ db.users
        (λ other. and_swap (text_eq other.email u.email.value) (not (other.id == u.id))) in
    elim (Bool-cases (any (same_username row) db.users)) [
      | inl taken ↦ ground (arith, names, taken)
      | inr free ↦ elim (Bool-cases (any (same_email row) db.users)) [
        | inl taken ↦ ground (arith, names, free, addresses, taken)
        | inr new ↦
            ground (arith, names, free, addresses, new, alone, fresh, status_value-allowed u.status)
      ]
    ]
