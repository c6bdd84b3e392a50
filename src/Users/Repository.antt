-- ===== src/Users/Repository.antt =====
-- domain/repository.py and its SQLAlchemy implementation, infrastructure/persistence/repository.py.
pub mod Locking
pub mod Keeps
use fast_api_scaff.Prelude.{
  ℕ, suc, zero, Bool, true, false, not, ◌&&◌, ◌||◌, Option, none, some, List, [], ◌∷◌, leb, ltb,
  ◌==◌, if◌then◌else◌, Text, text_eq, length, any, Result, ok, err, and_then, lift, pure, ◌>>=◌,
  ◌>>◌,
}
use fast_api_scaff.DateTime.{DateTime}
use fast_api_scaff.Users.Errors.{Error, DriverError}
use fast_api_scaff.Users.Unicode.{Unicode}
use fast_api_scaff.Users.Values.{Username, EmailAddress}
use fast_api_scaff.Users.User.{User, advance_version}
use fast_api_scaff.Users.Session.{UserSession}
use fast_api_scaff.Users.Tables.{
  UserRow, SessionRow, Database, user_to_model, user_to_domain, user_update_values,
  session_to_model, session_to_domain,
}
use fast_api_scaff.Users.Sql.{Constraint, first, update_user, delete_user, delete_sessions}
use fast_api_scaff.Users.Transaction.{Tx, Insert, execute, query, add}

-- `UserUpdateResult`
pub data UserUpdateResult : Type 0 where
  updated not_found conflict : UserUpdateResult

-- `Model is not None ? to_domain(model) : None`
unfoldable pub to_domain? :
    {M D : Type 0} → (M → Result Error D) → Option M → Result Error (Option D)
to_domain? to_domain none = ok none
to_domain? to_domain (some model) = and_then (to_domain model) (λ d. ok (some d))

-- `[to_domain(model) for model in models]`
unfoldable pub all_to_domain :
    {M D : Type 0} → (M → Result Error D) → List M → Result Error (List D)
all_to_domain to_domain [] = ok []
all_to_domain to_domain (m ∷ models) =
    and_then (to_domain m) (λ d. and_then (all_to_domain to_domain models) (λ ds. ok (d ∷ ds)))

abbrev excluded : Option ℕ → UserRow → Bool
excluded none row = true
excluded (some id) row = not (row.id == id)

-- ORDER BY created_at DESC, id DESC: the row `a` does not stand behind `b`. Canonical UUID texts are
-- ordered like their numbers.
unfoldable pub not_after : UserRow → UserRow → Bool
not_after a b =
    ltb b.created_at.ticks a.created_at.ticks
    || (a.created_at.ticks == b.created_at.ticks && leb b.id a.id)

unfoldable pub insert_sorted : UserRow → List UserRow → List UserRow
insert_sorted a [] = a ∷ []
insert_sorted a (b ∷ rows) =
    let later = insert_sorted a rows in if not_after a b then a ∷ (b ∷ rows) else b ∷ later

unfoldable pub order_rows : List UserRow → List UserRow
unfolding insert_sorted not_after
order_rows [] = []
order_rows (a ∷ rows) = insert_sorted a (order_rows rows)

module _ {ℓ} {A : Type ℓ} where
  -- OFFSET and LIMIT
  unfoldable pub drop : ℕ → List A → List A
  drop zero xs = xs
  drop (suc n) [] = []
  drop (suc n) (x ∷ xs) = drop n xs

  unfoldable pub take : ℕ → List A → List A
  take zero xs = []
  take (suc n) [] = []
  take (suc n) (x ∷ xs) = x ∷ take n xs

module _ (unicode : Unicode) (driver : Constraint → DriverError) where
  unfoldable pub find : ℕ → Tx (Option User)
  unfolding to_domain?
  find user_id = do
    model ← query driver (λ db. first (λ row. row.id == user_id) db.users)
    lift (to_domain? (user_to_domain unicode) model)

  unfoldable pub find_by_username : Username → Tx (Option User)
  unfolding to_domain?
  find_by_username username = do
    model ← query driver (λ db. first (λ row. text_eq row.username username.value) db.users)
    lift (to_domain? (user_to_domain unicode) model)

  unfoldable pub find_page : ℕ → ℕ → Tx (List User × ℕ)
  unfolding all_to_domain order_rows take drop
  find_page offset limit = do
    total ← query driver (λ db. length db.users)
    models ← query driver (λ db. take limit (drop offset (order_rows db.users)))
    users ← lift (all_to_domain (user_to_domain unicode) models)
    pure (users, total)

module _ (driver : Constraint → DriverError) where
  unfoldable pub exists_by_username : Username → Option ℕ → Tx Bool
  exists_by_username username excluding =
      query driver
        (λ db. any (λ row. text_eq row.username username.value && excluded excluding row) db.users)

  unfoldable pub exists_by_email : EmailAddress → Option ℕ → Tx Bool
  exists_by_email email excluding =
      query driver
        (λ db. any (λ row. text_eq row.email email.value && excluded excluding row) db.users)

  -- What an update reports, by whether it changed its row.
  unfoldable pub report : Bool → User → Tx (UserUpdateResult × User)
  report true user = pure (updated, advance_version user)
  report false user = do
    exists ← query driver (λ db. any (λ row. row.id == user.id) db.users)
    pure (if exists then conflict else not_found, user)

  -- The result, and the aggregate, which a successful update advances.
  unfoldable pub update : User → Tx (UserUpdateResult × User)
  unfolding report
  update user = do
    rowcount ← execute driver (update_user user.id user.version (user_update_values user))
    report (rowcount == 1) user

  unfoldable pub remove : ℕ → Tx Bool
  remove user_id = do
    rowcount ← execute driver (λ db. ok (delete_user user_id db))
    pure (rowcount == 1)
