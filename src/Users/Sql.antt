-- ===== src/Users/Sql.antt =====
-- The statements that the repositories send to the two tables, as SQL defines them on the
-- constraints that infrastructure/persistence/models declares. Where a row breaks several
-- constraints, the first one in the order of `Constraint` is reported.
pub mod First
use fast_api_scaff.Prelude.{
  ℕ, ◌+◌, Bool, true, false, not, ◌&&◌, ◌||◌, Option, none, some, List, [], ◌∷◌, ◌==◌, leb,
  if◌then◌else◌, Text, codes, text_eq, length, any, select, Result, ok, err,
}
use fast_api_scaff.DateTime.{DateTime}
use fast_api_scaff.Users.Tables.{UserRow, SessionRow, Database}

pub data Constraint : Type 0 where
  users_id users_username users_email users_status : Constraint
  sessions_token_digest sessions_user_id sessions_time_range : Constraint

-- SELECT of the first row that a test accepts.
module _ {A : Type 0} where
  abbrev pub first : (A → Bool) → List A → Option A
  first p [] = none
  first p (x ∷ xs) = if p x then some x else first p xs

  -- UPDATE: the rows that a test accepts are replaced.
  abbrev pub map_where : (A → Bool) → (A → A) → List A → List A
  map_where p f [] = []
  map_where p f (x ∷ xs) = (if p x then f x else x) ∷ map_where p f xs

-- Another row holds the same username, or the same address.
abbrev pub same_username : UserRow → UserRow → Bool
same_username row other = not (other.id == row.id) && text_eq other.username row.username

abbrev pub same_email : UserRow → UserRow → Bool
same_email row other = not (other.id == row.id) && text_eq other.email row.email

abbrev pub status_allowed : UserRow → Bool
status_allowed row = text_eq row.status (codes "active") || text_eq row.status (codes "disabled")

-- The constraint that a row breaks against the others of its table.
unfoldable pub broken_by_user : UserRow → List UserRow → Option Constraint
broken_by_user row users =
    if any (same_username row) users
    then some users_username
    else if any (same_email row) users
    then some users_email
    else if not (status_allowed row)
    then some users_status
    else none

unfoldable pub insert_user : UserRow → Database → Result Constraint Database
unfolding broken_by_user
insert_user row db =
    if any (λ other. other.id == row.id) db.users
    then err users_id
    else elim (broken_by_user row db.users) [
      | some broken ↦ err broken
      | none ↦ ok (record db { users = row ∷ db.users })
    ]

-- UPDATE of the row with this id and version, with the number of rows that it changed.
unfoldable pub update_user :
    ℕ → ℕ → (UserRow → UserRow) → Database → Result Constraint (ℕ × Database)
unfolding broken_by_user
update_user id version set db =
    elim (first (λ row. row.id == id && row.version == version) db.users) [
      | none ↦ ok (0, db)
      | some old ↦ elim (broken_by_user (set old) db.users) [
        | some broken ↦ err broken
        | none ↦ ok (
          1,
          record db {
            users = map_where (λ row. row.id == id && row.version == version) set db.users;
          },
        )
      ]
    ]

-- DELETE of a user; the foreign key of the sessions cascades.
unfoldable pub delete_user : ℕ → Database → ℕ × Database
delete_user id db = (
  length (select (λ row. row.id == id) db.users),
  record {
    users = select (λ row. not (row.id == id)) db.users;
    sessions = select (λ s. not (s.user_id == id)) db.sessions;
  },
)

unfoldable pub insert_session : SessionRow → Database → Result Constraint Database
insert_session s db =
    if any (λ other. text_eq other.token_digest s.token_digest) db.sessions
    then err sessions_token_digest
    else if not (any (λ row. row.id == s.user_id) db.users)
    then err sessions_user_id
    else if leb s.expires_at.ticks s.issued_at.ticks
    then err sessions_time_range
    else ok (record db { sessions = s ∷ db.sessions })

-- DELETE of the sessions that a test accepts, with their number.
unfoldable pub delete_sessions : (SessionRow → Bool) → Database → ℕ × Database
delete_sessions p db =
    (length (select p db.sessions), record db { sessions = select (λ s. not (p s)) db.sessions })
