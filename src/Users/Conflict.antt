-- ===== src/Users/Conflict.antt =====
-- `_resolve_user_conflict_field` of infrastructure/persistence/unit_of_work.py: which unique column
-- a driver's exception is about.
pub mod Drivers
use fast_api_scaff.Prelude.{
  strip_prefix, ℕ, Bool, true, false, ◌||◌, Option, none, some, List, [], ◌∷◌, reverse, ◌==◌,
  if◌then◌else◌, String, Text, codes, text_eq, is_empty,
}
use fast_api_scaff.Users.Errors.{ConflictField, username, email, Diagnostic, DriverError}

-- `_USER_UNIQUE_CONSTRAINTS.get`
unfoldable pub unique_constraint : Text → Option ConflictField
unique_constraint name =
    if text_eq name (codes "uq_users_username")
    then some username
    else if text_eq name (codes "users_username_key")
    then some username
    else if text_eq name (codes "uq_users_email")
    then some email
    else if text_eq name (codes "users_email_key")
    then some email
    else none

-- `_SQLITE_UNIQUE_COLUMNS.get`
unfoldable pub sqlite_unique_column : Text → Option ConflictField
sqlite_unique_column text =
    if text_eq text (codes "UNIQUE constraint failed: users.username")
    then some username
    else if text_eq text (codes "UNIQUE constraint failed: users.email")
    then some email
    else none

-- `_postgresql_conflict_field`
unfoldable pub postgresql_conflict_field : List Diagnostic → Option ConflictField
unfolding unique_constraint
postgresql_conflict_field [] = none
postgresql_conflict_field (candidate ∷ rest) =
    let later = postgresql_conflict_field rest in
    let named : Option ConflictField = elim candidate.constraint_name [
      | none ↦ later
      | some name ↦ unique_constraint name
    ] in
    elim candidate.table_name [
      | none ↦ named
      | some table ↦ if text_eq table (codes "users") then named else none
    ]

-- the class of the quotes in `_MYSQL_DUPLICATE_KEY`, an apostrophe or a grave accent
abbrev pub is_quote : ℕ → Bool
is_quote c = c == 39 || c == 96

-- `.* for key ['`]` read backwards from the quote: the pattern's fixed texts around any entry.
unfoldable pub is_duplicate_head : Text → Bool
unfolding strip_prefix
is_duplicate_head [] = false
is_duplicate_head (c ∷ reversed) =
    if is_quote c
    then elim (strip_prefix (reverse (codes " for key ")) reversed) [
      | none ↦ false
      | some entry ↦ elim (strip_prefix (codes "Duplicate entry ") (reverse entry)) [
        | none ↦ false
        | some any ↦ true
      ]
    ]
    else false

-- `(?P<key>[^'`]+)` read backwards, with what stands before it; the key comes out forwards.
unfoldable pub split_key : Text → Text → Text × Text
split_key key [] = (key, [])
split_key key (c ∷ reversed) =
    let longer = split_key (c ∷ key) reversed in if is_quote c then (key, c ∷ reversed) else longer

-- `_MYSQL_DUPLICATE_KEY.fullmatch(text)` and its group `key`. The key holds no quote and the text
-- ends in one, so the pattern can only match from the end.
unfoldable pub duplicate_key_reversed : Text → Option Text
unfolding split_key is_duplicate_head
duplicate_key_reversed [] = none
duplicate_key_reversed (c ∷ reversed) =
    let (key, head) = split_key [] reversed in
    if is_quote c
    then (if is_empty key then none else if is_duplicate_head head then some key else none)
    else none

-- `_mysql_conflict_field`
unfoldable pub mysql_conflict_field : Text → Option ConflictField
unfolding duplicate_key_reversed strip_prefix unique_constraint
mysql_conflict_field text = elim (duplicate_key_reversed (reverse text)) [
  | none ↦ none
  | some key ↦ elim (strip_prefix (codes "users.") key) [
    | none ↦ unique_constraint key
    | some column ↦ unique_constraint column
  ]
]

abbrev option_is : Option ℕ → ℕ → Bool
option_is none n = false
option_is (some m) n = m == n

abbrev option_text_is : Option Text → Text → Bool
option_text_is none t = false
option_text_is (some s) t = text_eq s t

-- `sqlite3.SQLITE_CONSTRAINT_UNIQUE`
abbrev pub sqlite_constraint_unique : ℕ
sqlite_constraint_unique = 2067

unfoldable pub resolve_user_conflict_field : DriverError → Option ConflictField
unfolding sqlite_unique_column postgresql_conflict_field mysql_conflict_field
resolve_user_conflict_field error =
    if option_is error.sqlite_errorcode sqlite_constraint_unique
    then sqlite_unique_column error.text
    else if option_text_is error.sqlstate (codes "23505")
    then postgresql_conflict_field error.diagnostics
    else elim error.mysql_args [
      | none ↦ none
      | some (number, text) ↦ if number == 1062 then mysql_conflict_field text else none
    ]
