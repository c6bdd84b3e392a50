-- ===== src/Users/Conflict/Drivers.antt =====
-- The resolution of a conflict on the exceptions that the three drivers raise.
use mathlib.Core.List.{reverse-append, reverse_aux, reverse-reverse}
use fast_api_scaff.Prelude.{
  strip_prefix, ℕ, ◌≡◌, refl, none, some, [], ◌∷◌, ◌++◌, reverse, arith, Text, codes, true, false,
  all, not, all-reverse, is_empty,
}
use fast_api_scaff.Users.Errors.{DriverError}
use fast_api_scaff.Users.Conflict.{
  is_quote, split_key, unique_constraint, duplicate_key_reversed, is_duplicate_head,
  mysql_conflict_field, resolve_user_conflict_field,
}

-- How MySQL begins the text of error 1062, up to and with the entry in apostrophes.
abbrev entry_text : Text → Text
entry_text entry = codes "Duplicate entry '" ++ (entry ++ codes "'")

is_duplicate_head-entry :
    (entry : Text) → is_duplicate_head (reverse (entry_text entry ++ codes " for key '")) ≡ true
unfolding is_duplicate_head
is_duplicate_head-entry entry =
    rw (reverse-append (entry_text entry) (codes " for key '"))
      (rw (reverse-reverse (entry_text entry)) refl)

abbrev pub IsKey : Text → Type 0
IsKey key = (all (λ c. not (is_quote c)) key ≡ true) × (is_empty key ≡ false)

split_key-append :
    (key ys : Text) (c : ℕ) (rest : Text)
    → all (λ d. not (is_quote d)) ys ≡ true
    → is_quote c ≡ true
    → split_key key (ys ++ (c ∷ rest)) ≡ (reverse_aux ys key, c ∷ rest)
unfolding split_key
split_key-append key [] c rest h q = ground arith
split_key-append key (y ∷ ys) c rest h q = ground (arith, split_key-append (y ∷ key) ys c rest)

-- MySQL's text of error 1062 on a key, for any entry.
abbrev pub mysql_text : Text → Text → Text
mysql_text entry key = (entry_text entry ++ codes " for key '") ++ (key ++ codes "'")

duplicate_key_reversed-append :
    (key : Text) (c : ℕ) (head : Text)
    → IsKey key
    → is_quote c ≡ true
    → is_duplicate_head (c ∷ head) ≡ true
    → duplicate_key_reversed (39 ∷ (reverse key ++ (c ∷ head))) ≡ some key
unfolding duplicate_key_reversed
duplicate_key_reversed-append key c head h q d =
    let free = rw (← all-reverse (λ (x : ℕ). not (is_quote x)) key) at h.0 in
    rw (split_key-append [] (reverse key) c head free q)
      (rw (reverse-reverse key) (rw (d, h.1) refl))

-- MySQL: the key of a duplicate entry is found whatever the entry holds, quotes and the fixed words
-- of the message included, if the key itself is not empty and holds no quote.
pub duplicate_key_reversed-mysql_text :
    (entry key : Text)
    → IsKey key
    → duplicate_key_reversed (reverse (mysql_text entry key)) ≡ some key
duplicate_key_reversed-mysql_text entry key h =
    rw (reverse-append (entry_text entry ++ codes " for key '") (key ++ codes "'")) (
      rw (reverse-append key (codes "'")) (
        rw (reverse-append (entry_text entry) (codes " for key '")) (
          duplicate_key_reversed-append key 39 _ h refl (
            rw (← reverse-append (entry_text entry) (codes " for key '"))
              (is_duplicate_head-entry entry)))))

abbrev pub mysql_error : Text → Text → DriverError
mysql_error entry key = record {
  sqlite_errorcode = none;
  text = mysql_text entry key;
  sqlstate = none;
  diagnostics = [];
  mysql_args = some (1062, mysql_text entry key);
}

-- `key.removeprefix("users.")`
abbrev pub without_table : Text → Text
without_table key = elim (strip_prefix (codes "users.") key) [ none ↦ key | some column ↦ column ]

-- A duplicate entry on MySQL resolves to what its key stands for, with or without the table's
-- name before it, whatever the entry holds, if the key is not empty and holds no quote.
pub resolve-mysql_error :
    (entry key : Text)
    → IsKey key
    → resolve_user_conflict_field (mysql_error entry key) ≡ unique_constraint (without_table key)
unfolding resolve_user_conflict_field
resolve-mysql_error entry key h =
    rw (duplicate_key_reversed-mysql_text entry key h, mysql_conflict_field) (ground arith)
