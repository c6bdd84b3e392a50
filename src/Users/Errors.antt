-- ===== src/Users/Errors.antt =====
-- The exceptions of the user context: domain/errors.py, application/errors.py and
-- application/auth_errors.py, and the ones of the standard library and the driver that its code
-- lets through. Messages are left out, but for the one distinction that a message makes.
use fast_api_scaff.Prelude.{ℕ, Option, List, Text}

-- Which rule an `InvalidUserDataError` reports.
pub data InvalidUserData : Type 0 where
  bad_username bad_email bad_password bad_password_hash bad_time bad_version : InvalidUserData

-- `UserConflictField`
pub data ConflictField : Type 0 where
  username email : ConflictField

-- The attributes `table_name` and `constraint_name` of one object that a PostgreSQL driver hands on.
pub record Diagnostic : Type 0 where
  pub table_name : Option Text
  pub constraint_name : Option Text

-- What `_resolve_user_conflict_field` reads of a driver's exception: the SQLite code, the text, the
-- SQLSTATE, what PostgreSQL names, and the two arguments of a MySQL error.
pub record DriverError : Type 0 where
  pub sqlite_errorcode : Option ℕ
  pub text : Text
  pub sqlstate : Option Text
  pub diagnostics : List Diagnostic
  pub mysql_args : Option (ℕ × Text)

pub data Error : Type 0 where
  invalid_user_data : InvalidUserData → Error
  user_not_found : ℕ → Error
  user_conflict : ConflictField → Error
  concurrent_user_update : ℕ → Error
  invalid_credentials : Option ℕ → Error
  login_temporarily_locked : ℕ → Error
  authentication_required : Error
  value_error : Error
  overflow_error : Error
  unknown_hash : Error
  cache_operation_error : Error
  integrity_error : DriverError → Error
