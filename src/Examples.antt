-- ===== src/Examples.antt =====
-- Concrete data for the examples: ASCII texts, a toy hash, a database with one user.
pub mod Users
pub mod Values
pub mod Accounts
pub mod Jobs
pub mod Hosts
pub mod Pages
pub mod Shared
pub mod Servers
pub mod Quotas
pub mod Queues
pub mod Workers
pub mod Responses
use fast_api_scaff.Prelude.{
  ℕ, ◌≡◌, refl, ◌+◌, ◌-◌, Bool, true, false, ◌&&◌, ◌||◌, Option, none, some, List, [], ◌∷◌, ◌++◌,
  map, leb, ◌==◌, if◌then◌else◌, Text, codes, text_eq, text_eq_refl, arith, ok, Result, ltb,
}
use fast_api_scaff.DateTime.{DateTime}
use fast_api_scaff.Users.Errors.{DriverError}
use fast_api_scaff.Users.Unicode.{Unicode, is_word}
use fast_api_scaff.Users.Crypto.{Crypto}
use fast_api_scaff.Users.Tables.{UserRow, SessionRow, Database}
use fast_api_scaff.Users.Sql.{Constraint}
use fast_api_scaff.Users.LoginAttempts.{LoginAttemptLimiter}
use fast_api_scaff.Users.AuthService.{World}
use fast_api_scaff.Users.Service.{Surroundings}
use fast_api_scaff.Users.Conflict.Drivers.{mysql_error}

-- Opens every definition of the model, for examples that compute.
evaluation : ℕ
unfolding fast_api_scaff.Prelude.text_eq fast_api_scaff.Prelude.◌>>=◌
    fast_api_scaff.DateTime.add_seconds fast_api_scaff.Pagination.new_page_params
    fast_api_scaff.Pagination.offset fast_api_scaff.Pagination.calculate_total_pages
    fast_api_scaff.Pagination.build_page_response fast_api_scaff.Users.AuthService.new_login_command
    fast_api_scaff.Users.AuthService.new_credential fast_api_scaff.Users.AuthService.attempt
    fast_api_scaff.Users.AuthService.attempt_in fast_api_scaff.Users.AuthService.session_in
    fast_api_scaff.Users.AuthService.on_database fast_api_scaff.Users.AuthService.login_transaction
    fast_api_scaff.Users.AuthService.raise_if_locked
    fast_api_scaff.Users.AuthService.reject_credentials
    fast_api_scaff.Users.AuthService.clear_if_configured
    fast_api_scaff.Users.AuthService.current_user fast_api_scaff.Users.AuthService.logout
    fast_api_scaff.Users.AuthService.cleanup_expired_sessions
    fast_api_scaff.Users.Conflict.unique_constraint
    fast_api_scaff.Users.Conflict.sqlite_unique_column
    fast_api_scaff.Users.Conflict.postgresql_conflict_field fast_api_scaff.Prelude.strip_prefix
    fast_api_scaff.Users.Conflict.is_duplicate_head fast_api_scaff.Users.Conflict.split_key
    fast_api_scaff.Users.Conflict.duplicate_key_reversed
    fast_api_scaff.Users.Conflict.mysql_conflict_field
    fast_api_scaff.Users.Conflict.resolve_user_conflict_field fast_api_scaff.Users.Crypto.hash
    fast_api_scaff.Users.Crypto.verify_or_dummy fast_api_scaff.Users.Email.has_dot
    fast_api_scaff.Users.Email.matches_domain fast_api_scaff.Users.Email.matches_local
    fast_api_scaff.Users.Email.matches_email fast_api_scaff.Users.Login.open_session
    fast_api_scaff.Users.Login.unchanged fast_api_scaff.Users.Login.store_session
    fast_api_scaff.Users.Login.recheck fast_api_scaff.Users.Login.second_transaction
    fast_api_scaff.Users.Login.after_verification fast_api_scaff.Users.Login.login_as
    fast_api_scaff.Users.Login.login fast_api_scaff.Users.LoginAttempts.new_status
    fast_api_scaff.Users.LoginAttempts.invalid_credentials_error
    fast_api_scaff.Users.LoginAttempts.login_temporarily_locked_error
    fast_api_scaff.Users.Repository.to_domain? fast_api_scaff.Users.Repository.all_to_domain
    fast_api_scaff.Users.Repository.not_after fast_api_scaff.Users.Repository.insert_sorted
    fast_api_scaff.Users.Repository.order_rows fast_api_scaff.Users.Repository.drop
    fast_api_scaff.Users.Repository.take fast_api_scaff.Users.Repository.find
    fast_api_scaff.Users.Repository.find_by_username fast_api_scaff.Users.Repository.find_page
    fast_api_scaff.Users.Repository.exists_by_username
    fast_api_scaff.Users.Repository.exists_by_email fast_api_scaff.Users.Repository.report
    fast_api_scaff.Users.Repository.update fast_api_scaff.Users.Repository.remove
    fast_api_scaff.Users.Service.from_domain fast_api_scaff.Users.Service.ensure_updated
    fast_api_scaff.Users.Service.require fast_api_scaff.Users.Service.ensure_unique_values
    fast_api_scaff.Users.Service.ensure_unique fast_api_scaff.Users.Service.update_or_raise
    fast_api_scaff.Users.Service.revoke_if_disabled fast_api_scaff.Users.Session.new_session
    fast_api_scaff.Users.Session.is_valid fast_api_scaff.Users.SessionRepository.add
    fast_api_scaff.Users.SessionRepository.find fast_api_scaff.Users.SessionRepository.remove
    fast_api_scaff.Users.SessionRepository.remove_for_user
    fast_api_scaff.Users.SessionRepository.remove_expired fast_api_scaff.Users.Sql.broken_by_user
    fast_api_scaff.Users.Sql.insert_user fast_api_scaff.Users.Sql.update_user
    fast_api_scaff.Users.Sql.delete_user fast_api_scaff.Users.Sql.insert_session
    fast_api_scaff.Users.Sql.delete_sessions fast_api_scaff.Users.Tables.status_of
    fast_api_scaff.Users.Tables.user_to_model fast_api_scaff.Users.Tables.user_to_domain
    fast_api_scaff.Users.Tables.user_update_values fast_api_scaff.Users.Tables.session_to_model
    fast_api_scaff.Users.Tables.session_to_domain fast_api_scaff.Users.Transaction.send
    fast_api_scaff.Users.Transaction.send_all fast_api_scaff.Users.Transaction.rollback
    fast_api_scaff.Users.Transaction.translate fast_api_scaff.Users.Transaction.flush
    fast_api_scaff.Users.Transaction.run fast_api_scaff.Users.Transaction.execute
    fast_api_scaff.Users.Transaction.query fast_api_scaff.Users.Transaction.commit
    fast_api_scaff.Users.Transaction.add fast_api_scaff.Users.Transaction.others
    fast_api_scaff.Users.Transaction.transaction fast_api_scaff.Users.Unicode.lstrip
    fast_api_scaff.Users.Unicode.strip fast_api_scaff.Users.User.validate_local_datetime
    fast_api_scaff.Users.User.validate_version fast_api_scaff.Users.User.rehydrate
    fast_api_scaff.Users.User.create fast_api_scaff.Users.User.update_profile
    fast_api_scaff.Users.User.advance_version fast_api_scaff.Users.User.change_status
    fast_api_scaff.Users.User.reset_password fast_api_scaff.Users.UserService.get
    fast_api_scaff.Users.UserService.list fast_api_scaff.Users.UserService.delete
    fast_api_scaff.Users.UserService.update fast_api_scaff.Users.UserService.change_status
    fast_api_scaff.Users.UserService.store_new fast_api_scaff.Users.UserService.create
    fast_api_scaff.Users.UserService.reset_password fast_api_scaff.Users.UserService.perform
    fast_api_scaff.Users.Values.matches_username fast_api_scaff.Users.Values.new_password
    fast_api_scaff.Users.Values.new_password_hash fast_api_scaff.Users.Values.normalize
    fast_api_scaff.Users.Values.new_username fast_api_scaff.Users.Values.new_email_address
    fast_api_scaff.Worker.Attempts.failed_result fast_api_scaff.Worker.Attempts.classify
    fast_api_scaff.Worker.Attempts.turns fast_api_scaff.Worker.Attempts.run_attempts
    fast_api_scaff.Worker.Executor.acknowledge fast_api_scaff.Worker.Executor.failure_id
    fast_api_scaff.Worker.Executor.finish fast_api_scaff.Worker.Executor.run
    fast_api_scaff.Worker.Executor.process fast_api_scaff.Worker.Executor.execute
    fast_api_scaff.Worker.Failures.open_database fast_api_scaff.Worker.Failures.find
    fast_api_scaff.Worker.Failures.save fast_api_scaff.Worker.Failures.delete
    fast_api_scaff.Worker.Policy.new_policy fast_api_scaff.Worker.Policy.item
    fast_api_scaff.Worker.Policy.min fast_api_scaff.Worker.Policy.delay_of
    fast_api_scaff.Worker.Policy.retry_delay fast_api_scaff.Runtime.run_all
    fast_api_scaff.Runtime.close fast_api_scaff.Runtime.aclose
    fast_api_scaff.Runtime.start_container fast_api_scaff.Runtime.aclose_runtime
    fast_api_scaff.Runtime.start fast_api_scaff.Resources.Lazy.begin_close
    fast_api_scaff.Resources.Lazy.hand_out fast_api_scaff.Resources.Lazy.call_get
    fast_api_scaff.Resources.Lazy.enter_get fast_api_scaff.Resources.Lazy.leave_factory
    fast_api_scaff.Resources.Lazy.call_aclose fast_api_scaff.Resources.Lazy.enter_aclose
    fast_api_scaff.Resources.Lazy.leave_closer fast_api_scaff.Resources.Closing.after_closer
    fast_api_scaff.Resources.Closing.go_on fast_api_scaff.Resources.Closing.aclose
    fast_api_scaff.Resources.Closing.collect fast_api_scaff.Resources.Closing.close_each
    fast_api_scaff.Resources.Closing.close_lazy_resources fast_api_scaff.Redis.Decimal.number_after
    fast_api_scaff.Redis.Decimal.digits_of fast_api_scaff.Prelude.text_below
    fast_api_scaff.Users.RedisLoginAttempts.new_limits
    fast_api_scaff.Users.RedisLoginAttempts.decode_count
    fast_api_scaff.Users.RedisLoginAttempts.key_of
    fast_api_scaff.Users.RedisLoginAttempts.increment_with_ttl
    fast_api_scaff.Users.RedisLoginAttempts.delete_below
    fast_api_scaff.Users.RedisLoginAttempts.connected
    fast_api_scaff.Users.RedisLoginAttempts.retry_after
    fast_api_scaff.Users.RedisLoginAttempts.record_failure
    fast_api_scaff.Users.RedisLoginAttempts.clear
    fast_api_scaff.Users.RedisLoginAttempts.Traces.perform
    fast_api_scaff.Users.RedisLoginAttempts.Traces.perform_all fast_api_scaff.RateLimit.new_quota
    fast_api_scaff.RateLimit.parse_result fast_api_scaff.RateLimit.decision_of
    fast_api_scaff.RateLimit.quota_key fast_api_scaff.RateLimit.acquire_window
    fast_api_scaff.RateLimit.acquire fast_api_scaff.RateLimit.Window.requests
    fast_api_scaff.RateLimit.Middleware.should_limit
    fast_api_scaff.RateLimit.Middleware.client_identity fast_api_scaff.RateLimit.Middleware.call
    fast_api_scaff.RateLimit.Admission.call_all fast_api_scaff.Users.User.History.change
    fast_api_scaff.Users.User.History.change_all fast_api_scaff.Queue.Job.matches_reference
    fast_api_scaff.Queue.Job.validate_job_reference fast_api_scaff.Queue.Job.contains
    fast_api_scaff.Queue.Job.find_decoder fast_api_scaff.Queue.Job.job_type_path
    fast_api_scaff.Queue.Job.job_reference fast_api_scaff.Queue.Job.validate_each
    fast_api_scaff.Queue.Job.validate_legacy_references fast_api_scaff.Queue.Job.describe_job
    fast_api_scaff.Queue.Job.decoder_for fast_api_scaff.Queue.Job.encode
    fast_api_scaff.Queue.Resolver.find_binding fast_api_scaff.Queue.Resolver.take_references
    fast_api_scaff.Queue.Resolver.insert_descriptor fast_api_scaff.Queue.Resolver.bind_versions
    fast_api_scaff.Queue.Resolver.bind_references fast_api_scaff.Queue.Resolver.add_job_type
    fast_api_scaff.Queue.Resolver.add_job_types fast_api_scaff.Queue.Resolver.resolve
    fast_api_scaff.Queue.Binding.execute fast_api_scaff.Queue.Binding.receive
    fast_api_scaff.Queue.Envelope.is_valid fast_api_scaff.Queue.Envelope.encode
    fast_api_scaff.Queue.Envelope.decode fast_api_scaff.Queue.Dispatcher.is_queue_name
    fast_api_scaff.Queue.Dispatcher.ensure_open fast_api_scaff.Queue.Dispatcher.resolve_name
    fast_api_scaff.Queue.Dispatcher.get_backend fast_api_scaff.Queue.Dispatcher.get
    fast_api_scaff.Queue.Dispatcher.send fast_api_scaff.Queue.Dispatcher.publish_envelope
    fast_api_scaff.Queue.Dispatcher.encode_job fast_api_scaff.Queue.Dispatcher.dispatch
    fast_api_scaff.Queue.Dispatcher.replay
evaluation = 0

abbrev lower_code : ℕ → ℕ
lower_code c = if leb b'A' c && leb c b'Z' then c + 32 else c

abbrev lower_text : Text → Text
lower_text [] = []
lower_text (c ∷ t) = lower_code c ∷ lower_text t

pub lower_text-lower_text : (t : Text) → lower_text (lower_text t) ≡ lower_text t
lower_text-lower_text [] = refl
lower_text-lower_text (c ∷ t) = ground (arith, lower_text-lower_text t)

abbrev is_ascii_space : ℕ → Bool
is_ascii_space c = (leb 9 c && leb c 13) || c == 32

pub word-not_ascii_space : (c : ℕ) → is_word c ≡ true → is_ascii_space c ≡ false
word-not_ascii_space c h = ground arith

abbrev pub ascii : Unicode
ascii = record {
  is_space = is_ascii_space;
  lower = lower_text;
  lower-lower = lower_text-lower_text;
  word-not_space = word-not_ascii_space;
  at-not_space = refl;
  dot-not_space = refl;
}

abbrev pub digest : Text
digest = codes "e3b0c44298fc1c149afbf4c8996fb92427ae41e4649b934ca495991b7852b855"

abbrev hash_of : ℕ → Text → Text
hash_of salt password = salt ∷ password

abbrev matches_hash : Text → Text → Option Bool
matches_hash password [] = none
matches_hash password (salt ∷ hashed) = some (text_eq hashed password)

pub matches_hash-hash_of :
    (salt : ℕ) (password : Text) → matches_hash password (hash_of salt password) ≡ some true
matches_hash-hash_of salt password = rw (text_eq_refl password) refl

-- The hash is the salt and the password, and every text has the same digest.
abbrev pub toy_crypto : Crypto
toy_crypto = record {
  hash_text = hash_of;
  verify = matches_hash;
  sha256 = λ t. digest;
  verify-hash_text = matches_hash-hash_of;
  sha256_hex = λ t. refl;
  length-sha256 = λ t. refl;
}

abbrev pub driver : Constraint → DriverError
driver broken = mysql_error (codes "alice") (codes "users.username")

abbrev pub alone : Surroundings
alone = record { meanwhile = λ db. db; beside = λ db. db }

abbrev pub at : ℕ → DateTime
at ticks = record { ticks = ticks; aware = false }

abbrev pub alice : UserRow
alice = record {
  id = 7;
  username = codes "alice";
  email = codes "alice@example.org";
  password = hash_of 1 (codes "correct horse");
  status = codes "active";
  created_at = at 100;
  updated_at = at 100;
  version = 1;
}

abbrev pub one_user : Database
one_user = record { users = alice ∷ []; sessions = [] }

abbrev pub old_session : SessionRow
old_session = record {
  token_digest = digest;
  user_id = 7;
  issued_at = at 200;
  expires_at = at 9000000;
}

abbrev pub one_session : Database
one_session = record { users = alice ∷ []; sessions = old_session ∷ [] }

-- Three failures lock every name for a minute.
abbrev pub three_failures : LoginAttemptLimiter
three_failures = record {
  State = ℕ;
  retry_after = λ name n. (ok (if leb 3 n then some 60 else none), n);
  record_failure = λ name n. (
    ok (record {
      remaining_attempts = 2 - n;
      retry_after_seconds = if leb 2 n then some 60 else none;
    }),
    n + 1,
  );
  clear = λ name n. (ok tt, if ltb n 3 then 0 else n);
}

abbrev pub world : World ℕ
world = record { db = one_user; attempts = 1 }
