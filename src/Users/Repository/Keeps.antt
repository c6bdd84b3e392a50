-- ===== src/Users/Repository/Keeps.antt =====
-- The repositories keep every invariant of a transaction's state that the statements keep which
-- they send.
use fast_api_scaff.Prelude.{ℕ, Option, Text, ok, Bool, true, false}
use fast_api_scaff.Prelude.Rules.{Keeps, keeps_rules}
use fast_api_scaff.DateTime.{DateTime}
use fast_api_scaff.Users.Errors.{DriverError}
use fast_api_scaff.Users.Unicode.{Unicode}
use fast_api_scaff.Users.Values.{Username, EmailAddress}
use fast_api_scaff.Users.User.{User}
use fast_api_scaff.Users.Session.{UserSession}
use fast_api_scaff.Users.Tables.{Database, SessionRow, user_update_values}
use fast_api_scaff.Users.Sql.{Constraint, update_user, delete_user, delete_sessions}
use fast_api_scaff.Users.Transaction.{TxState, Insert, execute, query, add}
use fast_api_scaff.Users.Transaction.Atomic.{Settled, Keeps-execute, Keeps-query, Keeps-add}
use fast_api_scaff.Users.Repository.{
  find, find_by_username, exists_by_username, exists_by_email, report, update, remove,
}
use fast_api_scaff.Users.SessionRepository.{remove_for_user}
use fast_api_scaff.Users.SessionRepository

module _ (driver : Constraint → DriverError) where
  pub record IsInvariant (P : TxState → Type 0) : Type 1 where
    pub query : {A : Type 0} (f : Database → A) → Keeps P (query driver f)
    pub update :
        (u : User) → Keeps P (execute driver (update_user u.id u.version (user_update_values u)))
    pub delete : (id : ℕ) → Keeps P (execute driver (λ db. ok (delete_user id db)))
    pub delete_sessions :
        (p : SessionRow → Bool) → Keeps P (execute driver (λ db. ok (delete_sessions p db)))
    pub add : (i : Insert) → Keeps P (add i)

  pub Settled-IsInvariant : (Q : Database → Type 0) → IsInvariant (Settled Q)
  Settled-IsInvariant Q = record {
    query = Keeps-query driver;
    update = λ u. Keeps-execute driver _;
    delete = λ id. Keeps-execute driver _;
    delete_sessions = λ p. Keeps-execute driver _;
    add = Keeps-add;
  }

  module _ {P : TxState → Type 0} (inv : IsInvariant P) where
    pub Keeps-find : (unicode : Unicode) (id : ℕ) → Keeps P (find unicode driver id)
    unfolding find
    Keeps-find unicode id = search (keeps_rules, inv.query)

    pub Keeps-find_by_username :
        (unicode : Unicode) (n : Username) → Keeps P (find_by_username unicode driver n)
    unfolding find_by_username
    Keeps-find_by_username unicode n = search (keeps_rules, inv.query)

    pub Keeps-exists_by_username :
        (n : Username) (id : Option ℕ) → Keeps P (exists_by_username driver n id)
    unfolding exists_by_username
    Keeps-exists_by_username n id = inv.query _

    pub Keeps-exists_by_email :
        (a : EmailAddress) (id : Option ℕ) → Keeps P (exists_by_email driver a id)
    unfolding exists_by_email
    Keeps-exists_by_email a id = inv.query _

    Keeps-report : (done : Bool) (u : User) → Keeps P (report driver done u)
    unfolding report
    Keeps-report true u = search keeps_rules
    Keeps-report false u = search (keeps_rules, inv.query)

    pub Keeps-update : (u : User) → Keeps P (update driver u)
    unfolding update
    Keeps-update u = search (keeps_rules, Keeps-report, inv.update u)

    pub Keeps-remove : (id : ℕ) → Keeps P (remove driver id)
    unfolding remove
    Keeps-remove id = search (keeps_rules, inv.delete id)

    pub Keeps-find_session : (digest : Text) → Keeps P (SessionRepository.find driver digest)
    unfolding SessionRepository.find
    Keeps-find_session digest = search (keeps_rules, inv.query)

    pub Keeps-remove_session : (digest : Text) → Keeps P (SessionRepository.remove driver digest)
    unfolding SessionRepository.remove
    Keeps-remove_session digest = search (keeps_rules, inv.delete_sessions)

    pub Keeps-remove_for_user : (id : ℕ) → Keeps P (remove_for_user driver id)
    unfolding remove_for_user
    Keeps-remove_for_user id = inv.delete_sessions _

    pub Keeps-remove_expired :
        (now : DateTime) → Keeps P (SessionRepository.remove_expired driver now)
    unfolding SessionRepository.remove_expired
    Keeps-remove_expired now = inv.delete_sessions _

pub Keeps-add_session :
    {P : TxState → Type 0} (s : UserSession)
    → ((i : Insert) → Keeps P (add i))
    → Keeps P (SessionRepository.add s)
unfolding SessionRepository.add
Keeps-add_session s k = k _

pub ruleset repository_rules = (
  keeps_rules, Settled-IsInvariant, Keeps-find, Keeps-find_by_username, Keeps-exists_by_username,
  Keeps-exists_by_email, Keeps-update, Keeps-remove, Keeps-find_session, Keeps-remove_session,
  Keeps-remove_for_user, Keeps-remove_expired, Keeps-add_session,
)
