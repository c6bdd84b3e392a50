-- ===== src/Users/Service/Keeps.antt =====
-- The shared steps of the use cases keep what the repositories keep.
use fast_api_scaff.Prelude.{ℕ, Option, some}
use fast_api_scaff.Prelude.Rules.{Keeps, fails_rules}
use fast_api_scaff.Users.Errors.{DriverError}
use fast_api_scaff.Users.Values.{Username, EmailAddress, UserStatus, active, disabled}
use fast_api_scaff.Users.User.{User}
use fast_api_scaff.Users.Sql.{Constraint}
use fast_api_scaff.Users.Transaction.{TxState}
use fast_api_scaff.Users.Transaction.Atomic.{
  Keeps-add, Keeps-others, Fails-commit, Keeps-transaction, Fails-transaction,
}
use fast_api_scaff.Users.Repository.Keeps.{IsInvariant, repository_rules}
use fast_api_scaff.Users.Service.{
  update_or_raise, ensure_unique_values, ensure_unique, revoke_if_disabled,
}

pub ruleset rules = (
  fails_rules, repository_rules, Keeps-add, Keeps-others, Fails-commit, Keeps-transaction,
  Fails-transaction,
)

module _ (driver : Constraint → DriverError) {P : TxState → Type 0}
    (inv : IsInvariant driver P) where
  pub Keeps-update_or_raise : (u : User) → Keeps P (update_or_raise driver u)
  unfolding update_or_raise
  Keeps-update_or_raise u = search rules

  pub Keeps-ensure_unique_values :
      (n : Username) (a : EmailAddress) (id : Option ℕ)
      → Keeps P (ensure_unique_values driver n a id)
  unfolding ensure_unique_values
  Keeps-ensure_unique_values n a id = search rules

  pub Keeps-ensure_unique : (u : User) → Keeps P (ensure_unique driver u)
  unfolding ensure_unique
  Keeps-ensure_unique u = Keeps-ensure_unique_values u.username u.email (some u.id)

  pub Keeps-revoke_if_disabled :
      (status : UserStatus) (id : ℕ) → Keeps P (revoke_if_disabled driver status id)
  unfolding revoke_if_disabled
  Keeps-revoke_if_disabled active id = search rules
  Keeps-revoke_if_disabled disabled id = search rules

pub ruleset service_rules = (
  rules, Keeps-update_or_raise, Keeps-ensure_unique_values, Keeps-ensure_unique,
  Keeps-revoke_if_disabled,
)
