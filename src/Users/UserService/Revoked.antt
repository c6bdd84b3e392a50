-- ===== src/Users/UserService/Revoked.antt =====
-- The sessions that the use cases on users revoke.
use fast_api_scaff.Prelude.{
  ℕ, ◌≡◌, refl, Bool, false, not, List, [], ◌∷◌, arith, ◌==◌, any, select, ok, Action, raise_if,
  ◌>>=◌, ◌>>◌, Result-cases, Bool-cases, inl, inr, >>=-eq_ok,
}
use fast_api_scaff.DateTime.{DateTime}
use fast_api_scaff.Users.Errors.{Error, DriverError, user_not_found}
use fast_api_scaff.Users.Unicode.{Unicode}
use fast_api_scaff.Users.User.{User}
use fast_api_scaff.Users.Tables.{Database, SessionRow}
use fast_api_scaff.Users.Sql.{Constraint, delete_user}
use fast_api_scaff.Users.Transaction.{
  TxState, Tx, begin, commit, execute, flush, run, send_all, transaction,
}
use fast_api_scaff.Users.Repository.{remove}
use fast_api_scaff.Users.Crypto.{Crypto}
use fast_api_scaff.Users.Service.{Surroundings}
use fast_api_scaff.Users.UserService.{delete}

module _ {A : Type 0} where
  any-select-not : (p : A → Bool) (xs : List A) → any p (select (λ x. not (p x)) xs) ≡ false
  any-select-not p [] = refl
  any-select-not p (x ∷ xs) = ground (arith, any-select-not p xs)

-- What holds of the value and the state when an action succeeds.
record Ends {S A : Type 0} (Q : A → S → Type 0) (m : Action Error S A) : Type 0 where
  at : (s : S) (a : A) (s' : S) → m s ≡ (ok a, s') → Q a s'

-- No session of this user is left.
abbrev pub Revoked : ℕ → Database → Type 0
Revoked id db = any (λ s. s.user_id == id) db.sessions ≡ false

module _ {A : Type 0} {Q : A → Database → Type 0} where
  Ends-transaction :
      (body : Tx A) → Ends (λ a (s : TxState). Q a s.committed) body → Ends Q (transaction body)
  unfolding transaction
  Ends-transaction body e = record {
    at = λ db a db' h. elim (Result-cases (body (begin db)).0) [
      | inl (a', k) ↦
          let t = (body (begin db)).1 in
          let same : db' ≡ t.committed = ground arith in
          let same_value : a ≡ a' = ground arith in
          rw same (rw same_value (e.at (begin db) a' t (ground arith)))
      | inr (c, k) ↦ ground arith
    ];
  }

module _ (driver : Constraint → DriverError) where
  remove-eq_ok :
      (id : ℕ) (removed : Bool) (s s' : TxState)
      → remove driver id s ≡ (ok removed, s')
      → (s'.pending ≡ []) × (Revoked id s'.working)
  unfolding remove execute flush run delete_user ◌>>=◌
  remove-eq_ok id n s s' h = elim (Result-cases (send_all s.pending s.working)) [
    | inl (db, e) ↦ ground (arith, any-select-not (λ (r : SessionRow). r.user_id == id) db.sessions)
    | inr (c, e) ↦ ground arith
  ]

  commit-eq_ok :
      (u : Unit) (s s' : TxState)
      → s.pending ≡ []
      → commit driver s ≡ (ok u, s')
      → s'.committed ≡ s.working
  unfolding commit flush send_all
  commit-eq_ok u s s' p h = ground arith

  Ends-delete :
      (id : ℕ)
      → Ends
          (λ _ (s : TxState). Revoked id s.committed)
          (remove driver id >>= λ removed.
            raise_if (not removed) (user_not_found id) >> commit driver)
  unfolding ◌>>=◌
  Ends-delete id = record {
    at = λ s u s' h.
        let (removed, t, e, k) =
          >>=-eq_ok (remove driver id)
            (λ removed. raise_if (not removed) (user_not_found id) >> commit driver) s h in
        let (sent, gone) = remove-eq_ok id removed s t e in
        elim (Bool-cases removed) [
          | inl there ↦ rw (commit-eq_ok u t s' sent (ground arith)) gone
          | inr missing ↦ ground arith
        ];
  }

module _ (unicode : Unicode) (driver : Constraint → DriverError) (around : Surroundings)
    (now : DateTime) where
  -- When `delete` returns, no session of the user is left.
  pub delete-Revoked :
      (id : ℕ) (db db' : Database) → delete unicode driver id db ≡ (ok tt, db') → Revoked id db'
  unfolding delete
  delete-Revoked id db db' h = (Ends-transaction _ (Ends-delete driver id)).at db tt db' h
