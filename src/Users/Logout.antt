-- ===== src/Users/Logout.antt =====
-- `AuthApplicationService.logout`, then `current_user` with the same token.
use fast_api_scaff.Prelude.{
  ◌≡◌, refl, Bool, not, none, List, [], ◌∷◌, arith, Text, text_eq, select, ok, err, ◌>>=◌,
}
use fast_api_scaff.DateTime.{DateTime}
use fast_api_scaff.Users.Errors.{DriverError, authentication_required}
use fast_api_scaff.Users.Unicode.{Unicode}
use fast_api_scaff.Users.Tables.{Database, SessionRow}
use fast_api_scaff.Users.Sql.{Constraint, first, delete_sessions}
use fast_api_scaff.Users.Transaction.{
  transaction, commit, execute, query, flush, run, send_all, translate,
}
use fast_api_scaff.Users.Repository.{to_domain?}
use fast_api_scaff.Users.SessionRepository
use fast_api_scaff.Users.Crypto.{Crypto}
use fast_api_scaff.Users.AuthService.{current_user, logout}

first-select-not :
    {A : Type 0} (p : A → Bool) (xs : List A) → first p (select (λ x. not (p x)) xs) ≡ none
first-select-not p [] = refl
first-select-not p (x ∷ xs) = ground (arith, first-select-not p xs)

module _ (unicode : Unicode) (driver : Constraint → DriverError) (crypto : Crypto) where
  logout-committed :
      (token : Text) (db : Database)
      → transaction (logout unicode driver crypto token) db ≡ (
        ok tt,
        record db {
          sessions = select (λ s. not (text_eq s.token_digest (crypto.sha256 token))) db.sessions;
        },
      )
  unfolding transaction logout SessionRepository.remove execute flush run send_all commit
      delete_sessions ◌>>=◌
  logout-committed token db = ground arith

  absent :
      (token : Text) (now : DateTime) (db : Database)
      → first (λ s. text_eq s.token_digest (crypto.sha256 token)) db.sessions ≡ none
      → transaction (current_user unicode driver crypto now token) db
        ≡ (err authentication_required, db)
  unfolding transaction current_user SessionRepository.find to_domain? query execute flush run
      send_all translate ◌>>=◌
  absent token now db h = ground arith

  -- `logout` succeeds with every token, keeps the users, and `current_user` then rejects the token.
  pub current_user-logout :
      (token : Text) (now : DateTime) (db : Database)
      → (db' : Database) × (transaction (logout unicode driver crypto token) db ≡ (ok tt, db'))
        × (db'.users ≡ db.users)
        × (transaction (current_user unicode driver crypto now token) db'
            ≡ (err authentication_required, db'))
  current_user-logout token now db =
      let digest = crypto.sha256 token in
      let db' : Database = record db {
        sessions = select (λ s. not (text_eq s.token_digest digest)) db.sessions;
      } in
      (
        db',
        logout-committed token db,
        refl,
        absent token now db'
            (first-select-not (λ (s : SessionRow). text_eq s.token_digest digest) db.sessions),
      )
