-- ===== src/Users/Login/Success.antt =====
-- What is known once a login has returned a token.
use fast_api_scaff.Prelude.{
  ℕ, ◌≡◌, refl, Bool, true, ◌&&◌, Option, none, some, arith, ◌==◌, Text, text_eq_iff, Result, ok,
  err, ◌>>=◌, Result-cases, inl, inr, Bool-cases, any, and-eq_true,
}
use fast_api_scaff.DateTime.{DateTime}
use fast_api_scaff.Users.Errors.{Error, DriverError}
use fast_api_scaff.Users.Unicode.{Unicode}
use fast_api_scaff.Users.Values.{UserStatus, active, disabled, Username, normalize, new_username}
use fast_api_scaff.Users.User.{User, rehydrate}
use fast_api_scaff.Users.Session.{UserSession}
use fast_api_scaff.Users.Tables.{Database, UserRow, user_to_domain}
use fast_api_scaff.Users.Sql.{Constraint, first}
use fast_api_scaff.Users.Transaction.{begin, transaction}
use fast_api_scaff.Users.Repository.{find_by_username, to_domain?}
use fast_api_scaff.Users.Crypto.{Crypto, verify_or_dummy}
use fast_api_scaff.Users.LoginAttempts.{LoginAttemptLimiter}
use fast_api_scaff.Users.AuthService.{
  LoginCommand, TokenDto, World, TxWorld, attempt, attempt_in, session_in, on_database,
  login_transaction, same_status, raise_if_locked, reject_credentials,
}
use fast_api_scaff.Users.Login.{
  Others, hash_of, open_session, unchanged, recheck, second_transaction, after_verification,
  login_as, login,
}
use fast_api_scaff.Users.Login.Store.{at_commit, with_session, find-begin, store_session-eq_ok}

same_status_sound : (s : UserStatus) → same_status s active ≡ true → s ≡ active
same_status_sound active h = refl
same_status_sound disabled h = cc

pub user_to_domain-eq_ok :
    (unicode : Unicode) (row : UserRow) (u : User)
    → user_to_domain unicode row ≡ ok u
    → (u.id ≡ row.id) × (new_username unicode row.username ≡ ok u.username)
unfolding user_to_domain rehydrate
user_to_domain-eq_ok unicode row u h = ground arith

-- A user of the database, as the domain reads it.
abbrev pub Stored : Unicode → Database → User → Type 0
Stored unicode db u =
    to_domain? (user_to_domain unicode) (first (λ row. row.id == u.id) db.users) ≡ ok (some u)

module _ (unicode : Unicode) (driver : Constraint → DriverError) (crypto : Crypto)
    (limiter : LoginAttemptLimiter) (configured : Bool) (beside : Others) (token : Text)
    (now : DateTime) (ttl : ℕ) where
  open limiter use {State}

  -- A user who was active with this password and name, and the session that was stored for them.
  pub record LoggedIn (snapshot u : User) (db : Database) : Type 0 where
    pub before : Database
    pub session : UserSession
    pub status : u.status ≡ active
    pub password_hash : u.password_hash.value ≡ snapshot.password_hash.value
    pub username : u.username.value ≡ snapshot.username.value
    pub found :
        to_domain? (user_to_domain unicode) (first (λ row. row.id == snapshot.id) before.users)
        ≡ ok (some u)
    pub opened : open_session (crypto.sha256 token) u now ttl ≡ ok session
    pub stored : db ≡ with_session session (at_commit beside now before)
    pub owned : any (λ row. row.id == session.user_id) (at_commit beside now before).users ≡ true

  rejected :
      (identity : Text) (l l' : State) (u : User)
      → reject_credentials limiter configured {A = User} identity l ≡ (ok u, l')
      → ⊥
  unfolding reject_credentials ◌>>=◌
  rejected identity l l' u h = ground arith

  unchanged_sound :
      (snapshot u : User)
      → unchanged snapshot u ≡ true
      → (u.status ≡ active)
        × (u.password_hash.value ≡ snapshot.password_hash.value)
        × (u.username.value ≡ snapshot.username.value)
  unfolding unchanged
  unchanged_sound snapshot u h = ground (
    arith,
    same_status_sound u.status,
    text_eq_iff u.password_hash.value snapshot.password_hash.value,
    text_eq_iff u.username.value snapshot.username.value,
  )

  recheck-eq_ok :
      (identity : Text) (snapshot : User) (db : Database) (l : State) (found : Option User)
      (u : User) (t : TxWorld State)
      → to_domain? (user_to_domain unicode) (first (λ row. row.id == snapshot.id) db.users)
        ≡ ok found
      → recheck unicode driver crypto limiter configured beside identity token snapshot now ttl
          found
          (record { tx = begin db; attempts = l })
        ≡ (ok u, t)
      → LoggedIn snapshot u t.tx.committed
  unfolding recheck attempt_in
  recheck-eq_ok identity snapshot db l none u t f h = absurd (
      rejected identity l (reject_credentials limiter configured {A = User} identity l).1 u
        (ground arith))
  recheck-eq_ok identity snapshot db l (some current) u t f h =
      elim (Bool-cases (unchanged snapshot current)) [
        | inr no_more ↦ absurd (
            rejected identity l (reject_credentials limiter configured {A = User} identity l).1 u
              (ground arith))
        | inl same ↦
            let (status, hash, name) = unchanged_sound snapshot current same in
            let (s, e, eq, stored, owned) =
              store_session-eq_ok unicode driver crypto limiter configured beside identity token
                current now ttl db l u t (rw same at h) in
            record {
              before = db;
              session = s;
              status = rw eq status;
              password_hash = rw eq hash;
              username = rw eq name;
              found = rw eq f;
              opened = rw eq e;
              stored = stored;
              owned = owned;
            }
      ]

  second_transaction-eq_ok :
      (identity : Text) (snapshot : User) (db : Database) (l : State) (u : User) (t : TxWorld State)
      → second_transaction unicode driver crypto limiter configured beside identity token snapshot
          now ttl
          (record { tx = begin db; attempts = l })
        ≡ (ok u, t)
      → LoggedIn snapshot u t.tx.committed
  unfolding second_transaction session_in ◌>>=◌
  second_transaction-eq_ok identity snapshot db l u t h =
      let k = rw (find-begin unicode driver snapshot.id db) at h in
      elim (Result-cases
        (to_domain? (user_to_domain unicode) (first (λ row. row.id == snapshot.id) db.users))) [
          | inl (found, e) ↦ recheck-eq_ok identity snapshot db l found u t e (rw e at k)
          | inr (c, e) ↦ ground arith
        ]

  after_verification-eq_ok :
      (identity : Text) (found : Option User) (verified : Bool) (w : World State) (u : User)
      (w' : World State)
      → after_verification unicode driver crypto limiter configured beside identity token now ttl
          found verified w
        ≡ (ok u, w')
      → (snapshot : User) × (found ≡ some snapshot) × (verified ≡ true) × LoggedIn snapshot u w'.db
  unfolding after_verification attempt login_transaction
  after_verification-eq_ok identity none verified w u w' h = absurd (
      rejected identity w.attempts
        (reject_credentials limiter configured {A = User} identity w.attempts).1 u (ground arith))
  after_verification-eq_ok identity (some snapshot) verified w u w' h =
      elim (Bool-cases (verified && same_status snapshot.status active)) [
        | inr wrong ↦ absurd (
            rejected identity w.attempts
              (reject_credentials limiter configured {A = User} identity w.attempts).1 u
              (ground arith))
        | inl right ↦
            let t =
              (second_transaction unicode driver crypto limiter configured beside identity token
                snapshot now ttl (record { tx = begin w.db; attempts = w.attempts })).1 in
            let same : w'.db ≡ t.tx.committed = ground arith in
            (
              snapshot,
              refl,
              (and-eq_true verified _ right).0,
              rw same
                  (second_transaction-eq_ok identity snapshot w.db w.attempts u t (ground arith)),
            )
      ]

  module _ (during : World State → World State) where
    login_as-eq_ok :
        (identity password : Text) (name : Result Error Username) (w : World State) (u : User)
        (w' : World State)
        → login_as unicode driver crypto limiter configured beside during token now ttl identity
            password name w
          ≡ (ok u, w')
        → (username : Username) × (snapshot : User) × (name ≡ ok username)
          × ((find_by_username unicode driver username (begin w.db)).0 ≡ ok (some snapshot))
          × (verify_or_dummy crypto password (some snapshot.password_hash) ≡ ok true)
          × LoggedIn snapshot u w'.db
    unfolding login_as ◌>>=◌ attempt on_database transaction
    login_as-eq_ok identity password (err e) w u w' h = absurd (
        ground (
          arith,
          rejected identity w.attempts
              (reject_credentials limiter configured {A = User} identity w.attempts).1 u,
        ))
    login_as-eq_ok identity password (ok username) w u w' h =
        let first_state = (find_by_username unicode driver username (begin w.db)).1 in
        let w₁ : World State = during (record w { db = first_state.committed }) in
        elim (Result-cases (find_by_username unicode driver username (begin w.db)).0) [
          | inr (c, e) ↦ ground arith
          | inl (found, e) ↦ elim (Result-cases (verify_or_dummy crypto password (hash_of found))) [
            | inr (c, v) ↦ ground arith
            | inl (verified, v) ↦
                let (snapshot, same, yes_verified, done) =
                  after_verification-eq_ok identity found verified w₁ u w' (ground arith) in
                (username, snapshot, refl, ground arith, ground arith, done)
          ]
        ]

    -- A login that returns, at the state it returns in: the normalized name was that of a stored
    -- user when it began, the password was verified against that user's hash, and that user was
    -- active with this hash and name in the database `before` of the second look. The database it
    -- leaves is what others have made of `before`, before and after the deletion of the expired
    -- sessions, with a session of that user for the token added; the user is still in it.
    pub login-eq_ok :
        (command : LoginCommand) (w : World State) (t : TokenDto) (w' : World State)
        → login unicode driver crypto limiter configured beside during token now ttl command w
          ≡ (ok t, w')
        → (username : Username) × (snapshot : User) × (u : User) × (new_username unicode
              command.username
            ≡ ok username)
          × ((find_by_username unicode driver username (begin w.db)).0 ≡ ok (some snapshot))
          × (verify_or_dummy crypto command.password (some snapshot.password_hash) ≡ ok true)
          × LoggedIn snapshot u w'.db
          × (t ≡ record { access_token = token; expires_in = ttl; user_id = u.id })
    unfolding login ◌>>=◌ attempt
    login-eq_ok command w t w' h =
        let identity = normalize unicode command.username in
        let name = new_username unicode command.username in
        let w₁ : World State = record w {
          attempts = (raise_if_locked limiter configured identity w.attempts).1;
        } in
        elim (Result-cases (raise_if_locked limiter configured identity w.attempts).0) [
          | inr (c, e) ↦ ground arith
          | inl (free, e) ↦
              elim (Result-cases
                (login_as unicode driver crypto limiter configured beside during token now ttl
                  identity command.password name w₁).0) [
                    | inr (c, e') ↦ ground arith
                    | inl (u, e') ↦
                        let (username, snapshot, named, read, verified, done) =
                          login_as-eq_ok identity command.password name w₁ u w' (ground arith) in
                        (username, snapshot, u, named, read, verified, done, ground arith)
                  ]
        ]
