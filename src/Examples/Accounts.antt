-- ===== src/Examples/Accounts.antt =====
-- Logins, sessions and use cases on the database of one user.
use fast_api_scaff.Prelude.{ℕ, ◌≡◌, refl, true, Text, codes, ok, some, [], ◌∷◌}
use fast_api_scaff.Users.Values.{Username, new_username}
use fast_api_scaff.Users.User.{User}
use fast_api_scaff.Users.Transaction.{begin}
use fast_api_scaff.Users.Repository.{find_by_username}
use fast_api_scaff.Users.Crypto.{verify_or_dummy}
use fast_api_scaff.Users.AuthService.{TokenDto, LoginCommand, World}
use fast_api_scaff.Users.Login.{Others, login}
use fast_api_scaff.Users.Login.Success.{LoggedIn, login-eq_ok}
use fast_api_scaff.Examples.{
  evaluation, ascii, toy_crypto, driver, three_failures, world, at, alice, old_session,
}

abbrev credentials : LoginCommand
credentials = record { username = codes " Alice "; password = codes "correct horse" }

abbrev token : Text
token = codes "0123456789012345678901234567890123456789abc"

abbrev answer : TokenDto
answer = record { access_token = token; expires_in = 3600; user_id = 7 }

-- Others issue another session, and expire all.
abbrev quiet : Others
quiet = record {
  before_write = λ db. record db { sessions = old_session ∷ db.sessions };
  before_commit = λ db. record db { sessions = [] };
}

-- Another administrator disables the account after its second look.
abbrev disabling : Others
disabling = record {
  before_write = λ db. record db { users = record alice { status = codes "disabled" } ∷ [] };
  before_commit = λ db. db;
}

abbrev after_login : Others → World ℕ
after_login beside =
    (login ascii driver toy_crypto three_failures true beside (λ w. w) token (at 500) 3600
      credentials world).1

disabled_run :
    login ascii driver toy_crypto three_failures true disabling
      (λ w. w)
      token
      (at 500)
      3600
      credentials
      world
    ≡ (ok answer, after_login disabling)
unfolding evaluation
disabled_run = refl

login-eq_ok_example :
    (username : Username) × (snapshot : User) × (u : User) × (new_username ascii (codes " Alice ")
      ≡ ok username)
    × ((find_by_username ascii driver username (begin world.db)).0 ≡ ok (some snapshot))
    × (verify_or_dummy toy_crypto (codes "correct horse") (some snapshot.password_hash) ≡ ok true)
    × LoggedIn ascii driver toy_crypto three_failures true disabling token
        (at 500)
        3600
        snapshot
        u
        (after_login disabling).db
    × (answer ≡ record { access_token = token; expires_in = 3600; user_id = u.id })
login-eq_ok_example =
    login-eq_ok ascii driver toy_crypto three_failures true disabling token (at 500) 3600 (λ w. w)
      credentials world answer (after_login disabling) disabled_run
