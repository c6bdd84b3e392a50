-- ===== src/Examples/Servers.antt =====
-- A server of keys with counts, and a limiter of two failures over it.
use fast_api_scaff.Prelude.{
  ℕ, ◌+◌, ◌-◌, ◌*◌, ◌/◌, ◌≡◌, refl, true, Bool, Option, none, some, Text, text_eq, text_eq_refl,
  if◌then◌else◌, false, arith, [], ◌∷◌, List,
}
use fast_api_scaff.Redis.{Redis, Documented, Ttl, missing, persistent, left}
use fast_api_scaff.Redis.Decimal.{decimal, number, number-decimal}
use fast_api_scaff.Users.RedisLoginAttempts.{Limits}
use fast_api_scaff.Users.RedisLoginAttempts.Traces.{Operation, asks, fails, succeeds}
use fast_api_scaff.Examples.{digest}

-- A key's value and its expiry in milliseconds.
abbrev pub Keys : Type 0
Keys = Text → Option (Text × Option ℕ)

abbrev put : Text → Option (Text × Option ℕ) → Keys → Keys
put key entry s other = if text_eq key other then entry else s other

abbrev value_of : Option (Text × Option ℕ) → Option Text
value_of none = none
value_of (some (value, expiry)) = some value

abbrev ttl_of : Option (Text × Option ℕ) → Ttl
ttl_of none = missing
ttl_of (some (value, none)) = persistent
ttl_of (some (value, some t)) = left ((t + 500) / 1000)

abbrev pttl_of : Option (Text × Option ℕ) → Ttl
pttl_of none = missing
pttl_of (some (value, none)) = persistent
pttl_of (some (value, some t)) = left t

abbrev incremented : Option (Text × Option ℕ) → ℕ × Option ℕ
incremented none = (1, none)
incremented (some (value, expiry)) = (number value + 1, expiry)

abbrev incr_key : Text → Keys → Option ℕ × Keys
incr_key key s =
    let (n, expiry) = incremented (s key) in (some n, put key (some (decimal n, expiry)) s)

abbrev expiring : ℕ → Option (Text × Option ℕ) → Bool × Option (Text × Option ℕ)
expiring t none = (false, none)
expiring t (some (value, expiry)) = (true, some (value, some (t * 1000)))

abbrev pub server : Redis
server = record {
  Store = Keys;
  connect = λ s. none;
  get = λ key s. value_of (s key);
  ttl = λ key s. ttl_of (s key);
  pttl = λ key s. pttl_of (s key);
  set_px = λ key value t s. put key (some (value, some t)) s;
  incr = incr_key;
  expire = λ key t s. let (found, entry) = expiring t (s key) in (found, put key entry s);
  del = λ key s. (elim (s key) [ none ↦ 0 | some _ ↦ 1 ], put key none s);
}

value_of-some :
    (entry : Option (Text × Option ℕ)) (value : Text)
    → value_of entry ≡ some value
    → (expiry : Option ℕ) × (entry ≡ some (value, expiry))
value_of-some none value h = cc
value_of-some (some (v, expiry)) value h = (expiry, ground arith)

value_of-none : (entry : Option (Text × Option ℕ)) → value_of entry ≡ none → entry ≡ none
value_of-none none h = refl
value_of-none (some (v, expiry)) h = cc

pttl-incremented :
    (entry : Option (Text × Option ℕ)) (value : Text)
    → value_of entry ≡ some value
    → pttl_of (some (decimal (incremented entry).0, (incremented entry).1)) ≡ pttl_of entry
pttl-incremented none value h = cc
pttl-incremented (some (v, none)) value h = refl
pttl-incremented (some (v, some t)) value h = refl

pub server-Documented : Documented server
server-Documented = record {
  incr-missing = λ key s h. rw (value_of-none (s key) h) refl;
  get-incr-missing = λ key s h. rw (text_eq_refl key) (rw (value_of-none (s key) h) refl);
  incr-some =
      λ key n s h small. rw (value_of-some (s key) (decimal n) h).1 (rw (number-decimal n) refl);
  get-incr-some = λ key n s h small.
      rw (text_eq_refl key)
        (rw (value_of-some (s key) (decimal n) h).1 (rw (number-decimal n) refl));
  expire-some = λ key t value s h positive. rw (value_of-some (s key) value h).1 refl;
  get-expire =
      λ key t value s h positive. rw (text_eq_refl key) (rw (value_of-some (s key) value h).1 refl);
  ttl-expire = λ key t value s h positive.
      rw (text_eq_refl key) (rw (value_of-some (s key) value h).1 (ground arith));
  get-del = λ key s. rw (text_eq_refl key) refl;
  del-some = λ key value s h. rw (value_of-some (s key) value h).1 refl;
  pttl-incr = λ key value s h. rw (text_eq_refl key) (pttl-incremented (s key) value h);
  get-set_px = λ key value t s positive. rw (text_eq_refl key) refl;
  pttl-set_px = λ key value t s positive. rw (text_eq_refl key) refl;
}

abbrev limits : Limits
limits = record { max_failures = 2; failure_window_seconds = 300; lock_seconds = 900 }

abbrev pub still : Keys → Keys
still s = s

abbrev pub sha256 : Text → Text
sha256 text = digest

abbrev pub prefixed : Text → Text
prefixed key = key

abbrev pub no_keys : Keys
no_keys key = none

abbrev attempts : List Operation
attempts = fails ∷ asks ∷ succeeds ∷ fails ∷ fails ∷ succeeds ∷ asks ∷ []

-- Two seconds pass, for every key that expires.
abbrev passing : Option (Text × Option ℕ) → Option (Text × Option ℕ)
passing none = none
passing (some (value, none)) = some (value, none)
passing (some (value, some t)) = some (value, some (t - 2000))

abbrev two_seconds : Keys → Keys
two_seconds s key = passing (s key)
