-- ===== src/Redis.antt =====
-- The commands of a Redis server that the code sends. The server is not part of the repository, so it
-- is a parameter, and its documented behaviour are the laws of `Documented`. What the client library
-- reports as an error of the server is `cache_operation_error` after the adapter of the cache.
pub mod Decimal
use fast_api_scaff.Prelude.{ℕ, ◌+◌, ◌^◌, ◌-◌, ◌<◌, ◌≡◌, Bool, true, Option, none, some, Text}
use fast_api_scaff.Users.Errors.{Error}
use fast_api_scaff.Redis.Decimal.{decimal}

-- The replies -2 and -1 of TTL and PTTL, and a time that is left.
pub data Ttl : Type 0 where
  missing persistent : Ttl
  left : ℕ → Ttl

-- `connect` is the client factory, which may raise an error of the cache. INCR may reply with an
-- error. `ttl` is in seconds, `pttl` in milliseconds; `set_px` is SET with the option PX.
pub record Redis : Type 1 where
  pub Store : Type 0
  pub connect : Store → Option Error
  pub get : Text → Store → Option Text
  pub ttl : Text → Store → Ttl
  pub pttl : Text → Store → Ttl
  pub set_px : Text → Text → ℕ → Store → Store
  pub incr : Text → Store → Option ℕ × Store
  pub expire : Text → ℕ → Store → Bool × Store
  pub del : Text → Store → ℕ × Store

-- INCR counts from 0, up to a signed integer of 64 bits, and leaves the expiry as it is; EXPIRE sets the
-- expiry of a key that is there, and says whether it is; DEL deletes.
-- SET writes a value and its expiry.
pub record Documented (redis : Redis) : Type 0 where
  pub incr-missing :
      (key : Text) (s : redis.Store) → redis.get key s ≡ none → (redis.incr key s).0 ≡ some 1
  pub get-incr-missing :
      (key : Text) (s : redis.Store)
      → redis.get key s ≡ none
      → redis.get key (redis.incr key s).1 ≡ some (decimal 1)
  pub incr-some :
      (key : Text) (n : ℕ) (s : redis.Store)
      → redis.get key s ≡ some (decimal n)
      → n < 2 ^ 63 - 1
      → (redis.incr key s).0 ≡ some (n + 1)
  pub get-incr-some :
      (key : Text) (n : ℕ) (s : redis.Store)
      → redis.get key s ≡ some (decimal n)
      → n < 2 ^ 63 - 1
      → redis.get key (redis.incr key s).1 ≡ some (decimal (n + 1))
  pub expire-some :
      (key : Text) (t : ℕ) (value : Text) (s : redis.Store)
      → redis.get key s ≡ some value
      → 0 < t
      → (redis.expire key t s).0 ≡ true
  pub get-expire :
      (key : Text) (t : ℕ) (value : Text) (s : redis.Store)
      → redis.get key s ≡ some value
      → 0 < t
      → redis.get key (redis.expire key t s).1 ≡ some value
  pub ttl-expire :
      (key : Text) (t : ℕ) (value : Text) (s : redis.Store)
      → redis.get key s ≡ some value
      → 0 < t
      → redis.ttl key (redis.expire key t s).1 ≡ left t
  pub get-del : (key : Text) (s : redis.Store) → redis.get key (redis.del key s).1 ≡ none
  pub del-some :
      (key : Text) (value : Text) (s : redis.Store)
      → redis.get key s ≡ some value
      → (redis.del key s).0 ≡ 1
  pub pttl-incr :
      (key : Text) (value : Text) (s : redis.Store)
      → redis.get key s ≡ some value
      → redis.pttl key (redis.incr key s).1 ≡ redis.pttl key s
  pub get-set_px :
      (key value : Text) (t : ℕ) (s : redis.Store)
      → 0 < t
      → redis.get key (redis.set_px key value t s) ≡ some value
  pub pttl-set_px :
      (key value : Text) (t : ℕ) (s : redis.Store)
      → 0 < t
      → redis.pttl key (redis.set_px key value t s) ≡ left t
