-- ===== src/RateLimit/Window.antt =====
-- The requests of one client within one window.
use fast_api_scaff.Prelude.{
  ℕ, suc, ◌+◌, ◌-◌, ◌*◌, ◌/◌, ◌^◌, ◌≡◌, ◌≤◌, ◌<◌, Bool, true, false, Option, none, some, List, [],
  ◌∷◌, All, length, leb, ◌==◌, if◌then◌else◌, Text, Result, ok, err, arith, Bool-cases, inl, inr,
  ◌∙◌, ==_iff,
}
use fast_api_scaff.Redis.{Redis, Documented, left}
use fast_api_scaff.Redis.Decimal.{decimal}
use fast_api_scaff.RateLimit.{RateLimitDecision, RateLimitError, Quota, quota_key, acquire}

module _ (redis : Redis) (key : Text) where
  -- What happens between two requests, as far as the key goes: it does not expire, and time passes.
  pub record Passing (meanwhile : redis.Store → redis.Store) : Type 0 where
    pub get : (s : redis.Store) → redis.get key (meanwhile s) ≡ redis.get key s
    pub pttl :
        (s : redis.Store) (t : ℕ)
        → redis.pttl key s ≡ left t
        → (u : ℕ) × (redis.pttl key (meanwhile s) ≡ left u) × (u ≤ t)

  -- The window is open, and `n` requests were admitted in it.
  pub record Open (window_ms n : ℕ) (s : redis.Store) : Type 0 where
    pub count : redis.get key s ≡ some (decimal n)
    pub rest : (t : ℕ) × (redis.pttl key s ≡ left t) × (t ≤ window_ms)

  pub Open-meanwhile :
      (window_ms n : ℕ) (s : redis.Store) (meanwhile : redis.Store → redis.Store)
      → Passing meanwhile
      → Open window_ms n s
      → Open window_ms n (meanwhile s)
  Open-meanwhile window_ms n s meanwhile passing open_ =
      let (t, e, bound) = open_.rest in
      let (u, f, less) = passing.pttl s t e in
      record { count = passing.get s ∙ open_.count; rest = (u, f, omega arith) }

abbrev pub admitted : Result RateLimitError RateLimitDecision → Bool
admitted (ok decision) = decision.allowed
admitted (err _) = false

abbrev pub admissions : List (Result RateLimitError RateLimitDecision) → ℕ
admissions [] = 0
admissions (reply ∷ replies) =
    let rest = admissions replies in if admitted reply then suc rest else rest

-- A refusal asks for a wait of at least a second, and no longer than the window.
abbrev pub Fair : Quota → Result RateLimitError RateLimitDecision → Type 0
Fair q (ok decision) =
    decision.allowed ≡ false
    → (1 ≤ decision.retry_after_seconds) × (decision.retry_after_seconds ≤ q.window_seconds)
Fair q (err _) = true ≡ false

abbrev pub minimum : ℕ → ℕ → ℕ
minimum a b = if leb a b then a else b

module _ (redis : Redis) (to_number : Text → Option ℕ) (sha256 build : Text → Text) (q : Quota)
    (identity : Text) where
  -- A request after each pause.
  unfoldable pub requests :
      List (redis.Store → redis.Store)
      → redis.Store
      → List (Result RateLimitError RateLimitDecision) × redis.Store
  requests [] s = ([], s)
  requests (pause ∷ pauses) s =
      let (reply, t) = acquire redis to_number sha256 build q identity (pause s) in
      let (replies, after) = requests pauses t in (reply ∷ replies, after)

module _ (redis : Redis) (laws : Documented redis) (to_number : Text → Option ℕ)
    (to_number-decimal : (n : ℕ) → n < 2 ^ 53 → to_number (decimal n) ≡ some n)
    (sha256 build : Text → Text) (q : Quota) (limit : 1 ≤ q.max_requests)
    (small : q.max_requests < 2 ^ 53) (window : 1 ≤ q.window_seconds)
    (connects : (s : redis.Store) → redis.connect s ≡ none) (identity : Text) where
  abbrev key : Text
  key = build (quota_key q (sha256 identity))

  -- The first request opens the window.
  pub acquire-first :
      (s : redis.Store)
      → redis.get key s ≡ none
      → (after : redis.Store) × (acquire redis to_number sha256 build q identity s
          ≡ (ok (record { allowed = true; retry_after_seconds = 0 }), after))
        × Open redis key (q.window_seconds * 1000) 1 after
  unfolding acquire
  acquire-first s h =
      let ms = q.window_seconds * 1000 in
      (
        redis.set_px key (decimal 1) ms s,
        ground (arith, connects s),
        record {
          count = laws.get-set_px key (decimal 1) ms s (omega arith);
          rest = (ms, laws.pttl-set_px key (decimal 1) ms s (omega arith), omega arith);
        },
      )

  pub acquire-next :
      (n : ℕ) (s : redis.Store)
      → 1 ≤ n
      → n < q.max_requests
      → Open redis key (q.window_seconds * 1000) n s
      → (after : redis.Store) × (acquire redis to_number sha256 build q identity s
          ≡ (ok (record { allowed = true; retry_after_seconds = 0 }), after))
        × Open redis key (q.window_seconds * 1000) (n + 1) after
  unfolding acquire
  acquire-next n s one more open_ =
      let (t, e, bound) = open_.rest in
      (
        (redis.incr key s).1,
        ground (
          arith,
          connects s,
          open_.count,
          e,
          to_number-decimal n (omega arith),
          laws.incr-some key n s open_.count (omega arith),
        ),
        record {
          count = laws.get-incr-some key n s open_.count (omega arith);
          rest = (t, laws.pttl-incr key (decimal n) s open_.count ∙ e, bound);
        },
      )

  pub acquire-full :
      (n : ℕ) (s : redis.Store)
      → n ≡ q.max_requests
      → Open redis key (q.window_seconds * 1000) n s
      → (seconds : ℕ) × (acquire redis to_number sha256 build q identity s
          ≡ (ok (record { allowed = false; retry_after_seconds = seconds }), s))
        × (1 ≤ seconds)
        × (seconds ≤ q.window_seconds)
  unfolding acquire
  acquire-full n s full open_ =
      let (t, e, bound) = open_.rest in
      let seconds = (t + 999) / 1000 in
      (
        if seconds == 0 then 1 else seconds,
        ground (arith, connects s, open_.count, e, to_number-decimal n (omega arith)),
        ground arith,
        ground arith,
      )

  requests_later :
      (pauses : List (redis.Store → redis.Store)) (n : ℕ) (s : redis.Store)
      → 1 ≤ n
      → n ≤ q.max_requests
      → All (Passing redis key) pauses
      → Open redis key (q.window_seconds * 1000) n s
      → (admissions (requests redis to_number sha256 build q identity pauses s).0
          ≡ minimum (length pauses) (q.max_requests - n))
        × All (Fair q) (requests redis to_number sha256 build q identity pauses s).0
  unfolding requests
  requests_later [] n s one few passing open_ = (ground arith, tt)
  requests_later (pause ∷ pauses) n s one few passing open_ =
      let later = Open-meanwhile redis key (q.window_seconds * 1000) n s pause passing.0 open_ in
      elim (Bool-cases (n == q.max_requests)) [
        | inl full ↦
            let (seconds, e, low, high) =
              acquire-full n (pause s) ((==_iff n q.max_requests).0 full) later in
            let rest = requests_later pauses n (pause s) one few passing.1 later in
            (rw e (ground (arith, rest.0)), rw e ((λ _. (low, high)), rest.1))
        | inr open_still ↦
            let (after, e, kept) = acquire-next n (pause s) one (ground arith) later in
            let rest =
              requests_later pauses (n + 1) after (omega arith) (ground arith) passing.1 kept in
            (rw e (ground (arith, rest.0)), rw e ((λ refused. cc), rest.1))
      ]

  -- Of the requests that one client makes within one window, which opens with the first of them,
  -- exactly `max_requests` are admitted, or all where they are fewer; every other is told to wait,
  -- between one second and the length of the window; and none fails. The key does not expire meanwhile,
  -- and the server answers.
  pub requests-window :
      (pauses : List (redis.Store → redis.Store)) (s : redis.Store)
      → redis.get key s ≡ none
      → All (Passing redis key) pauses
      → (admissions (requests redis to_number sha256 build q identity ((λ t. t) ∷ pauses) s).0
          ≡ minimum (suc (length pauses)) q.max_requests)
        × All (Fair q) (requests redis to_number sha256 build q identity ((λ t. t) ∷ pauses) s).0
  unfolding requests
  requests-window pauses s fresh passing =
      let (after, e, opened) = acquire-first s fresh in
      let rest = requests_later pauses 1 after (omega arith) limit passing opened in
      (rw e (ground (arith, rest.0)), rw e ((λ refused. cc), rest.1))
