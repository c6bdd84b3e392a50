-- ===== src/Users/RedisLoginAttempts/Traces.antt =====
-- Any sequence of calls of the limiter over Redis.
use fast_api_scaff.Prelude.{
  ℕ, ◌+◌, ◌≤◌, Option, Text, Result, ok, Action, List, [], ◌∷◌, if◌then◌else◌, pure, ◌>>=◌,
}
use fast_api_scaff.Users.Errors.{Error}
use fast_api_scaff.Users.Unicode.{Unicode}
use fast_api_scaff.Users.LoginAttempts.{LoginFailureStatus, LoginAttemptLimiter}
use fast_api_scaff.Redis.{Redis}
use fast_api_scaff.Users.RedisLoginAttempts.{Limits}
use fast_api_scaff.Users.RedisLoginAttempts.Counter.{is_locked, wait, report, forget}

pub data Operation : Type 0 where
  asks fails succeeds : Operation

pub data Reply : Type 0 where
  waiting : Option ℕ → Reply
  status : LoginFailureStatus → Reply
  cleared : Reply

module _ (limiter : LoginAttemptLimiter) (identity : Text) where
  open limiter use {State}

  unfoldable pub perform : Operation → Action Error State Reply
  perform asks = limiter.retry_after identity >>= λ w. pure (waiting w)
  perform fails = limiter.record_failure identity >>= λ s. pure (status s)
  perform succeeds = limiter.clear identity >>= λ _. pure cleared

  -- The replies to a sequence of calls, before each of which time passes and other clients go on.
  unfoldable pub perform_all :
      (State → State) → List Operation → State → List (Result Error Reply) × State
  unfolding perform
  perform_all pause [] s = ([], s)
  perform_all pause (o ∷ operations) s =
      let (reply, t) = perform o (pause s) in
      let (replies, after) = perform_all pause operations t in (reply ∷ replies, after)

module _ (limits : Limits) where
  -- The same for the counter: the failures, the bound on the time of the lock, and the reply.
  abbrev pub next : Operation → ℕ → ℕ
  next asks n = n
  next fails n = n + 1
  next succeeds n = forget limits n

  abbrev pub bound_after : Operation → ℕ → ℕ → ℕ
  bound_after asks n seconds = seconds
  bound_after fails n seconds = if is_locked limits (n + 1) then limits.lock_seconds else seconds
  bound_after succeeds n seconds = seconds

  abbrev pub reply_of : Operation → ℕ → ℕ → Reply
  reply_of asks n seconds = waiting (wait limits n seconds)
  reply_of fails n seconds = status (report limits (n + 1))
  reply_of succeeds n seconds = cleared

  abbrev pub count_after : List Operation → ℕ → ℕ
  count_after [] n = n
  count_after (o ∷ operations) n = count_after operations (next o n)

  -- The replies that the counter allows: when a call is answered, the lock lasts for `left`, which is
  -- no more than at the call before it, but for a failure, which starts the time of the lock again.
  pub data Allowed : List Operation → ℕ → ℕ → List (Result Error Reply) → Type 0 where
    finished : {n seconds : ℕ} → Allowed [] n seconds []
    answered :
        {n seconds : ℕ} {o : Operation} {operations : List Operation}
        {replies : List (Result Error Reply)} (left : ℕ)
        → left ≤ seconds
        → Allowed operations (next o n) (bound_after o n left) replies
        → Allowed (o ∷ operations) n seconds (ok (reply_of o n left) ∷ replies)
