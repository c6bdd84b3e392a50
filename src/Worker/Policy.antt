-- ===== src/Worker/Policy.antt =====
-- app/infrastructure/queue/policies.py: how often a job is tried, and the delays between the tries.
pub mod Bounds
use fast_api_scaff.Prelude.{
  ℕ, zero, suc, ◌-◌, Bool, not, ◌||◌, List, [], ◌∷◌, leb, ltb, any, if◌then◌else◌, Result, ok, err,
  length, ◌<◌, ◌≤◌, ◌+◌, arith,
}

-- Python's `float`, as far as a policy needs it.
pub record Floats : Type 1 where
  pub Float : Type 0
  pub zero_seconds : Float
  pub is_finite : Float → Bool
  pub is_positive : Float → Bool
  pub is_negative : Float → Bool

pub data PolicyError : Type 0 where
  value_error : PolicyError

module _ (floats : Floats) where
  open floats use {Float}

  pub record JobPolicy : Type 0 where
    pub max_attempts : ℕ
    pub backoff_seconds : List Float
    pub timeout_seconds : Float

  -- `JobPolicy.__post_init__`
  unfoldable pub new_policy : JobPolicy → Result PolicyError JobPolicy
  new_policy p =
      if ltb p.max_attempts 1
      then err value_error
      else if not (floats.is_finite p.timeout_seconds) || not (floats.is_positive p.timeout_seconds)
      then err value_error
      else if any (λ delay. not (floats.is_finite delay) || floats.is_negative delay)
          p.backoff_seconds
      then err value_error
      else ok p

  -- `values[index]` of an index in range; there is no `IndexError`, since each use proves its range.
  unfoldable pub item : (values : List Float) (index : ℕ) → index < length values → Float
  item [] index h = absurd (omega (arith, h))
  item (d ∷ rest) zero h = d
  item (d ∷ rest) (suc index) h = item rest index (omega (arith, h))

  unfoldable pub min : ℕ → ℕ → ℕ
  min a b = if leb a b then a else b

  -- The index of `retry_delay` is in range.
  pub min-range : (a n : ℕ) → 1 ≤ n → min a (n - 1) < n
  unfolding min
  min-range a n h = ground (arith, h)

  unfoldable pub delay_of : List Float → ℕ → Float
  unfolding item min
  delay_of [] failed_attempt = floats.zero_seconds
  delay_of (d ∷ rest) failed_attempt =
      item (d ∷ rest) (min (failed_attempt - 1) (length (d ∷ rest) - 1))
        (min-range (failed_attempt - 1) (length (d ∷ rest)) (omega arith))

  -- `JobPolicy.retry_delay`
  unfoldable pub retry_delay : JobPolicy → ℕ → Float
  unfolding delay_of
  retry_delay p failed_attempt = delay_of p.backoff_seconds failed_attempt
