-- ===== src/Worker/Attempts/Waits.antt =====
-- The delays that `run_attempts` sleeps for.
use fast_api_scaff.Prelude.{
  ℕ, zero, suc, ◌≡◌, refl, ◌+◌, ◌-◌, ◌≤◌, List, [], ◌∷◌, ◌++◌, length, length-append, ok, arith,
}
use fast_api_scaff.Worker.Policy.{Floats, JobPolicy, retry_delay, delay_of}
use fast_api_scaff.Worker.Policy.Bounds.{delay_of-nth, delay_of-last}
use fast_api_scaff.Worker.Attempts.{Outcome, ExecutionResult, run_attempts}
use fast_api_scaff.Worker.Attempts.Bounds.{before_try, run_attempts-attempts}

-- The first `n` of the delays, of which the last one goes on for ever.
unfoldable pub waits : {Float : Type 0} → Float → List Float → ℕ → List Float
waits last delays zero = []
waits last [] (suc n) = last ∷ waits last [] n
waits last (d ∷ delays) (suc n) = d ∷ waits d delays n

append_assoc :
    {A : Type 0} (xs : List A) (y : A) (ys : List A) → (xs ++ y ∷ []) ++ ys ≡ xs ++ y ∷ ys
append_assoc [] y ys = refl
append_assoc (x ∷ xs) y ys = rw (append_assoc xs y ys) refl

module _ (floats : Floats) {W : Type 0} (policy : JobPolicy floats) (execute : W → Outcome × W)
    (sleep : floats.Float → W → W) where
  open floats use {Float}

  -- A try before each of the delays, and each delay slept.
  unfoldable pub tries : List Float → W → W
  tries [] w = w
  tries (d ∷ delays) w = tries delays (sleep d (execute w).1)

  before_try-last :
      (last : Float) (n attempt : ℕ) (w : W)
      → ((k : ℕ) → attempt ≤ k → retry_delay floats policy k ≡ last)
      → before_try floats policy execute sleep n attempt w ≡ tries (waits last [] n) w
  unfolding tries waits
  before_try-last last zero attempt w h = refl
  before_try-last last (suc n) attempt w h =
      rw (h attempt (omega arith))
        (before_try-last last n (attempt + 1) _ (λ k more. h k (omega (arith, more))))

  before_try-waits :
      (before delays : List Float) (last : Float) (n attempt : ℕ) (w : W)
      → policy.backoff_seconds ≡ before ++ last ∷ delays
      → attempt ≡ length before + 2
      → before_try floats policy execute sleep n attempt w ≡ tries (waits last delays n) w
  unfolding tries waits retry_delay
  before_try-waits before delays last zero attempt w h e = refl
  before_try-waits before [] last (suc n) attempt w h e =
      before_try-last last (suc n) attempt w
        (λ k more. rw h (delay_of-last floats before last k (omega (arith, more, e))))
  before_try-waits before (d ∷ delays) last (suc n) attempt w h e =
      let longer : policy.backoff_seconds ≡ (before ++ last ∷ []) ++ d ∷ delays =
        rw (append_assoc before last (d ∷ delays)) h in
      let more : length (before ++ last ∷ []) ≡ length before + 1 =
        ground (arith, length-append before (last ∷ [])) in
      let nth : retry_delay floats policy attempt ≡ d =
        rw longer
          (delay_of-nth floats (before ++ last ∷ []) delays d attempt (omega (arith, more, e))) in
      rw nth (
        before_try-waits (before ++ last ∷ []) delays d n (attempt + 1) _ longer
          (omega (arith, more, e)))

  before_try-backoff :
      (n : ℕ) (delays : List Float) (w : W)
      → policy.backoff_seconds ≡ delays
      → before_try floats policy execute sleep n 1 w ≡ tries (waits floats.zero_seconds delays n) w
  unfolding tries waits retry_delay delay_of
  before_try-backoff zero delays w h = refl
  before_try-backoff (suc n) [] w h =
      before_try-last floats.zero_seconds (suc n) 1 w (λ k more. rw h refl)
  before_try-backoff (suc n) (d ∷ delays) w h =
      let first : retry_delay floats policy 1 ≡ d = rw h (delay_of-nth floats [] delays d 1 refl) in
      rw first (before_try-waits [] delays d n 2 _ h refl)

  -- When `run_attempts` returns a result after `n` tries, the handler ran that often, and after each
  -- try but the last the worker slept for the policy's delay: the first, the second and so on, the
  -- last one again where there are more tries, and no time where there is none.
  pub run_attempts-waits :
      (w w' : W) (r : ExecutionResult)
      → run_attempts floats policy execute sleep w ≡ (ok r, w')
      → w'
        ≡ (execute (tries (waits floats.zero_seconds policy.backoff_seconds (r.attempts - 1)) w)).1
  run_attempts-waits w w' r h =
      let (low, high, same) = run_attempts-attempts floats policy execute sleep w w' r h in
      rw (← before_try-backoff (r.attempts - 1) policy.backoff_seconds w refl) same
