-- ===== src/Runtime.antt =====
-- app/runtime/container.py and lifecycle.py: the callbacks of the application container, and the
-- runtime that owns it. A callback acts on a world `W` and may raise an `E`.
pub mod Cleanup
use fast_api_scaff.Prelude.{Option, none, some, List, [], ◌∷◌, ◌++◌, reverse, Result, ok, err}

module _ (E W : Type 0) where
  abbrev pub Callback : Type 0
  Callback = W → Option E × W

  -- The callbacks of `ApplicationContainer`.
  pub record ApplicationContainer : Type 0 where
    pub startup_callbacks : List Callback
    pub async_shutdown_callbacks : List Callback
    pub shutdown_callbacks : List Callback

  -- What leaves `ApplicationRuntime.start`.
  pub data StartError : Type 0 where
    already_started : StartError
    startup_failed : E → StartError
    startup_and_cleanup_failed : E → List E → StartError

  pub record RuntimeState : Type 0 where
    pub container : Option ApplicationContainer
    pub world : W

module _ {E : Type 0} where
  -- `errors.append(error)` for a callback that raised
  abbrev noted : Option E → List E → List E
  noted none errors = errors
  noted (some error) errors = error ∷ errors

  -- `BaseExceptionGroup` of the errors, if there are any
  abbrev grouped : List E → Result (List E) Unit
  grouped [] = ok tt
  grouped (error ∷ errors) = err (error ∷ errors)

  abbrev exceptions : Result (List E) Unit → List E
  exceptions (ok _) = []
  exceptions (err errors) = errors

module _ {E W : Type 0} where
  -- The loop over the callbacks, each in its own `try`.
  unfoldable pub run_all : List (Callback E W) → W → List E × W
  run_all [] w = ([], w)
  run_all (c ∷ callbacks) w =
      let (raised, w₁) = c w in let (errors, w₂) = run_all callbacks w₁ in (noted raised errors, w₂)

  unfoldable pub close : ApplicationContainer E W → W → Result (List E) Unit × W
  unfolding run_all
  close c w = let (errors, w₁) = run_all (reverse c.shutdown_callbacks) w in (grouped errors, w₁)

  unfoldable pub aclose : ApplicationContainer E W → W → Result (List E) Unit × W
  unfolding close
  aclose c w =
      let (errors, w₁) = run_all (reverse c.async_shutdown_callbacks) w in
      let (result, w₂) = close c w₁ in (grouped (errors ++ exceptions result), w₂)

  -- `ApplicationContainer.start`: the first callback that raises ends it.
  unfoldable pub start_container : List (Callback E W) → W → Option E × W
  start_container [] w = (none, w)
  start_container (c ∷ callbacks) w =
      let (raised, w₁) = c w in
      let rest = start_container callbacks w₁ in
      elim raised [ none ↦ rest | some error ↦ (some error, w₁) ]

  abbrev closed : Option (ApplicationContainer E W) → W → Result (List E) Unit × W
  closed none w = (ok tt, w)
  closed (some c) w = aclose c w

  -- `ApplicationRuntime.aclose`
  unfoldable pub aclose_runtime : RuntimeState E W → Result (List E) Unit × RuntimeState E W
  unfolding aclose
  aclose_runtime s =
      let (result, w) = closed s.container s.world in
      (result, record { container = none; world = w })

  abbrev cleaned : E → Result (List E) Unit → StartError E W
  cleaned error (ok _) = startup_failed error
  cleaned error (err errors) = startup_and_cleanup_failed error errors

  abbrev pub after_start :
      ApplicationContainer E W
      → Option E × W
      → Result (StartError E W) (ApplicationContainer E W) × RuntimeState E W
  after_start c (none, w) = (ok c, record { container = some c; world = w })
  after_start c (some error, w) =
      let (result, s) = aclose_runtime (record { container = some c; world = w }) in
      (err (cleaned error result), s)

  -- `ApplicationRuntime.start`, with the container that the factory makes
  unfoldable pub start :
      (W → ApplicationContainer E W × W)
      → RuntimeState E W
      → Result (StartError E W) (ApplicationContainer E W) × RuntimeState E W
  unfolding aclose_runtime start_container
  start factory s = elim s.container [
    | some c ↦ (err already_started, s)
    | none ↦ let (c, w) = factory s.world in after_start c (start_container c.startup_callbacks w)
  ]
