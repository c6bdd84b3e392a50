-- ===== src/Runtime/Cleanup.antt =====
-- What a start that fails leaves, and what a shutdown runs.
use fast_api_scaff.Prelude.{◌≡◌, refl, ap, Option, none, some, List, [], ◌∷◌, reverse}
use fast_api_scaff.Runtime.{
  Callback, ApplicationContainer, run_all, close, aclose, aclose_runtime, start_container,
  after_start, start,
}

module _ {E W : Type 0} where
  -- The world after the callbacks, each run once, one after the other.
  abbrev pub world_after : List (Callback E W) → W → W
  world_after [] w = w
  world_after (c ∷ callbacks) w = world_after callbacks (c w).1

  run_all-world :
      (callbacks : List (Callback E W)) (w : W) → (run_all callbacks w).1 ≡ world_after callbacks w
  unfolding run_all
  run_all-world [] w = refl
  run_all-world (c ∷ callbacks) w = run_all-world callbacks (c w).1

  -- All shutdown callbacks of a container, in the order in which they are due.
  abbrev pub shutdown_world : ApplicationContainer E W → W → W
  shutdown_world c w =
      world_after (reverse c.shutdown_callbacks)
        (world_after (reverse c.async_shutdown_callbacks) w)

  -- `aclose` runs every asynchronous and then every synchronous callback once, in the reverse of the
  -- order of their declaration, whichever of them raise.
  pub aclose-world : (c : ApplicationContainer E W) (w : W) → (aclose c w).1 ≡ shutdown_world c w
  unfolding aclose close
  aclose-world c w =
      rw
        (run_all-world (reverse c.shutdown_callbacks)
          (run_all (reverse c.async_shutdown_callbacks) w).1)
        (rw (run_all-world (reverse c.async_shutdown_callbacks) w) refl)

  after_start-world :
      (c : ApplicationContainer E W) (p : Option E × W) (error : E)
      → p.0 ≡ some error
      → (after_start c p).1 ≡ record { container = none; world = shutdown_world c p.1 }
  unfolding aclose_runtime
  after_start-world c (none, w) error h = cc
  after_start-world c (some raised, w) error h =
      ap (λ v. record { container = none; world = v }) (aclose-world c w)

  -- A start of an idle runtime in which a startup callback raises leaves the runtime idle, after all
  -- shutdown callbacks of the container have run on the world that the failed start left.
  pub start-cleanup :
      (factory : W → ApplicationContainer E W × W) (w : W) (error : E)
      → (start_container (factory w).0.startup_callbacks (factory w).1).0 ≡ some error
      → (start factory (record { container = none; world = w })).1 ≡ record {
        container = none;
        world =
            shutdown_world
              (factory w).0
              (start_container (factory w).0.startup_callbacks (factory w).1).1;
      }
  unfolding start
  start-cleanup factory w error h =
      after_start-world (factory w).0
        (start_container (factory w).0.startup_callbacks (factory w).1) error h
