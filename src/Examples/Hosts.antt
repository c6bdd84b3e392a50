-- ===== src/Examples/Hosts.antt =====
-- A runtime whose second startup callback raises. The world is the list of what ran, the last first.
use fast_api_scaff.Prelude.{ℕ, ◌≡◌, refl, Option, none, some, List, [], ◌∷◌}
use fast_api_scaff.Runtime.{ApplicationContainer, start_container, start, aclose}
use fast_api_scaff.Runtime.Cleanup.{shutdown_world, aclose-world, start-cleanup}
use fast_api_scaff.Examples.{evaluation}

abbrev runs : ℕ → List ℕ → Option ℕ × List ℕ
runs n log = (none, n ∷ log)

abbrev raises : ℕ → List ℕ → Option ℕ × List ℕ
raises n log = (some n, n ∷ log)

abbrev host : ApplicationContainer ℕ (List ℕ)
host = record {
  startup_callbacks = runs 1 ∷ raises 2 ∷ runs 3 ∷ [];
  async_shutdown_callbacks = runs 4 ∷ raises 5 ∷ [];
  shutdown_callbacks = runs 6 ∷ [];
}

abbrev make_host : List ℕ → ApplicationContainer ℕ (List ℕ) × List ℕ
make_host log = (host, log)

startup_run : (start_container host.startup_callbacks []).0 ≡ some 2
unfolding evaluation
startup_run = refl

aclose-world_example : (aclose host []).1 ≡ shutdown_world host []
aclose-world_example = aclose-world host []

start-cleanup_example : (start make_host (record { container = none; world = [] })).1 ≡ record {
  container = none;
  world = shutdown_world host (start_container host.startup_callbacks []).1;
}
start-cleanup_example = start-cleanup make_host [] 2 startup_run
