-- ===== src/Examples/Shared.antt =====
-- A resource that two calls use and a third closes; the factory makes the number 7. The group has
-- two more, and a closer that raises on 5.
use fast_api_scaff.Prelude.{
  ℕ, ◌≡◌, refl, true, false, Option, none, some, List, [], ◌∷◌, reverse, length, all, ◌==◌,
  if◌then◌else◌,
}
use fast_api_scaff.Resources.Lazy.{
  AsyncLazy, received, call_get, enter_get, leave_factory, call_aclose, enter_aclose, leave_closer,
}
use fast_api_scaff.Resources.Lazy.System.{
  created, released, System, new_system, moved, logged, gets, enters, creates, closes, enters_close,
  releases, Reach, start, later,
}
use fast_api_scaff.Resources.Lazy.Safety.{creations, releases_of, get-once}
use fast_api_scaff.Resources.Lazy.Shutdown.{closed-received, aclose-final}
use fast_api_scaff.Resources.Lazy.Liveness.{lock-freed}
use fast_api_scaff.Resources.Closing.{close_lazy_resources}
use fast_api_scaff.Resources.Closing.Released.{values, run_closer, close_lazy_resources-all}
use fast_api_scaff.Examples.{evaluation}

abbrev seven_made : ℕ
seven_made = 7

abbrev one : System ℕ
one = moved new_system 0 (call_get new_system.lazy, new_system.lazy)

abbrev two : System ℕ
two = moved one 1 (call_get one.lazy, one.lazy)

-- Call 0 is in the factory, and call 1 waits.
abbrev three : System ℕ
three = moved two 0 (enter_get 0 two.lazy)

run_three : Reach new_system three
unfolding evaluation
run_three = later (later (later start (gets 0 refl)) (gets 1 refl)) (enters 0 refl refl)

abbrev four : System ℕ
four = logged (created 7) (moved three 0 (leave_factory (some 7) three.lazy))

-- Both calls have the value.
abbrev five : System ℕ
five = moved four 1 (enter_get 1 four.lazy)

run_five : Reach new_system five
unfolding evaluation
run_five = later (later run_three (creates 0 7 refl)) (enters 1 refl refl)

abbrev six : System ℕ
six = moved five 2 (call_aclose five.lazy)

run_six : Reach new_system six
unfolding evaluation
run_six = later run_five (closes 2 refl)

abbrev seven : System ℕ
seven = moved six 2 (enter_aclose 2 six.lazy)

-- Call 2 has closed the resource.
abbrev eight : System ℕ
eight = logged (released 7) (moved seven 2 (leave_closer true seven.lazy))

run_eight : Reach six eight
unfolding evaluation
run_eight = later (later start (enters_close 2 refl refl)) (releases 2 7 refl)

run_all_eight : Reach new_system eight
unfolding evaluation
run_all_eight = later (later run_six (enters_close 2 refl refl)) (releases 2 7 refl)

get-once_example : (seven_made ≡ seven_made) × (creations five.log ≡ 1)
unfolding evaluation
get-once_example = get-once five run_five 0 1 7 7 refl refl

closed-received_example : six.calls 1 ≡ received 7
unfolding evaluation
closed-received_example = closed-received six eight run_eight refl 1 7 refl

aclose-final_example :
    (releases_of eight.log ≡ creations eight.log)
    × (eight.log ≡ eight.log)
    × (eight.lazy.value ≡ none)
unfolding evaluation
aclose-final_example = aclose-final eight eight run_all_eight 2 refl start

lock-freed_example :
    (t : System ℕ) × Reach three t × (t.calls 1 ≡ three.calls 1) × (t.lazy.lock ≡ none)
unfolding evaluation
lock-freed_example = lock-freed three run_three 1 refl

abbrev filled : ℕ → AsyncLazy ℕ
filled n = record { value = some n; lock = none; closed = false }

abbrev group : List (AsyncLazy ℕ)
group = filled 4 ∷ filled 5 ∷ record { value = none; lock = none; closed = false } ∷ []

abbrev closer : ℕ → List ℕ → Option ℕ × List ℕ
closer n log = (if n == 5 then some 0 else none, n ∷ log)

close_lazy_resources-all_example :
    (all (λ (lazy : AsyncLazy ℕ). lazy.closed) (close_lazy_resources closer group []).0.1 ≡ true)
    × ((close_lazy_resources closer group []).1 ≡ run_closer closer (reverse (values group)) [])
    × (length (close_lazy_resources closer group []).0.0
        ≡ length (values (close_lazy_resources closer group []).0.1))
close_lazy_resources-all_example = close_lazy_resources-all closer group []
