-- ===== src/Resources/Closing.antt =====
-- infrastructure/resources/closing.py: the closing of a group of resources, one after the other. The
-- group is taken out of use before, so no other call holds a lock.
pub mod Released
use fast_api_scaff.Prelude.{true, false, Option, none, some, List, [], ◌∷◌, map, reverse}
use fast_api_scaff.Resources.Lazy.{
  Call, AsyncLazy, closing, begin_close, call_aclose, enter_aclose, leave_closer,
}

-- The closer changes the world, and raises or not.
module _ {T E W : Type 0} (closer : T → W → Option E × W) where
  -- The end of `aclose`, when its closer has returned or raised.
  unfoldable pub after_closer : AsyncLazy T → Option E → Option E × AsyncLazy T
  unfolding leave_closer
  after_closer lazy none = (none, (leave_closer true lazy).1)
  after_closer lazy (some error) = (some error, (leave_closer false lazy).1)

  -- `aclose` from the lock on.
  unfoldable pub go_on : Call T × AsyncLazy T → W → (Option E × AsyncLazy T) × W
  unfolding after_closer
  go_on (closing value, lazy) world =
      let (raised, after) = closer value world in (after_closer lazy raised, after)
  go_on (_, lazy) world = ((none, lazy), world)

  -- `aclose`, which nothing interrupts: the error that it raised, and the resource after it.
  unfoldable pub aclose : AsyncLazy T → W → (Option E × AsyncLazy T) × W
  unfolding go_on call_aclose enter_aclose
  aclose lazy world = go_on (enter_aclose 0 (call_aclose lazy).1) world

  unfoldable pub collect : Option E → List E → List E
  collect none errors = errors
  collect (some error) errors = error ∷ errors

  -- The loop, over the resources in the order in which they are closed.
  unfoldable pub close_each : List (AsyncLazy T) → W → (List E × List (AsyncLazy T)) × W
  unfolding aclose collect
  close_each [] world = (([], []), world)
  close_each (lazy ∷ resources) world =
      let ((raised, closed), after) = aclose lazy world in
      let ((errors, others), last) = close_each resources after in
      ((collect raised errors, closed ∷ others), last)

  -- `close_lazy_resources`: the errors of the group, if any, and the resources in their order.
  unfoldable pub close_lazy_resources : List (AsyncLazy T) → W → (List E × List (AsyncLazy T)) × W
  unfolding close_each begin_close
  close_lazy_resources resources world =
      let blocked = map begin_close resources in
      let ((errors, closed), after) = close_each (reverse blocked) world in
      ((errors, reverse closed), after)
