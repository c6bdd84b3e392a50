-- ===== src/Resources/Lazy.antt =====
-- infrastructure/resources/lazy.py: `AsyncLazy`, cut where its coroutines wait. A function below is
-- the code that runs between two waits, which on one event loop is one step.
pub mod System
pub mod Invariant
pub mod Steps
pub mod Creation
pub mod Safety
pub mod Shutdown
pub mod Liveness
use fast_api_scaff.Prelude.{ℕ, Bool, true, false, Option, none, some, if◌then◌else◌}

-- What a call of a resource is waiting for, or how it has ended. A call that raises is `refused`.
pub data Call (T : Type 0) : Type 0 where
  unused : Call T
  awaiting_value : Call T
  creating : Call T
  received : T → Call T
  refused : Call T
  awaiting_close : Call T
  closing : T → Call T
  done : Call T

-- `lock` is the call that holds the `asyncio.Lock`.
pub record AsyncLazy (T : Type 0) : Type 0 where
  pub value : Option T
  pub lock : Option ℕ
  pub closed : Bool

module _ {T : Type 0} where
  -- `begin_close`
  unfoldable pub begin_close : AsyncLazy T → AsyncLazy T
  begin_close lazy = record lazy { closed = true }

  -- The last lines of `get`, which hold a value.
  unfoldable pub hand_out : AsyncLazy T → T → Call T
  hand_out lazy value = if lazy.closed then refused else received value

  -- `get` up to the lock.
  unfoldable pub call_get : AsyncLazy T → Call T
  call_get lazy = if lazy.closed then refused else awaiting_value

  -- `get` from the moment call `i` has the lock, up to the factory or to the end.
  unfoldable pub enter_get : ℕ → AsyncLazy T → Call T × AsyncLazy T
  unfolding hand_out
  enter_get i lazy = if lazy.closed then (refused, lazy) else elim lazy.value [
    | none ↦ (creating, record lazy { lock = some i })
    | some value ↦ (hand_out lazy value, lazy)
  ]

  -- `get` after the factory, which returned a value or raised.
  unfoldable pub leave_factory : Option T → AsyncLazy T → Call T × AsyncLazy T
  unfolding hand_out
  leave_factory none lazy = (refused, record lazy { lock = none })
  leave_factory (some value) lazy =
      let stored = record lazy { value = some value; lock = none } in
      (hand_out stored value, stored)

  -- `aclose` up to the lock.
  unfoldable pub call_aclose : AsyncLazy T → Call T × AsyncLazy T
  unfolding begin_close
  call_aclose lazy = (awaiting_close, begin_close lazy)

  -- `aclose` from the moment call `i` has the lock, up to the closer or to the end.
  unfoldable pub enter_aclose : ℕ → AsyncLazy T → Call T × AsyncLazy T
  enter_aclose i lazy = elim lazy.value [
    | none ↦ (done, lazy)
    | some value ↦ (closing value, record lazy { lock = some i })
  ]

  -- `aclose` after the closer, which returned or raised.
  unfoldable pub leave_closer : Bool → AsyncLazy T → Call T × AsyncLazy T
  leave_closer true lazy = (done, record lazy { value = none; lock = none })
  leave_closer false lazy = (refused, record lazy { lock = none })
