-- ===== src/Calls/Tests/Free.antt =====
-- No wake-up is lost at a lock: the theorem at a process in which thread 1 sleeps in lock_acquire
-- until thread 0 releases the lock.
use user_space_threads.Prelude.{ℕ, ◌≤◌, ◌≡◌, refl, arith, none}
use user_space_threads.Queue.{empty_queue, queue_push, queue_pop, next}
use user_space_threads.Machine.{Control, World}
use user_space_threads.Machine.Switch.{setcontext}
use user_space_threads.Thread.{get_thread_any, any_loop}
use user_space_threads.Thread.Yield.{thread_yield, yield_to, switch_to, thread_yield_resumed}
use user_space_threads.Wait.{thread_sleep, thread_wakeup, wakeup_loop}
use user_space_threads.Wait.Vacant.{Vacant}
use user_space_threads.Lock.{lock_acquire, acquire_loop, lock_release}
use user_space_threads.Lock.Separate.{Separate}
use user_space_threads.Lock.Separate.Create.{GivesFresh}
use user_space_threads.Thread.Objects.{objects}
use user_space_threads.Step.{step, resume}
use user_space_threads.Calls.{Reached, perform}
use user_space_threads.Calls
use user_space_threads.Calls.Separate.{AlwaysSpared}
use user_space_threads.Calls.Wakeups.{Reached-Separate, Reached-AllVacant}
use user_space_threads.Calls.Tests.{
  bump, init, init-Reached, with_lock, taken, taken-Reached, created, created-Reached, in_thread_1,
  in_thread_1-Reached, thread_1-Reached,
}

contended : (c : Control ℕ) × Reached c
unfolding perform lock_acquire acquire_loop thread_sleep thread_yield get_thread_any any_loop
    yield_to switch_to setcontext queue_pop queue_push next
contended =
    (_, Calls.moves _ _ _ thread_1-Reached (Calls.calls 0 in_thread_1 (Calls.acquire 4096)) refl)

-- Thread 0 goes on in its call of thread_yield.
resumed : (c : Control ℕ) × Reached c
unfolding contended step resume thread_yield_resumed
resumed = (_, Calls.moves _ _ _ contended.1 (Calls.goes_on _ _ _ _) refl)

released : (c : Control ℕ) × Reached c
unfolding contended resumed perform lock_release thread_wakeup wakeup_loop queue_pop queue_push next
    empty_queue
released = (_, Calls.moves _ _ _ resumed.1 (Calls.calls _ _ (Calls.release 4096)) refl)

-- The allocator gives out fresh blocks if no wait queue lives at the next address or behind it.
bump-GivesFresh : (w : World ℕ) → ((p : ℕ) → w.heap ≤ p → w.wait_queues p ≡ none) → GivesFresh w
bump-GivesFresh w behind size p queue heap heap' e e' = behind queue (ground (arith, e, e'))

init-GivesFresh : GivesFresh init
init-GivesFresh = bump-GivesFresh init (λ p h. refl)

with_lock-GivesFresh : GivesFresh with_lock
with_lock-GivesFresh = bump-GivesFresh with_lock (λ p h. ground (arith, h))

taken-GivesFresh : GivesFresh taken
taken-GivesFresh = bump-GivesFresh taken (λ p h. ground (arith, h))

created-GivesFresh : GivesFresh created
created-GivesFresh = bump-GivesFresh created (λ p h. ground (arith, h))

resumed-GivesFresh : GivesFresh resumed.0.world
unfolding resumed contended thread_1-Reached in_thread_1-Reached created-Reached queue_push
    queue_pop next empty_queue
resumed-GivesFresh = bump-GivesFresh resumed.0.world (λ p h. ground (arith, h))

contended-GivesFresh : GivesFresh contended.0.world
unfolding contended thread_1-Reached in_thread_1-Reached created-Reached queue_push queue_pop next
    empty_queue
contended-GivesFresh = bump-GivesFresh contended.0.world (λ p h. ground (arith, h))

released-AlwaysSpared : AlwaysSpared (released.1)
unfolding released resumed contended thread_1-Reached in_thread_1-Reached created-Reached
    taken-Reached init-Reached
released-AlwaysSpared = (
  resumed-GivesFresh,
  tt,
  (
    contended-GivesFresh,
    tt,
    (
      created-GivesFresh,
      tt,
      (
        created-GivesFresh,
        tt,
        (
          created-GivesFresh,
          tt,
          (taken-GivesFresh, tt, (with_lock-GivesFresh, tt, (init-GivesFresh, tt, tt))),
        ),
      ),
    ),
  ),
)

Reached-Separate_example : Separate (objects released.0.world)
Reached-Separate_example =
    Reached-Separate (λ size h. tt) (λ p h. tt) released.0 released.1 released-AlwaysSpared

Reached-AllVacant_example : Vacant 4096 released.0.world
Reached-AllVacant_example =
    Reached-AllVacant (λ size h. tt) (λ p h. tt) released.0 released.1 released-AlwaysSpared 4096
