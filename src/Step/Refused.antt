-- ===== src/Step/Refused.antt =====
-- A sleep that finds nothing else to run.
use user_space_threads.Prelude.{ℕ, ◌≡◌, ◌≢◌, refl, false, List, ◌∷◌, some, arith, ◌>>=◌}
use user_space_threads.Queue.{Queue, queue_slots, queue_push, queue_pop_last}
use user_space_threads.Queue.Bounds.{IsValid}
use user_space_threads.Queue.Refine.{contents, queue_pop_last-push}
use user_space_threads.Machine
use user_space_threads.Machine.{running, sleep, Frame, World, thread_none}
use user_space_threads.Machine.Objects.{Allocator, set_state, set_wait_queue}
use user_space_threads.Thread.Ready.{IsTid}
use user_space_threads.Thread.Idle.{thread_yield-empty}
use user_space_threads.Thread.Yield.{return}
use user_space_threads.Wait.{thread_sleep, thread_sleep_after_yield}
use user_space_threads.Step.{step, resume}

module _ {H : Type 0} ⦃al : Allocator H⦄ where
  -- thread_sleep on a wait queue that is not full, with an empty ready queue, answers THREAD_NONE:
  -- the assertion on the last entry holds, the calling thread runs, the mask is as it was, and the
  -- wait queue has the entries that it had.
  pub step-thread_sleep-empty :
      (queue : ℕ) (q : Queue) (stack : List Frame) (w : World H)
      → queue ≢ 0
      → w.wait_queues queue ≡ some q
      → IsValid q
      → q.current_size ≢ queue_slots
      → IsTid w.current_thread
      → w.thread_queue.current_size ≡ 0
      → (w' : World H) × ((thread_sleep queue stack w >>= step) ≡ return thread_none stack w')
        × ((w'.threads w.current_thread).state ≡ running)
        × (w'.enabled ≡ w.enabled)
        × (q' : Queue) × (w'.wait_queues queue ≡ some q')
        × (contents q' ≡ contents q)
  unfolding step resume thread_sleep thread_sleep_after_yield
  step-thread_sleep-empty queue q stack w nz live v room h empty =
      let pushed = (queue_push q w.current_thread).1 in
      let asleep : World H = set_wait_queue queue pushed (set_state w.current_thread sleep w) in
      let back = queue_pop_last-push q w.current_thread v room in
      (
        set_wait_queue queue (queue_pop_last pushed).1 (set_state w.current_thread running asleep),
        ground (
          arith,
          back,
          thread_yield-empty (Machine.in_sleep queue w.enabled ∷ stack)
              (record asleep { enabled = false }),
        ),
        ground arith,
        refl,
        (queue_pop_last pushed).1,
        ground arith,
        back.1,
      )
