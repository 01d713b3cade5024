-- ===== src/Step/Alone/Sleep.antt =====
-- A thread that sleeps while no other thread can run: it lies down on the wait queue and gets up
-- again.
use user_space_threads.Prelude.{ℕ, ◌≡◌, ◌≢◌, ap, Bool, false, List, ◌∷◌, some, arith, length}
use user_space_threads.Queue.{Queue, queue_slots, queue_push, queue_pop_last}
use user_space_threads.Queue.Bounds.{IsValid, queue_push-IsValid, queue_pop_last-IsValid}
use user_space_threads.Queue.Refine.{length-window, queue_pop_last-push}
use user_space_threads.Machine.{running, sleep, Frame, in_sleep, World, thread_none}
use user_space_threads.Machine.Objects.{set_state, set_wait_queue}
use user_space_threads.Thread.Ready.{IsTid}
use user_space_threads.Thread.Idle.{thread_yield-empty}
use user_space_threads.Thread.Yield.{return}
use user_space_threads.Wait.{thread_sleep, thread_sleep_after_yield}

module _ {H : Type 0} where
  -- The current thread lies down on a wait queue, and gets up again.
  abbrev pub lies : ℕ → Queue → World H → World H
  lies queue q w =
      record (set_wait_queue queue (queue_push q w.current_thread).1
        (set_state w.current_thread sleep w)) { enabled = false }

  abbrev pub risen : ℕ → Queue → World H → World H
  risen queue q w =
      set_wait_queue queue (queue_pop_last (queue_push q w.current_thread).1).1
        (set_state w.current_thread running (lies queue q w))

  -- No thread waits in the ready queue, and the wait queue is valid and has room.
  pub record Alone (queue : ℕ) (q : Queue) (w : World H) : Type 0 where
    pub empty : w.thread_queue.current_size ≡ 0
    pub tid : IsTid w.current_thread
    pub set : queue ≢ 0
    pub live : w.wait_queues queue ≡ some q
    pub valid : IsValid q
    pub room : q.current_size ≢ queue_slots

  pub thread_sleep-Alone :
      (queue : ℕ) (q : Queue) (stack : List Frame) (w : World H)
      → Alone queue q w
      → thread_sleep queue stack w
        ≡ return thread_none (in_sleep queue w.enabled ∷ stack) (lies queue q w)
  unfolding thread_sleep
  thread_sleep-Alone queue q stack w a =
      ground (arith, thread_yield-empty (in_sleep queue w.enabled ∷ stack) (lies queue q w))

  pub after-Alone :
      (queue : ℕ) (q : Queue) (s : Bool) (stack : List Frame) (w : World H)
      → Alone queue q w
      → thread_sleep_after_yield queue s thread_none stack (lies queue q w)
        ≡ return thread_none stack (record (risen queue q w) { enabled = s })
  unfolding thread_sleep_after_yield
  after-Alone queue q s stack w a =
      ground (arith, queue_pop_last-push q w.current_thread a.valid a.room)

  pub risen-Alone :
      (queue : ℕ) (q : Queue) (w : World H)
      → Alone queue q w
      → Alone queue (queue_pop_last (queue_push q w.current_thread).1).1 (risen queue q w)
  risen-Alone queue q w a =
      let q' = (queue_pop_last (queue_push q w.current_thread).1).1 in
      record {
        empty = a.empty;
        tid = a.tid;
        set = a.set;
        live = ground arith;
        valid = queue_pop_last-IsValid (queue_push-IsValid w.current_thread a.valid);
        room = λ full. absurd (
            omega (
              arith,
              full,
              a.room,
              ap length (queue_pop_last-push q w.current_thread a.valid a.room).1,
              length-window q.threads q.start q.current_size,
              length-window q'.threads q'.start q'.current_size,
            ));
      }
