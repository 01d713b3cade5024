-- ===== src/Lock/Exclusion.antt =====
-- Taking a lock and giving it back.
use user_space_threads.Prelude.{ℕ, ◌≡◌, ◌≢◌, Bool, List, Option, some, ok, minus, arith, ◌>>=◌}
use user_space_threads.Queue.{Queue, queue_pop}
use user_space_threads.Machine.{Frame, World, Lock}
use user_space_threads.Machine.Objects.{set_lock}
use user_space_threads.Thread.Yield.{return}
use user_space_threads.Wait.{thread_wakeup, wakeup_loop}
use user_space_threads.Lock.{lock_acquire, acquire_loop, lock_release}

-- What a client sees of a lock and of the mask.
abbrev pub lock_and_mask : {H : Type 0} → ℕ → World H → Option Lock × Bool
lock_and_mask lock w = (w.locks lock, w.enabled)

module _ {H : Type 0} (lock : ℕ) (l : Lock) (w : World H) (live : w.locks lock ≡ some l)
    (set : lock ≢ 0) (free : l.current ≡ minus 1) where
  pub lock_acquire-free :
      (stack : List Frame)
      → lock_acquire lock stack w
        ≡ return 0 stack (set_lock lock (record l { current = w.current_thread }) w)
  unfolding lock_acquire acquire_loop
  lock_acquire-free stack = ground arith

  -- A thread that finds the lock free takes it at once, and when it releases it and nobody sleeps
  -- on it, the lock and the signal mask are as they were before.
  pub lock_release-acquire :
      (stack : List Frame) (q : Queue)
      → l.queue ≢ 0
      → w.wait_queues l.queue ≡ some q
      → q.current_size ≡ 0
      → (lock_acquire lock stack w >>= λ c.
          lock_release lock c.world >>= λ w'. ok (lock_and_mask lock w'))
        ≡ ok (some l, w.enabled)
  unfolding lock_release thread_wakeup wakeup_loop queue_pop
  lock_release-acquire stack q nz there empty = ground (arith, lock_acquire-free stack)
