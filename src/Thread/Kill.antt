-- ===== src/Thread/Kill.antt =====
-- What thread_kill and thread_exit answer, branch by branch.
use user_space_threads.Prelude.{◌≤◌, ◌≡◌, false, ◌⊎◌, List, Int32, arith}
use user_space_threads.Queue.{thread_max_threads}
use user_space_threads.Machine.{destroyed, Frame, World, thread_invalid}
use user_space_threads.Machine.Objects.{Allocator}
use user_space_threads.Thread.Yield.{return, thread_kill}

module _ {H : Type 0} ⦃al : Allocator H⦄ where
  -- thread_kill of the calling thread, of no identifier, or of a thread that does not exist answers
  -- THREAD_INVALID and changes nothing.
  pub thread_kill-invalid :
      (tid : Int32) (stack : List Frame) (w : World H)
      → ((tid ≡ w.current_thread) × (w.administrative_mode ≡ false))
        ⊎ (thread_max_threads ≤ tid)
        ⊎ ((w.threads tid).state ≡ destroyed)
      → thread_kill tid stack w ≡ return thread_invalid stack w
  unfolding thread_kill
  thread_kill-invalid tid stack w h = ground arith
