-- ===== src/Thread/Idle.antt =====
-- What happens when the ready queue is empty.
use user_space_threads.Prelude.{◌≡◌, false, List, Int32, arith}
use user_space_threads.Queue.{queue_pop}
use user_space_threads.Machine.{Frame, World, thread_any, thread_none}
use user_space_threads.Thread.Ready.{IsTid}
use user_space_threads.Thread.{get_thread_any, any_loop}
use user_space_threads.Thread.Yield.{return, thread_yield}

module _ {H : Type 0} where
  pub get_thread_any-empty :
      (t : Int32) (w : World H)
      → w.thread_queue.current_size ≡ 0
      → get_thread_any t w ≡ (thread_none, w)
  unfolding get_thread_any any_loop queue_pop
  get_thread_any-empty t w e = ground arith

  -- thread_yield(THREAD_ANY) with an empty ready queue answers THREAD_NONE and changes nothing.
  pub thread_yield-empty :
      (stack : List Frame) (w : World H)
      → IsTid w.current_thread
      → w.thread_queue.current_size ≡ 0
      → thread_yield thread_any stack w ≡ return thread_none stack w
  unfolding thread_yield
  thread_yield-empty stack w h e =
      ground (arith, get_thread_any-empty w.current_thread (record w { enabled = false }))
