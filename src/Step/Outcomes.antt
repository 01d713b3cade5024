-- ===== src/Step/Outcomes.antt =====
-- Whole calls: what a thread, or the process, sees when a call has run through its open frames.
use user_space_threads.Prelude.{
  ◌≡◌, ◌≢◌, Bool, true, false, List, ◌∷◌, Int32, ok, minus, arith, ◌>>=◌,
}
use user_space_threads.Machine
use user_space_threads.Machine.{
  destroyed, running, sleep, Frame, in_yield, World, Outcome, Control, saved, thread_any,
  thread_none,
}
use user_space_threads.Machine.Switch.{setcontext}
use user_space_threads.Machine.Objects.{Allocator, set_state, set_waiter}
use user_space_threads.Thread.Ready.{IsTid}
use user_space_threads.Thread.Inv.{switched}
use user_space_threads.Thread.Idle.{thread_yield-empty}
use user_space_threads.Thread.Yield.{
  return, thread_kill, handle_death, thread_yield, yield_to, switch_to, thread_yield_resumed,
  thread_kill_after_death,
}
use user_space_threads.Wait.{thread_wait, thread_wait_after_yield, thread_wait_end}
use user_space_threads.Step.{step, resume}

module _ {H : Type 0} ⦃al : Allocator H⦄ where
  -- thread_kill of another thread that exists, is not thread 0 and has no waiter, if its stack can
  -- be freed, returns its identifier to the caller: the stack is freed, the thread is destroyed,
  -- administrative_mode is off, and all else, the mask included, is as it was.
  pub step-thread_kill :
      (tid : Int32) (stack : List Frame) (w : World H) {heap : H}
      → IsTid tid
      → tid ≢ w.current_thread
      → tid ≢ 0
      → (w.threads tid).state ≢ destroyed
      → (w.threads tid).waiter ≡ minus 1
      → al.free369 (w.threads tid).stack_start w.heap ≡ ok heap
      → (thread_kill tid stack w >>= step)
        ≡ return tid stack
            (record (set_state tid destroyed w) { heap = heap; administrative_mode = false })
  unfolding step resume thread_kill handle_death thread_kill_after_death
  step-thread_kill tid stack w h ne nz live nobody f = ground arith

  -- A yield, outside administrative mode, to another thread that exists and has yielded before: that
  -- thread goes on behind its own yield, with the answer and the mask of that call, whether it runs
  -- or sleeps. The caller's
  -- context is stored with the mask off and the caller is put in the ready queue.
  pub step-thread_yield :
      (t : Int32) (stack : List Frame) (w : World H) {s : Bool} {u : Int32} {others : List Frame}
      → IsTid t
      → t ≢ w.current_thread
      → (w.threads t).state ≢ destroyed
      → (w.threads t).context ≡ saved false (in_yield s u ∷ others)
      → w.administrative_mode ≡ false
      → (thread_yield t stack w >>= step)
        ≡ return u others (record (switched w.enabled t stack w) { enabled = s })
  unfolding step resume thread_yield yield_to switch_to setcontext thread_yield_resumed
  step-thread_yield t stack w h ne live e na = ground arith

  -- thread_wait with interrupts on, no place for a status and an empty ready queue, for another
  -- thread that lives and has no waiter, does not wait: it returns `tid` while that thread lives,
  -- and leaves the calling thread, which goes on running, marked as asleep.
  pub step-thread_wait-empty :
      (tid : Int32) (stack : List Frame) (w : World H)
      → IsTid tid
      → IsTid w.current_thread
      → tid ≢ w.current_thread
      → (w.threads tid).state ≢ destroyed
      → (w.threads tid).waiter ≡ minus 1
      → w.enabled ≡ true
      → w.thread_queue.current_size ≡ 0
      → (thread_wait tid 0 stack w >>= step)
        ≡ return tid stack (set_state w.current_thread sleep (set_waiter tid w.current_thread w))
  unfolding step resume thread_wait thread_wait_after_yield thread_wait_end
  step-thread_wait-empty tid stack w h hc ne live nobody on empty = ground (
    arith,
    thread_yield-empty (Machine.in_wait tid 0 true ∷ stack) (
        set_state w.current_thread sleep
          (set_waiter tid w.current_thread (record w { enabled = false }))),
  )
