-- ===== src/Step.antt =====
-- How control goes on when a call returns to the innermost open call, and the calls that a
-- thread's own code can make.
pub mod Safe
pub mod Exit
pub mod Outcomes
pub mod Refused
pub mod Fair
pub mod Waited
pub mod Stale
pub mod Killed
pub mod Handler
pub mod Handover
pub mod Preempt
pub mod Alone
pub mod Succeeded
mod Tests
mod Scenarios
use user_space_threads.Prelude.{
  ℕ, zero, suc, true, false, not, List, [], ◌∷◌, Int32, ok, halt, assert, ◌>>=◌, ◌>>◌,
  if◌then◌else◌,
}
use user_space_threads.Clock.{Timespec}
use user_space_threads.Machine
use user_space_threads.Machine.{Frame, World, Control, Outcome, thread_any}
use user_space_threads.Machine.Objects.{Allocator}
use user_space_threads.Interrupt.{interrupts_on, interrupts_enabled, set_interrupt, note_time}
use user_space_threads.Thread.Yield.{
  return, thread_yield, thread_yield_resumed, handle_death_after_yield, thread_kill_after_death,
  admin_mode_after_kill, admin_mode_after_yield, thread_exit, thread_exit_after_death,
  thread_exit_after_yield,
}
use user_space_threads.Wait.{thread_sleep_after_yield, thread_wait_after_yield}
use user_space_threads.Lock.{acquire_loop, cv_wait_after_sleep, cv_wait_after_acquire}

module _ {H : Type 0} where
  -- thread_stub up to the call of `thread_main (arg)`: from there on the thread's own code runs.
  -- When that returns, thread_stub calls thread_exit(0).
  unfoldable pub thread_stub : ℕ → ℕ → World H → Outcome H
  unfolding interrupts_on
  thread_stub thread_main arg w = return 0 [] (interrupts_on w).1

  -- The handler of the timer's signal, which the kernel runs with the signal blocked. `ret` and
  -- `now` are what clock_gettime answers if the handler asks it.
  unfoldable pub interrupt_handler : Int32 → Timespec → List Frame → World H → Outcome H
  unfolding interrupts_enabled set_interrupt
  interrupt_handler ret now stack w0 = do
    assert (not (interrupts_enabled w0))
    w ← (if w0.timer.loud then note_time ret now w0 else ok w0)
    thread_yield thread_any (Machine.in_handler ∷ stack) (set_interrupt w)

  -- The kernel delivers the signal when it is unblocked and the timer runs: the one-shot timer is
  -- off, the signal is blocked, and the mask is restored when the handler returns.
  unfoldable pub deliver : Int32 → Timespec → World H → Outcome H
  unfolding interrupt_handler
  deliver ret now w =
      interrupt_handler ret now []
        (record w { enabled = false; timer = record (w.timer) { usec = 0 } })

module _ {H : Type 0} ⦃al : Allocator H⦄ where
  unfoldable pub resume : Frame → Int32 → List Frame → World H → Outcome H
  resume (Machine.in_yield signal_state actual_tid) v stack w =
      thread_yield_resumed signal_state actual_tid stack w
  resume (Machine.in_stub thread_main arg) v stack w = thread_stub thread_main arg w
  resume (Machine.in_death signal_state) v stack w = handle_death_after_yield signal_state stack w
  resume (Machine.in_kill tid signal_state) v stack w =
      thread_kill_after_death tid signal_state stack w
  resume Machine.in_admin_kill v stack w = admin_mode_after_kill stack w
  resume Machine.in_admin_yield v stack w = admin_mode_after_yield v w
  resume (Machine.in_exit_death exit_code) v stack w = thread_exit_after_death exit_code stack w
  resume (Machine.in_exit_yield exit_code) v stack w = thread_exit_after_yield exit_code w
  resume (Machine.in_sleep queue enabled) v stack w =
      thread_sleep_after_yield queue enabled v stack w
  resume (Machine.in_wait tid exit_code signal) v stack w =
      thread_wait_after_yield tid exit_code signal stack w
  resume (Machine.in_acquire lock signals) v stack w = acquire_loop lock signals stack w
  resume (Machine.in_cv_sleep lock signal) v stack w = cv_wait_after_sleep lock signal stack w
  resume (Machine.in_cv_acquire signal) v stack w = cv_wait_after_acquire signal stack w
  resume Machine.in_handler v stack w = return 0 stack (record w { enabled = true })

  -- Goes on with the innermost open call, if there is one.
  unfoldable pub step : Control H → Outcome H
  step c = elim c.stack [ [] ↦ ok c | f ∷ stack ↦ resume f c.value stack c.world ]

  -- Up to `fuel` returns in a row, ending early in the thread's own code.
  unfoldable pub run : ℕ → Outcome H → Outcome H
  run zero o = o
  run (suc fuel) (halt h) = halt h
  run (suc fuel) (ok c) = run fuel (step c)
