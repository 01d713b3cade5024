-- ===== src/Calls/Keeps.antt =====
-- Every move of the process keeps the invariant of the library, the wait queues, the discipline of
-- the signal mask, and what is claimed of the locks.
use user_space_threads.Prelude.{Bool, ℕ, true, inl, inr, List, [], ◌∷◌, Option, Int32, ◌==◌}
use user_space_threads.Clock.{Timespec}
use user_space_threads.Machine
use user_space_threads.Machine.{
  Timer, Frame, Context, unset, saved, World, Control, Outcome, Lock, thread_any,
}
use user_space_threads.Machine.Objects.{Allocator}
use user_space_threads.Step.Handler.{timer_after, deliver-yields}
use user_space_threads.Interrupt.{sig_interval}
use user_space_threads.Thread.Inv.{Inv}
use user_space_threads.Thread.Masks.{Calm, Keeps, Fits-false}
use user_space_threads.Thread.Keeps.{
  if-Keeps, restore-Keeps, with_call, reopened, returned, thread_yield-Keeps,
  thread_yield_resumed-Keeps, admin_mode_after_kill-Keeps, exit_to_main-Keeps,
}
use user_space_threads.Thread.Yield.{
  admin_mode_after_yield, thread_exit_after_death, thread_exit_after_yield,
  handle_death_after_yield, thread_kill_after_death,
}
use user_space_threads.Wait.Keeps.{thread_sleep_after_yield-Keeps, thread_wait_after_yield-Keeps}
use user_space_threads.Lock.{cv_wait_after_acquire}
use user_space_threads.Lock.Keeps.{Stands, acquire_loop-Keeps, cv_wait_after_sleep-Keeps}
use user_space_threads.Step.{resume, thread_stub, deliver}

-- A claim about the timer that stands what interrupt.c does with it.
pub record Ticks (L : (ℕ → Option Lock) → Timer → Type 0) : Type 0 where
  pub fired :
      (locks : ℕ → Option Lock) (timer : Timer) (now : Timespec)
      → L locks timer
      → L locks (timer_after now timer)
  pub registered :
      (locks : ℕ → Option Lock) (timer : Timer) (verbose : Bool)
      → L locks timer
      → L locks (record timer { registered = true; loud = verbose; usec = sig_interval })
  pub spoken :
      (locks : ℕ → Option Lock) (timer : Timer) (loud : Bool)
      → L locks timer
      → L locks (record timer { loud = loud })

pub with_timer :
    {H : Type 0} (L : (ℕ → Option Lock) → Timer → Type 0) (timer : Timer) (w : World H)
    {stack : List Frame}
    → L w.locks timer
    → Calm L stack w
    → Calm L stack (record w { timer = timer })
with_timer L timer w h k = record {
  queues = k.queues;
  of_locks = h;
  contexts = k.contexts;
  fits = k.fits;
  masked = k.masked;
}

module _ {H : Type 0} ⦃al : Allocator H⦄ (L : (ℕ → Option Lock) → Timer → Type 0) where
  pub resume-Keeps :
      (f : Frame) (x : Int32) (stack : List Frame) (w : World H)
      → Stands L w.current_thread
      → Inv w
      → Calm L (f ∷ stack) w
      → Keeps L (resume f x stack w)
  unfolding resume thread_stub handle_death_after_yield thread_kill_after_death
      admin_mode_after_yield thread_exit_after_death thread_exit_after_yield cv_wait_after_acquire
  resume-Keeps (Machine.in_yield s t) x stack w st v k =
      thread_yield_resumed-Keeps L s t stack w k.masked.0 k
  resume-Keeps (Machine.in_stub fn arg) x stack w st v k = record {
    queues = k.queues;
    of_locks = k.of_locks;
    contexts = k.contexts;
    fits = tt;
    masked = tt;
  }
  resume-Keeps (Machine.in_death s) x stack w st v k =
      restore-Keeps L (Machine.in_death s) s 0 w k.masked.0 k
  resume-Keeps (Machine.in_kill t s) x stack w st v k =
      restore-Keeps L (Machine.in_kill t s) s t w k.masked.0 k
  resume-Keeps Machine.in_admin_kill x stack w st v k = admin_mode_after_kill-Keeps L stack w k
  resume-Keeps Machine.in_admin_yield x stack w st v k =
      if-Keeps L (x == Machine.thread_none) _ _ (λ e. tt) (λ e. tt)
  resume-Keeps (Machine.in_exit_death c) x stack w st v k =
      thread_yield-Keeps L thread_any (Machine.in_exit_yield c ∷ stack) w
        (reopened L (Machine.in_exit_death c) (Machine.in_exit_yield c) w (Fits-false stack) k)
  resume-Keeps (Machine.in_exit_yield c) x stack w st v k = exit_to_main-Keeps L c w k
  resume-Keeps (Machine.in_sleep q s) x stack w st v k =
      thread_sleep_after_yield-Keeps L q s x stack w k.masked.0 k
  resume-Keeps (Machine.in_wait t p s) x stack w st v k =
      thread_wait_after_yield-Keeps L t p s stack w k.masked.0 k
  resume-Keeps (Machine.in_acquire l s) x stack w st v k =
      acquire_loop-Keeps L w.current_thread st l s stack w k.masked.0 v k
  resume-Keeps (Machine.in_cv_sleep l s) x stack w st v k =
      cv_wait_after_sleep-Keeps L w.current_thread st l s stack w k.masked.0 v k
  resume-Keeps (Machine.in_cv_acquire s) x stack w st v k =
      restore-Keeps L (Machine.in_cv_acquire s) s 0 w k.masked.0 k
  resume-Keeps Machine.in_handler x stack w st v k =
      returned L Machine.in_handler true w k.masked.0 k

  pub deliver-Keeps :
      (ticks : Ticks L) (ret : Int32) (now : Timespec) (w : World H)
      → Calm L [] w
      → Keeps L (deliver ret now w)
  deliver-Keeps ticks ret now w k =
      let noted =
        with_timer L (timer_after now w.timer) w (ticks.fired w.locks w.timer now k.of_locks) k in
      elim (deliver-yields ret now w) [
        | inl e ↦ rw e (
            thread_yield-Keeps L thread_any (Machine.in_handler ∷ []) _ (
              with_call L Machine.in_handler (record w { timer = timer_after now w.timer }) tt
                noted))
        | inr e ↦ rw e tt
      ]
