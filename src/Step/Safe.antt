-- ===== src/Step/Safe.antt =====
-- Going on with any open call keeps the invariant of the thread library.
use user_space_threads.Prelude.{
  ◌≢◌, ℕ, ◌≡◌, refl, Bool, false, inl, inr, List, [], ◌∷◌, Int32, arith, Option-cases, Bool-cases,
  ◌==◌,
}
use user_space_threads.Clock.{Timespec}
use user_space_threads.Interrupt.{note_time}
use user_space_threads.Machine
use user_space_threads.Machine.{Frame, World, Outcome, Control, thread_any}
use user_space_threads.Machine.Objects.{Allocator}
use user_space_threads.Thread.Inv.{Inv, IsSafe}
use user_space_threads.Thread.Safe.{thread_yield-IsSafe}
use user_space_threads.Thread.Death.{
  IsFreeSafe, thread_yield_resumed-IsSafe, exit_to_main-IsSafe, admin_mode_after_kill-IsSafe,
}
use user_space_threads.Wait.Safe.{
  thread_sleep-IsSafe, thread_sleep_after_yield-IsSafe, thread_wait_after_yield-IsSafe,
}
use user_space_threads.Thread.Yield.{
  admin_mode_after_yield, thread_exit_after_death, thread_exit_after_yield,
  handle_death_after_yield, thread_kill_after_death,
}
use user_space_threads.Lock.{lock_acquire, acquire_loop, cv_wait_after_sleep, cv_wait_after_acquire}
use user_space_threads.Step.{resume, step, thread_stub, interrupt_handler, deliver}

module _ {H : Type 0} where
  pub acquire_loop-IsSafe :
      (lock : ℕ) (s : Bool) (stack : List Frame) (w : World H)
      → Inv w
      → IsSafe (acquire_loop lock s stack w)
  unfolding acquire_loop
  acquire_loop-IsSafe lock s stack w v = elim (Option-cases (w.locks lock)) [
    | inl e ↦ ground arith
    | inr (l, e) ↦
        ground (arith, thread_sleep-IsSafe l.queue (Machine.in_acquire lock s ∷ stack) w v)
  ]

  pub cv_wait_after_sleep-IsSafe :
      (lock : ℕ) (s : Bool) (stack : List Frame) (w : World H)
      → Inv w
      → IsSafe (cv_wait_after_sleep lock s stack w)
  unfolding cv_wait_after_sleep lock_acquire
  cv_wait_after_sleep-IsSafe lock s stack w v = ground (
    arith,
    acquire_loop-IsSafe lock w.enabled (Machine.in_cv_acquire s ∷ stack)
        (record w { enabled = false }) v,
  )

  -- The timer's signal keeps the invariant.
  pub deliver-IsSafe :
      (ret : Int32) (now : Timespec) (w : World H) → Inv w → IsSafe (deliver ret now w)
  unfolding deliver interrupt_handler note_time
  deliver-IsSafe ret now w v = elim (Bool-cases w.timer.loud) [
    | inl e ↦ elim (Bool-cases (ret == 0)) [
      | inl z ↦ rw (e, z) (thread_yield-IsSafe thread_any (Machine.in_handler ∷ []) _ v)
      | inr z ↦ rw (e, z) tt
    ]
    | inr e ↦ rw e (thread_yield-IsSafe thread_any (Machine.in_handler ∷ []) _ v)
  ]

  -- The innermost open call is not the exit of thread 0 with nothing else to run.
  abbrev pub IsNotMainExit : Frame → World H → Type 0
  IsNotMainExit (Machine.in_exit_yield code) w = w.current_thread ≢ 0
  IsNotMainExit _ w = Unit

  abbrev pub NoMainExit : List Frame → World H → Type 0
  NoMainExit [] w = Unit
  NoMainExit (f ∷ stack) w = IsNotMainExit f w

module _ {H : Type 0} ⦃al : Allocator H⦄ (free_safe : IsFreeSafe al) where
  pub resume-IsSafe :
      (f : Frame) (x : Int32) (stack : List Frame) (w : World H)
      → Inv w
      → IsNotMainExit f w
      → IsSafe (resume f x stack w)
  unfolding resume thread_stub handle_death_after_yield thread_kill_after_death
      admin_mode_after_yield thread_exit_after_death thread_exit_after_yield cv_wait_after_acquire
  resume-IsSafe (Machine.in_yield s t) x stack w v m =
      thread_yield_resumed-IsSafe free_safe s t stack w v
  resume-IsSafe (Machine.in_stub fn arg) x stack w v m = v
  resume-IsSafe (Machine.in_death s) x stack w v m = ground arith
  resume-IsSafe (Machine.in_kill t s) x stack w v m = ground arith
  resume-IsSafe Machine.in_admin_kill x stack w v m = admin_mode_after_kill-IsSafe stack w v
  resume-IsSafe Machine.in_admin_yield x stack w v m = ground arith
  resume-IsSafe (Machine.in_exit_death c) x stack w v m =
      thread_yield-IsSafe thread_any (Machine.in_exit_yield c ∷ stack) w v
  resume-IsSafe (Machine.in_exit_yield c) x stack w v m = exit_to_main-IsSafe c w v m
  resume-IsSafe (Machine.in_sleep q s) x stack w v m =
      thread_sleep_after_yield-IsSafe q s x stack w v
  resume-IsSafe (Machine.in_wait t p s) x stack w v m =
      thread_wait_after_yield-IsSafe t p s stack w v
  resume-IsSafe (Machine.in_acquire l s) x stack w v m = acquire_loop-IsSafe l s stack w v
  resume-IsSafe (Machine.in_cv_sleep l s) x stack w v m = cv_wait_after_sleep-IsSafe l s stack w v
  resume-IsSafe (Machine.in_cv_acquire s) x stack w v m = ground arith
  resume-IsSafe Machine.in_handler x stack w v m = v

  -- Whatever call returns, going on with the innermost open call keeps the invariant and does not
  -- jump to an unset context or to one whose function has returned, but for the exit of thread 0
  -- with nothing else to run.
  pub step-IsSafe : (c : Control H) → Inv c.world → NoMainExit c.stack c.world → IsSafe (step c)
  unfolding step
  step-IsSafe c v m = go c.stack refl m
    where
      go : (stack : List Frame) → c.stack ≡ stack → NoMainExit stack c.world → IsSafe (step c)
      go [] e m = rw (e, step) v
      go (f ∷ stack) e m = rw (e, step) (resume-IsSafe f c.value stack c.world v m)
