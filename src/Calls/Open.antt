-- ===== src/Calls/Open.antt =====
-- If threads' own code leaves the signal unblocked, it goes on with the signal unblocked and with no
-- thread about to be destroyed, from thread_init on.
mod Create
use user_space_threads.Prelude.{
  ◌-◌, ◌≡◌, ◌≢◌, subst, Bool, false, inl, inr, List, [], ◌∷◌, Int32, Result, ok, halt, ◌==◌, ◌>>=◌,
  not, Ensures, if-Ensures, any-Ensures, assert-Ensures, true, refl, ◌∙◌,
}
use user_space_threads.Clock.{Timespec}
use user_space_threads.Machine
use user_space_threads.Machine.{Frame, World, Outcome, Control, thread_any}
use user_space_threads.Machine.Objects.{Allocator}
use user_space_threads.Interrupt.{interrupts_quiet, interrupts_loud, register_interrupt_handler}
use user_space_threads.Thread.Init.{thread_init-Started}
use user_space_threads.Thread.Death.{IsMallocSafe, IsFreeSafe}
use user_space_threads.Thread.Yield.{
  return, admin_mode_after_yield, thread_exit_after_death, thread_exit_after_yield,
  handle_death_after_yield, thread_kill_after_death,
}
use user_space_threads.Lock.{
  reserve, free_lock, free_cv, cv_wait_after_acquire, cv_signal, cv_broadcast,
}
use user_space_threads.Step.{step, resume, thread_stub, deliver}
use user_space_threads.Step.Handler.{timer_after, deliver-yields}
use user_space_threads.Calls.{Call, Move, Reached, perform}
use user_space_threads.Calls
use user_space_threads.Calls.Reach.{Reached-Armed}
use user_space_threads.Calls.Open.Create.{thread_create-IsOpen}
use user_space_threads.Thread.Open.{
  Open, OpenContexts, LeavesOpen, Regular, FitsMode, false-FitsMode, not_on, restore-LeavesOpen,
  thread_yield-LeavesOpen,
}
use user_space_threads.Thread.Open.Death.{
  exit_to_main-LeavesOpen, thread_exit-LeavesOpen, admin_mode_after_kill-LeavesOpen,
  thread_kill-LeavesOpen, thread_yield_resumed-LeavesOpen,
}
use user_space_threads.Wait.Open.{
  IsOpen, interrupts_set-IsOpen, thread_sleep-LeavesOpen, thread_sleep_after_yield-LeavesOpen,
  thread_wait-LeavesOpen, thread_wait_after_yield-LeavesOpen, thread_wakeup-IsOpen,
}
use user_space_threads.Lock.Open.{
  acquire_loop-LeavesOpen, lock_acquire-LeavesOpen, cv_wait_after_sleep-LeavesOpen,
  lock_release-IsOpen, cv_wait-LeavesOpen, wake_cv-IsOpen, wait_queue_create-IsOpen,
  wait_queue_destroy-IsOpen, lock_create-IsOpen, lock_destroy-IsOpen, cv_create-IsOpen,
  cv_destroy-IsOpen,
}

-- A call is not one that blocks the signal.
abbrev pub Unblocks : Call → Type 0
Unblocks (Calls.set_signals enable) = enable ≡ true
Unblocks _ = Unit

module _ {H : Type 0} ⦃al : Allocator H⦄ where
  abbrev pub MoveUnblocks : {c : Control H} {o : Outcome H} → Move c o → Type 0
  MoveUnblocks (Calls.goes_on x f stack w) = Unit
  MoveUnblocks (Calls.calls x w call) = Unblocks call
  MoveUnblocks (Calls.fires x ret now w on set) = Unit

  -- No thread has blocked the signal by interrupts_set or interrupts_off.
  abbrev pub AlwaysUnblocks : {c : Control H} → Reached c → Type 0
  AlwaysUnblocks (Calls.boots uninit w0 w v behind pristine no_handler e) = Unit
  AlwaysUnblocks (Calls.moves c0 _ o r m e) = MoveUnblocks m × AlwaysUnblocks r

  resume-LeavesOpen :
      (f : Frame) (x : Int32) (stack : List Frame) (w : World H)
      → Open (f ∷ stack) w.enabled
      → OpenContexts w.threads
      → FitsMode (f ∷ stack) w.administrative_mode
      → LeavesOpen (resume f x stack w)
  unfolding resume thread_stub handle_death_after_yield thread_kill_after_death
      admin_mode_after_yield thread_exit_after_death thread_exit_after_yield cv_wait_after_acquire
  resume-LeavesOpen (Machine.in_yield b t) x stack w h o m =
      thread_yield_resumed-LeavesOpen b t stack w h o
  resume-LeavesOpen Machine.in_admin_kill x stack w h o m =
      admin_mode_after_kill-LeavesOpen stack w o
  resume-LeavesOpen (Machine.in_stub fn arg) x stack w h o m = (refl, o, m)
  resume-LeavesOpen (Machine.in_death b) x stack w h o m =
      restore-LeavesOpen b 0 stack w h (o, not_on m)
  resume-LeavesOpen (Machine.in_kill t b) x stack w h o m =
      restore-LeavesOpen b t stack w h (o, not_on m)
  resume-LeavesOpen Machine.in_admin_yield x stack w h o m =
      if-Ensures _ (x == Machine.thread_none) _ _ (λ e. tt) (λ e. tt)
  resume-LeavesOpen (Machine.in_exit_death c) x stack w h o m =
      thread_yield-LeavesOpen thread_any (Machine.in_exit_yield c ∷ stack) w tt (o, not_on m)
  resume-LeavesOpen (Machine.in_exit_yield c) x stack w h o m =
      exit_to_main-LeavesOpen c w (o, not_on m)
  resume-LeavesOpen (Machine.in_sleep q b) x stack w h o m =
      thread_sleep_after_yield-LeavesOpen q b x stack w h (o, not_on m)
  resume-LeavesOpen (Machine.in_wait t at b) x stack w h o m =
      thread_wait_after_yield-LeavesOpen t at b stack w h (o, not_on m)
  resume-LeavesOpen (Machine.in_acquire l b) x stack w h o m =
      acquire_loop-LeavesOpen l b stack w h (o, not_on m)
  resume-LeavesOpen (Machine.in_cv_sleep l b) x stack w h o m =
      cv_wait_after_sleep-LeavesOpen l b stack w h (o, not_on m)
  resume-LeavesOpen (Machine.in_cv_acquire b) x stack w h o m =
      restore-LeavesOpen b 0 stack w h (o, not_on m)
  resume-LeavesOpen Machine.in_handler x stack w h o m = (h, o, false-FitsMode stack (not_on m))

  deliver-LeavesOpen :
      (ret : Int32) (now : Timespec) (w : World H) → Regular w → LeavesOpen (deliver ret now w)
  deliver-LeavesOpen ret now w o = elim (deliver-yields ret now w) [
    | inl e ↦
        let fired : World H = record w { enabled = false; timer = timer_after now w.timer } in
        rw e (thread_yield-LeavesOpen thread_any (Machine.in_handler ∷ []) fired refl o)
    | inr e ↦ rw e tt
  ]

  -- A function that cannot switch gives control back to the caller.
  back :
      {A : Type 0} {b : Bool} (world : A → World H) (m : Result A) (value : A → Int32)
      → b ≡ true
      → Ensures (λ a. IsOpen b (world a)) m
      → LeavesOpen (m >>= λ a. return (value a) [] (world a))
  back world (ok a) value on h = (h.1 ∙ on, h.0.0, false-FitsMode [] h.0.1)
  back world (halt e) value on h = tt

  module _ (w : World H) (on : w.enabled ≡ true) (o : Regular w) where
    perform-LeavesOpen : (call : Call) → Unblocks call → LeavesOpen (perform call w)
    unfolding perform reserve free_lock free_cv cv_signal cv_broadcast interrupts_quiet
        interrupts_loud register_interrupt_handler
    perform-LeavesOpen (Calls.reserve size) h =
        back _ _ _ on (any-Ensures _ (al.malloc369 size w.heap) _ (λ a e. (o, refl)))
    perform-LeavesOpen (Calls.fill_lock p queue) h =
        back _ _ _ on (if-Ensures _ (p == 0) _ _ (λ z. tt) (λ z. (o, refl)))
    perform-LeavesOpen (Calls.free_lock p) h =
        back _ _ _ on (any-Ensures _ (al.free369 p w.heap) _ (λ heap e. (o, refl)))
    perform-LeavesOpen (Calls.fill_cv p queue) h =
        back _ _ _ on (if-Ensures _ (p == 0) _ _ (λ z. tt) (λ z. (o, refl)))
    perform-LeavesOpen (Calls.free_cv p) h =
        back _ _ _ on (any-Ensures _ (al.free369 p w.heap) _ (λ heap e. (o, refl)))
    perform-LeavesOpen (Calls.create fn parg) h = back _ _ _ on (thread_create-IsOpen fn parg w o)
    perform-LeavesOpen (Calls.yield t) h = thread_yield-LeavesOpen t [] w on o
    perform-LeavesOpen (Calls.exit c) h = thread_exit-LeavesOpen c [] w o
    perform-LeavesOpen (Calls.kill t) h =
        thread_kill-LeavesOpen t [] w on o.0 (false-FitsMode [] o.1)
    perform-LeavesOpen Calls.new_queue h = back _ _ _ on (wait_queue_create-IsOpen w o)
    perform-LeavesOpen (Calls.drop_queue q) h = back _ _ _ on (wait_queue_destroy-IsOpen w o q)
    perform-LeavesOpen (Calls.sleep_on q) h = thread_sleep-LeavesOpen q [] w on o
    perform-LeavesOpen (Calls.wakeup q all) h = back _ _ _ on (thread_wakeup-IsOpen q all w o)
    perform-LeavesOpen (Calls.wait_for t at) h = thread_wait-LeavesOpen t at [] w on o
    perform-LeavesOpen Calls.new_lock h = back _ _ _ on (lock_create-IsOpen w o)
    perform-LeavesOpen (Calls.drop_lock l) h = back _ _ _ on (lock_destroy-IsOpen w o l)
    perform-LeavesOpen (Calls.acquire l) h = lock_acquire-LeavesOpen l [] w on o
    perform-LeavesOpen (Calls.release l) h = back _ _ _ on (lock_release-IsOpen l w o)
    perform-LeavesOpen Calls.new_cv h = back _ _ _ on (cv_create-IsOpen w o)
    perform-LeavesOpen (Calls.drop_cv c) h = back _ _ _ on (cv_destroy-IsOpen w o c)
    perform-LeavesOpen (Calls.wait_on c l) h = cv_wait-LeavesOpen c l [] w on o
    perform-LeavesOpen (Calls.signal c l) h = back _ _ _ on (wake_cv-IsOpen 0 c l w o)
    perform-LeavesOpen (Calls.broadcast c l) h = back _ _ _ on (wake_cv-IsOpen 1 c l w o)
    perform-LeavesOpen (Calls.set_signals b) h =
        let r = interrupts_set-IsOpen b w o in (r.1 ∙ h, r.0.0, false-FitsMode [] r.0.1)
    perform-LeavesOpen (Calls.register verbose) h =
        back {b = w.enabled} _ _ _ on (assert-Ensures _ (not w.timer.registered) _ (λ e. (o, refl)))
    perform-LeavesOpen Calls.be_quiet h = (on, o.0, false-FitsMode [] o.1)
    perform-LeavesOpen Calls.be_loud h = (on, o.0, false-FitsMode [] o.1)

  Move-LeavesOpen :
      {c : Control H} {o : Outcome H} (m : Move c o)
      → MoveUnblocks m
      → Open c.stack c.world.enabled
      → OpenContexts c.world.threads
      → FitsMode c.stack c.world.administrative_mode
      → LeavesOpen o
  unfolding step
  Move-LeavesOpen (Calls.goes_on x f stack w) h h0 contexts mode =
      resume-LeavesOpen f x stack w h0 contexts mode
  Move-LeavesOpen (Calls.calls x w call) h h0 contexts mode =
      perform-LeavesOpen w h0 (contexts, not_on mode) call h
  Move-LeavesOpen (Calls.fires x ret now w on set) h h0 contexts mode =
      deliver-LeavesOpen ret now w (contexts, not_on mode)

  Reached-Open :
      (c : Control H) (r : Reached c)
      → AlwaysUnblocks r
      → Open c.stack c.world.enabled
        × OpenContexts c.world.threads
        × FitsMode c.stack c.world.administrative_mode
  Reached-Open c (Calls.boots uninit w0 w v behind pristine no_handler e) unblocks =
      let started = thread_init-Started uninit w0 behind e in
      (
        started.enabled,
        λ t. rw (started.contexts t) tt,
        false-FitsMode [] (started.mode ∙ pristine.mode),
      )
  Reached-Open c (Calls.moves c0 _ o r m e) (unblocks, before) =
      let (h0, contexts, mode) = Reached-Open c0 r before in
      subst LeavesOpen e (Move-LeavesOpen m unblocks h0 contexts mode)

  -- In threads' own code no thread is about to be destroyed.
  pub Reached-mode :
      (c : Control H) (r : Reached c)
      → AlwaysUnblocks r
      → c.stack ≡ []
      → c.world.administrative_mode ≡ false
  Reached-mode c r unblocks own =
      not_on (subst (λ s. FitsMode s c.world.administrative_mode) own (Reached-Open c r unblocks).2)

  -- Preemption is never lost: in every state that the process reaches in which control is in a
  -- thread's own code and the handler is registered, the signal is unblocked and the timer runs, so
  -- that the signal can come. It is asked that no thread has blocked the signal by interrupts_set or
  -- interrupts_off, and of malloc369 and free369 that they do not jump to an unset context.
  pub Reached-CanFire :
      (malloc_safe : IsMallocSafe al) (free_safe : IsFreeSafe al) (c : Control H) (r : Reached c)
      → AlwaysUnblocks r
      → c.stack ≡ []
      → c.world.timer.registered ≡ true
      → (c.world.enabled ≡ true) × (c.world.timer.usec ≢ 0)
  Reached-CanFire malloc_safe free_safe c r unblocks own registered = (
    subst (λ s. Open s c.world.enabled) own (Reached-Open c r unblocks).0,
    Reached-Armed malloc_safe free_safe c r registered,
  )
