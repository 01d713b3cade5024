-- ===== src/Calls/Separate.antt =====
-- Each lock and each condition variable has a wait queue of its own, from thread_init on, and so no
-- wake-up is lost at any lock.
use user_space_threads.Prelude.{
  ℕ, ◌-◌, ◌≡◌, ◌≢◌, Bool, false, inl, inr, Option-cases, List, [], ◌∷◌, some, Int32, Result, ok,
  halt, ◌==◌, ◌>>=◌, not, Ensures, any-Ensures, if-Ensures, assert-Ensures, minus, none,
}
use user_space_threads.Clock.{Timespec}
use user_space_threads.Queue.{thread_max_threads}
use user_space_threads.Machine
use user_space_threads.Machine.{
  Frame, World, Outcome, Control, Lock, Cv, thread_any, thread_min_stack,
}
use user_space_threads.Machine.Objects.{Allocator}
use user_space_threads.Interrupt.{interrupts_quiet, interrupts_loud, register_interrupt_handler}
use user_space_threads.Thread.{thread_create, create_at, first_destroyed}
use user_space_threads.Thread.Masks.{AllReady}
use user_space_threads.Thread.Objects.{
  exit_to_main-KeepsObjects, thread_exit-KeepsObjects, admin_mode_after_kill-KeepsObjects,
  thread_kill-KeepsObjects, thread_yield_resumed-KeepsObjects, thread_yield-KeepsObjects, objects,
}
use user_space_threads.Thread.Yield.{
  return, admin_mode_after_yield, thread_exit_after_death, thread_exit_after_yield,
  handle_death_after_yield, thread_kill_after_death,
}
use user_space_threads.Wait.Vacant.{thread_wait-KeepsObjects, thread_wait_after_yield-KeepsObjects}
use user_space_threads.Calls.Vacant.{IsBlank}
use user_space_threads.Lock.{
  reserve, free_lock, free_cv, cv_wait_after_acquire, cv_signal, cv_broadcast,
}
use user_space_threads.Step.{step, resume, thread_stub, deliver}
use user_space_threads.Step.Handler.{timer_after, deliver-yields}
use user_space_threads.Calls.{Call, Move, Reached, perform}
use user_space_threads.Calls
use user_space_threads.Lock.Separate.{
  fill_lock-Separate, fill_cv-Separate, free_lock-Separate, free_cv-Separate, IsSeparate,
  LeavesSeparate,
}
use user_space_threads.Lock.Separate.Keeps.{
  kept, restore-LeavesSeparate, interrupts_set-Separate, thread_sleep-LeavesSeparate,
  thread_sleep_after_yield-LeavesSeparate, thread_wakeup-Separate, acquire_loop-LeavesSeparate,
  lock_acquire-LeavesSeparate, cv_wait_after_sleep-LeavesSeparate, lock_release-Separate,
  cv_wait-LeavesSeparate, wake_cv-Separate,
}
use user_space_threads.Lock.Separate.Create.{
  GivesFresh, wait_queue_create-Separate, wait_queue_destroy-Separate, lock_create-Separate,
  cv_create-Separate, lock_destroy-Separate, cv_destroy-Separate,
}

-- The wait queue at `queue` is not that of a lock or of a condition variable.
abbrev pub IsOutside : {H : Type 0} → World H → ℕ → Type 0
IsOutside w queue =
    ((p : ℕ) (l : Lock) → w.locks p ≡ some l → l.queue ≢ queue)
    × ((cv : ℕ) (c : Cv) → w.cvs cv ≡ some c → c.queue ≢ queue)

-- A thread destroys and sleeps directly on no wait queue of a lock or of a condition variable; an
-- interrupted lock_create or cv_create finds the wait queue that it made alive and in no other
-- object, and that of a lock empty. An interrupted lock_destroy or cv_destroy does destroy such a
-- queue.
abbrev pub Spares : {H : Type 0} → World H → Call → Type 0
Spares w (Calls.sleep_on queue) = IsOutside w queue
Spares w (Calls.drop_queue queue) = IsOutside w queue
Spares w (Calls.fill_lock p queue) = IsOutside w queue × IsBlank w queue
Spares w (Calls.fill_cv p queue) = IsOutside w queue × (w.wait_queues queue ≢ none)
Spares w _ = Unit

module _ {H : Type 0} ⦃al : Allocator H⦄ where
  abbrev pub MoveSpares : {c : Control H} {o : Outcome H} → Move c o → Type 0
  MoveSpares (Calls.goes_on x f stack w) = Unit
  MoveSpares (Calls.calls x w call) = Spares w call
  MoveSpares (Calls.fires x ret now w on set) = Unit

  -- Before each move malloc369 would give out fresh blocks, and the move left the wait queues of
  -- locks and condition variables to these.
  abbrev pub AlwaysSpared : {c : Control H} → Reached c → Type 0
  AlwaysSpared (Calls.boots uninit w0 w v behind pristine no_handler e) = Unit
  AlwaysSpared (Calls.moves c0 _ o r m e) = GivesFresh c0.world × MoveSpares m × AlwaysSpared r

  create_at-Separate :
      (b : Bool) (tid : Int32) (fn parg : ℕ) (w : World H)
      → IsSeparate w
      → Ensures (λ a. IsSeparate a.1) (create_at b tid fn parg w)
  unfolding create_at
  create_at-Separate b tid fn parg w s =
      any-Ensures _ (al.malloc369 thread_min_stack w.heap) _
        (λ a e. assert-Ensures _ (not w.enabled) _ (λ off. interrupts_set-Separate b _ s))

  thread_create-Separate :
      (fn parg : ℕ) (w : World H)
      → IsSeparate w
      → Ensures (λ a. IsSeparate a.1) (thread_create fn parg w)
  unfolding thread_create
  thread_create-Separate fn parg w s =
      let off : World H = record w { enabled = false } in
      assert-Ensures _ w.enabled _ (λ on.
        elim (Option-cases (first_destroyed (thread_max_threads - 1) 1 w.threads)) [
          | inl e ↦ rw e (interrupts_set-Separate w.enabled off s)
          | inr (tid, e) ↦ rw e (create_at-Separate w.enabled tid fn parg off s)
        ])

  resume-LeavesSeparate :
      (f : Frame) (x : Int32) (stack : List Frame) (w : World H)
      → IsSeparate w
      → LeavesSeparate (resume f x stack w)
  unfolding resume thread_stub handle_death_after_yield thread_kill_after_death
      admin_mode_after_yield thread_exit_after_death thread_exit_after_yield cv_wait_after_acquire
  resume-LeavesSeparate (Machine.in_yield b t) x stack w s =
      kept w _ (thread_yield_resumed-KeepsObjects b t stack w) s
  resume-LeavesSeparate (Machine.in_stub fn arg) x stack w s = s
  resume-LeavesSeparate (Machine.in_death b) x stack w s = restore-LeavesSeparate b 0 stack w s
  resume-LeavesSeparate (Machine.in_kill t b) x stack w s = restore-LeavesSeparate b t stack w s
  resume-LeavesSeparate Machine.in_admin_kill x stack w s =
      kept w _ (admin_mode_after_kill-KeepsObjects stack w) s
  resume-LeavesSeparate Machine.in_admin_yield x stack w s =
      if-Ensures _ (x == Machine.thread_none) _ _ (λ e. tt) (λ e. tt)
  resume-LeavesSeparate (Machine.in_exit_death c) x stack w s =
      kept w _ (thread_yield-KeepsObjects thread_any (Machine.in_exit_yield c ∷ stack) w) s
  resume-LeavesSeparate (Machine.in_exit_yield c) x stack w s =
      kept w _ (exit_to_main-KeepsObjects c w) s
  resume-LeavesSeparate (Machine.in_sleep q b) x stack w s =
      thread_sleep_after_yield-LeavesSeparate q b x stack w s
  resume-LeavesSeparate (Machine.in_wait t at b) x stack w s =
      kept w _ (thread_wait_after_yield-KeepsObjects 0 t at b stack w) s
  resume-LeavesSeparate (Machine.in_acquire l b) x stack w s =
      acquire_loop-LeavesSeparate l b stack w s
  resume-LeavesSeparate (Machine.in_cv_sleep l b) x stack w s =
      cv_wait_after_sleep-LeavesSeparate l b stack w s
  resume-LeavesSeparate (Machine.in_cv_acquire b) x stack w s = restore-LeavesSeparate b 0 stack w s
  resume-LeavesSeparate Machine.in_handler x stack w s = s

  deliver-LeavesSeparate :
      (ret : Int32) (now : Timespec) (w : World H)
      → IsSeparate w
      → LeavesSeparate (deliver ret now w)
  deliver-LeavesSeparate ret now w s = elim (deliver-yields ret now w) [
    | inl e ↦
        let fired : World H = record w { enabled = false; timer = timer_after now w.timer } in
        rw e (kept fired _ (thread_yield-KeepsObjects thread_any (Machine.in_handler ∷ []) fired) s)
    | inr e ↦ rw e tt
  ]

  -- A function that cannot switch gives control back to the caller.
  back :
      {A : Type 0} (world : A → World H) (m : Result A) (value : A → Int32)
      → Ensures (λ a. IsSeparate (world a)) m
      → LeavesSeparate (m >>= λ a. return (value a) [] (world a))
  back world (ok a) value s = s
  back world (halt e) value s = tt

  module _ (w : World H) (ready : AllReady w.wait_queues) (fresh : GivesFresh w)
      (s : IsSeparate w) where
    perform-LeavesSeparate : (call : Call) → Spares w call → LeavesSeparate (perform call w)
    unfolding perform reserve free_lock free_cv cv_signal cv_broadcast interrupts_quiet
        interrupts_loud register_interrupt_handler
    perform-LeavesSeparate (Calls.reserve size) h =
        back _ _ _ (any-Ensures _ (al.malloc369 size w.heap) _ (λ a e. s))
    perform-LeavesSeparate (Calls.fill_lock p queue) (out, (q, there, empty)) = back _ _ _ (
        if-Ensures _ (p == 0) _ _ (λ z. tt)
          (λ z.
            fill_lock-Separate (objects w) s p (record { queue = queue; current = minus 1 })
              (λ e. cc (e, there)) out.0 out.1))
    perform-LeavesSeparate (Calls.free_lock p) h =
        back _ _ _
          (any-Ensures _ (al.free369 p w.heap) _ (λ heap e. free_lock-Separate (objects w) s p))
    perform-LeavesSeparate (Calls.fill_cv p queue) (out, there) = back _ _ _ (
        if-Ensures _ (p == 0) _ _ (λ z. tt)
          (λ z. fill_cv-Separate (objects w) s p (record { queue = queue }) there out.0 out.1))
    perform-LeavesSeparate (Calls.free_cv p) h =
        back _ _ _
          (any-Ensures _ (al.free369 p w.heap) _ (λ heap e. free_cv-Separate (objects w) s p))
    perform-LeavesSeparate (Calls.create fn parg) h =
        back _ _ _ (thread_create-Separate fn parg w s)
    perform-LeavesSeparate (Calls.yield t) h = kept w _ (thread_yield-KeepsObjects t [] w) s
    perform-LeavesSeparate (Calls.exit c) h = kept w _ (thread_exit-KeepsObjects c [] w) s
    perform-LeavesSeparate (Calls.kill t) h = kept w _ (thread_kill-KeepsObjects t [] w) s
    perform-LeavesSeparate Calls.new_queue h = back _ _ _ (wait_queue_create-Separate w s)
    perform-LeavesSeparate (Calls.drop_queue q) h =
        back _ _ _ (wait_queue_destroy-Separate q w h.0 h.1 s)
    perform-LeavesSeparate (Calls.sleep_on q) h = thread_sleep-LeavesSeparate q [] w s
    perform-LeavesSeparate (Calls.wakeup q all) h =
        back _ _ _ (thread_wakeup-Separate q all w ready s)
    perform-LeavesSeparate (Calls.wait_for t at) h =
        kept w _ (thread_wait-KeepsObjects 0 t at [] w) s
    perform-LeavesSeparate Calls.new_lock h = back _ _ _ (lock_create-Separate w fresh s)
    perform-LeavesSeparate (Calls.drop_lock l) h = back _ _ _ (lock_destroy-Separate l w s)
    perform-LeavesSeparate (Calls.acquire l) h = lock_acquire-LeavesSeparate l [] w s
    perform-LeavesSeparate (Calls.release l) h = back _ _ _ (lock_release-Separate l w ready s)
    perform-LeavesSeparate Calls.new_cv h = back _ _ _ (cv_create-Separate w fresh s)
    perform-LeavesSeparate (Calls.drop_cv c) h = back _ _ _ (cv_destroy-Separate c w s)
    perform-LeavesSeparate (Calls.wait_on c l) h = cv_wait-LeavesSeparate c l [] w ready s
    perform-LeavesSeparate (Calls.signal c l) h = back _ _ _ (wake_cv-Separate 0 c l w ready s)
    perform-LeavesSeparate (Calls.broadcast c l) h = back _ _ _ (wake_cv-Separate 1 c l w ready s)
    perform-LeavesSeparate (Calls.set_signals b) h = interrupts_set-Separate b w s
    perform-LeavesSeparate (Calls.register verbose) h =
        back _ _ _ (assert-Ensures _ (not w.timer.registered) _ (λ e. s))
    perform-LeavesSeparate Calls.be_quiet h = s
    perform-LeavesSeparate Calls.be_loud h = s

  pub Move-LeavesSeparate :
      {c : Control H} {o : Outcome H} (m : Move c o)
      → MoveSpares m
      → GivesFresh c.world
      → AllReady c.world.wait_queues
      → IsSeparate c.world
      → LeavesSeparate o
  unfolding step
  Move-LeavesSeparate (Calls.goes_on x f stack w) h fresh ready s =
      resume-LeavesSeparate f x stack w s
  Move-LeavesSeparate (Calls.calls x w call) h fresh ready s =
      perform-LeavesSeparate w ready fresh s call h
  Move-LeavesSeparate (Calls.fires x ret now w on set) h fresh ready s =
      deliver-LeavesSeparate ret now w s
