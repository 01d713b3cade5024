-- ===== src/Calls/Scheduled.antt =====
-- No thread that can run is lost, from thread_init on.
use user_space_threads.Prelude.{
  ℕ, ◌-◌, ◌<◌, refl, subst, Bool, false, inl, inr, Bool-cases, Option-cases, List, [], ◌∷◌, Int32,
  Result, ok, halt, ◌==◌, ==→eq, ◌>>=◌, arith, not, Ensures, any-Ensures, if-Ensures,
  assert-Ensures,
}
use user_space_threads.Clock.{Timespec}
use user_space_threads.Queue.{queue_slots, queue_push, thread_max_threads}
use user_space_threads.Machine
use user_space_threads.Machine.{
  Frame, World, Outcome, Control, Lock, Timer, thread_any, thread_min_stack, running,
}
use user_space_threads.Machine.Objects.{Allocator, set_thread}
use user_space_threads.Interrupt.{interrupts_quiet, interrupts_loud, register_interrupt_handler}
use user_space_threads.Thread.{thread_create, create_at, first_destroyed}
use user_space_threads.Thread.Inv.{Inv}
use user_space_threads.Thread.Init.{thread_init-Started}
use user_space_threads.Thread.Death.{IsMallocSafe, IsFreeSafe}
use user_space_threads.Thread.Masks.{Calm}
use user_space_threads.Thread.Scheduled.{
  Scheduled, IsScheduled, push-Mem, push-Mem_self, restore-IsScheduled, thread_yield-IsScheduled,
  thread_yield-IsScheduled_any,
}
use user_space_threads.Thread.Scheduled.Death.{
  thread_exit-IsScheduled, thread_kill-IsScheduled, thread_yield_resumed-IsScheduled,
  admin_mode_after_kill-IsScheduled, exit_to_main-IsScheduled,
}
use user_space_threads.Thread.Yield.{
  return, admin_mode_after_yield, thread_exit_after_death, thread_exit_after_yield,
  handle_death_after_yield, thread_kill_after_death,
}
use user_space_threads.Wait.Scheduled.{
  HasRoom, thread_sleep-IsScheduled, thread_sleep_after_yield-IsScheduled, thread_wait-IsScheduled,
  thread_wait_after_yield-IsScheduled, thread_wakeup-Scheduled, interrupts_set-Scheduled,
}
use user_space_threads.Lock.{
  reserve, free_lock, free_cv, cv_wait_after_acquire, cv_signal, cv_broadcast,
}
use user_space_threads.Lock.Scheduled.{
  wait_queue_create-Scheduled, wait_queue_destroy-Scheduled, lock_create-Scheduled,
  lock_destroy-Scheduled, cv_create-Scheduled, cv_destroy-Scheduled, acquire_loop-IsScheduled,
  lock_acquire-IsScheduled, lock_release-Scheduled, wake_cv-Scheduled, cv_wait-IsScheduled,
  cv_wait_after_sleep-IsScheduled,
}
use user_space_threads.Step.{step, resume, thread_stub, deliver}
use user_space_threads.Step.Handler.{deliver-yields}
use user_space_threads.Calls.{Call, Move, Reached, perform}
use user_space_threads.Calls
use user_space_threads.Calls.Create.{new_thread}
use user_space_threads.Calls.Reach.{AnyLocks, AnyLocks-Stands, Reached-Calm}

module _ {H : Type 0} ⦃al : Allocator H⦄ where
  -- A new thread gets an entry.
  with_new-Scheduled :
      (tid : Int32) (fn parg stack_pointer : ℕ) (heap : H) (w : World H)
      → Inv w
      → w.thread_queue.current_size < queue_slots
      → Scheduled w
      → Scheduled (record (set_thread tid (new_thread fn parg stack_pointer) w) {
        thread_queue = (queue_push w.thread_queue tid).1;
        heap = heap;
      })
  with_new-Scheduled tid fn parg stack_pointer heap w v room h u alive ne =
      elim (Bool-cases (u == tid)) [
        | inl e ↦ rw (==→eq e) (push-Mem_self tid v.ready.valid room)
        | inr e ↦ push-Mem u tid v.ready.valid (h u (ground (arith, alive)) ne)
      ]

  create_at-Scheduled :
      (s : Bool) (tid : Int32) (fn parg : ℕ) (w : World H)
      → Inv w
      → w.thread_queue.current_size < queue_slots
      → Scheduled w
      → Ensures (λ a. Scheduled a.1) (create_at s tid fn parg (record w { enabled = false }))
  unfolding create_at
  create_at-Scheduled s tid fn parg w v room h =
      let off : World H = record w { enabled = false } in
      any-Ensures _ (al.malloc369 thread_min_stack w.heap) _
        (λ a e. interrupts_set-Scheduled s _ (with_new-Scheduled tid fn parg a.0 a.1 off v room h))

  thread_create-Scheduled :
      (fn parg : ℕ) (w : World H)
      → Inv w
      → w.thread_queue.current_size < queue_slots
      → Scheduled w
      → Ensures (λ a. Scheduled a.1) (thread_create fn parg w)
  unfolding thread_create
  thread_create-Scheduled fn parg w v room h =
      let off : World H = record w { enabled = false } in
      assert-Ensures _ w.enabled _ (λ on.
        elim (Option-cases (first_destroyed (thread_max_threads - 1) 1 w.threads)) [
          | inl e ↦ rw e (interrupts_set-Scheduled w.enabled off h)
          | inr (tid, e) ↦ rw e (create_at-Scheduled w.enabled tid fn parg w v room h)
        ])

  resume-IsScheduled :
      (f : Frame) (x : Int32) (stack : List Frame) (w : World H)
      → Inv w
      → w.thread_queue.current_size < queue_slots
      → Scheduled w
      → IsScheduled (resume f x stack w)
  unfolding resume thread_stub handle_death_after_yield thread_kill_after_death
      admin_mode_after_yield thread_exit_after_death thread_exit_after_yield cv_wait_after_acquire
  resume-IsScheduled (Machine.in_yield s t) x stack w v room h =
      thread_yield_resumed-IsScheduled s t stack w v room h
  resume-IsScheduled (Machine.in_stub fn arg) x stack w v room h = h
  resume-IsScheduled (Machine.in_death s) x stack w v room h = restore-IsScheduled s 0 stack w h
  resume-IsScheduled (Machine.in_kill t s) x stack w v room h = restore-IsScheduled s t stack w h
  resume-IsScheduled Machine.in_admin_kill x stack w v room h =
      admin_mode_after_kill-IsScheduled stack w v h
  resume-IsScheduled Machine.in_admin_yield x stack w v room h =
      if-Ensures _ (x == Machine.thread_none) _ _ (λ e. tt) (λ e. tt)
  resume-IsScheduled (Machine.in_exit_death c) x stack w v room h =
      thread_yield-IsScheduled_any (Machine.in_exit_yield c ∷ stack) w v h
  resume-IsScheduled (Machine.in_exit_yield c) x stack w v room h = exit_to_main-IsScheduled c w h
  resume-IsScheduled (Machine.in_sleep q s) x stack w v room h =
      thread_sleep_after_yield-IsScheduled q s x stack w h
  resume-IsScheduled (Machine.in_wait t p s) x stack w v room h =
      thread_wait_after_yield-IsScheduled t p s stack w h
  resume-IsScheduled (Machine.in_acquire l s) x stack w v room h =
      acquire_loop-IsScheduled l s stack w v h
  resume-IsScheduled (Machine.in_cv_sleep l s) x stack w v room h =
      cv_wait_after_sleep-IsScheduled l s stack w v h
  resume-IsScheduled (Machine.in_cv_acquire s) x stack w v room h =
      restore-IsScheduled s 0 stack w h
  resume-IsScheduled Machine.in_handler x stack w v room h = h

  deliver-IsScheduled :
      (ret : Int32) (now : Timespec) (w : World H)
      → Inv w
      → Scheduled w
      → IsScheduled (deliver ret now w)
  deliver-IsScheduled ret now w v h = elim (deliver-yields ret now w) [
    | inl e ↦ rw e (thread_yield-IsScheduled_any (Machine.in_handler ∷ []) _ v h)
    | inr e ↦ rw e tt
  ]

  -- A function that cannot switch gives control back to the caller.
  back :
      {A : Type 0} (world : A → World H) (m : Result A) (value : A → Int32)
      → Ensures (λ a. Scheduled (world a)) m
      → IsScheduled (m >>= λ a. return (value a) [] (world a))
  back world (ok a) value h = h
  back world (halt e) value h = tt

  module _ (w : World H) (v : Inv w) (k : Calm AnyLocks [] w)
      (room : HasRoom w.thread_queue w.wait_queues) (h : Scheduled w) where
    perform-IsScheduled : (call : Call) → IsScheduled (perform call w)
    unfolding perform reserve free_lock free_cv cv_signal cv_broadcast interrupts_quiet
        interrupts_loud register_interrupt_handler
    perform-IsScheduled (Calls.reserve size) =
        back _ _ _ (any-Ensures _ (al.malloc369 size w.heap) _ (λ a e. h))
    perform-IsScheduled (Calls.fill_lock p queue) =
        back _ _ _ (if-Ensures _ (p == 0) _ _ (λ z. tt) (λ z. h))
    perform-IsScheduled (Calls.free_lock p) =
        back _ _ _ (any-Ensures _ (al.free369 p w.heap) _ (λ heap e. h))
    perform-IsScheduled (Calls.fill_cv p queue) =
        back _ _ _ (if-Ensures _ (p == 0) _ _ (λ z. tt) (λ z. h))
    perform-IsScheduled (Calls.free_cv p) =
        back _ _ _ (any-Ensures _ (al.free369 p w.heap) _ (λ heap e. h))
    perform-IsScheduled (Calls.create fn parg) =
        back _ _ _ (thread_create-Scheduled fn parg w v room.spare h)
    perform-IsScheduled (Calls.yield t) = thread_yield-IsScheduled t [] w v room.spare h
    perform-IsScheduled (Calls.exit c) = thread_exit-IsScheduled c [] w v room.spare h
    perform-IsScheduled (Calls.kill t) = thread_kill-IsScheduled t [] w v room.spare h
    perform-IsScheduled Calls.new_queue = back _ _ _ (wait_queue_create-Scheduled w h)
    perform-IsScheduled (Calls.drop_queue p) = back _ _ _ (wait_queue_destroy-Scheduled w h p)
    perform-IsScheduled (Calls.sleep_on q) = thread_sleep-IsScheduled q [] w v h
    perform-IsScheduled (Calls.wakeup q all) =
        back _ _ _ (thread_wakeup-Scheduled q all w v k.queues room h)
    perform-IsScheduled (Calls.wait_for t p) = thread_wait-IsScheduled t p [] w v h
    perform-IsScheduled Calls.new_lock = back _ _ _ (lock_create-Scheduled w h)
    perform-IsScheduled (Calls.drop_lock p) = back _ _ _ (lock_destroy-Scheduled w h p)
    perform-IsScheduled (Calls.acquire p) = lock_acquire-IsScheduled p [] w v h
    perform-IsScheduled (Calls.release p) =
        back _ _ _ (lock_release-Scheduled w v k.queues room h p)
    perform-IsScheduled Calls.new_cv = back _ _ _ (cv_create-Scheduled w h)
    perform-IsScheduled (Calls.drop_cv p) = back _ _ _ (cv_destroy-Scheduled w h p)
    perform-IsScheduled (Calls.wait_on c p) =
        cv_wait-IsScheduled AnyLocks w.current_thread AnyLocks-Stands c p [] w
          (record { inv = v; calm = k; same = refl }) room h
    perform-IsScheduled (Calls.signal c p) =
        back _ _ _ (wake_cv-Scheduled w v k.queues room h 0 c p)
    perform-IsScheduled (Calls.broadcast c p) =
        back _ _ _ (wake_cv-Scheduled w v k.queues room h 1 c p)
    perform-IsScheduled (Calls.set_signals b) = interrupts_set-Scheduled b w h
    perform-IsScheduled (Calls.register verbose) =
        back _ _ _ (assert-Ensures _ (not w.timer.registered) _ (λ e. h))
    perform-IsScheduled Calls.be_quiet = h
    perform-IsScheduled Calls.be_loud = h

  Move-IsScheduled :
      {c : Control H} {o : Outcome H}
      → Move c o
      → Inv c.world
      → Calm AnyLocks c.stack c.world
      → HasRoom c.world.thread_queue c.world.wait_queues
      → Scheduled c.world
      → IsScheduled o
  unfolding step
  Move-IsScheduled (Calls.goes_on x f stack w) v k room h =
      resume-IsScheduled f x stack w v room.spare h
  Move-IsScheduled (Calls.calls x w call) v k room h = perform-IsScheduled w v k room h call
  Move-IsScheduled (Calls.fires x ret now w on set) v k room h = deliver-IsScheduled ret now w v h

  -- Before each move the ready queue had room for the current thread and for every thread of any
  -- one wait queue.
  abbrev pub AlwaysRoom : {c : Control H} → Reached c → Type 0
  AlwaysRoom (Calls.boots uninit w0 w v behind pristine no_handler e) = Unit
  AlwaysRoom (Calls.moves c0 _ o r m e) =
      HasRoom c0.world.thread_queue c0.world.wait_queues × AlwaysRoom r

  -- No thread is lost: in every state that the process reaches, if the ready queue had room before
  -- each move, every thread in state Running other than the current one has an entry in the ready
  -- queue. It is asked of malloc369 and free369 that they do not jump to an unset context.
  pub Reached-Scheduled :
      (malloc_safe : IsMallocSafe al) (free_safe : IsFreeSafe al) (c : Control H) (r : Reached c)
      → AlwaysRoom r
      → Scheduled c.world
  Reached-Scheduled malloc_safe free_safe c (Calls.boots uninit w0 w v behind pristine no_handler e)
        room =
      λ t alive ne. absurd (ne ((thread_init-Started uninit w0 behind e).alone t alive))
  Reached-Scheduled malloc_safe free_safe c (Calls.moves c0 _ o r m e) (room, before) =
      let (inv, k) = Reached-Calm malloc_safe free_safe c0 r in
      subst IsScheduled e
        (Move-IsScheduled m inv k room (Reached-Scheduled malloc_safe free_safe c0 r before))
