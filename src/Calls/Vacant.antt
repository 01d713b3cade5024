-- ===== src/Calls/Vacant.antt =====
-- The wait queue of a free lock is empty, from thread_init on: a thread that lock_release frees the
-- lock for is woken.
use user_space_threads.Prelude.{
  ℕ, ◌-◌, ◌≡◌, ◌≢◌, subst, Bool, false, inl, inr, Option-cases, List, [], ◌∷◌, Option, some, none,
  Int32, Result, ok, halt, ◌==◌, ◌>>=◌, not, Ensures, any-Ensures, if-Ensures, assert-Ensures,
  Bool-cases, arith,
}
use user_space_threads.Clock.{Timespec}
use user_space_threads.Queue.{Queue, thread_max_threads}
use user_space_threads.Machine
use user_space_threads.Machine.{Frame, World, Outcome, Control, Lock, thread_any, thread_min_stack}
use user_space_threads.Machine.Objects.{Allocator}
use user_space_threads.Interrupt.{interrupts_quiet, interrupts_loud, register_interrupt_handler}
use user_space_threads.Thread.{thread_create, create_at, first_destroyed}
use user_space_threads.Thread.Inv.{Inv}
use user_space_threads.Thread.Init.{thread_init-Started}
use user_space_threads.Thread.Death.{IsMallocSafe, IsFreeSafe}
use user_space_threads.Thread.Masks.{AllReady}
use user_space_threads.Thread.Objects.{
  exit_to_main-KeepsObjects, thread_exit-KeepsObjects, admin_mode_after_kill-KeepsObjects,
  thread_kill-KeepsObjects, thread_yield_resumed-KeepsObjects,
}
use user_space_threads.Thread.Yield.{
  return, admin_mode_after_yield, thread_exit_after_death, thread_exit_after_yield,
  handle_death_after_yield, thread_kill_after_death,
}
use user_space_threads.Wait.Vacant.{
  Vacant, LeavesVacant, unchanged, restore-LeavesVacant, thread_sleep-LeavesVacant,
  thread_yield-LeavesVacant, thread_sleep_after_yield-LeavesVacant, thread_wait-KeepsObjects,
  thread_wait_after_yield-KeepsObjects,
}
use user_space_threads.Wait.Vacant.Waking.{thread_wakeup-Vacant}
use user_space_threads.Lock.{
  reserve, free_lock, free_cv, cv_wait_after_acquire, cv_signal, cv_broadcast,
}
use user_space_threads.Lock.Vacant.{
  IsOwner, interrupts_set-Vacant, acquire_loop-LeavesVacant, lock_acquire-LeavesVacant,
  cv_wait_after_sleep-LeavesVacant, lock_release-Vacant, cv_wait-LeavesVacant, wake_cv-Vacant,
}
use user_space_threads.Lock.Vacant.Create.{
  wait_queue_create-Vacant, wait_queue_destroy-Vacant, lock_create-Vacant, lock_destroy-Vacant,
  cv_create-Vacant, cv_destroy-Vacant,
}
use user_space_threads.Step.{step, resume, thread_stub, deliver}
use user_space_threads.Step.Handler.{deliver-yields}
use user_space_threads.Calls.{Call, Move, Reached, perform}
use user_space_threads.Calls
use user_space_threads.Calls.Reach.{Reached-Calm}

-- A wait queue is alive and empty.
abbrev pub IsBlank : {H : Type 0} → World H → ℕ → Type 0
IsBlank w queue = (q : Queue) × (w.wait_queues queue ≡ some q) × (q.current_size ≡ 0)

-- A call does not put the caller to sleep on the wait queue of the lock at `p` directly, and an
-- interrupted lock_create finds the wait queue that it made alive and empty.
abbrev pub SleepsElsewhere : {H : Type 0} → ℕ → World H → Call → Type 0
SleepsElsewhere p w (Calls.sleep_on queue) = (l : Lock) → w.locks p ≡ some l → l.queue ≢ queue
SleepsElsewhere p w (Calls.fill_lock q queue) = IsBlank w queue
SleepsElsewhere p w _ = Unit

module _ {H : Type 0} ⦃al : Allocator H⦄ where
  abbrev pub MoveElsewhere : ℕ → {c : Control H} {o : Outcome H} → Move c o → Type 0
  MoveElsewhere p (Calls.goes_on x f stack w) = Unit
  MoveElsewhere p (Calls.calls x w call) = SleepsElsewhere p w call
  MoveElsewhere p (Calls.fires x ret now w on set) = Unit

  -- Before each move the lock at `p`, if there was one, had a wait queue of its own, and no move was
  -- a call of thread_sleep on it or gave a lock a queue with entries.
  abbrev pub AlwaysOwner : (p : ℕ) {c : Control H} → Reached c → Type 0
  AlwaysOwner p (Calls.boots uninit w0 w v behind pristine no_handler e) = Unit
  AlwaysOwner p (Calls.moves c0 _ o r m e) =
      IsOwner p c0.world × MoveElsewhere p m × AlwaysOwner p r

  module _ (p : ℕ) where
    create_at-Vacant :
        (s : Bool) (tid : Int32) (fn parg : ℕ) (w : World H)
        → Vacant p w
        → Ensures (λ a. Vacant p a.1) (create_at s tid fn parg w)
    unfolding create_at
    create_at-Vacant s tid fn parg w v =
        any-Ensures _ (al.malloc369 thread_min_stack w.heap) _
          (λ a e. assert-Ensures _ (not w.enabled) _ (λ off. interrupts_set-Vacant p s _ v))

    thread_create-Vacant :
        (fn parg : ℕ) (w : World H)
        → Vacant p w
        → Ensures (λ a. Vacant p a.1) (thread_create fn parg w)
    unfolding thread_create
    thread_create-Vacant fn parg w v =
        let off : World H = record w { enabled = false } in
        assert-Ensures _ w.enabled _ (λ on.
          elim (Option-cases (first_destroyed (thread_max_threads - 1) 1 w.threads)) [
            | inl e ↦ rw e (interrupts_set-Vacant p w.enabled off v)
            | inr (tid, e) ↦ rw e (create_at-Vacant w.enabled tid fn parg off v)
          ])

    resume-LeavesVacant :
        (f : Frame) (x : Int32) (stack : List Frame) (w : World H)
        → Inv w
        → IsOwner p w
        → Vacant p w
        → LeavesVacant p (resume f x stack w)
    unfolding resume thread_stub handle_death_after_yield thread_kill_after_death
        admin_mode_after_yield thread_exit_after_death thread_exit_after_yield cv_wait_after_acquire
    resume-LeavesVacant (Machine.in_yield s t) x stack w i o v =
        unchanged p w _ (thread_yield_resumed-KeepsObjects s t stack w) v
    resume-LeavesVacant (Machine.in_stub fn arg) x stack w i o v = v
    resume-LeavesVacant (Machine.in_death s) x stack w i o v = restore-LeavesVacant p s 0 stack w v
    resume-LeavesVacant (Machine.in_kill t s) x stack w i o v = restore-LeavesVacant p s t stack w v
    resume-LeavesVacant Machine.in_admin_kill x stack w i o v =
        unchanged p w _ (admin_mode_after_kill-KeepsObjects stack w) v
    resume-LeavesVacant Machine.in_admin_yield x stack w i o v =
        if-Ensures _ (x == Machine.thread_none) _ _ (λ e. tt) (λ e. tt)
    resume-LeavesVacant (Machine.in_exit_death c) x stack w i o v =
        thread_yield-LeavesVacant p thread_any (Machine.in_exit_yield c ∷ stack) w v
    resume-LeavesVacant (Machine.in_exit_yield c) x stack w i o v =
        unchanged p w _ (exit_to_main-KeepsObjects c w) v
    resume-LeavesVacant (Machine.in_sleep q s) x stack w i o v =
        thread_sleep_after_yield-LeavesVacant p q s x stack w v
    resume-LeavesVacant (Machine.in_wait t at s) x stack w i o v =
        unchanged p w _ (thread_wait_after_yield-KeepsObjects p t at s stack w) v
    resume-LeavesVacant (Machine.in_acquire l s) x stack w i o v =
        acquire_loop-LeavesVacant p l s stack w i o v
    resume-LeavesVacant (Machine.in_cv_sleep l s) x stack w i o v =
        cv_wait_after_sleep-LeavesVacant p l s stack w i o v
    resume-LeavesVacant (Machine.in_cv_acquire s) x stack w i o v =
        restore-LeavesVacant p s 0 stack w v
    resume-LeavesVacant Machine.in_handler x stack w i o v = v

    deliver-LeavesVacant :
        (ret : Int32) (now : Timespec) (w : World H)
        → Vacant p w
        → LeavesVacant p (deliver ret now w)
    deliver-LeavesVacant ret now w v = elim (deliver-yields ret now w) [
      | inl e ↦ rw e (thread_yield-LeavesVacant p thread_any (Machine.in_handler ∷ []) _ v)
      | inr e ↦ rw e tt
    ]

    -- A function that cannot switch gives control back to the caller.
    back :
        {A : Type 0} (world : A → World H) (m : Result A) (value : A → Int32)
        → Ensures (λ a. Vacant p (world a)) m
        → LeavesVacant p (m >>= λ a. return (value a) [] (world a))
    back world (ok a) value v = v
    back world (halt e) value v = tt

    module _ (w : World H) (i : Inv w) (ready : AllReady w.wait_queues) (o : IsOwner p w)
        (v : Vacant p w) where
      perform-LeavesVacant :
          (call : Call) → SleepsElsewhere p w call → LeavesVacant p (perform call w)
      unfolding perform reserve free_lock free_cv cv_signal cv_broadcast interrupts_quiet
          interrupts_loud register_interrupt_handler
      perform-LeavesVacant (Calls.reserve size) s =
          back _ _ _ (any-Ensures _ (al.malloc369 size w.heap) _ (λ a e. v))
      perform-LeavesVacant (Calls.fill_lock q queue) (x, is, empty) = back _ _ _ (
          if-Ensures _ (q == 0) _ _ (λ z. tt)
            (λ z l y live free there. elim (Bool-cases (q == p)) [
              | inl same ↦ ground (arith, live, there, is, empty, same)
              | inr other ↦ v l y (ground (arith, live, other)) free there
            ]))
      perform-LeavesVacant (Calls.free_lock q) s = back _ _ _ (
          any-Ensures _ (al.free369 q w.heap) _
            (λ heap e l y live free there. v l y (ground (arith, live)) free there))
      perform-LeavesVacant (Calls.fill_cv q queue) s =
          back _ _ _ (if-Ensures _ (q == 0) _ _ (λ z. tt) (λ z. v))
      perform-LeavesVacant (Calls.free_cv q) s =
          back _ _ _ (any-Ensures _ (al.free369 q w.heap) _ (λ heap e. v))
      perform-LeavesVacant (Calls.create fn parg) s = back _ _ _ (thread_create-Vacant fn parg w v)
      perform-LeavesVacant (Calls.yield t) s = thread_yield-LeavesVacant p t [] w v
      perform-LeavesVacant (Calls.exit c) s = unchanged p w _ (thread_exit-KeepsObjects c [] w) v
      perform-LeavesVacant (Calls.kill t) s = unchanged p w _ (thread_kill-KeepsObjects t [] w) v
      perform-LeavesVacant Calls.new_queue s = back _ _ _ (wait_queue_create-Vacant p w v)
      perform-LeavesVacant (Calls.drop_queue q) s = back _ _ _ (wait_queue_destroy-Vacant p q w v)
      perform-LeavesVacant (Calls.sleep_on q) s =
          thread_sleep-LeavesVacant p q [] w v (λ l live same free. s l live same)
      perform-LeavesVacant (Calls.wakeup q all) s =
          back _ _ _ (thread_wakeup-Vacant p q all w ready v)
      perform-LeavesVacant (Calls.wait_for t at) s =
          unchanged p w _ (thread_wait-KeepsObjects p t at [] w) v
      perform-LeavesVacant Calls.new_lock s = back _ _ _ (lock_create-Vacant p w v)
      perform-LeavesVacant (Calls.drop_lock l) s = back _ _ _ (lock_destroy-Vacant p l w v)
      perform-LeavesVacant (Calls.acquire l) s = lock_acquire-LeavesVacant p l [] w i o v
      perform-LeavesVacant (Calls.release l) s = back _ _ _ (lock_release-Vacant p l w ready o v)
      perform-LeavesVacant Calls.new_cv s = back _ _ _ (cv_create-Vacant p w v)
      perform-LeavesVacant (Calls.drop_cv c) s = back _ _ _ (cv_destroy-Vacant p c w v)
      perform-LeavesVacant (Calls.wait_on c l) s = cv_wait-LeavesVacant p c l [] w ready o v
      perform-LeavesVacant (Calls.signal c l) s = back _ _ _ (wake_cv-Vacant p 0 c l w ready v)
      perform-LeavesVacant (Calls.broadcast c l) s = back _ _ _ (wake_cv-Vacant p 1 c l w ready v)
      perform-LeavesVacant (Calls.set_signals b) s = interrupts_set-Vacant p b w v
      perform-LeavesVacant (Calls.register verbose) s =
          back _ _ _ (assert-Ensures _ (not w.timer.registered) _ (λ e. v))
      perform-LeavesVacant Calls.be_quiet s = v
      perform-LeavesVacant Calls.be_loud s = v

    Move-LeavesVacant :
        {c : Control H} {o : Outcome H} (m : Move c o)
        → MoveElsewhere p m
        → Inv c.world
        → AllReady c.world.wait_queues
        → IsOwner p c.world
        → Vacant p c.world
        → LeavesVacant p o
    unfolding step
    Move-LeavesVacant (Calls.goes_on x f stack w) s i ready o v =
        resume-LeavesVacant f x stack w i o v
    Move-LeavesVacant (Calls.calls x w call) s i ready o v =
        perform-LeavesVacant w i ready o v call s
    Move-LeavesVacant (Calls.fires x ret now w on set) s i ready o v =
        deliver-LeavesVacant ret now w v

  -- No wake-up is lost at a lock: in every state that the process reaches, if the lock at `p` is
  -- free then its wait queue is empty. It is asked that before each move the lock, if there is one,
  -- has a wait queue that no other lock and no condition variable has, that no thread calls
  -- thread_sleep on that queue directly, that an interrupted lock_create finds the wait queue that
  -- it made alive and empty, and of malloc369 and free369 that they do not jump to an unset context.
  pub Reached-Vacant :
      (malloc_safe : IsMallocSafe al) (free_safe : IsFreeSafe al) (p : ℕ) (c : Control H)
      (r : Reached c)
      → AlwaysOwner p r
      → Vacant p c.world
  Reached-Vacant malloc_safe free_safe p c (Calls.boots uninit w0 w v behind pristine no_handler e)
        owner =
      λ l q live free there.
        no_some (pristine.wait_queues l.queue) (thread_init-Started uninit w0 behind e).wait_queues
          there
    where
      no_some :
          {at : ℕ} {q : Queue} {a b : ℕ → Option Queue}
          → a at ≡ none
          → b ≡ a
          → b at ≡ some q
          → q.current_size ≡ 0
      no_some x y z = absurd (cc (x, y, z))
  Reached-Vacant malloc_safe free_safe p c (Calls.moves c0 _ o r m e) (own, elsewhere, before) =
      let (i, k) = Reached-Calm malloc_safe free_safe c0 r in
      subst (LeavesVacant p) e (
        Move-LeavesVacant p m elsewhere i k.queues own
          (Reached-Vacant malloc_safe free_safe p c0 r before))
