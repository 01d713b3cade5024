-- ===== src/Lock/Scheduled.antt =====
-- Locks and condition variables lose no thread that can run.
use user_space_threads.Prelude.{
  ℕ, Bool, false, not, List, ◌∷◌, Option, Int32, Result, ok, halt, minus, ◌==◌, ◌>>=◌, Ensures,
  any-Ensures, bind-Ensures, if-Ensures, assert-Ensures,
}
use user_space_threads.Machine.{
  Timer, Frame, World, Outcome, Lock, in_acquire, in_cv_sleep, in_cv_acquire,
}
use user_space_threads.Machine.Objects.{Allocator, set_lock, deref-Ensures}
use user_space_threads.Thread.Inv.{Inv}
use user_space_threads.Thread.Masks.{AllReady}
use user_space_threads.Thread.Keeps.{with_call}
use user_space_threads.Thread.Scheduled.{Scheduled, IsScheduled, restore-IsScheduled}
use user_space_threads.Wait.{wait_queue_create, wait_queue_destroy, wait_queue_size, thread_wakeup}
use user_space_threads.Wait.Leaves.{Whole, Leaves}
use user_space_threads.Wait.Scheduled.{
  HasRoom, thread_sleep-IsScheduled, thread_wakeup-Scheduled, interrupts_set-Scheduled,
}
use user_space_threads.Lock.{
  lock_create, lock_destroy, cv_create, cv_destroy, lock_size, cv_size, acquire_loop, lock_acquire,
  lock_release, cv_wait, cv_wait_after_sleep, wake_cv,
}
use user_space_threads.Lock.Keeps.{Stands, lock_release-Leaves}

module _ {H : Type 0} ⦃al : Allocator H⦄ (w : World H) (h : Scheduled w) where
  pub wait_queue_create-Scheduled : Ensures (λ a. Scheduled a.1) (wait_queue_create w)
  unfolding wait_queue_create
  wait_queue_create-Scheduled =
      any-Ensures _ (al.malloc369 wait_queue_size w.heap) _
        (λ a e. assert-Ensures _ (not (a.0 == 0)) _ (λ nz. h))

  pub wait_queue_destroy-Scheduled : (p : ℕ) → Ensures (λ w'. Scheduled w') (wait_queue_destroy p w)
  unfolding wait_queue_destroy
  wait_queue_destroy-Scheduled p = any-Ensures _ (al.free369 p w.heap) _ (λ heap e. h)

  pub lock_destroy-Scheduled : (p : ℕ) → Ensures (λ w'. Scheduled w') (lock_destroy p w)
  unfolding lock_destroy
  lock_destroy-Scheduled p = assert-Ensures _ (not (p == 0)) _ (λ a.
      deref-Ensures _ (w.locks p) _ (λ l live. assert-Ensures _ (l.current == minus 1) _ (λ b.
        any-Ensures _ (al.free369 l.queue w.heap) _
          (λ heap e. any-Ensures _ (al.free369 p heap) _ (λ heap' e'. h)))))

  pub cv_destroy-Scheduled : (p : ℕ) → Ensures (λ w'. Scheduled w') (cv_destroy p w)
  unfolding cv_destroy
  cv_destroy-Scheduled p = assert-Ensures _ (not (p == 0)) _ (λ a.
      deref-Ensures _ (w.cvs p) _ (λ c live.
        any-Ensures _ (al.free369 c.queue w.heap) _
          (λ heap e. any-Ensures _ (al.free369 p heap) _ (λ heap' e'. h))))

module _ {H : Type 0} ⦃al : Allocator H⦄ (w : World H) (h : Scheduled w) where
  pub lock_create-Scheduled : Ensures (λ a. Scheduled a.1) (lock_create w)
  unfolding lock_create
  lock_create-Scheduled = any-Ensures _ (al.malloc369 lock_size w.heap) _ (λ a e.
      bind-Ensures _ (λ b. Scheduled b.1) (wait_queue_create (record w { heap = a.1 })) _
        (wait_queue_create-Scheduled (record w { heap = a.1 }) h)
        (λ b e' made. if-Ensures _ (a.0 == 0) _ _ (λ z. tt) (λ z. made)))

  pub cv_create-Scheduled : Ensures (λ a. Scheduled a.1) (cv_create w)
  unfolding cv_create
  cv_create-Scheduled = any-Ensures _ (al.malloc369 cv_size w.heap) _ (λ a e.
      bind-Ensures _ (λ b. Scheduled b.1) (wait_queue_create (record w { heap = a.1 })) _
        (wait_queue_create-Scheduled (record w { heap = a.1 }) h)
        (λ b e' made. if-Ensures _ (a.0 == 0) _ _ (λ z. tt) (λ z. made)))

module _ {H : Type 0} where
  pub acquire_loop-IsScheduled :
      (lock : ℕ) (s : Bool) (stack : List Frame) (w : World H)
      → Inv w
      → Scheduled w
      → IsScheduled (acquire_loop lock s stack w)
  unfolding acquire_loop
  acquire_loop-IsScheduled lock s stack w v h = deref-Ensures _ (w.locks lock) _ (λ l live.
      if-Ensures _ (l.current == minus 1) _ _
        (λ a.
          restore-IsScheduled s 0 stack (set_lock lock (record l { current = w.current_thread }) w)
            h)
        (λ a. thread_sleep-IsScheduled l.queue (in_acquire lock s ∷ stack) w v h))

  pub lock_acquire-IsScheduled :
      (lock : ℕ) (stack : List Frame) (w : World H)
      → Inv w
      → Scheduled w
      → IsScheduled (lock_acquire lock stack w)
  unfolding lock_acquire
  lock_acquire-IsScheduled lock stack w v h =
      assert-Ensures _ (not (lock == 0)) _
        (λ a. acquire_loop-IsScheduled lock w.enabled stack (record w { enabled = false }) v h)

  pub cv_wait_after_sleep-IsScheduled :
      (lock : ℕ) (s : Bool) (stack : List Frame) (w : World H)
      → Inv w
      → Scheduled w
      → IsScheduled (cv_wait_after_sleep lock s stack w)
  unfolding cv_wait_after_sleep
  cv_wait_after_sleep-IsScheduled lock s stack w v h =
      assert-Ensures _ (not w.enabled) _
        (λ a. lock_acquire-IsScheduled lock (in_cv_acquire s ∷ stack) w v h)

  module _ (w : World H) (v : Inv w) (ready : AllReady w.wait_queues)
      (room : HasRoom w.thread_queue w.wait_queues) (h : Scheduled w) where
    pub lock_release-Scheduled : (lock : ℕ) → Ensures (λ w'. Scheduled w') (lock_release lock w)
    unfolding lock_release
    lock_release-Scheduled lock = assert-Ensures _ (not (lock == 0)) _ (λ a.
        deref-Ensures _ (w.locks lock) _ (λ l live.
          assert-Ensures _ (l.current == w.current_thread) _ (λ mine.
            let free : World H =
              set_lock lock (record l { current = minus 1 }) (record w { enabled = false }) in
            bind-Ensures _ (λ b. Scheduled b.1) (thread_wakeup l.queue 1 free) _
              (thread_wakeup-Scheduled l.queue 1 free v ready room h)
              (λ b e woke. interrupts_set-Scheduled w.enabled b.1 woke))))

    pub wake_cv-Scheduled :
        (all : Int32) (cv lock : ℕ) → Ensures (λ w'. Scheduled w') (wake_cv all cv lock w)
    unfolding wake_cv
    wake_cv-Scheduled all cv lock = assert-Ensures _ (not (cv == 0)) _ (λ a.
        assert-Ensures _ (not (lock == 0)) _ (λ b. deref-Ensures _ (w.locks lock) _ (λ l live.
          assert-Ensures _ (l.current == w.current_thread) _ (λ mine.
            deref-Ensures _ (w.cvs cv) _ (λ c there.
              let off : World H = record w { enabled = false } in
              bind-Ensures _ (λ b. Scheduled b.1) (thread_wakeup c.queue all off) _
                (thread_wakeup-Scheduled c.queue all off v ready room h)
                (λ b e woke. interrupts_set-Scheduled w.enabled b.1 woke))))))

  -- cv_wait wakes the threads that wait for the lock, and then sleeps: what it leaves has to keep
  -- the invariant for that.
  module _ (L : (ℕ → Option Lock) → Timer → Type 0) (current : Int32) (st : Stands L current) where
    released :
        (stack : List Frame) (m : Result (World H)) (f : World H → Outcome H)
        → Leaves L stack current (λ w'. w') m
        → Ensures (λ w'. Scheduled w') m
        → ((w' : World H) → Inv w' → Scheduled w' → IsScheduled (f w'))
        → IsScheduled (m >>= f)
    released stack (ok w') f k h g = g w' k.inv h
    released stack (halt e) f k h g = tt

    pub cv_wait-IsScheduled :
        (cv lock : ℕ) (stack : List Frame) (w : World H)
        → Whole L stack current w
        → HasRoom w.thread_queue w.wait_queues
        → Scheduled w
        → IsScheduled (cv_wait cv lock stack w)
    unfolding cv_wait
    cv_wait-IsScheduled cv lock stack w k room h =
        let off : World H = record w { enabled = false } in
        let f = in_cv_sleep lock w.enabled in
        let open_call : Whole L (f ∷ stack) current off = record {
          inv = k.inv;
          calm = with_call L f w k.calm.fits k.calm;
          same = k.same;
        } in
        assert-Ensures _ (not (cv == 0)) _ (λ a. assert-Ensures _ (not (lock == 0)) _ (λ b.
          deref-Ensures _ (w.locks lock) _ (λ l live.
            assert-Ensures _ (l.current == w.current_thread) _ (λ mine.
              released (f ∷ stack) (lock_release lock off) _
                (lock_release-Leaves L current st lock (f ∷ stack) off open_call)
                (lock_release-Scheduled off k.inv k.calm.queues room h lock)
                (λ w1 v1 h1.
                  deref-Ensures _ (w1.cvs cv) _
                    (λ c there. thread_sleep-IsScheduled c.queue (f ∷ stack) w1 v1 h1))))))
