-- ===== src/Lock/Separate/Keeps.antt =====
-- The functions on wait queues, locks and condition variables keep the wait queues separate.
use user_space_threads.Prelude.{
  ℕ, subst, sym, Bool, true, false, not, List, ◌∷◌, Int32, minus, ◌==◌, ==→ne, arith, Ensures,
  bind-Ensures, if-Ensures, map-Ensures, assert-Ensures,
}
use user_space_threads.Queue.{queue_push, queue_pop_last}
use user_space_threads.Machine
use user_space_threads.Machine.{
  Frame, World, Outcome, Lock, Cv, sleep, running, thread_any, in_sleep, in_acquire, in_cv_sleep,
  in_cv_acquire,
}
use user_space_threads.Machine.Objects.{set_lock, set_state, set_wait_queue, deref-Ensures}
use user_space_threads.Interrupt.{interrupts_set}
use user_space_threads.Thread.Masks.{AllReady}
use user_space_threads.Thread.Yield.{restore, thread_yield}
use user_space_threads.Thread.Objects.{
  objects, KeepsObjects, restore-KeepsObjects, thread_yield-KeepsObjects,
}
use user_space_threads.Wait.{thread_sleep, thread_sleep_after_yield, thread_wakeup}
use user_space_threads.Wait.Vacant.Waking.{thread_wakeup-Roused}
use user_space_threads.Lock.{
  acquire_loop, lock_acquire, lock_release, cv_wait, cv_wait_after_sleep, wake_cv,
}
use user_space_threads.Lock.Separate.{
  Separate, IsSeparate, LeavesSeparate, set_wait_queue-Separate, set_lock-Separate, Roused-Separate,
}

module _ {H : Type 0} where
  pub kept : (w : World H) (o : Outcome H) → KeepsObjects w o → IsSeparate w → LeavesSeparate o
  kept w o k s = map-Ensures o (λ c e. subst Separate (sym e) s) k

  pub interrupts_set-Separate :
      (b : Bool) (w : World H) → IsSeparate w → IsSeparate (interrupts_set b w).1
  unfolding interrupts_set
  interrupts_set-Separate true w s = s
  interrupts_set-Separate false w s = s

  pub restore-LeavesSeparate :
      (b : Bool) (v : Int32) (stack : List Frame) (w : World H)
      → IsSeparate w
      → LeavesSeparate (restore b v stack w)
  restore-LeavesSeparate b v stack w =
      kept w (restore b v stack w) (restore-KeepsObjects b v stack w)

  pub thread_sleep-LeavesSeparate :
      (queue : ℕ) (stack : List Frame) (w : World H)
      → IsSeparate w
      → LeavesSeparate (thread_sleep queue stack w)
  unfolding thread_sleep
  thread_sleep-LeavesSeparate queue stack w s =
      let off : World H = record w { enabled = false } in
      let asleep : World H = set_state w.current_thread sleep off in
      if-Ensures _ (queue == 0) _ _
        (λ a. restore-LeavesSeparate w.enabled Machine.thread_invalid stack off s)
        (λ a. deref-Ensures _ (w.wait_queues queue) _ (λ q live.
          let longer : World H = set_wait_queue queue (queue_push q w.current_thread).1 asleep in
          kept longer (thread_yield thread_any (in_sleep queue w.enabled ∷ stack) longer)
            (thread_yield-KeepsObjects thread_any (in_sleep queue w.enabled ∷ stack) longer)
            (set_wait_queue-Separate (objects w) s queue (queue_push q w.current_thread).1
              (==→ne a))))

  pub thread_sleep_after_yield-LeavesSeparate :
      (queue : ℕ) (b : Bool) (num : Int32) (stack : List Frame) (w : World H)
      → IsSeparate w
      → LeavesSeparate (thread_sleep_after_yield queue b num stack w)
  unfolding thread_sleep_after_yield
  thread_sleep_after_yield-LeavesSeparate queue b num stack w s =
      let awake : World H = set_state w.current_thread running w in
      if-Ensures _ (num == Machine.thread_none) _ _
        (λ a. deref-Ensures _ (w.wait_queues queue) _ (λ q live.
          assert-Ensures _ ((queue_pop_last q).0 == w.current_thread) _ (λ mine.
            restore-LeavesSeparate b Machine.thread_none stack
              (set_wait_queue queue (queue_pop_last q).1 awake)
              (set_wait_queue-Separate (objects w) s queue (queue_pop_last q).1
                (λ z. absurd (ground (arith, z, live, s.null)))))))
        (λ a. restore-LeavesSeparate b num stack w s)

  pub thread_wakeup-Separate :
      (queue : ℕ) (all : Int32) (w : World H)
      → AllReady w.wait_queues
      → IsSeparate w
      → Ensures (λ a. IsSeparate a.1) (thread_wakeup queue all w)
  thread_wakeup-Separate queue all w ready s =
      map-Ensures (thread_wakeup queue all w)
        (λ a r. Roused-Separate (objects w) s all queue (objects a.1) r)
        (thread_wakeup-Roused queue all w ready)

  pub acquire_loop-LeavesSeparate :
      (lock : ℕ) (b : Bool) (stack : List Frame) (w : World H)
      → IsSeparate w
      → LeavesSeparate (acquire_loop lock b stack w)
  unfolding acquire_loop
  acquire_loop-LeavesSeparate lock b stack w s = deref-Ensures _ (w.locks lock) _ (λ l live.
      if-Ensures _ (l.current == minus 1) _ _
        (λ a.
          restore-LeavesSeparate b 0 stack
            (set_lock lock (record l { current = w.current_thread }) w)
            (set_lock-Separate (objects w) s lock l w.current_thread live))
        (λ a. thread_sleep-LeavesSeparate l.queue (in_acquire lock b ∷ stack) w s))

  pub lock_acquire-LeavesSeparate :
      (lock : ℕ) (stack : List Frame) (w : World H)
      → IsSeparate w
      → LeavesSeparate (lock_acquire lock stack w)
  unfolding lock_acquire
  lock_acquire-LeavesSeparate lock stack w s =
      assert-Ensures _ (not (lock == 0)) _
        (λ a. acquire_loop-LeavesSeparate lock w.enabled stack (record w { enabled = false }) s)

  pub cv_wait_after_sleep-LeavesSeparate :
      (lock : ℕ) (b : Bool) (stack : List Frame) (w : World H)
      → IsSeparate w
      → LeavesSeparate (cv_wait_after_sleep lock b stack w)
  unfolding cv_wait_after_sleep
  cv_wait_after_sleep-LeavesSeparate lock b stack w s =
      assert-Ensures _ (not w.enabled) _
        (λ a. lock_acquire-LeavesSeparate lock (in_cv_acquire b ∷ stack) w s)

  pub lock_release-Separate :
      (lock : ℕ) (w : World H)
      → AllReady w.wait_queues
      → IsSeparate w
      → Ensures (λ w'. IsSeparate w') (lock_release lock w)
  unfolding lock_release
  lock_release-Separate lock w ready s = assert-Ensures _ (not (lock == 0)) _ (λ a.
      deref-Ensures _ (w.locks lock) _ (λ l live.
        assert-Ensures _ (l.current == w.current_thread) _ (λ mine.
          let free : World H =
            set_lock lock (record l { current = minus 1 }) (record w { enabled = false }) in
          bind-Ensures _ (λ b. IsSeparate b.1) (thread_wakeup l.queue 1 free) _
            (thread_wakeup-Separate l.queue 1 free ready
              (set_lock-Separate (objects w) s lock l (minus 1) live))
            (λ b e woke. interrupts_set-Separate w.enabled b.1 woke))))

  pub cv_wait-LeavesSeparate :
      (cv lock : ℕ) (stack : List Frame) (w : World H)
      → AllReady w.wait_queues
      → IsSeparate w
      → LeavesSeparate (cv_wait cv lock stack w)
  unfolding cv_wait
  cv_wait-LeavesSeparate cv lock stack w ready s =
      let off : World H = record w { enabled = false } in
      assert-Ensures _ (not (cv == 0)) _ (λ a. assert-Ensures _ (not (lock == 0)) _ (λ b.
        deref-Ensures _ (w.locks lock) _ (λ l live.
          assert-Ensures _ (l.current == w.current_thread) _ (λ mine.
            bind-Ensures _ (λ w'. IsSeparate w') (lock_release lock off) _
              (lock_release-Separate lock off ready s)
              (λ w1 e s1. deref-Ensures _ (w1.cvs cv) _ (λ c there.
                thread_sleep-LeavesSeparate c.queue (in_cv_sleep lock w.enabled ∷ stack) w1 s1))))))

  pub wake_cv-Separate :
      (all : Int32) (cv lock : ℕ) (w : World H)
      → AllReady w.wait_queues
      → IsSeparate w
      → Ensures (λ w'. IsSeparate w') (wake_cv all cv lock w)
  unfolding wake_cv
  wake_cv-Separate all cv lock w ready s = assert-Ensures _ (not (cv == 0)) _ (λ a.
      assert-Ensures _ (not (lock == 0)) _ (λ b. deref-Ensures _ (w.locks lock) _ (λ l live.
        assert-Ensures _ (l.current == w.current_thread) _ (λ mine.
          deref-Ensures _ (w.cvs cv) _ (λ c there.
            let off : World H = record w { enabled = false } in
            bind-Ensures _ (λ b. IsSeparate b.1) (thread_wakeup c.queue all off) _
              (thread_wakeup-Separate c.queue all off ready s)
              (λ b e woke. interrupts_set-Separate w.enabled b.1 woke))))))
