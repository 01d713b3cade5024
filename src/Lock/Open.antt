-- ===== src/Lock/Open.antt =====
-- If threads' own code leaves the signal unblocked, it goes on with the signal unblocked: the
-- functions on wait queues, locks and condition variables keep what is asked for that.
use user_space_threads.Prelude.{
  ℕ, refl, Bool, false, not, List, ◌∷◌, Int32, minus, ◌==◌, Ensures, any-Ensures, bind-Ensures,
  if-Ensures, assert-Ensures,
}
use user_space_threads.Machine.{Frame, World, in_acquire, in_cv_sleep, in_cv_acquire}
use user_space_threads.Machine.Objects.{Allocator, set_lock, deref-Ensures}
use user_space_threads.Wait.{wait_queue_create, wait_queue_destroy, wait_queue_size, thread_wakeup}
use user_space_threads.Lock.{
  lock_create, lock_destroy, cv_create, cv_destroy, lock_size, cv_size, acquire_loop, lock_acquire,
  lock_release, cv_wait, cv_wait_after_sleep, wake_cv,
}
use user_space_threads.Thread.Open.{Open, Regular, LeavesOpen, restore-LeavesOpen}
use user_space_threads.Wait.Open.{
  IsOpen, interrupts_set-IsOpen, thread_sleep-LeavesOpen, thread_wakeup-IsOpen,
}

module _ {H : Type 0} where
  pub acquire_loop-LeavesOpen :
      (lock : ℕ) (s : Bool) (stack : List Frame) (w : World H)
      → Open stack s
      → Regular w
      → LeavesOpen (acquire_loop lock s stack w)
  unfolding acquire_loop
  acquire_loop-LeavesOpen lock s stack w h o = deref-Ensures _ (w.locks lock) _ (λ l live.
      if-Ensures _ (l.current == minus 1) _ _
        (λ a.
          restore-LeavesOpen s 0 stack (set_lock lock (record l { current = w.current_thread }) w) h
            o)
        (λ a. thread_sleep-LeavesOpen l.queue (in_acquire lock s ∷ stack) w h o))

  pub lock_acquire-LeavesOpen :
      (lock : ℕ) (stack : List Frame) (w : World H)
      → Open stack w.enabled
      → Regular w
      → LeavesOpen (lock_acquire lock stack w)
  unfolding lock_acquire
  lock_acquire-LeavesOpen lock stack w h o =
      assert-Ensures _ (not (lock == 0)) _
        (λ a. acquire_loop-LeavesOpen lock w.enabled stack (record w { enabled = false }) h o)

  pub cv_wait_after_sleep-LeavesOpen :
      (lock : ℕ) (s : Bool) (stack : List Frame) (w : World H)
      → Open stack s
      → Regular w
      → LeavesOpen (cv_wait_after_sleep lock s stack w)
  unfolding cv_wait_after_sleep
  cv_wait_after_sleep-LeavesOpen lock s stack w h o =
      assert-Ensures _ (not w.enabled) _
        (λ a. lock_acquire-LeavesOpen lock (in_cv_acquire s ∷ stack) w h o)

  pub lock_release-IsOpen :
      (lock : ℕ) (w : World H) → Regular w → Ensures (IsOpen w.enabled) (lock_release lock w)
  unfolding lock_release
  lock_release-IsOpen lock w o = assert-Ensures _ (not (lock == 0)) _ (λ a.
      deref-Ensures _ (w.locks lock) _ (λ l live.
        assert-Ensures _ (l.current == w.current_thread) _ (λ mine.
          let free : World H =
            set_lock lock (record l { current = minus 1 }) (record w { enabled = false }) in
          bind-Ensures _ (λ b. IsOpen false b.1) (thread_wakeup l.queue 1 free) _
            (thread_wakeup-IsOpen l.queue 1 free o)
            (λ b e woke. interrupts_set-IsOpen w.enabled b.1 woke.0))))

  pub cv_wait-LeavesOpen :
      (cv lock : ℕ) (stack : List Frame) (w : World H)
      → Open stack w.enabled
      → Regular w
      → LeavesOpen (cv_wait cv lock stack w)
  unfolding cv_wait
  cv_wait-LeavesOpen cv lock stack w h o =
      let off : World H = record w { enabled = false } in
      assert-Ensures _ (not (cv == 0)) _ (λ a. assert-Ensures _ (not (lock == 0)) _ (λ b.
        deref-Ensures _ (w.locks lock) _ (λ l live.
          assert-Ensures _ (l.current == w.current_thread) _ (λ mine.
            bind-Ensures _ (IsOpen false) (lock_release lock off) _ (lock_release-IsOpen lock off o)
              (λ w1 e o1. deref-Ensures _ (w1.cvs cv) _ (λ c there.
                thread_sleep-LeavesOpen c.queue (in_cv_sleep lock w.enabled ∷ stack) w1 h o1.0))))))

  pub wake_cv-IsOpen :
      (all : Int32) (cv lock : ℕ) (w : World H)
      → Regular w
      → Ensures (IsOpen w.enabled) (wake_cv all cv lock w)
  unfolding wake_cv
  wake_cv-IsOpen all cv lock w o = assert-Ensures _ (not (cv == 0)) _ (λ a.
      assert-Ensures _ (not (lock == 0)) _ (λ b. deref-Ensures _ (w.locks lock) _ (λ l live.
        assert-Ensures _ (l.current == w.current_thread) _ (λ mine.
          deref-Ensures _ (w.cvs cv) _ (λ c there.
            let off : World H = record w { enabled = false } in
            bind-Ensures _ (λ b. IsOpen false b.1) (thread_wakeup c.queue all off) _
              (thread_wakeup-IsOpen c.queue all off o)
              (λ b e woke. interrupts_set-IsOpen w.enabled b.1 woke.0))))))

module _ {H : Type 0} ⦃al : Allocator H⦄ (w : World H) (o : Regular w) where
  pub wait_queue_create-IsOpen : Ensures (λ a. IsOpen w.enabled a.1) (wait_queue_create w)
  unfolding wait_queue_create
  wait_queue_create-IsOpen =
      any-Ensures _ (al.malloc369 wait_queue_size w.heap) _
        (λ a e. assert-Ensures _ (not (a.0 == 0)) _ (λ nz. (o, refl)))

  pub wait_queue_destroy-IsOpen : (p : ℕ) → Ensures (IsOpen w.enabled) (wait_queue_destroy p w)
  unfolding wait_queue_destroy
  wait_queue_destroy-IsOpen p = any-Ensures _ (al.free369 p w.heap) _ (λ heap e. (o, refl))

  pub lock_destroy-IsOpen : (p : ℕ) → Ensures (IsOpen w.enabled) (lock_destroy p w)
  unfolding lock_destroy
  lock_destroy-IsOpen p = assert-Ensures _ (not (p == 0)) _ (λ a.
      deref-Ensures _ (w.locks p) _ (λ l live. assert-Ensures _ (l.current == minus 1) _ (λ b.
        any-Ensures _ (al.free369 l.queue w.heap) _
          (λ heap e. any-Ensures _ (al.free369 p heap) _ (λ heap' e'. (o, refl))))))

  pub cv_destroy-IsOpen : (p : ℕ) → Ensures (IsOpen w.enabled) (cv_destroy p w)
  unfolding cv_destroy
  cv_destroy-IsOpen p = assert-Ensures _ (not (p == 0)) _ (λ a.
      deref-Ensures _ (w.cvs p) _ (λ c live.
        any-Ensures _ (al.free369 c.queue w.heap) _
          (λ heap e. any-Ensures _ (al.free369 p heap) _ (λ heap' e'. (o, refl)))))

module _ {H : Type 0} ⦃al : Allocator H⦄ (w : World H) (o : Regular w) where
  pub lock_create-IsOpen : Ensures (λ a. IsOpen w.enabled a.1) (lock_create w)
  unfolding lock_create
  lock_create-IsOpen = any-Ensures _ (al.malloc369 lock_size w.heap) _ (λ a e.
      bind-Ensures _ (λ b. IsOpen w.enabled b.1) (wait_queue_create (record w { heap = a.1 })) _
        (wait_queue_create-IsOpen (record w { heap = a.1 }) o)
        (λ b e' made. if-Ensures _ (a.0 == 0) _ _ (λ z. tt) (λ z. made)))

  pub cv_create-IsOpen : Ensures (λ a. IsOpen w.enabled a.1) (cv_create w)
  unfolding cv_create
  cv_create-IsOpen = any-Ensures _ (al.malloc369 cv_size w.heap) _ (λ a e.
      bind-Ensures _ (λ b. IsOpen w.enabled b.1) (wait_queue_create (record w { heap = a.1 })) _
        (wait_queue_create-IsOpen (record w { heap = a.1 }) o)
        (λ b e' made. if-Ensures _ (a.0 == 0) _ _ (λ z. tt) (λ z. made)))
