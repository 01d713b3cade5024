-- ===== src/Lock/Keeps.antt =====
-- Locks and condition variables keep the invariant, the wait queues and the discipline of the
-- mask. What is claimed of the locks has only to stand the changes that the functions make: a lock
-- that is free or that the calling thread holds changes hands, and a free lock goes.
use user_space_threads.Prelude.{
  ℕ, ◌≡◌, Bool, false, not, ◌⊎◌, inl, inr, List, ◌∷◌, Option, some, none, Int32, Result, ok, halt,
  assert_failed, exit_with, bad_pointer, bad_context, minus, ==→eq, ◌>>=◌, ◌==◌, update,
}
use user_space_threads.Machine.{
  Timer, Frame, World, Outcome, Lock, in_acquire, in_cv_sleep, in_cv_acquire,
}
use user_space_threads.Machine.Objects.{set_lock}
use user_space_threads.Thread.Inv.{Inv}
use user_space_threads.Thread.Masks.{Calm, Keeps, Fits, Fits-false}
use user_space_threads.Thread.Keeps.{
  if-Keeps, assert-Keeps, restore-Keeps, with_call, with_mask, reopened,
}
use user_space_threads.Wait.{thread_wakeup}
use user_space_threads.Wait.Keeps.{deref-Keeps, thread_sleep-Keeps}
use user_space_threads.Wait.Leaves.{
  Whole, Leaves, bind-Leaves, deref-Leaves, assert-Leaves, interrupts_set-Whole,
  thread_wakeup-Leaves,
}
use user_space_threads.Lock.{
  acquire_loop, lock_acquire, lock_release, cv_wait, cv_wait_after_sleep, wake_cv,
}

-- A claim about the locks that stands what the thread `current` may do with them.
pub record Stands (L : (ℕ → Option Lock) → Timer → Type 0) (current : Int32) : Type 0 where
  pub handed :
      (locks : ℕ → Option Lock) (timer : Timer) (p : ℕ) (l : Lock) (t : Int32)
      → L locks timer
      → locks p ≡ some l
      → (l.current ≡ minus 1) ⊎ (l.current ≡ current)
      → L (update locks p (some (record l { current = t }))) timer
  pub gone :
      (locks : ℕ → Option Lock) (timer : Timer) (p : ℕ) (l : Lock)
      → L locks timer
      → locks p ≡ some l
      → l.current ≡ minus 1
      → L (update locks p none) timer

module _ {H : Type 0} (L : (ℕ → Option Lock) → Timer → Type 0) (current : Int32)
    (st : Stands L current) where
  with_lock :
      (p : ℕ) (l : Lock) (t : Int32) (w : World H) {stack : List Frame}
      → w.locks p ≡ some l
      → (l.current ≡ minus 1) ⊎ (l.current ≡ current)
      → Calm L stack w
      → Calm L stack (set_lock p (record l { current = t }) w)
  with_lock p l t w e h k = record {
    queues = k.queues;
    of_locks = st.handed w.locks w.timer p l t k.of_locks e h;
    contexts = k.contexts;
    fits = k.fits;
    masked = k.masked;
  }

  pub acquire_loop-Keeps :
      (lock : ℕ) (s : Bool) (stack : List Frame) (w : World H)
      → Fits s stack
      → Inv w
      → Calm L (in_acquire lock s ∷ stack) w
      → Keeps L (acquire_loop lock s stack w)
  unfolding acquire_loop
  acquire_loop-Keeps lock s stack w h v k = deref-Keeps L (w.locks lock) _ (λ l live.
      if-Keeps L (l.current == minus 1) _ _
        (λ e.
          restore-Keeps L (in_acquire lock s) s 0
            (set_lock lock (record l { current = w.current_thread }) w) h
            (with_lock lock l w.current_thread w live (inl (==→eq e)) k))
        (λ e. thread_sleep-Keeps L l.queue (in_acquire lock s ∷ stack) w v k))

  pub lock_acquire-Keeps :
      (lock : ℕ) (stack : List Frame) (w : World H)
      → Inv w
      → Calm L stack w
      → Keeps L (lock_acquire lock stack w)
  unfolding lock_acquire
  lock_acquire-Keeps lock stack w v k = assert-Keeps L (not (lock == 0)) _ (λ e.
      acquire_loop-Keeps lock w.enabled stack (record w { enabled = false }) k.fits v
        (with_call L (in_acquire lock w.enabled) w k.fits k))

  pub lock_release-Leaves :
      (lock : ℕ) (stack : List Frame) (w : World H)
      → Whole L stack current w
      → Leaves L stack current (λ w'. w') (lock_release lock w)
  unfolding lock_release
  lock_release-Leaves lock stack w k =
      let off : World H = record w { enabled = false } in
      let k_off = with_mask L false w (Fits-false stack) k.calm in
      assert-Leaves L stack current _ (not (lock == 0)) _ (λ e.
        deref-Leaves L stack current _ (w.locks lock) _ (λ l live.
          assert-Leaves L stack current _ (l.current == w.current_thread) _ (λ mine.
            let free : World H = set_lock lock (record l { current = minus 1 }) off in
            let whole : Whole L stack current free = record {
              inv = k.inv;
              calm = with_lock lock l (minus 1) off live (inr (cc (==→eq mine, k.same))) k_off;
              same = k.same;
            } in
            bind-Leaves L stack current _ (thread_wakeup l.queue 1 free) _
              (thread_wakeup-Leaves L stack current l.queue 1 free (Fits-false stack) whole)
              (λ a woke. interrupts_set-Whole L stack current w.enabled a.1 k.calm.fits woke))))

  pub wake_cv-Leaves :
      (all : Int32) (cv lock : ℕ) (stack : List Frame) (w : World H)
      → Whole L stack current w
      → Leaves L stack current (λ w'. w') (wake_cv all cv lock w)
  unfolding wake_cv
  wake_cv-Leaves all cv lock stack w k =
      let off : World H = record w { enabled = false } in
      assert-Leaves L stack current _ (not (cv == 0)) _ (λ a.
        assert-Leaves L stack current _ (not (lock == 0)) _ (λ b.
          deref-Leaves L stack current _ (w.locks lock) _ (λ l live.
            assert-Leaves L stack current _ (l.current == w.current_thread) _ (λ mine.
              deref-Leaves L stack current _ (w.cvs cv) _ (λ c there.
                bind-Leaves L stack current _ (thread_wakeup c.queue all off) _
                  (thread_wakeup-Leaves L stack current c.queue all off (Fits-false stack)
                    (interrupts_set-Whole L stack current false w (Fits-false stack) k))
                  (λ x woke.
                    interrupts_set-Whole L stack current w.enabled x.1 k.calm.fits woke))))))

  pub cv_wait-Keeps :
      (cv lock : ℕ) (stack : List Frame) (w : World H)
      → Whole L stack current w
      → Keeps L (cv_wait cv lock stack w)
  unfolding cv_wait
  cv_wait-Keeps cv lock stack w k =
      let off : World H = record w { enabled = false } in
      let open_call : Whole L (in_cv_sleep lock w.enabled ∷ stack) current off = record {
        inv = k.inv;
        calm = with_call L (in_cv_sleep lock w.enabled) w k.calm.fits k.calm;
        same = k.same;
      } in
      assert-Keeps L (not (cv == 0)) _ (λ a. assert-Keeps L (not (lock == 0)) _ (λ b.
        deref-Keeps L (w.locks lock) _ (λ l live.
          assert-Keeps L (l.current == w.current_thread) _ (λ mine.
            whole-Keeps (lock_release lock off) _
              (lock_release-Leaves lock (in_cv_sleep lock w.enabled ∷ stack) off open_call)
              (λ w1 k1. deref-Keeps L (w1.cvs cv) _ (λ c there.
                thread_sleep-Keeps L c.queue (in_cv_sleep lock w.enabled ∷ stack) w1 k1.inv
                  k1.calm))))))
    where
      whole-Keeps :
          {stack' : List Frame} (m : Result (World H)) (f : World H → Outcome H)
          → Leaves L stack' current (λ w'. w') m
          → ((w' : World H) → Whole L stack' current w' → Keeps L (f w'))
          → Keeps L (m >>= f)
      whole-Keeps (ok w') f h n = n w' h
      whole-Keeps (halt assert_failed) f h n = tt
      whole-Keeps (halt (exit_with code)) f h n = tt
      whole-Keeps (halt bad_pointer) f h n = tt
      whole-Keeps (halt bad_context) f h n = absurd h

  pub cv_wait_after_sleep-Keeps :
      (lock : ℕ) (s : Bool) (stack : List Frame) (w : World H)
      → Fits s stack
      → Inv w
      → Calm L (in_cv_sleep lock s ∷ stack) w
      → Keeps L (cv_wait_after_sleep lock s stack w)
  unfolding cv_wait_after_sleep
  cv_wait_after_sleep-Keeps lock s stack w h v k = assert-Keeps L (not w.enabled) _ (λ a.
      lock_acquire-Keeps lock (in_cv_acquire s ∷ stack) w v
        (reopened L (in_cv_sleep lock s) (in_cv_acquire s) w h k))
