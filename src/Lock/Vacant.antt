-- ===== src/Lock/Vacant.antt =====
-- The wait queue of a free lock is empty: this is kept by the functions on locks and condition
-- variables.
pub mod Create
use user_space_threads.Prelude.{
  ℕ, ◌≡◌, ◌≢◌, refl, ap, Bool, true, false, not, inl, inr, Bool-cases, List, ◌∷◌, Option, some,
  Int32, minus, ◌==◌, ==→eq, ==→ne, arith, Ensures, bind-Ensures, if-Ensures, map-Ensures, ◌∙◌,
  assert-Ensures,
}
use user_space_threads.Machine.{Frame, World, Lock, Cv, in_acquire, in_cv_sleep, in_cv_acquire}
use user_space_threads.Machine.Objects.{set_lock, deref-Ensures}
use user_space_threads.Interrupt.{interrupts_set}
use user_space_threads.Thread.Inv.{Inv}
use user_space_threads.Thread.Masks.{AllReady}
use user_space_threads.Thread.Objects.{objects}
use user_space_threads.Wait.{thread_wakeup}
use user_space_threads.Wait.Vacant.{
  Vacant, LeavesVacant, restore-LeavesVacant, thread_sleep-LeavesVacant,
}
use user_space_threads.Wait.Vacant.Waking.{
  Roused, thread_wakeup-Roused, Roused-Vacant, thread_wakeup-Vacant,
}
use user_space_threads.Lock.{
  acquire_loop, lock_acquire, lock_release, cv_wait, cv_wait_after_sleep, wake_cv,
}

-- The lock at `p`, if there is one, has a wait queue, which no other lock and no condition variable
-- has.
pub record Owns (p : ℕ) (locks : ℕ → Option Lock) (cvs : ℕ → Option Cv) : Type 0 where
  pub queue : (l : Lock) → locks p ≡ some l → l.queue ≢ 0
  pub of_locks :
      (p' : ℕ) (l l' : Lock) → p' ≢ p → locks p ≡ some l → locks p' ≡ some l' → l.queue ≢ l'.queue
  pub of_cvs : (cv : ℕ) (l : Lock) (c : Cv) → locks p ≡ some l → cvs cv ≡ some c → l.queue ≢ c.queue

abbrev pub IsOwner : {H : Type 0} → ℕ → World H → Type 0
IsOwner p w = Owns p w.locks w.cvs

module _ {H : Type 0} (p : ℕ) where
  pub interrupts_set-Vacant :
      (s : Bool) (w : World H) → Vacant p w → Vacant p (interrupts_set s w).1
  unfolding interrupts_set
  interrupts_set-Vacant true w v = v
  interrupts_set-Vacant false w v = v

  -- A write to a lock other than `p`, or one that leaves the lock at `p` held.
  set_lock-Vacant :
      (lock : ℕ) (l : Lock) (w : World H)
      → (lock ≡ p → l.current ≢ minus 1)
      → Vacant p w
      → Vacant p (set_lock lock l w)
  set_lock-Vacant lock l w held v l' q live free there = elim (Bool-cases (lock == p)) [
    | inl e ↦ absurd (held (==→eq e) (ground (arith, live, free, e)))
    | inr e ↦ v l' q (ground (arith, live, e)) free there
  ]

  pub acquire_loop-LeavesVacant :
      (lock : ℕ) (s : Bool) (stack : List Frame) (w : World H)
      → Inv w
      → IsOwner p w
      → Vacant p w
      → LeavesVacant p (acquire_loop lock s stack w)
  unfolding acquire_loop
  acquire_loop-LeavesVacant lock s stack w i o v = deref-Ensures _ (w.locks lock) _ (λ l live.
      if-Ensures _ (l.current == minus 1) _ _
        (λ a.
          restore-LeavesVacant p s 0 stack
            (set_lock lock (record l { current = w.current_thread }) w)
            (set_lock-Vacant lock (record l { current = w.current_thread }) w
              (λ e z. absurd (omega (arith, i.current, z))) v))
        (λ a.
          thread_sleep-LeavesVacant p l.queue (in_acquire lock s ∷ stack) w v (λ l' live' same free.
            elim (Bool-cases (lock == p)) [
              | inl e ↦ absurd (==→ne a (ground (arith, live, live', free, e)))
              | inr e ↦ absurd (o.of_locks lock l' l (==→ne e) live' live same)
            ])))

  pub lock_acquire-LeavesVacant :
      (lock : ℕ) (stack : List Frame) (w : World H)
      → Inv w
      → IsOwner p w
      → Vacant p w
      → LeavesVacant p (lock_acquire lock stack w)
  unfolding lock_acquire
  lock_acquire-LeavesVacant lock stack w i o v =
      assert-Ensures _ (not (lock == 0)) _
        (λ a. acquire_loop-LeavesVacant lock w.enabled stack (record w { enabled = false }) i o v)

  pub cv_wait_after_sleep-LeavesVacant :
      (lock : ℕ) (s : Bool) (stack : List Frame) (w : World H)
      → Inv w
      → IsOwner p w
      → Vacant p w
      → LeavesVacant p (cv_wait_after_sleep lock s stack w)
  unfolding cv_wait_after_sleep
  cv_wait_after_sleep-LeavesVacant lock s stack w i o v =
      assert-Ensures _ (not w.enabled) _
        (λ a. lock_acquire-LeavesVacant lock (in_cv_acquire s ∷ stack) w i o v)

  -- The lock at `lock` was freed and all threads in its queue woken.
  freed-Vacant :
      (lock : ℕ) (l : Lock) (w w' : World H)
      → w.locks lock ≡ some l
      → IsOwner p w
      → Vacant p w
      → Roused 1 l.queue (objects (set_lock lock (record l { current = minus 1 }) w)) (objects w')
      → Vacant p w'
  freed-Vacant lock l w w' live o v r = elim (Bool-cases (lock == p)) [
    | inl e ↦ λ l' q' live' free there.
        r.empties (o.queue l (ground (arith, live, e))) (omega arith) q'
          (ground (arith, there, live', ap (λ (f : ℕ → Option Lock). f p) r.locks, e))
    | inr e ↦
        Roused-Vacant p 1 l.queue (set_lock lock (record l { current = minus 1 }) w) w' r
          (set_lock-Vacant lock (record l { current = minus 1 }) w (λ z. absurd (==→ne e z)) v)
  ]

  -- What lock_release leaves: the queue of a free lock is empty, and the locks have the queues that
  -- they had.
  record Released (w w' : World H) : Type 0 where
    vacant : Vacant p w'
    cvs : w'.cvs ≡ w.cvs
    queues :
        (l : Lock)
        → w'.locks p ≡ some l
        → (l' : Lock) × (w.locks p ≡ some l') × (l'.queue ≡ l.queue)

  same_queue :
      (lock : ℕ) (l : Lock) (w : World H)
      → w.locks lock ≡ some l
      → (k : Lock) → (set_lock lock (record l { current = minus 1 }) w).locks p ≡ some k
      → (l' : Lock) × (w.locks p ≡ some l') × (l'.queue ≡ k.queue)
  same_queue lock l w live k there = elim (Bool-cases (lock == p)) [
    | inl e ↦ (l, ground (arith, live, e), ground (arith, there, e))
    | inr e ↦ (k, ground (arith, there, e), refl)
  ]

  unmasked : (s : Bool) (w w' : World H) → Released w w' → Released w (interrupts_set s w').1
  unfolding interrupts_set
  unmasked true w w' r = record { vacant = r.vacant; cvs = r.cvs; queues = r.queues }
  unmasked false w w' r = record { vacant = r.vacant; cvs = r.cvs; queues = r.queues }

  lock_release-Released :
      (lock : ℕ) (w : World H)
      → AllReady w.wait_queues
      → IsOwner p w
      → Vacant p w
      → Ensures (Released w) (lock_release lock w)
  unfolding lock_release
  lock_release-Released lock w ready o v = assert-Ensures _ (not (lock == 0)) _ (λ a.
      deref-Ensures _ (w.locks lock) _ (λ l live.
        assert-Ensures _ (l.current == w.current_thread) _ (λ mine.
          let off : World H = record w { enabled = false } in
          let free : World H = set_lock lock (record l { current = minus 1 }) off in
          bind-Ensures _ (λ b. Roused 1 l.queue (objects free) (objects b.1))
            (thread_wakeup l.queue 1 free) _ (thread_wakeup-Roused l.queue 1 free ready)
            (λ b e r. unmasked w.enabled w b.1 (record {
              vacant = freed-Vacant lock l off b.1 live o v r;
              cvs = r.cvs;
              queues = λ k there.
                  same_queue lock l off live k
                    (cc (ap (λ (f : ℕ → Option Lock). f p) r.locks, there));
            })))))

  pub lock_release-Vacant :
      (lock : ℕ) (w : World H)
      → AllReady w.wait_queues
      → IsOwner p w
      → Vacant p w
      → Ensures (Vacant p) (lock_release lock w)
  lock_release-Vacant lock w ready o v =
      map-Ensures (lock_release lock w) (λ w' r. r.vacant) (lock_release-Released lock w ready o v)

  pub cv_wait-LeavesVacant :
      (cv lock : ℕ) (stack : List Frame) (w : World H)
      → AllReady w.wait_queues
      → IsOwner p w
      → Vacant p w
      → LeavesVacant p (cv_wait cv lock stack w)
  unfolding cv_wait
  cv_wait-LeavesVacant cv lock stack w ready o v =
      let off : World H = record w { enabled = false } in
      assert-Ensures _ (not (cv == 0)) _ (λ a. assert-Ensures _ (not (lock == 0)) _ (λ b.
        deref-Ensures _ (w.locks lock) _ (λ l live.
          assert-Ensures _ (l.current == w.current_thread) _ (λ mine.
            bind-Ensures _ (Released off) (lock_release lock off) _
              (lock_release-Released lock off ready o v)
              (λ w1 e r. deref-Ensures _ (w1.cvs cv) _ (λ c there.
                thread_sleep-LeavesVacant p c.queue (in_cv_sleep lock w.enabled ∷ stack) w1 r.vacant
                  (λ k held same free.
                    let (l', was, kept) = r.queues k held in
                    absurd (
                      o.of_cvs cv l' c was (cc (ap (λ (f : ℕ → Option Cv). f cv) r.cvs, there))
                        (kept ∙ same)))))))))

  pub wake_cv-Vacant :
      (all : Int32) (cv lock : ℕ) (w : World H)
      → AllReady w.wait_queues
      → Vacant p w
      → Ensures (Vacant p) (wake_cv all cv lock w)
  unfolding wake_cv
  wake_cv-Vacant all cv lock w ready v = assert-Ensures _ (not (cv == 0)) _ (λ a.
      assert-Ensures _ (not (lock == 0)) _ (λ b. deref-Ensures _ (w.locks lock) _ (λ l live.
        assert-Ensures _ (l.current == w.current_thread) _ (λ mine.
          deref-Ensures _ (w.cvs cv) _ (λ c there.
            let off : World H = record w { enabled = false } in
            bind-Ensures _ (λ b. Vacant p b.1) (thread_wakeup c.queue all off) _
              (thread_wakeup-Vacant p c.queue all off ready v)
              (λ b e woke. interrupts_set-Vacant w.enabled b.1 woke))))))
