-- ===== src/Lock/Release.antt =====
-- Whom the release of a lock and a broadcast wake.
use user_space_threads.Prelude.{
  ℕ, ◌≡◌, ◌≢◌, false, List, [], ◌∷◌, ◌++◌, Int32, some, ok, minus, arith, All,
}
use user_space_threads.Queue.{Queue}
use user_space_threads.Queue.Refine.{contents}
use user_space_threads.Machine.{destroyed, sleep, World, Lock, Cv}
use user_space_threads.Machine.Objects.{set_lock, set_wait_queue}
use user_space_threads.Thread.Ready.{IsReady}
use user_space_threads.Wait.Wakeup.{woken, thread_wakeup-one}
use user_space_threads.Wait.Broadcast.{
  Distinct, Asleep, woken_all, woken_all-mask, thread_wakeup-every,
}
use user_space_threads.Lock.{lock_release, cv_signal, cv_broadcast, wake_cv}

module _ {H : Type 0} (lock : ℕ) (l : Lock) (q : Queue) (w : World H) (set : lock ≢ 0)
    (live : w.locks lock ≡ some l) (mine : l.current ≡ w.current_thread) (ready : IsReady q)
    (distinct : Distinct (contents q)) (asleep : All (Asleep w) (contents q)) where
  -- lock_release by the holder frees the lock and wakes all the threads in its wait queue, which
  -- are different and asleep, in the order in which they came.
  pub lock_release-every :
      l.queue ≢ 0
      → w.wait_queues l.queue ≡ some q
      → (q' : Queue) × (lock_release lock w
          ≡ ok (
              set_wait_queue l.queue q'
                (woken_all (contents q) (set_lock lock (record l { current = minus 1 }) w))))
        × (contents q' ≡ [])
  unfolding lock_release
  lock_release-every nz there =
      let free : World H =
        set_lock lock (record l { current = minus 1 }) (record w { enabled = false }) in
      let (q', e, empty) =
        thread_wakeup-every l.queue 1 q free nz (omega arith) there ready distinct asleep in
      (
        q',
        ground (arith, e, woken_all-mask (contents q) (record free { enabled = w.enabled })),
        empty,
      )

  -- cv_broadcast by the holder of the lock wakes all the threads in the wait queue of the condition
  -- variable, which are different and asleep, in the order in which they came, and leaves the lock
  -- alone.
  pub cv_broadcast-every :
      (cv : ℕ) (c : Cv)
      → cv ≢ 0
      → w.cvs cv ≡ some c
      → c.queue ≢ 0
      → w.wait_queues c.queue ≡ some q
      → (q' : Queue) × (cv_broadcast cv lock w
          ≡ ok (set_wait_queue c.queue q' (woken_all (contents q) w)))
        × (contents q' ≡ [])
  unfolding cv_broadcast wake_cv
  cv_broadcast-every cv c cvset is nz there =
      let (q', e, empty) =
        thread_wakeup-every c.queue 1 q (record w { enabled = false }) nz (omega arith) there ready
          distinct asleep in
      (q', ground (arith, e, woken_all-mask (contents q) w), empty)

-- The holder's cv_signal, when the wait queue of the condition variable is valid and its first entry
-- that is not dead is a thread asleep, wakes that thread alone, and leaves the lock with the holder,
-- the entries behind it in the wait queue, and the mask as it was.
pub cv_signal-one :
    {H : Type 0} (lock : ℕ) (l : Lock) (q : Queue) (w : World H) (cv : ℕ) (c : Cv)
    (dead rest : List Int32) (id : Int32)
    → lock ≢ 0
    → w.locks lock ≡ some l
    → l.current ≡ w.current_thread
    → cv ≢ 0
    → w.cvs cv ≡ some c
    → c.queue ≢ 0
    → w.wait_queues c.queue ≡ some q
    → IsReady q
    → contents q ≡ dead ++ id ∷ rest
    → All (λ t. (w.threads t).state ≡ destroyed) dead
    → (w.threads id).state ≡ sleep
    → (q' : Queue) × (cv_signal cv lock w ≡ ok (set_wait_queue c.queue q' (woken id w)))
      × (contents q' ≡ rest)
unfolding cv_signal wake_cv
cv_signal-one lock l q w cv c dead rest id set live mine cvset is nz there ready entries d asleep =
    let (q', e, left) =
      thread_wakeup-one dead rest id c.queue q (record w { enabled = false }) nz there ready entries
        d asleep in
    (q', ground (arith, e), left)
