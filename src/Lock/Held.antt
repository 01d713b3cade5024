-- ===== src/Lock/Held.antt =====
-- A thread that finds a lock held leaves all locks as they are, whatever thread runs next.
use user_space_threads.Prelude.{
  ℕ, ◌≡◌, ◌≢◌, ap, false, List, ◌∷◌, Option, some, Int32, ok, halt, minus, arith, Option-cases, inl,
  inr,
}
use user_space_threads.Queue.{queue_push}
use user_space_threads.Machine
use user_space_threads.Machine.{
  Context, unset, saved, Frame, World, Outcome, Control, Lock, Timer, thread_any, running, sleep,
}
use user_space_threads.Machine.Objects.{set_state, set_wait_queue}
use user_space_threads.Thread.Yield.{thread_yield}
use user_space_threads.Thread.Untouched.{Untouched, thread_yield-Untouched}
use user_space_threads.Wait.{thread_sleep}
use user_space_threads.Lock.{lock_acquire, acquire_loop}

-- Where control goes on, the locks are `locks`.
abbrev pub HasLocks : {H : Type 0} → (ℕ → Option Lock) → Outcome H → Type 0
HasLocks locks (ok c) = c.world.locks ≡ locks
HasLocks locks (halt h) = Unit

Untouched-HasLocks :
    {H : Type 0} (locks : ℕ → Option Lock) (t : Timer) (o : Outcome H)
    → Untouched (locks, t) o
    → HasLocks locks o
Untouched-HasLocks locks t (ok c) h = ap (λ x. x.0) h
Untouched-HasLocks locks t (halt e) h = tt

module _ {H : Type 0} where
  thread_yield-HasLocks :
      (want : Int32) (stack : List Frame) (w : World H)
      → HasLocks w.locks (thread_yield want stack w)
  thread_yield-HasLocks want stack w =
      Untouched-HasLocks w.locks w.timer _ (thread_yield-Untouched want stack w)

  thread_sleep-HasLocks :
      (queue : ℕ) (stack : List Frame) (w : World H) → HasLocks w.locks (thread_sleep queue stack w)
  unfolding thread_sleep
  thread_sleep-HasLocks queue stack w =
      let asleep : World H = set_state w.current_thread sleep (record w { enabled = false }) in
      elim (Option-cases (w.wait_queues queue)) [
        | inl e ↦ ground arith
        | inr (q, e) ↦ ground (
          arith,
          thread_yield-HasLocks thread_any (Machine.in_sleep queue w.enabled ∷ stack)
              (set_wait_queue queue (queue_push q w.current_thread).1 asleep),
        )
      ]

  -- lock_acquire of a lock that is held changes no lock: whatever thread goes on behind it, the
  -- holder is the one that it was.
  pub lock_acquire-held :
      (lock : ℕ) (l : Lock) (stack : List Frame) (w : World H)
      → w.locks lock ≡ some l
      → l.current ≢ minus 1
      → HasLocks w.locks (lock_acquire lock stack w)
  unfolding lock_acquire acquire_loop
  lock_acquire-held lock l stack w live ne = ground (
    arith,
    thread_sleep-HasLocks l.queue (Machine.in_acquire lock w.enabled ∷ stack)
        (record w { enabled = false }),
  )
