-- ===== src/Calls/Perform.antt =====
-- Every call of a thread's own code keeps what Calls/Keeps keeps, and jumps to no context in which
-- nothing was stored.
mod Safe
use user_space_threads.Prelude.{
  minus, Bool-cases, inl, inr, ℕ, ◌≡◌, refl, true, false, not, [], ◌∷◌, Option, some, none, Int32,
  Result, ok, halt, ◌>>=◌, ◌>>◌, ◌==◌, update, assert_failed, exit_with, bad_pointer, bad_context,
}
use user_space_threads.Machine.{Timer, World, Outcome, Lock}
use user_space_threads.Machine.Objects.{Allocator}
use user_space_threads.Calls.Keeps.{Ticks, with_timer}
use user_space_threads.Interrupt.{
  sig_interval, interrupts_quiet, interrupts_loud, register_interrupt_handler,
}
use user_space_threads.Thread.Inv.{Inv, IsSafe}
use user_space_threads.Thread.Safe.{thread_yield-IsSafe}
use user_space_threads.Thread.Death.{
  IsFreeSafe, IsMallocSafe, thread_exit-IsSafe, thread_kill-IsSafe,
}
use user_space_threads.Thread.Masks.{Calm, Keeps}
use user_space_threads.Thread.Keeps.{thread_yield-Keeps, thread_exit-Keeps, thread_kill-Keeps}
use user_space_threads.Thread.Yield.{return}
use user_space_threads.Wait.Safe.{thread_sleep-IsSafe, thread_wait-IsSafe}
use user_space_threads.Wait.Keeps.{thread_sleep-Keeps, thread_wait-Keeps}
use user_space_threads.Wait.Leaves.{
  Whole, Leaves, any-Leaves, assert-Leaves, interrupts_set-Whole, thread_wakeup-Leaves,
}
use user_space_threads.Lock.{cv_signal, cv_broadcast, lock_size, reserve, free_lock, free_cv}
use user_space_threads.Lock.Keeps.{
  Stands, lock_acquire-Keeps, lock_release-Leaves, wake_cv-Leaves, cv_wait-Keeps,
}
use user_space_threads.Lock.Create.{
  wait_queue_create-Leaves, wait_queue_destroy-Leaves, lock_create-Leaves, lock_destroy-Leaves,
  cv_create-Leaves, cv_destroy-Leaves,
}
use user_space_threads.Calls.{Call, perform}
use user_space_threads.Calls
use user_space_threads.Calls.Create.{thread_create-Leaves}
use user_space_threads.Calls.Perform.Safe.{lock_acquire-IsSafe, cv_wait-IsSafe}

-- What a client asks of an outcome: no jump to an unset context, and where control goes on, the
-- invariant, the wait queues, the locks and the mask.
abbrev pub Good : {H : Type 0} → ((ℕ → Option Lock) → Timer → Type 0) → Outcome H → Type 0
Good L o = IsSafe o × Keeps L o

module _ {H : Type 0} (L : (ℕ → Option Lock) → Timer → Type 0) (current : Int32) where
  leave :
      {A : Type 0} (world : A → World H) (m : Result A) (value : A → Int32)
      → Leaves L [] current world m
      → Good L (m >>= λ r. return (value r) [] (world r))
  leave world (ok a) value h = (h.inv, h.calm)
  leave world (halt assert_failed) value h = (tt, tt)
  leave world (halt (exit_with code)) value h = (tt, tt)
  leave world (halt bad_pointer) value h = (tt, tt)
  leave world (halt bad_context) value h = absurd h

-- A claim about the locks stands the lock that lock_create makes here.
abbrev pub StandsNew :
    {H : Type 0} ⦃al : Allocator H⦄ → ((ℕ → Option Lock) → Timer → Type 0) → World H → Type 0
StandsNew ⦃al⦄ L w =
    (p : ℕ) (heap : _) (locks : ℕ → Option Lock) (timer : Timer) (x : Lock)
    → al.malloc369 lock_size w.heap ≡ ok (p, heap)
    → L locks timer
    → L (update locks p (some x)) timer

-- A claim about the locks stands what an interrupted lock_create or lock_destroy does here.
abbrev pub StandsParts : ((ℕ → Option Lock) → Timer → Type 0) → Call → Type 0
StandsParts L (Calls.fill_lock p queue) =
    (locks : ℕ → Option Lock) (timer : Timer)
    → L locks timer
    → L (update locks p (some (record { queue = queue; current = minus 1 }))) timer
StandsParts L (Calls.free_lock p) =
    (locks : ℕ → Option Lock) (timer : Timer) → L locks timer → L (update locks p none) timer
StandsParts L _ = Unit

module _ {H : Type 0} ⦃al : Allocator H⦄ (malloc_safe : IsMallocSafe al) (free_safe : IsFreeSafe al)
    (L : (ℕ → Option Lock) → Timer → Type 0) (w : World H) (st : Stands L w.current_thread)
    (ticks : Ticks L) where
  whole : Inv w → Calm L [] w → Whole L [] w.current_thread w
  whole v k = record { inv = v; calm = k; same = refl }

  with_locks :
      (locks : ℕ → Option Lock) (heap : H)
      → Inv w
      → Calm L [] w
      → L locks w.timer
      → Whole L [] w.current_thread (record w { heap = heap; locks = locks })
  with_locks locks heap v k h = record {
    inv = v;
    calm = record {
      queues = k.queues;
      of_locks = h;
      contexts = k.contexts;
      fits = k.fits;
      masked = k.masked;
    };
    same = refl;
  }

  pub perform-Good :
      (call : Call)
      → StandsNew L w
      → StandsParts L call
      → Inv w
      → Calm L [] w
      → Good L (perform call w)
  unfolding perform reserve free_lock free_cv cv_signal cv_broadcast interrupts_quiet
      interrupts_loud register_interrupt_handler
  perform-Good (Calls.reserve size) new parts v k = leave L w.current_thread _ _ _ (
      any-Leaves L [] w.current_thread _ (al.malloc369 size w.heap) _ (malloc_safe size w.heap)
        (λ a e. with_locks w.locks a.1 v k k.of_locks))
  perform-Good (Calls.fill_lock p queue) new parts v k =
      leave L w.current_thread _ _ _ (elim (Bool-cases (p == 0)) [
        | inl z ↦ rw z tt
        | inr z ↦ rw z (with_locks _ w.heap v k (parts w.locks w.timer k.of_locks))
      ])
  perform-Good (Calls.free_lock p) new parts v k = leave L w.current_thread _ _ _ (
      any-Leaves L [] w.current_thread _ (al.free369 p w.heap) _ (free_safe p w.heap)
        (λ heap e. with_locks _ heap v k (parts w.locks w.timer k.of_locks)))
  perform-Good (Calls.fill_cv p queue) new parts v k =
      leave L w.current_thread _ _ _ (elim (Bool-cases (p == 0)) [
        | inl z ↦ rw z tt
        | inr z ↦ rw z (record { inv = v; calm = (whole v k).calm; same = refl })
      ])
  perform-Good (Calls.free_cv p) new parts v k = leave L w.current_thread _ _ _ (
      any-Leaves L [] w.current_thread _ (al.free369 p w.heap) _ (free_safe p w.heap)
        (λ heap e. record { inv = v; calm = (whole v k).calm; same = refl }))
  perform-Good (Calls.create fn parg) new parts v k =
      leave L w.current_thread _ _ _
        (thread_create-Leaves L w.current_thread malloc_safe fn parg w (whole v k))
  perform-Good (Calls.yield t) new parts v k =
      (thread_yield-IsSafe t [] w v, thread_yield-Keeps L t [] w k)
  perform-Good (Calls.exit c) new parts v k =
      (thread_exit-IsSafe c [] w v, thread_exit-Keeps L c [] w k)
  perform-Good (Calls.kill t) new parts v k =
      (thread_kill-IsSafe free_safe t [] w v, thread_kill-Keeps L t [] w k)
  perform-Good Calls.new_queue new parts v k =
      leave L w.current_thread _ _ _
        (wait_queue_create-Leaves L [] w.current_thread malloc_safe free_safe w (whole v k))
  perform-Good (Calls.drop_queue p) new parts v k =
      leave L w.current_thread _ _ _
        (wait_queue_destroy-Leaves L [] w.current_thread malloc_safe free_safe p w (whole v k))
  perform-Good (Calls.sleep_on q) new parts v k =
      (thread_sleep-IsSafe q [] w v, thread_sleep-Keeps L q [] w v k)
  perform-Good (Calls.wakeup q all) new parts v k =
      leave L w.current_thread _ _ _
        (thread_wakeup-Leaves L [] w.current_thread q all w k.fits (whole v k))
  perform-Good (Calls.wait_for t p) new parts v k =
      (thread_wait-IsSafe t p [] w v, thread_wait-Keeps L t p [] w k)
  perform-Good Calls.new_lock new parts v k =
      leave L w.current_thread _ _ _
        (lock_create-Leaves L [] w.current_thread malloc_safe free_safe w new (whole v k))
  perform-Good (Calls.drop_lock p) new parts v k =
      leave L w.current_thread _ _ _
        (lock_destroy-Leaves L [] w.current_thread malloc_safe free_safe p w st (whole v k))
  perform-Good (Calls.acquire p) new parts v k = (
    lock_acquire-IsSafe L w.current_thread p [] w v,
    lock_acquire-Keeps L w.current_thread st p [] w v k,
  )
  perform-Good (Calls.release p) new parts v k =
      leave L w.current_thread _ _ _ (lock_release-Leaves L w.current_thread st p [] w (whole v k))
  perform-Good Calls.new_cv new parts v k =
      leave L w.current_thread _ _ _
        (cv_create-Leaves L [] w.current_thread malloc_safe free_safe w (whole v k))
  perform-Good (Calls.drop_cv p) new parts v k =
      leave L w.current_thread _ _ _
        (cv_destroy-Leaves L [] w.current_thread malloc_safe free_safe p w (whole v k))
  perform-Good (Calls.wait_on c p) new parts v k = (
    cv_wait-IsSafe L w.current_thread st c p w (whole v k),
    cv_wait-Keeps L w.current_thread st c p [] w (whole v k),
  )
  perform-Good (Calls.signal c p) new parts v k =
      leave L w.current_thread _ _ _ (wake_cv-Leaves L w.current_thread st 0 c p [] w (whole v k))
  perform-Good (Calls.broadcast c p) new parts v k =
      leave L w.current_thread _ _ _ (wake_cv-Leaves L w.current_thread st 1 c p [] w (whole v k))
  perform-Good (Calls.set_signals b) new parts v k =
      let set = interrupts_set-Whole L [] w.current_thread b w tt (whole v k) in (set.inv, set.calm)
  perform-Good (Calls.register verbose) new parts v k = leave L w.current_thread _ _ _ (
      assert-Leaves L [] w.current_thread (λ w'. w') (not w.timer.registered) _
        (λ e. record {
          inv = v;
          calm =
              with_timer L
                (record (w.timer) { registered = true; loud = verbose; usec = sig_interval }) w
                (ticks.registered w.locks w.timer verbose k.of_locks) k;
          same = refl;
        }))
  perform-Good Calls.be_quiet new parts v k = (
    v,
    with_timer L (record (w.timer) { loud = false }) w
        (ticks.spoken w.locks w.timer false k.of_locks) k,
  )
  perform-Good Calls.be_loud new parts v k = (
    v,
    with_timer L (record (w.timer) { loud = true }) w (ticks.spoken w.locks w.timer true k.of_locks)
        k,
  )
