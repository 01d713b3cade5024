-- ===== src/Lock.antt =====
-- Locks and condition variables of thread.c.
pub mod Keeps
pub mod Create
pub mod Release
pub mod Held
pub mod Scheduled
pub mod Vacant
pub mod Separate
pub mod Open
pub mod Balanced
pub mod Parts
pub mod Exclusion
use user_space_threads.Prelude.{
  ℕ, Bool, not, List, ◌∷◌, none, some, Int32, Result, ok, assert, minus, ◌>>=◌, ◌>>◌, ◌==◌,
  if◌then◌else◌, update, halt, bad_pointer,
}
use user_space_threads.Machine.{Frame, in_acquire, in_cv_sleep, in_cv_acquire, World, Outcome}
use user_space_threads.Machine.Objects.{Allocator, set_lock, deref}
use user_space_threads.Interrupt.{interrupts_set, interrupts_off, interrupts_enabled}
use user_space_threads.Thread.{thread_id}
use user_space_threads.Thread.Yield.{restore}
use user_space_threads.Wait.{wait_queue_create, thread_sleep, thread_wakeup}

-- sizeof(struct lock) and sizeof(struct cv)
abbrev pub lock_size : ℕ
lock_size = 16

abbrev pub cv_size : ℕ
cv_size = 8

module _ {H : Type 0} ⦃al : Allocator H⦄ where
  -- lock_create, lock_destroy, cv_create and cv_destroy do not block the signal, which can come
  -- between the calls in them. So what one does between two of these places is a definition here, if
  -- it is no function of its own; Lock/Parts puts them together.

  -- The first call of malloc369 in lock_create and cv_create.
  unfoldable pub reserve : ℕ → World H → Result (ℕ × World H)
  reserve size w = do (block, heap) ← al.malloc369 size w.heap; ok (block, record w { heap = heap })

  -- lock_create behind its calls. The fields are written before the pointer is tested, so a null
  -- pointer is undefined there.
  abbrev pub fill_lock : ℕ → ℕ → World H → Result (ℕ × World H)
  fill_lock lock queue w =
      if lock == 0
      then halt bad_pointer
      else ok (lock, set_lock lock (record { queue = queue; current = minus 1 }) w)

  -- The last call of free369 in lock_destroy.
  unfoldable pub free_lock : ℕ → World H → Result (World H)
  free_lock lock w = do
    heap ← al.free369 lock w.heap
    ok (record w { heap = heap; locks = update w.locks lock none })

  abbrev pub fill_cv : ℕ → ℕ → World H → Result (ℕ × World H)
  fill_cv cv queue w =
      if cv == 0
      then halt bad_pointer
      else ok (cv, record w { cvs = update w.cvs cv (some (record { queue = queue })) })

  unfoldable pub free_cv : ℕ → World H → Result (World H)
  free_cv cv w = do
    heap ← al.free369 cv w.heap
    ok (record w { heap = heap; cvs = update w.cvs cv none })

  unfoldable pub lock_create : World H → Result (ℕ × World H)
  lock_create w = do
    (lock, heap) ← al.malloc369 lock_size w.heap
    (queue, w1) ← wait_queue_create (record w { heap = heap })
    fill_lock lock queue w1

  unfoldable pub lock_destroy : ℕ → World H → Result (World H)
  lock_destroy lock w = do
    assert (not (lock == 0))
    l ← deref (w.locks lock)
    assert (l.current == minus 1)
    heap ← al.free369 l.queue w.heap
    heap' ← al.free369 lock heap
    ok (record w {
      heap = heap';
      wait_queues = update w.wait_queues l.queue none;
      locks = update w.locks lock none;
    })

  unfoldable pub cv_create : World H → Result (ℕ × World H)
  cv_create w = do
    (cv, heap) ← al.malloc369 cv_size w.heap
    (queue, w1) ← wait_queue_create (record w { heap = heap })
    fill_cv cv queue w1

  unfoldable pub cv_destroy : ℕ → World H → Result (World H)
  cv_destroy cv w = do
    assert (not (cv == 0))
    c ← deref (w.cvs cv)
    heap ← al.free369 c.queue w.heap
    heap' ← al.free369 cv heap
    ok (record w {
      heap = heap';
      wait_queues = update w.wait_queues c.queue none;
      cvs = update w.cvs cv none;
    })

module _ {H : Type 0} where
  -- The loop of lock_acquire, up to the call of thread_sleep in it; when that returns, the loop
  -- is entered again. Behind the loop the lock is taken.
  unfoldable pub acquire_loop : ℕ → Bool → List Frame → World H → Outcome H
  unfolding interrupts_set thread_id
  acquire_loop lock signals stack w = do
    l ← deref (w.locks lock)
    if l.current == minus 1
        then restore signals 0 stack (set_lock lock (record l { current = thread_id w }) w)
        else thread_sleep l.queue (in_acquire lock signals ∷ stack) w

  unfoldable pub lock_acquire : ℕ → List Frame → World H → Outcome H
  unfolding interrupts_off interrupts_set
  lock_acquire lock stack w0 =
      let (signals, w) = interrupts_off w0 in
      do assert (not (lock == 0)); acquire_loop lock signals stack w

  unfoldable pub lock_release : ℕ → World H → Result (World H)
  unfolding interrupts_off interrupts_set
  lock_release lock w0 = do
    assert (not (lock == 0))
    let (signals, w) = interrupts_off w0
    l ← deref (w.locks lock)
    assert (l.current == w.current_thread)
    let w1 = set_lock lock (record l { current = minus 1 }) w
    (num, w2) ← thread_wakeup l.queue 1 w1
    ok (interrupts_set signals w2).1

  unfoldable pub cv_wait : ℕ → ℕ → List Frame → World H → Outcome H
  unfolding interrupts_off interrupts_set thread_id
  cv_wait cv lock stack w0 =
      let (signal, w) = interrupts_off w0 in
      do
        assert (not (cv == 0))
        assert (not (lock == 0))
        l ← deref (w.locks lock)
        assert (l.current == thread_id w)
        w1 ← lock_release lock w
        c ← deref (w1.cvs cv)
        thread_sleep c.queue (in_cv_sleep lock signal ∷ stack) w1

  unfoldable pub cv_wait_after_sleep : ℕ → Bool → List Frame → World H → Outcome H
  unfolding interrupts_enabled
  cv_wait_after_sleep lock signal stack w = do
    assert (not (interrupts_enabled w))
    lock_acquire lock (in_cv_acquire signal ∷ stack) w

  unfoldable pub cv_wait_after_acquire : Bool → List Frame → World H → Outcome H
  unfolding interrupts_set
  cv_wait_after_acquire signal stack w = restore signal 0 stack w

  -- cv_signal and cv_broadcast differ in the argument `all` of thread_wakeup.
  unfoldable pub wake_cv : Int32 → ℕ → ℕ → World H → Result (World H)
  unfolding interrupts_off interrupts_set
  wake_cv all cv lock w0 = do
    assert (not (cv == 0))
    assert (not (lock == 0))
    let (signal, w) = interrupts_off w0
    l ← deref (w.locks lock)
    assert (l.current == w.current_thread)
    c ← deref (w.cvs cv)
    (num, w1) ← thread_wakeup c.queue all w
    ok (interrupts_set signal w1).1

  unfoldable pub cv_signal : ℕ → ℕ → World H → Result (World H)
  cv_signal cv lock w = wake_cv 0 cv lock w

  unfoldable pub cv_broadcast : ℕ → ℕ → World H → Result (World H)
  cv_broadcast cv lock w = wake_cv 1 cv lock w
