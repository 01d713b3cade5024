-- ===== src/Calls.antt =====
-- The program as its clients see it: the calls that a thread's own code can make, the signal of
-- the timer, and calls that go on when the call in them returns. These are the moves of the
-- process, and Calls/Reach is about all that a sequence of moves can lead to.
pub mod Create
pub mod Keeps
pub mod Perform
pub mod Reach
pub mod Exclusion
pub mod Accounted
pub mod Scheduled
pub mod Vacant
pub mod Separate
pub mod Wakeups
pub mod Open
pub mod Turn
mod Tests
use user_space_threads.Prelude.{
  false, ℕ, ◌≡◌, ◌≢◌, Bool, true, none, List, [], ◌∷◌, Int32, ok, ◌>>=◌,
}
use user_space_threads.Clock.{Timespec}
use user_space_threads.Machine.{Thread, Frame, World, Control, Outcome}
use user_space_threads.Machine.Objects.{Allocator}
use user_space_threads.Interrupt.{
  interrupts_set, interrupts_quiet, interrupts_loud, register_interrupt_handler,
}
use user_space_threads.Thread.{thread_create, thread_init}
use user_space_threads.Thread.Init.{NothingBehind}
use user_space_threads.Thread.Yield.{return, thread_yield, thread_exit, thread_kill}
use user_space_threads.Wait.{
  wait_queue_create, wait_queue_destroy, thread_sleep, thread_wakeup, thread_wait,
}
use user_space_threads.Lock
use user_space_threads.Lock.{
  lock_create, lock_destroy, lock_acquire, lock_release, cv_create, cv_destroy, cv_wait, cv_signal,
  cv_broadcast,
}
use user_space_threads.Step.{step, deliver}

-- There is no wait queue, no lock and no condition variable, and administrative_mode is off, as its
-- initialiser in thread.c leaves it.
pub record IsPristine {H : Type 0} (w : World H) : Type 0 where
  pub wait_queues : (p : ℕ) → w.wait_queues p ≡ none
  pub locks : (p : ℕ) → w.locks p ≡ none
  pub cvs : (p : ℕ) → w.cvs p ≡ none
  pub mode : w.administrative_mode ≡ false

-- The functions of thread.h and interrupt.h that change the process; and, for a lock_create,
-- lock_destroy, cv_create or cv_destroy that the signal interrupts, what lies between two places
-- where it can: `reserve` is the first malloc369 of the two that create, new_queue the call of
-- wait_queue_create in them and `fill_` the rest; drop_queue is the first free369 of the two that
-- destroy, behind the assertions, and `free_` the other. Each of malloc369 and free369 is taken to
-- run without a signal inside.
pub data Call : Type 0 where
  reserve : ℕ → Call
  fill_lock : ℕ → ℕ → Call
  free_lock : ℕ → Call
  fill_cv : ℕ → ℕ → Call
  free_cv : ℕ → Call
  create : ℕ → ℕ → Call
  yield : Int32 → Call
  exit : Int32 → Call
  kill : Int32 → Call
  new_queue : Call
  drop_queue : ℕ → Call
  sleep_on : ℕ → Call
  wakeup : ℕ → Int32 → Call
  wait_for : Int32 → ℕ → Call
  new_lock : Call
  drop_lock : ℕ → Call
  acquire : ℕ → Call
  release : ℕ → Call
  new_cv : Call
  drop_cv : ℕ → Call
  wait_on : ℕ → ℕ → Call
  signal : ℕ → ℕ → Call
  broadcast : ℕ → ℕ → Call
  set_signals : Bool → Call
  register : Bool → Call
  be_quiet : Call
  be_loud : Call

module _ {H : Type 0} ⦃al : Allocator H⦄ where
  -- A call from a thread's own code, where no call is open. A pointer that is the result is not
  -- kept: the client may use any address.
  unfoldable pub perform : Call → World H → Outcome H
  perform (reserve size) w = Lock.reserve size w >>= λ r. return 0 [] r.1
  perform (fill_lock lock queue) w = Lock.fill_lock lock queue w >>= λ r. return 0 [] r.1
  perform (free_lock lock) w = Lock.free_lock lock w >>= λ w'. return 0 [] w'
  perform (fill_cv cv queue) w = Lock.fill_cv cv queue w >>= λ r. return 0 [] r.1
  perform (free_cv cv) w = Lock.free_cv cv w >>= λ w'. return 0 [] w'
  perform (create fn parg) w = thread_create fn parg w >>= λ r. return r.0 [] r.1
  perform (yield want_tid) w = thread_yield want_tid [] w
  perform (exit exit_code) w = thread_exit exit_code [] w
  perform (kill tid) w = thread_kill tid [] w
  perform new_queue w = wait_queue_create w >>= λ r. return 0 [] r.1
  perform (drop_queue wq) w = wait_queue_destroy wq w >>= λ w'. return 0 [] w'
  perform (sleep_on queue) w = thread_sleep queue [] w
  perform (wakeup queue all) w = thread_wakeup queue all w >>= λ r. return r.0 [] r.1
  perform (wait_for tid exit_code) w = thread_wait tid exit_code [] w
  perform new_lock w = lock_create w >>= λ r. return 0 [] r.1
  perform (drop_lock lock) w = lock_destroy lock w >>= λ w'. return 0 [] w'
  perform (acquire lock) w = lock_acquire lock [] w
  perform (release lock) w = lock_release lock w >>= λ w'. return 0 [] w'
  perform new_cv w = cv_create w >>= λ r. return 0 [] r.1
  perform (drop_cv cv) w = cv_destroy cv w >>= λ w'. return 0 [] w'
  perform (wait_on cv lock) w = cv_wait cv lock [] w
  perform (signal cv lock) w = cv_signal cv lock w >>= λ w'. return 0 [] w'
  perform (broadcast cv lock) w = cv_broadcast cv lock w >>= λ w'. return 0 [] w'
  perform (set_signals enable) w = return 0 [] (interrupts_set enable w).1
  perform (register verbose) w = register_interrupt_handler verbose w >>= λ w'. return 0 [] w'
  perform be_quiet w = return 0 [] (interrupts_quiet w)
  perform be_loud w = return 0 [] (interrupts_loud w)

  -- One move of the process: the innermost open call goes on; or no call is open, and the thread's
  -- own code makes one or the kernel delivers the signal, which must be unblocked and the timer on.
  pub data Move : Control H → Outcome H → Type 0 where
    goes_on :
        (v : Int32) (f : Frame) (stack : List Frame) (w : World H)
        → Move
            (record { value = v; stack = f ∷ stack; world = w })
            (step (record { value = v; stack = f ∷ stack; world = w }))
    calls :
        (v : Int32) (w : World H) (call : Call)
        → Move (record { value = v; stack = []; world = w }) (perform call w)
    fires :
        (v ret : Int32) (now : Timespec) (w : World H)
        → w.enabled ≡ true
        → w.timer.usec ≢ 0
        → Move (record { value = v; stack = []; world = w }) (deliver ret now w)

  -- A process starts with no objects and no handler, and thread_init returns; from there it goes
  -- move by move.
  pub data Reached : Control H → Type 0 where
    boots :
        (uninit : Thread) (w0 w : World H) (v : Int32)
        → NothingBehind w0.threads
        → IsPristine w0
        → w0.timer.registered ≡ false
        → thread_init uninit w0 ≡ ok w
        → Reached (record { value = v; stack = []; world = w })
    moves : (c c' : Control H) (o : Outcome H) → Reached c → Move c o → o ≡ ok c' → Reached c'
