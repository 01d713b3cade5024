-- ===== src/Machine.antt =====
-- The process that thread.c runs in: its globals, the table of threads, the objects that its
-- clients allocate, the signal mask, and the saved contexts.
-- A saved context (`ucontext_t`) is the signal mask and the calls that are still open on the
-- thread's stack, innermost first. A frame is one open call with the locals that it reads later.
pub mod Objects
pub mod Switch
use user_space_threads.Prelude.{ℕ, Bool, List, Option, Int32, Result, minus}
use user_space_threads.Queue.{Queue}
use user_space_threads.Clock.{Timespec}

-- `state_t`
pub data State : Type 0 where
  destroyed : State
  running : State
  sleep : State

-- One open call, at the point where it goes on when the call that it made returns.
pub data Frame : Type 0 where
  -- thread_yield at `if (switched)`: signal_state, actual_tid
  in_yield : Bool → Int32 → Frame
  -- thread_stub at its entry: thread_main, arg
  in_stub : ℕ → ℕ → Frame
  -- handle_death behind its thread_yield: signal_state
  in_death : Bool → Frame
  -- thread_kill behind handle_death: tid, signal_state
  in_kill : Int32 → Bool → Frame
  -- admin_mode behind thread_kill, and behind thread_yield
  in_admin_kill : Frame
  in_admin_yield : Frame
  -- thread_exit of thread 0 behind handle_death, and behind thread_yield: exit_code
  in_exit_death : Int32 → Frame
  in_exit_yield : Int32 → Frame
  -- thread_sleep behind thread_yield: queue, enabled
  in_sleep : ℕ → Bool → Frame
  -- thread_wait behind thread_yield: tid, exit_code, signal
  in_wait : Int32 → ℕ → Bool → Frame
  -- lock_acquire behind thread_sleep: lock, signals
  in_acquire : ℕ → Bool → Frame
  -- cv_wait behind thread_sleep: lock, signal; and behind lock_acquire: signal
  in_cv_sleep : ℕ → Bool → Frame
  in_cv_acquire : Bool → Frame
  -- interrupt_handler behind thread_yield
  in_handler : Frame

-- `ucontext_t`: nothing has been stored in it, or getcontext has.
pub data Context : Type 0 where
  unset : Context
  saved : Bool → List Frame → Context

-- `thread_t`
pub record Thread : Type 0 where
  pub context : Context
  pub stack_start : ℕ
  pub is_main : Bool
  pub state : State
  pub waiter : Int32
  pub exit_code : Int32

-- `struct lock` and `struct cv`; the queue is the address of a wait queue.
pub record Lock : Type 0 where
  pub queue : ℕ
  pub current : Int32

pub record Cv : Type 0 where
  pub queue : ℕ

-- What interrupt.c and the kernel keep: the registration, the verbosity, the microseconds on the
-- one-shot timer (0 when it is not running), and the times of the handler's messages.
pub record Timer : Type 0 where
  pub registered : Bool
  pub loud : Bool
  pub usec : ℕ
  pub first : Bool
  pub start : Timespec
  pub end : Timespec
  pub diff : Timespec

-- `H` is the state of the allocator of malloc369.c.
pub record World (H : Type 0) : Type 0 where
  pub threads : ℕ → Thread
  pub thread_queue : Queue
  pub current_thread : Int32
  pub thread_to_destroy : Int32
  pub administrative_mode : Bool
  -- the signal mask of the process: is SIG_TYPE unblocked?
  pub enabled : Bool
  pub timer : Timer
  -- the objects in memory, by address: `struct wait_queue` (which is a queue), locks, condition
  -- variables, and the ints that clients pass the address of
  pub wait_queues : ℕ → Option Queue
  pub locks : ℕ → Option Lock
  pub cvs : ℕ → Option Cv
  pub ints : ℕ → Int32
  pub heap : H

-- Control returns `value` to the innermost open call; to the thread's own code if none is open.
pub record Control (H : Type 0) : Type 0 where
  pub value : Int32
  pub stack : List Frame
  pub world : World H

abbrev pub Outcome : Type 0 → Type 0
Outcome H = Result (Control H)

-- THREAD_ANY and the other codes
abbrev pub thread_any : Int32
thread_any = minus 1

abbrev pub thread_self : Int32
thread_self = minus 2

abbrev pub thread_invalid : Int32
thread_invalid = minus 3

abbrev pub thread_none : Int32
thread_none = minus 4

abbrev pub thread_nomore : Int32
thread_nomore = minus 5

abbrev pub sigkill : Int32
sigkill = 9

-- THREAD_MIN_STACK
abbrev pub thread_min_stack : ℕ
thread_min_stack = 32768
