-- ===== src/Thread.antt =====
-- The first part of thread.c: starting the library, creating threads, yielding, exiting, killing.
-- A function that may switch contexts takes the open calls behind it, `stack`, and gives the
-- outcome of the process: control in some thread, or a halt. The others return their result and
-- the new world.
pub mod Yield
pub mod Ready
pub mod Inv
pub mod Safe
pub mod Create
pub mod Idle
pub mod Kill
pub mod Death
pub mod Init
pub mod Untouched
pub mod Masks
pub mod Keeps
pub mod Scheduled
pub mod Objects
pub mod Open
use user_space_threads.Prelude.{
  ℕ, zero, suc, ◌+◌, ◌-◌, ◌≡◌, refl, Bool, true, false, not, ◌&&◌, Option, none, some, [], ◌∷◌,
  Int32, Result, ok, assert, minus, le_signed, lt_signed, ◌>>=◌, ◌>>◌, ◌==◌, if◌then◌else◌, update,
}
use user_space_threads.Queue.{Queue, thread_max_threads, queue_push, queue_pop, err_empty}
use user_space_threads.Machine.{
  Thread, destroyed, running, in_stub, unset, saved, World, sigkill, thread_nomore, thread_none,
  thread_min_stack,
}
use user_space_threads.Machine.Objects.{Allocator, state_eq, set_thread}
use user_space_threads.Interrupt.{
  interrupts_set, interrupts_off, interrupts_on, interrupts_enabled, unintr_printf,
}

-- thread_ret_ok of thread.h
unfoldable pub thread_ret_ok : Int32 → Int32
thread_ret_ok ret = if le_signed 0 ret then 1 else 0

unfoldable pub is_valid_thread : Int32 → Bool
is_valid_thread tid = le_signed 0 tid && lt_signed tid thread_max_threads

-- the slot of a thread that does not exist
abbrev pub uncreated_thread : Thread
uncreated_thread = record {
  context = unset;
  stack_start = 0;
  is_main = false;
  state = destroyed;
  waiter = minus 1;
  exit_code = minus sigkill;
}

-- `for (i = first; i < first + n; i++) threads[i] = uncreated_thread`
unfoldable pub clear_threads : ℕ → Int32 → (Int32 → Thread) → Int32 → Thread
clear_threads zero first threads = threads
clear_threads (suc n) first threads =
    clear_threads n (first + 1) (update threads first uncreated_thread)

-- The search of thread_create: the first of `n` slots from `tid` on whose thread is destroyed.
unfoldable pub first_destroyed : ℕ → Int32 → (Int32 → Thread) → Option Int32
first_destroyed zero tid threads = none
first_destroyed (suc n) tid threads = elim (state_eq (threads tid).state destroyed) [
  | true ↦ some tid
  | false ↦ first_destroyed n (tid + 1) threads
]

module _ {H : Type 0} where
  -- It is passed the queue by value; `first`, `second` and `third` are what its three calls of
  -- vprintf return. Nothing calls it.
  unfoldable pub print_queue : Queue → Int32 → Int32 → Int32 → World H → World H
  unfolding interrupts_off interrupts_set unintr_printf
  print_queue queue first second third w =
      let w1 = (interrupts_off w).1 in
      let w2 = (unintr_printf first w1).1 in
      let w3 = (unintr_printf second w2).1 in (unintr_printf third w3).1

  -- print_queue leaves the signal blocked and changes nothing else.
  print_queue-blocked :
      (queue : Queue) (first second third : Int32) (w : World H)
      → print_queue queue first second third w ≡ record w { enabled = false }
  unfolding print_queue unintr_printf interrupts_off interrupts_set
  print_queue-blocked queue first second third w = refl

  unfoldable pub thread_id : World H → Int32
  thread_id w = w.current_thread

  -- `uninit` is what the uninitialised local `main_thread` holds.
  unfoldable pub thread_init : Thread → World H → Result (World H)
  unfolding interrupts_off interrupts_on interrupts_enabled
  thread_init uninit w0 = do
    assert (w0.thread_queue.current_size == 0)
    assert (w0.thread_queue.start == 0)
    assert (w0.thread_queue.end == 0)
    let w1 = record w0 {
      thread_queue = record (w0.thread_queue) { start = 0; end = 0; current_size = 0 };
    }
    let w2 = (interrupts_off w1).1
    let w3 = record w2 {
      threads = clear_threads thread_max_threads 0 w2.threads;
      current_thread = 0;
    }
    let main_thread = record uninit {
      context = unset;
      is_main = true;
      state = running;
      waiter = minus 1;
    }
    let w4 = (interrupts_on (set_thread 0 main_thread w3)).1
    assert (interrupts_enabled w4)
    ok w4

  -- The loop of get_thread_any. A round takes an entry, so one round more than there are entries
  -- is enough (Thread/Ready).
  unfoldable pub any_loop : ℕ → Int32 → World H → Int32 × World H
  any_loop zero current w = (thread_none, w)
  any_loop (suc fuel) current w =
      let (result, queue) = queue_pop w.thread_queue in
      let w' = record w { thread_queue = queue } in
      elim (result == err_empty) [
        | true ↦ (thread_none, w')
        | false ↦ elim (state_eq (w.threads result).state running && not (result == current)) [
          | true ↦ (result, w')
          | false ↦ any_loop fuel current w'
        ]
      ]

  unfoldable pub get_thread_any : Int32 → World H → Int32 × World H
  get_thread_any current w = any_loop (suc w.thread_queue.current_size) current w

module _ {H : Type 0} ⦃al : Allocator H⦄ where
  -- thread_create behind the search: `tid` is the slot found.
  unfoldable pub create_at : Bool → Int32 → ℕ → ℕ → World H → Result (Int32 × World H)
  unfolding interrupts_set interrupts_enabled
  create_at signal_state tid fn parg w = do
    (stack_pointer, heap) ← al.malloc369 thread_min_stack w.heap
    let w1 = record w { heap = heap }
    assert (not (interrupts_enabled w1))
    let new_thread : Thread = record {
      context = saved w1.enabled (in_stub fn parg ∷ []);
      stack_start = stack_pointer;
      is_main = false;
      state = running;
      waiter = minus 1;
      exit_code = minus sigkill;
    }
    let w2 = set_thread tid new_thread w1
    let w3 = record w2 { thread_queue = (queue_push w2.thread_queue tid).1 }
    ok (tid, (interrupts_set signal_state w3).1)

  unfoldable pub thread_create : ℕ → ℕ → World H → Result (Int32 × World H)
  unfolding interrupts_set interrupts_enabled
  thread_create fn parg w0 =
      let (signal_state, w) = interrupts_set false w0 in
      do
        assert (not (interrupts_enabled w))
        assert signal_state
        elim (first_destroyed (thread_max_threads - 1) 1 w.threads) [
          | none ↦ ok (thread_nomore, (interrupts_set signal_state w).1)
          | some tid ↦ create_at signal_state tid fn parg w
        ]
