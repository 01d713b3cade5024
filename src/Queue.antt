-- ===== src/Queue.antt =====
-- The ring of thread identifiers in thread.c (`queue_t`), used as the ready queue and inside every
-- wait queue. Functions that write through the pointer return the new queue beside their result.
pub mod Fifo
pub mod Bounds
pub mod Refine
pub mod Run
pub mod Abstract
mod Tests
use user_space_threads.Prelude.{
  ℕ, ◌*◌, ◌≡◌, Bool, true, false, Int32, minus, lt_signed, le_signed, add_int, sub_int, ◌==◌,
  if◌then◌else◌, update,
}

-- THREAD_MAX_THREADS
abbrev pub thread_max_threads : Int32
thread_max_threads = 1024

-- the length of the array `threads` of a queue
abbrev pub queue_slots : Int32
queue_slots = thread_max_threads * 30

-- ERR_EMPTY
abbrev pub err_empty : Int32
err_empty = minus 2

-- `queue_t`. The array is a function of the index: only the indices below `queue_slots` exist, and
-- Queue/Bounds is about the indices that the code uses.
pub record Queue : Type 0 where
  pub current_size : Int32
  pub start : Int32
  pub end : Int32
  pub threads : ℕ → Int32

unfoldable pub queue_index : Queue → Int32 → Int32
queue_index queue index =
    if le_signed queue.current_size index
    then minus 1
    else let offset = add_int index queue.start in
      if lt_signed offset thread_max_threads then offset else sub_int offset thread_max_threads

unfoldable pub next : Int32 → Int32
next index =
    let offset = add_int index 1 in
    if lt_signed offset queue_slots
    then offset
    else if lt_signed queue_slots offset
    then minus 1
    else 0

unfoldable pub prev : Int32 → Int32
prev index =
    let offset = sub_int index 1 in
    if le_signed 0 offset
    then offset
    else if lt_signed offset (minus 1)
    then minus 1
    else sub_int queue_slots 1

unfoldable pub queue_push : Queue → Int32 → Bool × Queue
queue_push queue value = if queue.current_size == queue_slots then (false, queue) else (
  true,
  record {
    threads = update queue.threads queue.end value;
    end = next queue.end;
    start = queue.start;
    current_size = add_int queue.current_size 1;
  },
)

unfoldable pub queue_pop_last : Queue → Int32 × Queue
queue_pop_last queue =
    if queue.current_size == 0
    then (err_empty, queue)
    else let last = prev queue.end in
      (queue.threads last, record queue { end = last; current_size = sub_int queue.current_size 1 })

unfoldable pub queue_pop : Queue → Int32 × Queue
queue_pop queue = if queue.current_size == 0 then (err_empty, queue) else (
  queue.threads queue.start,
  record queue { start = next queue.start; current_size = sub_int queue.current_size 1 },
)

-- A queue with nothing in it, as `thread_init` and `wait_queue_create` leave one. The array is as
-- it was.
unfoldable pub empty_queue : (ℕ → Int32) → Queue
empty_queue slots = record { current_size = 0; start = 0; end = 0; threads = slots }
