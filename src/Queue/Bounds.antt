-- ===== src/Queue/Bounds.antt =====
-- The representation invariant of `queue_t`: the indices stay inside the array.
use user_space_threads.Prelude.{ℕ, ◌+◌, ◌-◌, ◌%◌, ◌≤◌, ◌<◌, ◌≡◌, ◌≢◌, arith, Int32}
use user_space_threads.Queue.{
  Queue, queue_slots, queue_push, queue_pop, queue_pop_last, empty_queue, next, prev, queue_index,
  thread_max_threads,
}

pub record IsValid (q : Queue) : Type 0 where
  pub size_in : q.current_size ≤ queue_slots
  pub start_in : q.start < queue_slots
  pub end_eq : q.end ≡ (q.start + q.current_size) % queue_slots

-- Inside the array the index moves one slot on, and from the last slot to the first.
pub next_lem : (i : Int32) → i < queue_slots → next i ≡ (i + 1) % queue_slots
unfolding next
next_lem i h = ground arith

pub prev_lem : (i : Int32) → i < queue_slots → prev i ≡ (i + (queue_slots - 1)) % queue_slots
unfolding prev
prev_lem i h = ground arith

pub empty_queue-IsValid : (slots : ℕ → Int32) → IsValid (empty_queue slots)
unfolding empty_queue
empty_queue-IsValid slots = omega arith

pub queue_push-IsValid : {q : Queue} (x : Int32) → IsValid q → IsValid (queue_push q x).1
unfolding queue_push
queue_push-IsValid {q} x v = ground (arith, next_lem q.end)

pub queue_pop-IsValid : {q : Queue} → IsValid q → IsValid (queue_pop q).1
unfolding queue_pop
queue_pop-IsValid {q} v = ground (arith, next_lem q.start)

pub queue_pop_last-IsValid : {q : Queue} → IsValid q → IsValid (queue_pop_last q).1
unfolding queue_pop_last
queue_pop_last-IsValid {q} v = ground (arith, prev_lem q.end)

-- The slots that a push writes and that the two pops read lie inside the array, and no step of an
-- index gives -1.
pub in_bounds :
    {q : Queue}
    → IsValid q
    → (q.end < queue_slots)
      × (q.start < queue_slots)
      × (prev q.end < queue_slots)
      × (next q.end < queue_slots)
      × (next q.start < queue_slots)
in_bounds {q} v = omega (arith, next_lem q.start, next_lem q.end, prev_lem q.end)

-- `queue_index` wraps at THREAD_MAX_THREADS and the ring wraps at thirty times that: from offset
-- THREAD_MAX_THREADS on it names another slot than the one that holds the entry.
pub queue_index-ne_slot :
    {q : Queue} (index : Int32)
    → IsValid q
    → index < q.current_size
    → thread_max_threads ≤ q.start + index
    → queue_index q index ≢ (q.start + index) % queue_slots
unfolding queue_index
queue_index-ne_slot {q} index v h g = ground arith

-- Below that offset it names the right slot.
pub queue_index_lem :
    {q : Queue} (index : Int32)
    → IsValid q
    → index < q.current_size
    → q.start + index < thread_max_threads
    → queue_index q index ≡ (q.start + index) % queue_slots
unfolding queue_index
queue_index_lem {q} index v h g = ground arith
