-- ===== src/Thread/Create.antt =====
-- Which slot thread_create takes, and what it puts there.
use user_space_threads.Prelude.{
  ℕ, zero, suc, ◌+◌, ◌-◌, ◌≤◌, ◌<◌, ◌≡◌, ◌≢◌, refl, Bool-cases, inl, inr, Option, none, some, [],
  ◌∷◌, Int32, ok, minus, arith, false, true,
}
use user_space_threads.Queue.{thread_max_threads, queue_push}
use user_space_threads.Machine.{
  Thread, destroyed, running, World, saved, in_stub, thread_nomore, thread_min_stack, sigkill,
}
use user_space_threads.Machine.Objects.{Allocator, state_eq, set_thread}
use user_space_threads.Thread.{first_destroyed, thread_create, create_at}

-- The search answers the first slot whose thread is destroyed, or that there is none.
abbrev pub IsFirst : ℕ → Int32 → (Int32 → Thread) → Option Int32 → Type 0
IsFirst n first threads none =
    (t : Int32) → first ≤ t → t < first + n → (threads t).state ≢ destroyed
IsFirst n first threads (some tid) =
    (first ≤ tid)
    × (tid < first + n)
    × ((threads tid).state ≡ destroyed)
    × ((t : Int32) → first ≤ t → t < tid → (threads t).state ≢ destroyed)

pub first_destroyed-IsFirst :
    (n : ℕ) (first : Int32) (threads : Int32 → Thread)
    → IsFirst n first threads (first_destroyed n first threads)
unfolding first_destroyed
first_destroyed-IsFirst zero first threads = λ t h g. absurd (omega arith)
first_destroyed-IsFirst (suc n) first threads =
    elim (Bool-cases (state_eq (threads first).state destroyed)) [
      | inl e ↦
          rw (first_destroyed, e)
            (omega arith, omega arith, ground arith, λ t h g. absurd (omega arith))
      | inr e ↦
          rw (first_destroyed, e)
            (extend (first_destroyed n (first + 1) threads)
              (first_destroyed-IsFirst n (first + 1) threads) e)
    ]
  where
    extend :
        (o : Option Int32)
        → IsFirst n (first + 1) threads o
        → state_eq (threads first).state destroyed ≡ false
        → IsFirst (suc n) first threads o
    extend none h e = λ t a b. ground (arith, h t)
    extend (some tid) h e = (omega arith, omega arith, h.2, λ t a b. ground (arith, h.3 t))

-- Is `tid` the lowest slot from 1 on that is free?
pub record IsLowest (threads : Int32 → Thread) (tid : Int32) : Type 0 where
  pub from_one : 1 ≤ tid
  pub below_max : tid < thread_max_threads
  pub free : (threads tid).state ≡ destroyed
  pub taken_below : (t : Int32) → 1 ≤ t → t < tid → (threads t).state ≢ destroyed

first_destroyed-some :
    (threads : Int32 → Thread) (tid : Int32) (o : Option Int32)
    → IsLowest threads tid
    → IsFirst (thread_max_threads - 1) 1 threads o
    → o ≡ some tid
first_destroyed-some threads tid none h f =
    absurd (f tid h.from_one (omega (arith, h.below_max)) h.free)
first_destroyed-some threads tid (some t) h f =
    ground (arith, h.free, h.below_max, h.from_one, f.2, f.3 tid, h.taken_below t)

first_destroyed-none :
    (threads : Int32 → Thread) (o : Option Int32)
    → ((t : Int32) → 1 ≤ t → t < thread_max_threads → (threads t).state ≢ destroyed)
    → IsFirst (thread_max_threads - 1) 1 threads o
    → o ≡ none
first_destroyed-none threads none h f = refl
first_destroyed-none threads (some t) h f = ground (arith, f.2, h t)

module _ {H : Type 0} ⦃al : Allocator H⦄ (fn parg : ℕ) (w : World H) (on : w.enabled ≡ true) where
  -- thread_create, called with interrupts on, answers THREAD_NOMORE and changes nothing when every
  -- slot from 1 on is taken.
  pub thread_create-nomore :
      ((t : Int32) → 1 ≤ t → t < thread_max_threads → (w.threads t).state ≢ destroyed)
      → thread_create fn parg w ≡ ok (thread_nomore, w)
  unfolding thread_create
  thread_create-nomore taken = ground (
    arith,
    first_destroyed-none w.threads (first_destroyed 1023 1 w.threads) taken
        (first_destroyed-IsFirst 1023 1 w.threads),
  )

  -- Otherwise it takes the lowest free slot: the thread there has a fresh stack, runs, starts in
  -- thread_stub with the function and its argument, has no waiter and the exit status of a thread
  -- that was killed, and is put in the ready queue; the mask is as it was.
  pub thread_create_lem :
      (tid stack_pointer : ℕ) {heap : H}
      → IsLowest w.threads tid
      → al.malloc369 thread_min_stack w.heap ≡ ok (stack_pointer, heap)
      → thread_create fn parg w
        ≡ ok (
          tid,
          record (set_thread tid
              (record {
                context = saved false (in_stub fn parg ∷ []);
                stack_start = stack_pointer;
                is_main = false;
                state = running;
                waiter = minus 1;
                exit_code = minus sigkill;
              })
              w) { thread_queue = (queue_push w.thread_queue tid).1; heap = heap },
        )
  unfolding thread_create create_at
  thread_create_lem tid stack_pointer low m = ground (
    arith,
    first_destroyed-some w.threads tid (first_destroyed 1023 1 w.threads) low
        (first_destroyed-IsFirst 1023 1 w.threads),
  )
