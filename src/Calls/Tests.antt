-- ===== src/Calls/Tests.antt =====
-- The theorems on sequences of moves at a concrete process: thread 0 makes a lock and a thread,
-- takes the lock and yields to the thread, which finds the lock held.
mod Room
mod Free
use user_space_threads.Prelude.{
  ℕ, ◌+◌, ◌≡◌, refl, true, false, [], ◌∷◌, none, Int32, ok, minus, ◌==◌, if◌then◌else◌, arith,
}
use user_space_threads.Queue.{Queue, empty_queue, queue_push}
use user_space_threads.Machine.{World, Control, Lock, in_stub}
use user_space_threads.Machine.Objects.{Allocator, set_lock, set_wait_queue, set_thread}
use user_space_threads.Thread.{
  uncreated_thread, thread_init, thread_create, create_at, first_destroyed, clear_threads,
}
use user_space_threads.Thread.Yield.{thread_yield, yield_to, switch_to}
use user_space_threads.Machine.Switch.{setcontext}
use user_space_threads.Wait.{wait_queue_create}
use user_space_threads.Lock.{lock_create, lock_acquire, acquire_loop}
use user_space_threads.Step.{step, resume, thread_stub}
use user_space_threads.Calls.Create.{new_thread}
use user_space_threads.Thread.Init.{begun, main_of, thread_init-begun, thread_init_lem}
use user_space_threads.Thread.Inv.{Inv, switched}
use user_space_threads.Thread.Masks.{Calm}
use user_space_threads.Calls.{Reached, perform}
use user_space_threads.Calls
use user_space_threads.Calls.Reach.{AnyLocks, Reached-Calm}
use user_space_threads.Malloc.{KHash, Libc, Malloc, malloc369_allocator}
use user_space_threads.Calls.Exclusion.{HasLock, Move-Holds}

-- An allocator whose state is the next address.
instance abbrev bump : Allocator ℕ
bump = record { malloc369 = λ size h. ok (h, h + size); free369 = λ p h. ok h; block = λ p h i. 0 }

abbrev no_entries : Queue
no_entries = record { current_size = 0; start = 0; end = 0; threads = λ i. 0 }

abbrev process : World ℕ
process = record {
  threads = λ t. uncreated_thread;
  thread_queue = no_entries;
  current_thread = 7;
  thread_to_destroy = minus 1;
  administrative_mode = false;
  enabled = false;
  timer = record {
    registered = false;
    loud = false;
    usec = 0;
    first = true;
    start = record { tv_sec = 0; tv_nsec = 0 };
    end = record { tv_sec = 0; tv_nsec = 0 };
    diff = record { tv_sec = 0; tv_nsec = 0 };
  };
  wait_queues = λ p. none;
  locks = λ p. none;
  cvs = λ p. none;
  ints = λ p. 0;
  heap = 4096;
}

abbrev init : World ℕ
init = begun uncreated_thread process

init-Reached : Reached (record { value = 0; stack = []; world = init })
init-Reached =
    Calls.boots uncreated_thread process init 0 (λ t h. refl)
      (record { wait_queues = λ p. refl; locks = λ p. refl; cvs = λ p. refl; mode = refl }) refl
      (thread_init-begun uncreated_thread process refl refl refl)

-- The lock at 4096, its queue at 4112.
abbrev lock_of : Int32 → Lock
lock_of holder = record { queue = 4112; current = holder }

abbrev with_lock : World ℕ
with_lock =
    set_lock 4096 (lock_of (minus 1))
      (set_wait_queue 4112 (empty_queue (λ i. 0)) (record init { heap = 127004 }))

abbrev taken : World ℕ
taken = set_lock 4096 (lock_of 0) with_lock

abbrev created : World ℕ
created = record (set_thread 1 (new_thread 8 9 127004) taken) {
  thread_queue = (queue_push no_entries 1).1;
  heap = 159772;
}

abbrev in_thread_1 : World ℕ
in_thread_1 = switched true 1 [] created

taken-Reached : Reached (record { value = 0; stack = []; world = taken })
unfolding perform lock_create wait_queue_create lock_acquire acquire_loop
taken-Reached =
    Calls.moves _ _ _
      (Calls.moves _ (record { value = 0; stack = []; world = with_lock }) _ init-Reached
        (Calls.calls 0 init Calls.new_lock) refl)
      (Calls.calls 0 with_lock (Calls.acquire 4096)) refl

created-Reached : Reached (record { value = 1; stack = []; world = created })
unfolding perform thread_create create_at first_destroyed clear_threads
created-Reached = Calls.moves _ _ _ taken-Reached (Calls.calls 0 taken (Calls.create 8 9)) refl

in_thread_1-Reached :
    Reached (record {
      value = 0;
      stack = in_stub 8 9 ∷ [];
      world = record in_thread_1 { enabled = false };
    })
unfolding perform thread_yield yield_to switch_to setcontext
in_thread_1-Reached = Calls.moves _ _ _ created-Reached (Calls.calls 1 created (Calls.yield 1)) refl

abbrev thread_1 : Control ℕ
thread_1 = record { value = 0; stack = []; world = in_thread_1 }

thread_1-Reached : Reached thread_1
unfolding step resume thread_stub
thread_1-Reached = Calls.moves _ _ _ in_thread_1-Reached (Calls.goes_on 0 (in_stub 8 9) [] _) refl

Reached-Calm_example : Inv in_thread_1 × Calm AnyLocks [] in_thread_1
Reached-Calm_example = Reached-Calm (λ size h. tt) (λ p h. tt) thread_1 thread_1-Reached

Move-Holds_example : HasLock 4096 (lock_of 0) (perform (Calls.acquire 4096) in_thread_1)
Move-Holds_example =
    Move-Holds (λ size h. tt) (λ p h. tt) 4096 (lock_of 0) thread_1-Reached
      (Calls.calls 0 in_thread_1 (Calls.acquire 4096)) tt (λ p h e. ground arith) refl (omega arith)
      (omega arith)

-- A map that forgets, and a C library that always gives the block at address 4096.
instance abbrev no_map : KHash (Unit {0})
no_map = record {
  kh_init = tt;
  kh_put = λ m p. (0, 1, m);
  kh_get = λ m p. 0;
  kh_end = λ m. 0;
  kh_value = λ m k. 0;
  set_value = λ m k v. m;
}

instance abbrev libc : Libc (Unit {0})
libc = record { malloc = λ size s. (4096, s); free = λ p s. ok s; ints_at = λ p s i. 0 }

abbrev accounted : World (Malloc (Unit {0}) (Unit {0}))
accounted = record {
  threads = λ t. uncreated_thread;
  thread_queue = no_entries;
  current_thread = 7;
  thread_to_destroy = minus 1;
  administrative_mode = false;
  enabled = false;
  timer = process.timer;
  wait_queues = λ p. none;
  locks = λ p. none;
  cvs = λ p. none;
  ints = λ p. 0;
  heap = record {
    num_mallocs = 0;
    num_frees = 0;
    bytes_malloced = 0;
    bytes_freed = 0;
    verbose = false;
    malloc_map = tt;
    memory = λ a. 0;
    libc = tt;
  };
}

abbrev accounted_init : World (Malloc (Unit {0}) (Unit {0}))
accounted_init = begun uncreated_thread accounted
