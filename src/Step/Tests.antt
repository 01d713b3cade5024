-- ===== src/Step/Tests.antt =====
-- The theorems on whole calls at concrete worlds.
use user_space_threads.Prelude.{
  ◌≡◌, refl, true, false, [], ◌∷◌, none, some, Int32, ok, minus, ◌>>=◌, ◌==◌, if◌then◌else◌, arith,
}
use user_space_threads.Queue.{Queue, queue_push}
use user_space_threads.Queue.Refine.{contents}
use user_space_threads.Machine.{
  Thread, State, destroyed, running, sleep, saved, in_yield, in_stub, World, sigkill, Lock,
  thread_none,
}
use user_space_threads.Machine.Objects.{
  Allocator, set_state, set_waiter, set_thread, set_wait_queue,
}
use user_space_threads.Thread.{thread_create, get_thread_any}
use user_space_threads.Thread.Ready.{Found, get_thread_any-Found}
use user_space_threads.Thread.Inv.{Inv, switched}
use user_space_threads.Thread.Create.{IsLowest, thread_create_lem}
use user_space_threads.Thread.Yield.{return, thread_yield}
use user_space_threads.Wait.{thread_wait, thread_wakeup, thread_sleep}
use user_space_threads.Wait.Wakeup.{thread_wakeup-one, woken}
use user_space_threads.Step.{step}
use user_space_threads.Step.Outcomes.{step-thread_yield, step-thread_wait-empty}
use user_space_threads.Step.Refused.{step-thread_sleep-empty}

-- An allocator that always gives the block at address 4096.
instance abbrev pub one_block : Allocator (Unit {0})
one_block = record { malloc369 = λ size h. ok (4096, h); free369 = λ p h. ok h; block = λ p h i. 0 }

-- A thread in a state that has yielded to thread 5.
abbrev pub yielded : State → Thread
yielded s = record {
  context = saved false (in_yield true 5 ∷ []);
  stack_start = 4096;
  is_main = false;
  state = s;
  waiter = minus 1;
  exit_code = minus sigkill;
}

-- Thread 2 sleeps, thread 3 is dead, all others run.
abbrev pub table : Int32 → Thread
table t = if t == 2 then yielded sleep else if t == 3 then yielded destroyed else yielded running

abbrev pub no_entries : Queue
no_entries = record { current_size = 0; start = 0; end = 0; threads = λ i. 0 }

-- The entries 3, 2, 2, 2 with 3 in slot 0.
abbrev pub four_entries : Queue
four_entries = record {
  current_size = 4;
  start = 0;
  end = 4;
  threads = λ i. if i == 0 then 3 else 2;
}

abbrev pub world : Int32 → Queue → World (Unit {0})
world current queue = record {
  threads = table;
  thread_queue = queue;
  current_thread = current;
  thread_to_destroy = minus 1;
  administrative_mode = false;
  enabled = true;
  timer = record {
    registered = true;
    loud = false;
    usec = 200;
    first = true;
    start = record { tv_sec = 0; tv_nsec = 0 };
    end = record { tv_sec = 0; tv_nsec = 0 };
    diff = record { tv_sec = 0; tv_nsec = 0 };
  };
  wait_queues = λ p. if p == 64 then some four_entries else none;
  locks = λ p. none;
  cvs = λ p. none;
  ints = λ p. 0;
  heap = tt;
}

table-Inv : Inv (world 1 no_entries)
table-Inv = record {
  ready = omega arith;
  current = omega arith;
  waiters = λ t. ground arith;
  contexts = λ t ne live. ground arith;
  main_context = λ ne. refl;
}

get_thread_any-Found_example :
    Found 1 (world 1 four_entries) (get_thread_any 1 (world 1 four_entries))
get_thread_any-Found_example = get_thread_any-Found 1 (world 1 four_entries) (omega arith)

step-thread_yield_example :
    (thread_yield 2 [] (world 1 no_entries) >>= step)
    ≡ return 5 [] (switched true 2 [] (world 1 no_entries))
step-thread_yield_example =
    step-thread_yield 2 [] (world 1 no_entries) (omega arith) (omega arith) (λ e. cc) refl refl

step-thread_wait-empty_example :
    (thread_wait 2 0 [] (world 1 no_entries) >>= step)
    ≡ return 2 [] (set_state 1 sleep (set_waiter 2 1 (world 1 no_entries)))
step-thread_wait-empty_example =
    step-thread_wait-empty 2 [] (world 1 no_entries) (omega arith) (omega arith) (omega arith)
      (λ e. cc) refl refl refl

thread_wakeup-one_example :
    (q' : Queue) × (thread_wakeup 64 0 (world 1 no_entries)
      ≡ ok (1, set_wait_queue 64 q' (woken 2 (world 1 no_entries))))
    × (contents q' ≡ 2 ∷ 2 ∷ [])
thread_wakeup-one_example =
    thread_wakeup-one (3 ∷ []) (2 ∷ 2 ∷ []) 2 64 four_entries (world 1 no_entries) (omega arith)
      refl (omega arith) refl (refl, tt) refl

-- Thread 1 is the last one that runs. Thread 0 waits for it no more: it is dead, and its entry is in
-- the ready queue.
abbrev last : World (Unit {0})
last = record (world 1 (record { current_size = 1; start = 0; end = 1; threads = λ i. 0 })) {
  threads = λ t. if t == 1 then record (yielded running) { waiter = 0 } else yielded destroyed;
}

lowest : IsLowest table 3
lowest = record {
  from_one = omega arith;
  below_max = omega arith;
  free = refl;
  taken_below = λ t a b. ground arith;
}

thread_create_lem_example :
    thread_create 8 9 (world 1 no_entries)
    ≡ ok (
      3,
      record (set_thread 3
          (record (yielded running) { context = saved false (in_stub 8 9 ∷ []) })
          (world 1 no_entries)) { thread_queue = (queue_push no_entries 3).1 },
    )
thread_create_lem_example = thread_create_lem 8 9 (world 1 no_entries) refl 3 4096 lowest refl

-- A lock at address 32, whose queue is at 64.
abbrev pub lock_of : Int32 → Lock
lock_of holder = record { queue = 64; current = holder }

abbrev with_lock : Int32 → World (Unit {0})
with_lock holder = record (world 1 no_entries) {
  locks = λ p. if p == 32 then some (lock_of holder) else none;
  wait_queues = λ p. if p == 64 then some no_entries else none;
}

step-thread_sleep-empty_example :
    (w' : World (Unit {0})) × ((thread_sleep 64 [] (world 1 no_entries) >>= step)
      ≡ return thread_none [] w')
    × ((w'.threads 1).state ≡ running)
    × (w'.enabled ≡ true)
    × (q' : Queue) × (w'.wait_queues 64 ≡ some q')
    × (contents q' ≡ 3 ∷ 2 ∷ 2 ∷ 2 ∷ [])
step-thread_sleep-empty_example =
    step-thread_sleep-empty 64 four_entries [] (world 1 no_entries) (omega arith) refl (omega arith)
      (omega arith) (omega arith) refl
