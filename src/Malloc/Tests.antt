-- ===== src/Malloc/Tests.antt =====
-- The theorems on malloc369.c at concrete blocks.
use user_space_threads.Prelude.{
  ℕ, suc, ◌+◌, ◌-◌, List, [], ◌∷◌, ◌≡◌, Option, none, some, ok, ◌>>=◌, update, arith, refl, false,
  true,
}
use user_space_threads.Malloc.{
  KHash, Libc, Malloc, malloc369_allocator, free369, free_only, init_csc369_malloc,
}
use user_space_threads.Malloc.Twice.{free369-free369}
use user_space_threads.Malloc.Ledger.{IsDictionary}
use user_space_threads.Malloc.Run.{
  Request, allocate, release, plan, run, Reports, run-init_csc369_malloc,
}
use user_space_threads.Malloc.Balanced.{Balanced}
use user_space_threads.Machine.{World}
use user_space_threads.Thread.{uncreated_thread}
use user_space_threads.Lock.{lock_create, lock_destroy}
use user_space_threads.Lock.Balanced.{lock_destroy-create}

-- A map as a function; the iterator of a key is the number behind it, and 0 is the end.
instance abbrev pub table : KHash (ℕ → Option ℕ)
table = record {
  kh_init = λ p. none;
  kh_put = λ m p. (suc p, 1, m);
  kh_get = λ m p. elim (m p) [ none ↦ 0 | some v ↦ suc p ];
  kh_end = λ m. 0;
  kh_value = λ m k. elim (m (k - 1)) [ none ↦ 0 | some v ↦ v ];
  set_value = λ m k v. update m (k - 1) (some v);
}

-- An allocator that always gives the block at address 4096.
instance abbrev pub one_block : Libc (Unit {0})
one_block = record { malloc = λ size s. (4096, s); free = λ p s. ok s; ints_at = λ p s i. 0 }

abbrev pub fresh : Malloc (ℕ → Option ℕ) (Unit {0})
fresh = record {
  num_mallocs = 3;
  num_frees = 1;
  bytes_malloced = 300;
  bytes_freed = 100;
  verbose = false;
  malloc_map = λ p. none;
  memory = λ a. 0;
  libc = tt;
}

free369-free369_example :
    (free369 4096 fresh >>= free369 4096) ≡ (free369 4096 fresh >>= free_only 4096)
free369-free369_example = free369-free369 (λ m p v h. ground arith) 4096 fresh

-- The C library's state is the next address.
instance abbrev bump : Libc ℕ
bump = record { malloc = λ size p. (p, p + size); free = λ p s. ok s; ints_at = λ p s i. 0 }

table-IsDictionary : IsDictionary table
table-IsDictionary = record {
  put_works = λ m p. refl;
  put = λ m p v q. ground arith;
  set = λ m p v q h. ground arith;
}

abbrev untouched : Malloc (ℕ → Option ℕ) ℕ
untouched = record {
  num_mallocs = 7;
  num_frees = 9;
  bytes_malloced = 1;
  bytes_freed = 2;
  verbose = false;
  malloc_map = λ p. none;
  memory = λ a. 0;
  libc = 4096;
}

abbrev requests : List Request
requests = allocate 64 ∷ allocate 32 ∷ release 4096 ∷ allocate 8 ∷ []

requests-plan : plan {S = ℕ} requests [] 4096 ≡ some ((4192, 8) ∷ (4160, 32) ∷ [], 4200)
unfolding plan
requests-plan = refl

run-init_csc369_malloc_example :
    (s' : Malloc (ℕ → Option ℕ) ℕ) × (run requests (init_csc369_malloc false untouched) ≡ ok s')
    × Reports ((4192, 8) ∷ (4160, 32) ∷ []) s'
    × (s'.libc ≡ 4200)
run-init_csc369_malloc_example =
    run-init_csc369_malloc table-IsDictionary requests ((4192, 8) ∷ (4160, 32) ∷ []) 4200 false
      untouched requests-plan (omega arith) (omega arith)

abbrev started : World (Malloc (ℕ → Option ℕ) ℕ)
started = record {
  threads = λ t. uncreated_thread;
  thread_queue = record { current_size = 0; start = 0; end = 0; threads = λ i. 0 };
  current_thread = 0;
  thread_to_destroy = 0;
  administrative_mode = false;
  enabled = true;
  timer = record {
    registered = false;
    loud = false;
    usec = 0;
    first = true;
    start = record { tv_sec = 0; tv_nsec = 0 };
    end = record { tv_sec = 0; tv_nsec = 0 };
    diff = record { tv_sec = 0; tv_nsec = 0 };
  };
  wait_queues = λ p. none;
  locks = λ p. none;
  cvs = λ p. none;
  ints = λ p. 0;
  heap = record {
    num_mallocs = 0;
    num_frees = 0;
    bytes_malloced = 0;
    bytes_freed = 0;
    verbose = false;
    malloc_map = λ p. none;
    memory = λ a. 0;
    libc = 4096;
  };
}

lock_destroy-create_example :
    (w' : World (Malloc (ℕ → Option ℕ) ℕ)) × ((lock_create started >>= λ a. lock_destroy a.0 a.1)
      ≡ ok w')
    × Balanced [] w'.heap
    × (w'.heap.libc ≡ 127004)
    × (w'.locks 4096 ≡ none)
    × (w'.wait_queues 4112 ≡ none)
    × (w'.threads ≡ started.threads)
    × (w'.thread_queue ≡ started.thread_queue)
lock_destroy-create_example =
    lock_destroy-create table-IsDictionary [] started
      (record {
        ledger = tt;
        count = refl;
        bytes = refl;
        count_lt = omega arith;
        bytes_lt = omega arith;
      })
      4096 4112 4112 127004 127004 127004 refl refl (omega arith) (omega arith) refl refl refl refl
      (omega arith) (omega arith)
