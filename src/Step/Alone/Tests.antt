-- ===== src/Step/Alone/Tests.antt =====
-- A thread alone that waits for a lock or on a condition variable, at concrete worlds.
use user_space_threads.Prelude.{◌≡◌, refl, true, [], ◌∷◌, some, none, ◌==◌, if◌then◌else◌, arith}
use user_space_threads.Queue.{Queue}
use user_space_threads.Queue.Refine.{contents}
use user_space_threads.Machine.{World}
use user_space_threads.Thread.Yield.{return}
use user_space_threads.Lock.{lock_acquire, cv_wait}
use user_space_threads.Step.{run}
use user_space_threads.Step.Alone.{Spins, run-lock_acquire-Spins, run-cv_wait-Alone}
use user_space_threads.Step.Tests.{one_block, no_entries, four_entries, world, lock_of}

-- Thread 1 holds the lock at 32, whose queue is at 64; the condition variable at 48 has its queue at
-- 96.
abbrev holding : World (Unit {0})
holding = record (world 1 no_entries) {
  locks = λ p. if p == 32 then some (lock_of 1) else none;
  cvs = λ p. if p == 48 then some (record { queue = 96 }) else none;
  wait_queues =
      λ p. if p == 64 then some no_entries else if p == 96 then some four_entries else none;
}

run-lock_acquire-Spins_example :
    Spins 32 (lock_of 1) true [] 1 (run 1000 (lock_acquire 32 [] holding))
run-lock_acquire-Spins_example =
    run-lock_acquire-Spins 1000 32 (lock_of 1) no_entries [] holding (omega arith) refl
      (omega arith)
      (record {
        empty = refl;
        tid = omega arith;
        set = omega arith;
        live = refl;
        valid = omega arith;
        room = omega arith;
      })

run-cv_wait-Alone_example :
    (w' : World (Unit {0})) × (run 3 (cv_wait 48 32 [] holding) ≡ return 0 [] w')
    × (w'.enabled ≡ true)
    × (w'.locks 32 ≡ some (lock_of 1))
    × (w'.current_thread ≡ 1)
    × (q' : Queue) × (w'.wait_queues 96 ≡ some q')
    × (contents q' ≡ 3 ∷ 2 ∷ 2 ∷ 2 ∷ [])
run-cv_wait-Alone_example =
    run-cv_wait-Alone 48 32 (lock_of 1) (record { queue = 96 }) no_entries four_entries [] holding
      (omega arith) (omega arith) refl refl (omega arith) refl refl refl (omega arith)
      (record {
        empty = refl;
        tid = omega arith;
        set = omega arith;
        live = refl;
        valid = omega arith;
        room = omega arith;
      })
