-- ===== src/Step/Handover/Tests.antt =====
-- A lock and a condition variable that pass to a waiting thread, at concrete worlds.
use user_space_threads.Prelude.{
  ◌≡◌, refl, true, false, [], none, some, Int32, ◌==◌, ◌>>=◌, if◌then◌else◌, arith,
}
use user_space_threads.Queue.{Queue}
use user_space_threads.Machine.{running, sleep, saved, World}
use user_space_threads.Thread.Yield.{return, thread_yield}
use user_space_threads.Lock.{lock_release, cv_signal}
use user_space_threads.Step.{run}
use user_space_threads.Step.Tests.{one_block, yielded, no_entries, world, lock_of}
use user_space_threads.Step.Handover.{
  acquiring, waiting_on, Holder, run-lock_release-acquiring, run-cv_signal-waiting_on,
}

abbrev one : Int32 → Queue
one t = record { current_size = 1; start = 0; end = 1; threads = λ i. t }

-- Thread 1 holds the lock at 32, whose queue is at 64; thread 6 waits for it.
abbrev contended : World (Unit {0})
contended = record (world 1 no_entries) {
  threads = λ t.
      if t == 6
      then record (yielded sleep) { context = saved false (acquiring 1 64 32 true []) }
      else yielded running;
  wait_queues = λ p. if p == 64 then some (one 6) else none;
  locks = λ p. if p == 32 then some (lock_of 1) else none;
}

run-lock_release-acquiring_example :
    (w' : World (Unit {0})) × (run 3 (lock_release 32 contended >>= thread_yield 6 [])
      ≡ return 0 [] w')
    × Holder 6 32 (lock_of 1) true w'
run-lock_release-acquiring_example =
    run-lock_release-acquiring 32 (lock_of 1) (one 6) contended 6 1 [] [] true [] [] (omega arith)
      refl refl refl (omega arith) refl (omega arith) refl (tt, tt) (refl, tt) (omega arith)
      (omega arith) refl (omega arith)

-- Thread 6 waits on the condition variable at 48, whose queue is at 80, and thread 7 for the lock.
abbrev signalled : World (Unit {0})
signalled = record (world 1 no_entries) {
  threads = λ t.
      if t == 6
      then record (yielded sleep) { context = saved false (waiting_on 1 80 32 true []) }
      else if t == 7
      then record (yielded sleep) { context = saved false (acquiring 1 64 32 true []) }
      else yielded running;
  wait_queues = λ p. if p == 64 then some (one 7) else if p == 80 then some (one 6) else none;
  locks = λ p. if p == 32 then some (lock_of 1) else none;
  cvs = λ p. if p == 48 then some (record { queue = 80 }) else none;
}

run-cv_signal-waiting_on_example :
    (w' : World (Unit {0})) × (run 4
        (cv_signal 48 32 signalled >>= lock_release 32 >>= thread_yield 6 [])
      ≡ return 0 [] w')
    × Holder 6 32 (lock_of 1) true w'
run-cv_signal-waiting_on_example =
    run-cv_signal-waiting_on 48 32 (record { queue = 80 }) (lock_of 1) (one 6) (one 7) signalled 6 1
      [] true [] [] (omega arith) refl refl refl (omega arith) refl (omega arith) refl (omega arith)
      refl refl (omega arith) (omega arith) refl (omega arith) (tt, tt)
      ((λ e. absurd (omega arith)), tt) (refl, tt) (omega arith) (omega arith) refl (omega arith)
