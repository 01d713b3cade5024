-- ===== src/Step/Scenarios.antt =====
-- The theorems on wake-ups, on the handler, on bounded waiting and on deaths at concrete worlds.
use user_space_threads.Prelude.{
  ◌≡◌, refl, true, false, [], ◌∷◌, none, some, Int32, ok, halt, assert_failed, minus, ◌>>=◌, ◌==◌,
  if◌then◌else◌, arith, update, inl,
}
use user_space_threads.Queue.{Queue, queue_slots}
use user_space_threads.Queue.Refine.{contents}
use user_space_threads.Machine.{
  Thread, destroyed, running, sleep, saved, in_yield, in_wait, World, sigkill, in_death, in_kill,
}
use user_space_threads.Machine.Objects.{set_state, set_wait_queue, set_lock}
use user_space_threads.Thread.{thread_create}
use user_space_threads.Thread.Create.{IsLowest}
use user_space_threads.Thread.Yield.{return, thread_exit, thread_kill}
use user_space_threads.Wait.{wakeup_loop, thread_wakeup, thread_wait}
use user_space_threads.Wait.Broadcast.{listed, wake_entries, wakeup_loop_refines, woken_all}
use user_space_threads.Wait.Answers.{Answers, thread_wait-Answers}
use user_space_threads.Lock.{lock_release, cv_broadcast}
use user_space_threads.Lock.Release.{lock_release-every, cv_broadcast-every}
use user_space_threads.Step.{deliver, run, step}
use user_space_threads.Step.Handler.{HasTimer, timer_after, deliver-HasTimer}
use user_space_threads.Step.Waited.{buried, run-thread_exit-waited}
use user_space_threads.Step.Killed.{killed, run-thread_kill-waited}
use user_space_threads.Thread.Inv.{Inv, switched}
use user_space_threads.Step.Succeeded.{Passes, run-thread_exit-Passes}
use user_space_threads.Step.Stale.{thread_create-full, wakeup-create-kill}
use user_space_threads.Step.Tests.{one_block, yielded, no_entries, world, lock_of}

-- A ring with two entries from slot 0 on.
abbrev pair : Int32 → Int32 → Queue
pair a b = record { current_size = 2; start = 0; end = 2; threads = λ i. if i == 0 then a else b }

-- Threads 6 and 7 sleep, all others run.
abbrev sleepers : Int32 → Thread
sleepers t = if t == 6 then yielded sleep else if t == 7 then yielded sleep else yielded running

abbrev with_sleepers : World (Unit {0})
with_sleepers = record (world 1 no_entries) {
  threads = sleepers;
  wait_queues = λ p. if p == 64 then some (pair 6 7) else none;
  locks = λ p. if p == 32 then some (lock_of 1) else none;
  cvs = λ p. if p == 48 then some (record { queue = 64 }) else none;
}

wakeup_loop_refines_example :
    listed (wakeup_loop 3 1 0 (pair 6 7) with_sleepers)
    ≡ wake_entries 1 (6 ∷ 7 ∷ []) 0 with_sleepers
wakeup_loop_refines_example =
    wakeup_loop_refines 3 1 0 (pair 6 7) with_sleepers (omega arith) (omega arith)

lock_release-every_example :
    (q' : Queue) × (lock_release 32 with_sleepers
      ≡ ok (
          set_wait_queue 64 q'
            (woken_all (6 ∷ 7 ∷ []) (set_lock 32 (lock_of (minus 1)) with_sleepers))))
    × (contents q' ≡ [])
lock_release-every_example =
    lock_release-every 32 (lock_of 1) (pair 6 7) with_sleepers (omega arith) refl refl (omega arith)
      (((λ e. absurd (omega arith)), tt), (tt, tt)) (refl, (refl, tt)) (omega arith) refl

cv_broadcast-every_example :
    (q' : Queue) × (cv_broadcast 48 32 with_sleepers
      ≡ ok (set_wait_queue 64 q' (woken_all (6 ∷ 7 ∷ []) with_sleepers)))
    × (contents q' ≡ [])
cv_broadcast-every_example =
    cv_broadcast-every 32 (lock_of 1) (pair 6 7) with_sleepers (omega arith) refl refl (omega arith)
      (((λ e. absurd (omega arith)), tt), (tt, tt)) (refl, (refl, tt)) 48 (record { queue = 64 })
      (omega arith) refl (omega arith) refl

deliver-HasTimer_example :
    HasTimer
      (timer_after (record { tv_sec = 3; tv_nsec = 5 }) (world 1 (pair 4 5)).timer)
      (deliver 0 (record { tv_sec = 3; tv_nsec = 5 }) (world 1 (pair 4 5)))
deliver-HasTimer_example =
    deliver-HasTimer 0 (record { tv_sec = 3; tv_nsec = 5 }) (world 1 (pair 4 5))

-- Thread 2 sleeps in thread_wait for thread 1, with the address 80 for the status.
abbrev waited : World (Unit {0})
waited = record (world 1 no_entries) {
  threads = λ t.
      if t == 2
      then record (yielded sleep) {
        context = saved false (in_yield false 7 ∷ in_wait 1 80 true ∷ []);
      }
      else if t == 1
      then record (yielded running) { waiter = 2 }
      else yielded running;
}

run-thread_exit-waited_example :
    run 3 (thread_exit 9 [] waited)
    ≡ return 1 [] (record (buried 9 2 [] tt waited) { ints = update (λ p. 0) 80 9 })
run-thread_exit-waited_example =
    run-thread_exit-waited 9 [] waited (omega arith) (omega arith) refl refl refl (omega arith)
      (omega arith) refl refl refl refl (omega arith)

-- Thread 1 exits, for which nobody waits, with the threads 4 and 5 in the ready queue.
leaving-Inv : Inv (world 1 (pair 4 5))
leaving-Inv = record {
  ready = omega arith;
  current = omega arith;
  waiters = λ t. ground arith;
  contexts = λ t ne live. ground arith;
  main_context = λ ne. refl;
}

run-thread_exit-Passes_example :
    (w' : World (Unit {0})) × (run 3 (thread_exit 9 [] (world 1 (pair 4 5)))
      ≡ return 0 (in_yield true 5 ∷ []) w')
    × Passes 9 4 tt (world 1 (pair 4 5)) w'
run-thread_exit-Passes_example =
    run-thread_exit-Passes 9 [] (world 1 (pair 4 5)) leaving-Inv (omega arith) refl refl (inl refl)
      refl refl refl (omega arith) refl refl

run-thread_kill-waited_example :
    run 2 (thread_kill 1 [] (record waited { current_thread = 0 }))
    ≡ return 1 []
        (record (switched false 2
          (in_death false ∷ in_kill 1 true ∷ [])
          (killed 1 2 tt (record waited { current_thread = 0 }))) {
            enabled = true;
            ints = update (λ p. 0) 80 (minus sigkill);
          })
run-thread_kill-waited_example =
    run-thread_kill-waited 1 [] (record waited { current_thread = 0 }) (omega arith) (omega arith)
      (omega arith) (λ e. cc) refl (omega arith) (omega arith) (omega arith) refl refl refl
      (omega arith)

-- Thread 1 sleeps on the queue at 64 in front of thread 2, and thread 0 is current.
abbrev one_sleeper : World (Unit {0})
one_sleeper = record (world 0 no_entries) {
  threads = λ t. if t == 1 then yielded sleep else yielded running;
  wait_queues = λ p. if p == 64 then some (pair 1 2) else none;
}

one_sleeper-IsLowest : IsLowest (set_state 1 destroyed one_sleeper).threads 1
one_sleeper-IsLowest = record {
  from_one = omega arith;
  below_max = omega arith;
  free = refl;
  taken_below = λ t a b. absurd (omega arith);
}

wakeup-create-kill_example :
    ((thread_kill 1 [] one_sleeper >>= step) >>= λ c.
    thread_create 8 9 c.world >>= λ r. thread_wakeup 64 1 r.1)
    ≡ halt assert_failed
wakeup-create-kill_example =
    wakeup-create-kill one_sleeper refl 8 9 64 1 1 (2 ∷ []) (pair 1 2) 4096 (omega arith)
      (omega arith) (omega arith) refl refl refl one_sleeper-IsLowest refl (omega arith) refl
      (omega arith) refl

abbrev full_queue : Queue
full_queue = record { current_size = queue_slots; start = 0; end = 0; threads = λ i. 4 }

abbrev crowded : World (Unit {0})
crowded = record (world 0 full_queue) {
  threads = λ t. if t == 1 then yielded destroyed else yielded running;
}

thread_create-full_example :
    (w' : World (Unit {0})) × (thread_create 8 9 crowded ≡ ok (1, w'))
    × ((w'.threads 1).state ≡ running)
    × (w'.thread_queue ≡ full_queue)
thread_create-full_example =
    thread_create-full crowded refl 8 9 1 4096
      (record {
        from_one = omega arith;
        below_max = omega arith;
        free = refl;
        taken_below = λ t a b. absurd (omega arith);
      })
      refl refl

thread_wait-Answers_example :
    Answers 4 8 [] (world 1 no_entries) (thread_wait 4 8 [] (world 1 no_entries))
thread_wait-Answers_example = thread_wait-Answers 4 8 [] (world 1 no_entries) refl
