-- ===== src/Step/Preempt/Tests.antt =====
-- Bounded waiting under preemption at a concrete world.
use user_space_threads.Prelude.{refl, [], ◌∷◌, inl, ◌==◌, if◌then◌else◌, arith}
use user_space_threads.Queue.{Queue}
use user_space_threads.Machine.{running, World}
use user_space_threads.Step.Tests.{one_block, yielded, world}
use user_space_threads.Step.Preempt.{Preemptible, yields, fires, GetsTurn, turns-GetsTurn}

-- The entries 4 and 5 from slot 0 on.
abbrev four_five : Queue
four_five = record { current_size = 2; start = 0; end = 2; threads = λ i. if i == 0 then 4 else 5 }

-- All threads run and have yielded.
abbrev busy : World (Unit {0})
busy = record (world 1 four_five) { threads = λ t. yielded running }

busy-Preemptible : Preemptible busy
busy-Preemptible = record {
  inv = record {
    ready = omega arith;
    current = omega arith;
    waiters = λ t. inl refl;
    contexts = λ t ne live. refl;
    main_context = λ ne. refl;
  };
  mode = refl;
  on = refl;
  ticking = omega arith;
  paused = λ t live ne. inl (5, refl);
}

turns-GetsTurn_example : GetsTurn (yields ∷ fires (record { tv_sec = 3; tv_nsec = 5 }) ∷ []) 5 busy
turns-GetsTurn_example =
    turns-GetsTurn (yields ∷ fires (record { tv_sec = 3; tv_nsec = 5 }) ∷ []) 5 (4 ∷ []) [] busy
      busy-Preemptible refl refl (omega arith) (omega arith)
