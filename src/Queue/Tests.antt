-- ===== src/Queue/Tests.antt =====
-- Runs of the queue, and the theorems on it at concrete queues.
use user_space_threads.Prelude.{◌≡◌, ◌≢◌, refl, List, [], ◌∷◌, true, arith}
use user_space_threads.Queue.{
  Queue, queue_index, next, prev, queue_push, queue_pop, queue_pop_last, err_empty,
}
use user_space_threads.Queue.Bounds.{IsValid, queue_index-ne_slot}
use user_space_threads.Queue.Run.{Op, push, pop, pop_last, flag, entry, run, run_list, run_refines}

-- One entry, 7, in the last slot: the next push goes to slot 0.
abbrev wrapped : Queue
wrapped = record { current_size = 1; start = 30719; end = 0; threads = λ i. 7 }

abbrev script : List Op
script = push 4 ∷ pop ∷ push 5 ∷ pop_last ∷ pop ∷ pop ∷ []

-- Two entries from slot 2000 on.
abbrev far : Queue
far = record { current_size = 2; start = 2000; end = 2002; threads = λ i. 7 }

wrapped-IsValid : IsValid wrapped
wrapped-IsValid = omega arith

run-wrapped :
    run wrapped script ≡ flag true ∷ entry 7 ∷ flag true ∷ entry 5 ∷ entry 4 ∷ entry err_empty ∷ []
unfolding run queue_push queue_pop queue_pop_last next prev
run-wrapped = refl

run_refines_example : run wrapped script ≡ run_list (7 ∷ []) script
run_refines_example = run_refines script wrapped-IsValid

queue_index-ne_slot_example : queue_index far 1 ≢ 2001
queue_index-ne_slot_example =
    queue_index-ne_slot {q = far} 1 (omega arith) (omega arith) (omega arith)
