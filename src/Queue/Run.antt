-- ===== src/Queue/Run.antt =====
-- A client's calls on one queue, in order, against the same calls on the list of entries.
use user_space_threads.Prelude.{◌≡◌, refl, List, [], ◌∷◌, Bool, Int32}
use user_space_threads.Queue.{Queue, queue_slots, err_empty, queue_push, queue_pop, queue_pop_last}
use user_space_threads.Queue.Bounds.{
  IsValid, queue_push-IsValid, queue_pop-IsValid, queue_pop_last-IsValid,
}
use user_space_threads.Queue.Refine.{contents, push_refines, pop_refines, pop_last_refines}
use user_space_threads.Queue.Fifo

pub data Op : Type 0 where
  push : Int32 → Op
  pop : Op
  pop_last : Op

-- What a call answers: the flag of a push, the entry of a pop.
pub data Reply : Type 0 where
  flag : Bool → Reply
  entry : Int32 → Reply

unfoldable pub run : Queue → List Op → List Reply
run q [] = []
run q (push x ∷ ops) = let (b, q') = queue_push q x in flag b ∷ run q' ops
run q (pop ∷ ops) = let (x, q') = queue_pop q in entry x ∷ run q' ops
run q (pop_last ∷ ops) = let (x, q') = queue_pop_last q in entry x ∷ run q' ops

pub run_list : List Int32 → List Op → List Reply
run_list l [] = []
run_list l (push x ∷ ops) = let (b, l') = Fifo.push queue_slots l x in flag b ∷ run_list l' ops
run_list l (pop ∷ ops) = let (x, l') = Fifo.pop err_empty l in entry x ∷ run_list l' ops
run_list l (pop_last ∷ ops) = let (x, l') = Fifo.pop_last err_empty l in entry x ∷ run_list l' ops

-- No sequence of calls tells a valid queue from the bounded list of its entries.
pub run_refines : (ops : List Op) {q : Queue} → IsValid q → run q ops ≡ run_list (contents q) ops
unfolding run run_list
run_refines [] v = refl
run_refines (push x ∷ ops) v = rw (run_refines ops (queue_push-IsValid x v), ← push_refines x v)
run_refines (pop ∷ ops) v = rw (run_refines ops (queue_pop-IsValid v), ← pop_refines v)
run_refines (pop_last ∷ ops) v =
    rw (run_refines ops (queue_pop_last-IsValid v), ← pop_last_refines v)
