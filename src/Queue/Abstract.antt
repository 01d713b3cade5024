-- ===== src/Queue/Abstract.antt =====
-- The abstract type of a queue: `queue_t` up to where the entries lie in the ring, and what the
-- free slots of the array hold.
use user_space_threads.Prelude.{
  ◌+◌, ◌≤◌, ◌≡◌, sym, ap, ◌∙◌, Bool, List, [], ◌∷◌, ◌++◌, Int32, length, arith,
}
use user_space_threads.Queue.{
  Queue, queue_slots, err_empty, queue_push, queue_pop, queue_pop_last, empty_queue,
}
use user_space_threads.Queue.Bounds.{
  IsValid, empty_queue-IsValid, queue_push-IsValid, queue_pop-IsValid, queue_pop_last-IsValid,
}
use user_space_threads.Queue.Refine.{
  contents, length-window, queue_push-append, push_refines, pop_refines, pop_last_refines,
}
use user_space_threads.Queue.Fifo
use mathlib.Core.List.{append_assoc, append-nil}
use mathlib.Core.Bool.{Bool-set}
use mathlib.Core.HLevel.{Σ_prop_path, Σ_set}
use mathlib.Core.Equiv.{IsEquiv, Iso, iso_to_equiv}
use mathlib.Core.Quot
use mathlib.Core.Quot.{Quot, Quot-set}
use native.Mathlib.Bridge.{le_prop}
use native.Mathlib.Nat.{ℕ_set}

abbrev pub ValidQueue : Type 0
ValidQueue = (q : Queue) × IsValid q

-- Two rings that hold the same entries in the same order, wherever they start.
abbrev pub SameEntries : ValidQueue → ValidQueue → Type 0
SameEntries a b = contents a.0 ≡ contents b.0

abbrev pub AbstractQueue : Type 0
AbstractQueue = Quot SameEntries

-- The lists of at most `queue_slots` entries.
abbrev pub BoundedList : Type 0
BoundedList = (xs : List Int32) × (length xs ≤ queue_slots)

BoundedList-set : IsSet BoundedList
BoundedList-set =
    Σ_set (hlevel ℕ_set) (λ xs. hlevel (λ (h g : length xs ≤ queue_slots). le_prop h g))

BoundedList-ext : (a b : BoundedList) → a.0 ≡ b.0 → a ≡ b
BoundedList-ext a b h = Σ_prop_path (λ n. le_prop) h

to_list : ValidQueue → BoundedList
to_list (q, v) =
    (contents q, omega (arith, v.size_in, length-window q.threads q.start q.current_size))

-- The list that an abstract queue is.
pub entries : AbstractQueue → BoundedList
unfolding to_list
entries = Quot.lift BoundedList-set to_list (λ a b h. BoundedList-ext (to_list a) (to_list b) h)

-- `queue_push` of each value in turn.
push_each : ValidQueue → List Int32 → ValidQueue
push_each a [] = a
push_each (q, v) (x ∷ xs) = push_each ((queue_push q x).1, queue_push-IsValid x v) xs

push_each-contents :
    (xs : List Int32) (a : ValidQueue)
    → a.0.current_size + length xs ≤ queue_slots
    → contents (push_each a xs).0 ≡ contents a.0 ++ xs
unfolding push_each
push_each-contents [] a h = sym (append-nil (contents a.0))
push_each-contents (x ∷ xs) (q, v) h =
    let (e, n) = queue_push-append q x v (omega arith) in
    push_each-contents xs ((queue_push q x).1, queue_push-IsValid x v) (omega (arith, n))
    ∙ ap (λ l. l ++ xs) e
    ∙ append_assoc (contents q) (x ∷ []) xs

of_list : BoundedList → ValidQueue
unfolding push_each
of_list (xs, h) = push_each (empty_queue (λ i. 0), empty_queue-IsValid (λ i. 0)) xs

to_list-of_list : (l : BoundedList) → to_list (of_list l) ≡ l
unfolding to_list of_list empty_queue
to_list-of_list (xs, h) =
    BoundedList-ext _ _
      (push_each-contents xs (empty_queue (λ i. 0), empty_queue-IsValid (λ i. 0)) (omega arith))

entries-iso : Iso AbstractQueue BoundedList
unfolding entries
entries-iso = record {
  fun = entries;
  inv = λ l. Quot.mk (of_list l);
  rinv = to_list-of_list;
  linv =
      Quot.ind (λ a. Quot-set _ _) (λ a. Quot.sound (ap (λ l. l.0) (to_list-of_list (to_list a))));
}

-- An operation of the code on a queue, with its answer, carried over to abstract queues.
module _ {A : Type 0} (A-set : IsSet A) (op : Queue → A × Queue)
    (op-IsValid : (q : Queue) → IsValid q → IsValid (op q).1) (fifo : List Int32 → A × List Int32)
    (op_refines : (q : Queue) → IsValid q → ((op q).0, contents (op q).1) ≡ fifo (contents q)) where
  on_ring : ValidQueue → A × AbstractQueue
  on_ring (q, v) = ((op q).0, Quot.mk ((op q).1, op-IsValid q v))

  on_ring-SameEntries : (a b : ValidQueue) → SameEntries a b → on_ring a ≡ on_ring b
  unfolding on_ring
  on_ring-SameEntries (q, v) (q', v') h =
      let e : ((op q).0, contents (op q).1) ≡ ((op q').0, contents (op q').1) =
        op_refines q v ∙ ap fifo h ∙ sym (op_refines q' v') in
      λ i. (
        (e i).0,
        Quot.sound {r = SameEntries} {a = ((op q).1, op-IsValid q v)}
            {b = ((op q').1, op-IsValid q' v')} (ap (λ p. p.1) e) i,
      )

  lifted : AbstractQueue → A × AbstractQueue
  unfolding on_ring
  lifted = Quot.lift (Σ_set A-set (λ x. Quot-set)) on_ring on_ring-SameEntries

  lifted_lem : (a : AbstractQueue) → ((lifted a).0, (entries (lifted a).1).0) ≡ fifo (entries a).0
  unfolding lifted on_ring entries to_list
  lifted_lem = Quot.ind (λ a. Σ_set A-set (λ x. hlevel ℕ_set) _ _) (λ a. op_refines a.0 a.1)

pub push : Int32 → AbstractQueue → Bool × AbstractQueue
unfolding lifted
push x =
    lifted Bool-set (λ q. queue_push q x) (λ q v. queue_push-IsValid x v)
      (λ xs. Fifo.push queue_slots xs x) (λ q v. push_refines x v)

pub pop : AbstractQueue → Int32 × AbstractQueue
unfolding lifted
pop =
    lifted (hlevel ℕ_set) queue_pop (λ q v. queue_pop-IsValid v) (Fifo.pop err_empty)
      (λ q v. pop_refines v)

pub pop_last : AbstractQueue → Int32 × AbstractQueue
unfolding lifted
pop_last =
    lifted (hlevel ℕ_set) queue_pop_last (λ q v. queue_pop_last-IsValid v) (Fifo.pop_last err_empty)
      (λ q v. pop_last_refines v)

-- Valid queues up to their entries are a type, on which `queue_push`, `queue_pop` and
-- `queue_pop_last` are well defined. It is equivalent to the lists of at most `queue_slots`
-- entries, and across the equivalence the three operations are those of the list.
pub entries-IsEquiv :
    IsEquiv entries
    × ((x : Int32) (a : AbstractQueue)
        → ((push x a).0, (entries (push x a).1).0) ≡ Fifo.push queue_slots (entries a).0 x)
    × ((a : AbstractQueue) → ((pop a).0, (entries (pop a).1).0) ≡ Fifo.pop err_empty (entries a).0)
    × ((a : AbstractQueue)
        → ((pop_last a).0, (entries (pop_last a).1).0) ≡ Fifo.pop_last err_empty (entries a).0)
unfolding push pop pop_last entries-iso
entries-IsEquiv = (
  (iso_to_equiv entries-iso).1,
  λ x. lifted_lem Bool-set _ _ _ (λ q v. push_refines x v),
  lifted_lem (hlevel ℕ_set) _ _ _ (λ q v. pop_refines v),
  lifted_lem (hlevel ℕ_set) _ _ _ (λ q v. pop_last_refines v),
)
