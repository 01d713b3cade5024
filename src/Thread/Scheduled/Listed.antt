-- ===== src/Thread/Scheduled/Listed.antt =====
-- The threads that have an entry in a list of identifiers, and what the search for a thread that
-- can run does to them.
use user_space_threads.Prelude.{
  ◌<◌, ◌≡◌, ◌≢◌, refl, inl, inr, ◌⊎◌, Bool-cases, List, [], ◌∷◌, length, Int32, All, arith,
}
use mathlib.Core.List.{
  Mem, Mem-prop, mem-cons_self, mem-append_left, mem-append_right, eq-or-mem_of_mem-cons,
}
use mathlib.Core.Logic.Or
use user_space_threads.Queue.{Queue, queue_slots, queue_push}
use user_space_threads.Queue.Bounds.{IsValid}
use user_space_threads.Queue.Refine.{contents, push_contents, queue_push-append}
use user_space_threads.Machine.{Thread, running, thread_none}
use user_space_threads.Thread.Ready.{IsTid, can_run, first_ready}

-- Every thread in state Running, but for the current one and `but`, is in the list.
abbrev pub AllListed : (Int32 → Thread) → Int32 → Int32 → List Int32 → Type 0
AllListed threads current but xs =
    (t : Int32) → (threads t).state ≡ running → t ≢ current → t ≢ but → Mem t xs

pub push-Mem :
    (t x : Int32) {q : Queue} → IsValid q → Mem t (contents q) → Mem t (contents (queue_push q x).1)
push-Mem t x {q} v m = elim (push_contents q x v) [
  | inl e ↦ rw e m
  | inr e ↦ rw e (mem-append_left (x ∷ []) m)
]

pub push-Mem_self :
    (x : Int32) {q : Queue}
    → IsValid q
    → q.current_size < queue_slots
    → Mem x (contents (queue_push q x).1)
push-Mem_self x {q} v h =
    rw ((queue_push-append q x v h).0) (mem-append_right (contents q) mem-cons_self)

-- What the search for a thread that can run finds and leaves.
abbrev pub First : (Int32 → Thread) → Int32 → List Int32 → Int32 × List Int32 → Type 0
First threads current xs (x, rest) =
    ((x ≡ thread_none) × AllListed threads current current rest)
    ⊎ (IsTid x
        × ((threads x).state ≡ running)
        × (length rest < length xs)
        × AllListed threads current x rest)

pub first_ready-First :
    (threads : Int32 → Thread) (current : Int32) (xs : List Int32)
    → All IsTid xs
    → AllListed threads current current xs
    → First threads current xs (first_ready threads current xs)
unfolding first_ready
first_ready-First threads current [] tids h = inl (refl, h)
first_ready-First threads current (x ∷ xs) tids h = elim (Bool-cases (can_run threads current x)) [
  | inl e ↦ rw e (
      inr (
        tids.0,
        ground arith,
        omega arith,
        λ t live ne other.
            Or.elim Mem-prop (eq-or-mem_of_mem-cons (h t live ne ne)) (λ g. absurd (other g))
              (λ m. m),
      ))
  | inr e ↦
      let later = first_ready-First threads current xs tids.1 (λ t live ne other.
        Or.elim Mem-prop (eq-or-mem_of_mem-cons (h t live ne ne)) (λ g. ground (arith, live, ne))
          (λ m. m)) in
      rw e (longer (first_ready threads current xs) later)
]
  where
    longer :
        (p : Int32 × List Int32) → First threads current xs p → First threads current (x ∷ xs) p
    longer p (inl h) = inl h
    longer p (inr (a, b, c, d)) = inr (a, b, omega (arith, c), d)
