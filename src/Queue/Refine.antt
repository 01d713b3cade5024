-- ===== src/Queue/Refine.antt =====
-- The entries of a valid queue, and that the operations are those of the list of entries.
use user_space_threads.Prelude.{
  ℕ, zero, suc, ◌+◌, ◌-◌, ◌%◌, ◌<◌, ◌≡◌, ◌≢◌, refl, ap, ◌∙◌, arith, List, [], ◌∷◌, ◌++◌, Int32,
  length, update, ==_of_ne, ◌⊎◌, inl, inr, Bool-cases, ◌==◌,
}
use user_space_threads.Queue.{
  Queue, queue_slots, err_empty, queue_push, queue_pop, queue_pop_last, prev,
}
use user_space_threads.Queue.Bounds.{
  IsValid, next_lem, prev_lem, queue_pop-IsValid, queue_push-IsValid,
}
use user_space_threads.Queue.Fifo

-- the slot `k` places after `i`
abbrev pub slot : ℕ → ℕ → ℕ
slot i k = (i + k) % queue_slots

-- The `n` entries from slot `i` on.
abbrev pub window : (ℕ → Int32) → ℕ → ℕ → List Int32
window slots i zero = []
window slots i (suc n) = slots i ∷ window slots (slot i 1) n

abbrev pub contents : Queue → List Int32
contents q = window q.threads q.start q.current_size

pub length-window : (slots : ℕ → Int32) (i n : ℕ) → length (window slots i n) ≡ n
length-window slots i zero = refl
length-window slots i (suc n) = ap suc (length-window slots (slot i 1) n)

slot-slot : (i n : ℕ) → slot (slot i 1) n ≡ slot i (suc n)
slot-slot i n = omega arith

slot-ne : (i k : ℕ) → i < queue_slots → suc k < queue_slots → slot i (suc k) ≢ i
slot-ne i k h g = omega arith

-- Taking one more entry at the far end.
window-suc :
    (slots : ℕ → Int32) (i n : ℕ)
    → i < queue_slots
    → window slots i (suc n) ≡ window slots i n ++ slots (slot i n) ∷ []
window-suc slots i zero h = let e : slot i 0 ≡ i = omega arith in rw e
window-suc slots i (suc n) h =
    ap (λ l. slots i ∷ l) (window-suc slots (slot i 1) n (omega arith) ∙ rw (slot-slot i n))

-- A write just past a window does not reach it.
window-update :
    (slots : ℕ → Int32) (x i n j : ℕ)
    → i < queue_slots
    → n < queue_slots
    → j ≡ slot i n
    → window (update slots j x) i n ≡ window slots i n
window-update slots x i zero j h g e = refl
window-update slots x i (suc n) j h g e = rw (
  window-update slots x (slot i 1) n j (omega arith) (omega arith) (e ∙ sym' n),
  ==_of_ne {a = j} {b = i} (omega (arith, slot-ne i n h g)),
)
  where
    sym' : (n : ℕ) → slot i (suc n) ≡ slot (slot i 1) n
    sym' n = omega arith

window-pos :
    (slots : ℕ → Int32) (i n : ℕ)
    → n ≢ 0
    → window slots i n ≡ slots i ∷ window slots (slot i 1) (n - 1)
window-pos slots i zero h = absurd (h refl)
window-pos slots i (suc n) h = ap (λ k. slots i ∷ window slots (slot i 1) k) (omega arith)

-- `queue_push` on a valid queue answers as the list does and leaves the list's entries.
pub push_refines :
    {q : Queue} (x : Int32)
    → IsValid q
    → let (b, q') = queue_push q x in (b, contents q') ≡ Fifo.push queue_slots (contents q) x
unfolding queue_push Fifo.push
push_refines {q} x v = ground (
  arith,
  length-window q.threads q.start q.current_size,
  window-update q.threads x q.start q.current_size q.end,
  window-suc (update q.threads q.end x) q.start q.current_size,
)

-- `queue_pop` takes the oldest entry, or answers ERR_EMPTY and changes nothing.
pub pop_refines :
    {q : Queue}
    → IsValid q
    → let (x, q') = queue_pop q in (x, contents q') ≡ Fifo.pop err_empty (contents q)
unfolding queue_pop Fifo.pop
pop_refines {q} v = ground (arith, window-pos q.threads q.start q.current_size, next_lem q.start)

last_or-append : (d x : Int32) (xs : List Int32) → Fifo.last_or d (xs ++ x ∷ []) ≡ x
unfolding Fifo.last_or
last_or-append d x [] = refl
last_or-append d x (y ∷ xs) = last_or-append y x xs

front-append : (x : Int32) (xs : List Int32) → Fifo.front (xs ++ x ∷ []) ≡ xs
unfolding Fifo.front
front-append x [] = refl
front-append x (y ∷ []) = refl
front-append x (y ∷ z ∷ xs) = ap (λ l. y ∷ l) (front-append x (z ∷ xs))

window-last :
    (slots : ℕ → Int32) (i n : ℕ)
    → i < queue_slots
    → n ≢ 0
    → window slots i n ≡ window slots i (n - 1) ++ slots (slot i (n - 1)) ∷ []
window-last slots i zero h g = absurd (g refl)
window-last slots i (suc n) h g =
    let e : suc n - 1 ≡ n = omega arith in rw e (window-suc slots i n h)

-- `queue_pop_last` takes the newest entry, or answers ERR_EMPTY and changes nothing.
pub pop_last_refines :
    {q : Queue}
    → IsValid q
    → let (x, q') = queue_pop_last q in (x, contents q') ≡ Fifo.pop_last err_empty (contents q)
unfolding queue_pop_last Fifo.pop_last
pop_last_refines {q} v = ground (
  arith,
  prev_lem q.end,
  window-last q.threads q.start q.current_size,
  last_or-append err_empty (q.threads (prev q.end)) (window q.threads q.start (q.current_size - 1)),
  front-append (q.threads (prev q.end)) (window q.threads q.start (q.current_size - 1)),
)

-- The two outcomes of `queue_pop` on a valid queue, with what each leaves.
abbrev pub Popped : Queue → Type 0
Popped q =
    ((queue_pop q ≡ (err_empty, q)) × (contents q ≡ []))
    ⊎ ((x : Int32) × (q' : Queue) × (queue_pop q ≡ (x, q'))
        × (contents q ≡ x ∷ contents q')
        × IsValid q'
        × (suc q'.current_size ≡ q.current_size))

pub queue_pop-Popped : {q : Queue} → IsValid q → Popped q
queue_pop-Popped {q} v = elim (Bool-cases (q.current_size == 0)) [
  | inl e ↦ inl (unfold queue_pop in ground arith, ground arith)
  | inr e ↦ inr (
    q.threads q.start,
    (queue_pop q).1,
    unfold queue_pop in ground arith,
    unfold queue_pop in
        ground (arith, window-pos q.threads q.start q.current_size, next_lem q.start),
    queue_pop-IsValid v,
    unfold queue_pop in ground arith,
  )
]

-- A push on a queue that is not full appends.
pub queue_push-append :
    (q : Queue) (x : Int32)
    → IsValid q
    → q.current_size < queue_slots
    → (contents (queue_push q x).1 ≡ contents q ++ x ∷ [])
      × ((queue_push q x).1.current_size ≡ suc q.current_size)
unfolding queue_push Fifo.push
queue_push-append q x v h =
    ground (arith, push_refines x v, length-window q.threads q.start q.current_size)

-- A push appends its value, or the queue is full and keeps its entries.
pub push_contents :
    (q : Queue) (x : Int32)
    → IsValid q
    → (contents (queue_push q x).1 ≡ contents q)
      ⊎ (contents (queue_push q x).1 ≡ contents q ++ x ∷ [])
unfolding queue_push Fifo.push
push_contents q x v = ground (arith, push_refines x v)

-- What was pushed last is popped last, and the entries are those from before.
pub queue_pop_last-push :
    (q : Queue) (x : Int32)
    → IsValid q
    → q.current_size ≢ queue_slots
    → let q' = (queue_push q x).1 in
      ((queue_pop_last q').0 ≡ x) × (contents (queue_pop_last q').1 ≡ contents q)
unfolding Fifo.push Fifo.pop_last
queue_pop_last-push q x v h =
    let pushed = push_refines x v in
    let popped = pop_last_refines (queue_push-IsValid x v) in
    ground (
      arith,
      pushed,
      popped,
      length-window q.threads q.start q.current_size,
      last_or-append err_empty x (contents q),
      front-append x (contents q),
    )
