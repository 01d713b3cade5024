-- ===== src/Machine/Objects.antt =====
-- Reading and writing the fields of the objects in a world, and what the allocator offers.
use user_space_threads.Prelude.{
  ℕ, Bool, true, false, Option, none, some, Int32, Result, ok, halt, bad_pointer, update, ◌≡◌, refl,
  Ensures, ◌>>=◌,
}
use user_space_threads.Queue.{Queue}
use user_space_threads.Machine.{Thread, Context, State, destroyed, running, sleep, World, Lock}

abbrev pub state_eq : State → State → Bool
state_eq destroyed destroyed = true
state_eq running running = true
state_eq sleep sleep = true
state_eq _ _ = false

-- malloc369 and free369. `block` is what the array in a fresh block holds.
pub record Allocator (H : Type 0) : Type 0 where
  pub malloc369 : ℕ → H → Result (ℕ × H)
  pub free369 : ℕ → H → Result H
  pub block : ℕ → H → ℕ → Int32

module _ {H : Type 0} where
  -- threads[t] = x
  abbrev pub set_thread : Int32 → Thread → World H → World H
  set_thread t x w = record w { threads = update w.threads t x }

  abbrev pub set_state : Int32 → State → World H → World H
  set_state t s w = set_thread t (record (w.threads t) { state = s }) w

  abbrev pub set_waiter : Int32 → Int32 → World H → World H
  set_waiter t v w = set_thread t (record (w.threads t) { waiter = v }) w

  abbrev pub set_exit_code : Int32 → Int32 → World H → World H
  set_exit_code t v w = set_thread t (record (w.threads t) { exit_code = v }) w

  abbrev pub set_context : Int32 → Context → World H → World H
  set_context t c w = set_thread t (record (w.threads t) { context = c }) w

  abbrev pub set_wait_queue : ℕ → Queue → World H → World H
  set_wait_queue p q w = record w { wait_queues = update w.wait_queues p (some q) }

  abbrev pub set_lock : ℕ → Lock → World H → World H
  set_lock p l w = record w { locks = update w.locks p (some l) }

-- An access through a pointer to no live object is undefined.
abbrev pub deref {ℓ} : {A : Type ℓ} → Option A → Result A
deref none = halt bad_pointer
deref (some a) = ok a

pub deref-Ensures {ℓ κ ν} :
    {A : Type ℓ} {B : Type κ} (P : B → Type ν) (o : Option A) (f : A → Result B)
    → ((a : A) → o ≡ some a → Ensures P (f a))
    → Ensures P (deref o >>= f)
deref-Ensures P none f k = tt
deref-Ensures P (some a) f k = k a refl
