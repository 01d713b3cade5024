-- ===== src/Calls/Create.antt =====
-- Making a thread keeps the invariant and the discipline of the mask.
use user_space_threads.Prelude.{
  ℕ, ◌-◌, ◌≤◌, Bool, false, inl, inr, [], ◌∷◌, Option, some, Int32, minus, arith, Option-cases,
  subst,
}
use user_space_threads.Queue.{thread_max_threads, queue_push}
use user_space_threads.Machine.{
  Timer, Thread, running, saved, in_stub, World, Lock, thread_min_stack, sigkill,
}
use user_space_threads.Machine.Objects.{Allocator, set_thread}
use user_space_threads.Thread.{thread_create, create_at, first_destroyed}
use user_space_threads.Thread.Ready.{IsTid}
use user_space_threads.Thread.Inv.{push-IsReady}
use user_space_threads.Thread.Create.{IsFirst, first_destroyed-IsFirst}
use user_space_threads.Thread.Death.{IsMallocSafe}
use user_space_threads.Wait.Leaves.{Whole, Leaves, any-Leaves, assert-Leaves, interrupts_set-Whole}

-- The thread that thread_create makes.
abbrev pub new_thread : ℕ → ℕ → ℕ → Thread
new_thread fn parg stack_pointer = record {
  context = saved false (in_stub fn parg ∷ []);
  stack_start = stack_pointer;
  is_main = false;
  state = running;
  waiter = minus 1;
  exit_code = minus sigkill;
}

module _ {H : Type 0} ⦃al : Allocator H⦄ (L : (ℕ → Option Lock) → Timer → Type 0) (current : Int32)
    (malloc_safe : IsMallocSafe al) where
  -- The world with it.
  abbrev with_new : Int32 → ℕ → ℕ → ℕ → H → World H → World H
  with_new tid fn parg stack_pointer heap w =
      record (set_thread tid (new_thread fn parg stack_pointer) w) {
        thread_queue = (queue_push w.thread_queue tid).1;
        heap = heap;
      }

  with_new-Whole :
      (tid : Int32) (fn parg stack_pointer : ℕ) (heap : H) (w : World H)
      → 1 ≤ tid
      → IsTid tid
      → Whole L [] current w
      → Whole L [] current (with_new tid fn parg stack_pointer heap w)
  with_new-Whole tid fn parg stack_pointer heap w ge lt k = record {
    inv = record {
      ready = push-IsReady tid k.inv.ready lt;
      current = k.inv.current;
      waiters = λ t. ground (arith, k.inv.waiters t);
      contexts = λ t ne live. ground (arith, k.inv.contexts t);
      main_context = λ ne. ground (arith, k.inv.main_context);
    };
    calm = record {
      queues = k.calm.queues;
      of_locks = k.calm.of_locks;
      contexts = λ t. ground (arith, k.calm.contexts t);
      fits = tt;
      masked = tt;
    };
    same = k.same;
  }

  create_at-Leaves :
      (s : Bool) (tid : Int32) (fn parg : ℕ) (w : World H)
      → 1 ≤ tid
      → IsTid tid
      → Whole L [] current w
      → Leaves L [] current (λ a. a.1) (create_at s tid fn parg (record w { enabled = false }))
  unfolding create_at
  create_at-Leaves s tid fn parg w ge lt k =
      let off : World H = record w { enabled = false } in
      any-Leaves L [] current _ (al.malloc369 thread_min_stack w.heap) _
        (malloc_safe thread_min_stack w.heap)
        (λ a e. interrupts_set-Whole L [] current s _ tt (
          with_new-Whole tid fn parg a.0 a.1 off ge lt
            (interrupts_set-Whole L [] current false w tt k)))

  pub thread_create-Leaves :
      (fn parg : ℕ) (w : World H)
      → Whole L [] current w
      → Leaves L [] current (λ a. a.1) (thread_create fn parg w)
  unfolding thread_create
  thread_create-Leaves fn parg w k =
      let off : World H = record w { enabled = false } in
      let k_off = interrupts_set-Whole L [] current false w tt k in
      assert-Leaves L [] current _ w.enabled _ (λ on.
        elim (Option-cases (first_destroyed (thread_max_threads - 1) 1 w.threads)) [
          | inl e ↦ rw e (interrupts_set-Whole L [] current w.enabled off tt k_off)
          | inr (tid, e) ↦
              let first : IsFirst (thread_max_threads - 1) 1 w.threads (some tid) =
                subst (IsFirst (thread_max_threads - 1) 1 w.threads) e
                  (first_destroyed-IsFirst (thread_max_threads - 1) 1 w.threads) in
              rw e (create_at-Leaves w.enabled tid fn parg w first.0 (omega (arith, first.1)) k)
        ])
