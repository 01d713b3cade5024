-- ===== src/Calls/Open/Create.antt =====
-- The predicates of Thread/Open for thread_create.
use user_space_threads.Thread.Create.{IsFirst, first_destroyed-IsFirst}
use user_space_threads.Prelude.{
  some, ◌≤◌, arith, ℕ, ◌-◌, subst, Bool, false, inl, inr, Option-cases, Int32, Ensures, any-Ensures,
  assert-Ensures, refl,
}
use user_space_threads.Queue.{thread_max_threads}
use user_space_threads.Machine.{World, thread_min_stack}
use user_space_threads.Machine.Objects.{Allocator}
use user_space_threads.Thread.{thread_create, create_at, first_destroyed}
use user_space_threads.Calls.Create.{new_thread}
use user_space_threads.Thread.Open.{Regular, set_thread-OpenContexts}
use user_space_threads.Wait.Open.{IsOpen, interrupts_set-IsOpen}

module _ {H : Type 0} ⦃al : Allocator H⦄ where
  create_at-IsOpen :
      (b : Bool) (tid : Int32) (fn parg : ℕ) (w : World H)
      → 1 ≤ tid
      → Regular w
      → Ensures (λ a. IsOpen b a.1) (create_at b tid fn parg (record w { enabled = false }))
  unfolding create_at
  create_at-IsOpen b tid fn parg w ge o =
      any-Ensures _ (al.malloc369 thread_min_stack w.heap) _ (λ a e. interrupts_set-IsOpen b _ (
        set_thread-OpenContexts tid (new_thread fn parg a.0) w.threads
            (refl, λ z. absurd (omega (arith, ge, z))) o.0,
        o.1,
      ))

  pub thread_create-IsOpen :
      (fn parg : ℕ) (w : World H)
      → Regular w
      → Ensures (λ a. IsOpen w.enabled a.1) (thread_create fn parg w)
  unfolding thread_create
  thread_create-IsOpen fn parg w o =
      let off : World H = record w { enabled = false } in
      assert-Ensures _ w.enabled _ (λ on.
        elim (Option-cases (first_destroyed (thread_max_threads - 1) 1 w.threads)) [
          | inl e ↦ rw e (interrupts_set-IsOpen w.enabled off o)
          | inr (tid, e) ↦
              let first : IsFirst (thread_max_threads - 1) 1 w.threads (some tid) =
                subst (IsFirst (thread_max_threads - 1) 1 w.threads) e
                  (first_destroyed-IsFirst (thread_max_threads - 1) 1 w.threads) in
              rw e (create_at-IsOpen w.enabled tid fn parg w first.0 o)
        ])
