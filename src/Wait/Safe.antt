-- ===== src/Wait/Safe.antt =====
-- Sleeping, waking and waiting keep the invariant of the thread library.
use user_space_threads.Prelude.{
  ℕ, refl, Bool, false, inl, inr, List, ◌∷◌, Int32, arith, Option-cases,
}
use user_space_threads.Queue.{Queue, queue_push}
use user_space_threads.Machine
use user_space_threads.Machine.{
  State, destroyed, running, sleep, Frame, World, Outcome, Control, thread_any, thread_none,
}
use user_space_threads.Machine.Objects.{set_state, set_waiter, set_wait_queue}
use user_space_threads.Thread.Inv.{Inv, IsSafe}
use user_space_threads.Thread.Safe.{thread_yield-IsSafe, set_state-Inv, set_waiter-Inv}
use user_space_threads.Wait.{
  thread_sleep, thread_sleep_after_yield, thread_wait, thread_wait_end, thread_wait_after_yield,
}

module _ {H : Type 0} where
  pub thread_sleep-IsSafe :
      (queue : ℕ) (stack : List Frame) (w : World H) → Inv w → IsSafe (thread_sleep queue stack w)
  unfolding thread_sleep
  thread_sleep-IsSafe queue stack w v =
      let asleep : World H = set_state w.current_thread sleep (record w { enabled = false }) in
      let slept = λ (q : Queue).
        thread_yield-IsSafe thread_any (Machine.in_sleep queue w.enabled ∷ stack)
          (set_wait_queue queue (queue_push q w.current_thread).1 asleep)
          (set_state-Inv w.current_thread sleep w v (inr (inr refl))) in
      elim (Option-cases (w.wait_queues queue)) [
        | inl e ↦ ground arith
        | inr (q, e) ↦ ground (arith, slept q)
      ]

  pub thread_sleep_after_yield-IsSafe :
      (queue : ℕ) (s : Bool) (num : Int32) (stack : List Frame) (w : World H)
      → Inv w
      → IsSafe (thread_sleep_after_yield queue s num stack w)
  unfolding thread_sleep_after_yield
  thread_sleep_after_yield-IsSafe queue s num stack w v =
      ground (arith, set_state-Inv w.current_thread running w v (inr (inr refl)))

  pub thread_wait_end-IsSafe :
      (tid : Int32) (p : ℕ) (s : Bool) (stack : List Frame) (w : World H)
      → Inv w
      → IsSafe (thread_wait_end tid p s stack w)
  unfolding thread_wait_end
  thread_wait_end-IsSafe tid p s stack w v = ground arith

  pub thread_wait-IsSafe :
      (tid : Int32) (p : ℕ) (stack : List Frame) (w : World H)
      → Inv w
      → IsSafe (thread_wait tid p stack w)
  unfolding thread_wait
  thread_wait-IsSafe tid p stack w v =
      let off : World H = record w { enabled = false } in
      let noted : World H = set_waiter tid w.current_thread off in
      let noted_inv : Inv noted = set_waiter-Inv tid w.current_thread off v v.current in
      ground (
        arith,
        thread_wait_end-IsSafe tid p w.enabled stack off v,
        thread_yield-IsSafe thread_any (Machine.in_wait tid p w.enabled ∷ stack)
            (set_state w.current_thread sleep noted)
            (set_state-Inv w.current_thread sleep noted noted_inv (inr (inr refl))),
      )

  pub thread_wait_after_yield-IsSafe :
      (tid : Int32) (p : ℕ) (s : Bool) (stack : List Frame) (w : World H)
      → Inv w
      → IsSafe (thread_wait_after_yield tid p s stack w)
  unfolding thread_wait_after_yield
  thread_wait_after_yield-IsSafe tid p s stack w v =
      ground (arith, thread_wait_end-IsSafe tid p s stack w v)
