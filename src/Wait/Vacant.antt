-- ===== src/Wait/Vacant.antt =====
-- The wait queue of a free lock is empty: this is kept by sleeping, waking and waiting.
pub mod Waking
use user_space_threads.Prelude.{
  ℕ, ◌≡◌, ◌≢◌, Bool, false, not, ◌&&◌, inl, inr, Bool-cases, List, ◌∷◌, Option, some, Int32, ok,
  halt, minus, ◌==◌, ◌>>=◌, arith, Ensures, if-Ensures, assert-Ensures, if◌then◌else◌,
}
use user_space_threads.Queue.{Queue, queue_push, queue_pop_last}
use user_space_threads.Machine
use user_space_threads.Machine.{
  World, Outcome, Frame, Lock, destroyed, running, sleep, in_sleep, in_wait, thread_any,
}
use user_space_threads.Machine.Objects.{
  state_eq, set_state, set_waiter, set_wait_queue, deref-Ensures,
}
use user_space_threads.Thread.{is_valid_thread}
use user_space_threads.Thread.Objects.{
  KeepsObjects, restore-KeepsObjects, thread_yield-KeepsObjects,
}
use user_space_threads.Thread.Yield.{restore, thread_yield}
use user_space_threads.Wait.{
  thread_sleep, thread_sleep_after_yield, thread_wait, thread_wait_end, thread_wait_after_yield,
}

-- If the lock at `p` is free, there is no entry in its wait queue.
abbrev pub IsVacant : ℕ → (ℕ → Option Lock) → (ℕ → Option Queue) → Type 0
IsVacant p locks wait_queues =
    (l : Lock) (q : Queue)
    → locks p ≡ some l
    → l.current ≡ minus 1
    → wait_queues l.queue ≡ some q
    → q.current_size ≡ 0

abbrev pub Vacant : {H : Type 0} → ℕ → World H → Type 0
Vacant p w = IsVacant p w.locks w.wait_queues

abbrev pub LeavesVacant : {H : Type 0} → ℕ → Outcome H → Type 0
LeavesVacant p = Ensures (λ c. Vacant p c.world)

-- The lock at `p`, if its wait queue is `queue`, is held.
abbrev pub IsHeldAt : {H : Type 0} → ℕ → ℕ → World H → Type 0
IsHeldAt p queue w = (l : Lock) → w.locks p ≡ some l → l.queue ≡ queue → l.current ≢ minus 1

pop_last-empty : (q : Queue) → q.current_size ≡ 0 → (queue_pop_last q).1.current_size ≡ 0
unfolding queue_pop_last
pop_last-empty q e = ground arith

module _ {H : Type 0} (p : ℕ) where
  pub unchanged : (w : World H) (o : Outcome H) → KeepsObjects w o → Vacant p w → LeavesVacant p o
  unchanged w (ok c) e v = λ l q live free there. v l q (cc (e, live)) free (cc (e, there))
  unchanged w (halt x) e v = tt

  pub restore-LeavesVacant :
      (s : Bool) (v : Int32) (stack : List Frame) (w : World H)
      → Vacant p w
      → LeavesVacant p (restore s v stack w)
  restore-LeavesVacant s v stack w =
      unchanged w (restore s v stack w) (restore-KeepsObjects s v stack w)

  pub thread_yield-LeavesVacant :
      (want : Int32) (stack : List Frame) (w : World H)
      → Vacant p w
      → LeavesVacant p (thread_yield want stack w)
  thread_yield-LeavesVacant want stack w =
      unchanged w (thread_yield want stack w) (thread_yield-KeepsObjects want stack w)

  -- The queue of one lock may change as long as it stays empty where the lock is free.
  pub set_wait_queue-Vacant :
      (queue : ℕ) (q : Queue) (w : World H)
      → Vacant p w
      → ((l : Lock)
          → w.locks p ≡ some l
          → l.current ≡ minus 1
          → l.queue ≡ queue
          → q.current_size ≡ 0)
      → Vacant p (set_wait_queue queue q w)
  set_wait_queue-Vacant queue q w v h l q' live free there = elim (Bool-cases (queue == l.queue)) [
    | inl e ↦ ground (arith, there, h l live free, e)
    | inr e ↦ v l q' live free (ground (arith, there, e))
  ]

  pub thread_sleep-LeavesVacant :
      (queue : ℕ) (stack : List Frame) (w : World H)
      → Vacant p w
      → IsHeldAt p queue w
      → LeavesVacant p (thread_sleep queue stack w)
  unfolding thread_sleep
  thread_sleep-LeavesVacant queue stack w v held =
      let off : World H = record w { enabled = false } in
      let asleep : World H = set_state w.current_thread sleep off in
      if-Ensures _ (queue == 0) _ _
        (λ a. restore-LeavesVacant w.enabled Machine.thread_invalid stack off v)
        (λ a. deref-Ensures _ (w.wait_queues queue) _ (λ q live.
          thread_yield-LeavesVacant thread_any (in_sleep queue w.enabled ∷ stack)
            (set_wait_queue queue (queue_push q w.current_thread).1 asleep)
            (set_wait_queue-Vacant queue (queue_push q w.current_thread).1 asleep v
              (λ l is free at. absurd (held l is at free)))))

  pub thread_sleep_after_yield-LeavesVacant :
      (queue : ℕ) (s : Bool) (num : Int32) (stack : List Frame) (w : World H)
      → Vacant p w
      → LeavesVacant p (thread_sleep_after_yield queue s num stack w)
  unfolding thread_sleep_after_yield
  thread_sleep_after_yield-LeavesVacant queue s num stack w v =
      let awake : World H = set_state w.current_thread running w in
      if-Ensures _ (num == Machine.thread_none) _ _
        (λ a. deref-Ensures _ (w.wait_queues queue) _ (λ q live.
          assert-Ensures _ ((queue_pop_last q).0 == w.current_thread) _ (λ b.
            restore-LeavesVacant s Machine.thread_none stack
              (set_wait_queue queue (queue_pop_last q).1 awake)
              (set_wait_queue-Vacant queue (queue_pop_last q).1 awake v
                (λ l is free at. pop_last-empty q (v l q is free (cc (at, live))))))))
        (λ a. restore-LeavesVacant s num stack w v)

  thread_wait_end-KeepsObjects :
      (tid : Int32) (at : ℕ) (s : Bool) (stack : List Frame) (w : World H)
      → KeepsObjects w (thread_wait_end tid at s stack w)
  unfolding thread_wait_end
  thread_wait_end-KeepsObjects tid at s stack w = elim (Bool-cases (at == 0)) [
    | inl e ↦ rw e (restore-KeepsObjects s tid stack w)
    | inr e ↦ rw e (restore-KeepsObjects s tid stack _)
  ]

  pub thread_wait_after_yield-KeepsObjects :
      (tid : Int32) (at : ℕ) (s : Bool) (stack : List Frame) (w : World H)
      → KeepsObjects w (thread_wait_after_yield tid at s stack w)
  unfolding thread_wait_after_yield
  thread_wait_after_yield-KeepsObjects tid at s stack w =
      assert-Ensures _ (not w.enabled) _ (λ a. thread_wait_end-KeepsObjects tid at s stack w)

  pub thread_wait-KeepsObjects :
      (tid : Int32) (at : ℕ) (stack : List Frame) (w : World H)
      → KeepsObjects w (thread_wait tid at stack w)
  unfolding thread_wait
  thread_wait-KeepsObjects tid at stack w =
      let off : World H = record w { enabled = false } in
      let noted : World H = set_waiter tid w.current_thread off in
      let refused = restore-KeepsObjects w.enabled Machine.thread_invalid stack off in
      assert-Ensures _ w.enabled _ (λ on.
        if-Ensures _ (not (is_valid_thread tid)) _ _ (λ a. refused)
          (λ a.
            if-Ensures _
              (state_eq (w.threads tid).state destroyed
                && (w.threads tid).exit_code == minus Machine.sigkill)
              _ _ (λ b. refused)
              (λ b.
                if-Ensures _ (tid == w.current_thread) _ _ (λ c. refused)
                  (λ c.
                    if-Ensures _ (state_eq (w.threads tid).state destroyed) _ _
                      (λ d. thread_wait_end-KeepsObjects tid at w.enabled stack off)
                      (λ d.
                        if-Ensures _ (not ((w.threads tid).waiter == minus 1)) _ _ (λ e. refused)
                          (λ e.
                            thread_yield-KeepsObjects thread_any (in_wait tid at w.enabled ∷ stack)
                              (set_state w.current_thread sleep noted)))))))
