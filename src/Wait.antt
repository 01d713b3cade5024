-- ===== src/Wait.antt =====
-- Wait queues of thread.c: wait_queue_create, wait_queue_destroy, thread_sleep, thread_wakeup and
-- thread_wait. What a function does behind the call that may switch contexts is a definition of
-- its own, named with `_after_yield`.
pub mod Safe
pub mod Wakeup
pub mod Broadcast
pub mod Leaves
pub mod Keeps
pub mod Scheduled
pub mod Vacant
pub mod Woken
pub mod Open
pub mod Answers
use user_space_threads.Prelude.{
  ℕ, zero, suc, Bool, true, false, not, ◌&&◌, List, ◌∷◌, none, Int32, Result, ok, assert, minus,
  add_int, ◌>>=◌, ◌>>◌, ◌==◌, if◌then◌else◌, update,
}
use user_space_threads.Queue.{Queue, empty_queue, queue_push, queue_pop, queue_pop_last, err_empty}
use user_space_threads.Machine.{
  destroyed, running, sleep, Frame, in_sleep, in_wait, World, Outcome, thread_any, thread_invalid,
  thread_none, sigkill,
}
use user_space_threads.Machine.Objects.{
  Allocator, state_eq, set_state, set_waiter, set_wait_queue, deref,
}
use user_space_threads.Interrupt.{interrupts_set, interrupts_off, interrupts_enabled}
use user_space_threads.Thread.{thread_id, is_valid_thread}
use user_space_threads.Thread.Yield.{thread_yield, restore}

-- sizeof(struct wait_queue): three ints and the array
abbrev pub wait_queue_size : ℕ
wait_queue_size = 122892

module _ {H : Type 0} ⦃al : Allocator H⦄ where
  unfoldable pub wait_queue_create : World H → Result (ℕ × World H)
  unfolding empty_queue
  wait_queue_create w = do
    (wq, heap) ← al.malloc369 wait_queue_size w.heap
    assert (not (wq == 0))
    let w1 = record w { heap = heap }
    ok (wq, set_wait_queue wq (empty_queue (al.block wq heap)) w1)

  unfoldable pub wait_queue_destroy : ℕ → World H → Result (World H)
  wait_queue_destroy wq w = do
    heap ← al.free369 wq w.heap
    ok (record w { heap = heap; wait_queues = update w.wait_queues wq none })

module _ {H : Type 0} where
  unfoldable pub thread_sleep : ℕ → List Frame → World H → Outcome H
  unfolding interrupts_off interrupts_set thread_id
  thread_sleep queue stack w0 =
      let (enabled, w) = interrupts_off w0 in
      if queue == 0 then restore enabled thread_invalid stack w else (do
        let w1 = set_state (thread_id w) sleep w
        q ← deref (w1.wait_queues queue)
        thread_yield thread_any (in_sleep queue enabled ∷ stack)
            (set_wait_queue queue (queue_push q (thread_id w1)).1 w1))

  unfoldable pub thread_sleep_after_yield : ℕ → Bool → Int32 → List Frame → World H → Outcome H
  unfolding interrupts_set thread_id
  thread_sleep_after_yield queue enabled thread_num stack w =
      if thread_num == thread_none
      then (do
        let w1 = set_state (thread_id w) running w
        q ← deref (w1.wait_queues queue)
        let (last, q') = queue_pop_last q
        assert (last == thread_id w1)
        restore enabled thread_none stack (set_wait_queue queue q' w1))
      else restore enabled thread_num stack w

  -- The loop of thread_wakeup over the entries of the wait queue. A round takes an entry.
  unfoldable pub wakeup_loop :
      ℕ → Int32 → Int32 → Queue → World H → Result (Int32 × Queue × World H)
  wakeup_loop zero all num q w = ok (num, q, w)
  wakeup_loop (suc fuel) all num q w =
      let (id, q') = queue_pop q in
      elim (id == err_empty) [
        | true ↦ ok (num, q', w)
        | false ↦ do
          assert (not (state_eq (w.threads id).state running))
          let w1 = set_state id running w
          let w2 = record w1 { thread_queue = (queue_push w1.thread_queue id).1 }
          elim (state_eq (w.threads id).state sleep) [
            | true ↦ elim (all == 0) [
              | true ↦ ok (add_int num 1, q', w2)
              | false ↦ wakeup_loop fuel all (add_int num 1) q' w2
            ]
            | false ↦ wakeup_loop fuel all num q' w
          ]
      ]

  unfoldable pub thread_wakeup : ℕ → Int32 → World H → Result (Int32 × World H)
  unfolding interrupts_off interrupts_set
  thread_wakeup queue all w0 =
      if queue == 0
      then ok (0, w0)
      else (let (enabled, w) = interrupts_off w0 in
          do
            q ← deref (w.wait_queues queue)
            (num, q', w') ← wakeup_loop (suc q.current_size) all 0 q w
            ok (num, (interrupts_set enabled (set_wait_queue queue q' w')).1))

  -- The end of thread_wait: the status is copied out.
  unfoldable pub thread_wait_end : Int32 → ℕ → Bool → List Frame → World H → Outcome H
  unfolding interrupts_set
  thread_wait_end tid exit_code signal stack w =
      let w' =
        (if exit_code == 0
          then w
          else record w { ints = update w.ints exit_code (w.threads tid).exit_code }) in
      restore signal tid stack w'

  unfoldable pub thread_wait : Int32 → ℕ → List Frame → World H → Outcome H
  unfolding interrupts_off interrupts_set thread_id is_valid_thread
  thread_wait tid exit_code stack w0 =
      let (signal, w) = interrupts_off w0 in
      do
        assert signal
        if not (is_valid_thread tid)
            then restore signal thread_invalid stack w
            else if state_eq (w.threads tid).state destroyed
                && (w.threads tid).exit_code == minus sigkill
            then restore signal thread_invalid stack w
            else if tid == thread_id w
            then restore signal thread_invalid stack w
            else if state_eq (w.threads tid).state destroyed
            then thread_wait_end tid exit_code signal stack w
            else if not ((w.threads tid).waiter == minus 1)
            then restore signal thread_invalid stack w
            else thread_yield thread_any (in_wait tid exit_code signal ∷ stack)
                (set_state (thread_id w) sleep (set_waiter tid (thread_id w) w))

  unfoldable pub thread_wait_after_yield : Int32 → ℕ → Bool → List Frame → World H → Outcome H
  unfolding interrupts_enabled
  thread_wait_after_yield tid exit_code signal stack w = do
    assert (not (interrupts_enabled w))
    thread_wait_end tid exit_code signal stack w
