-- ===== src/Wait/Scheduled.antt =====
-- Sleeping, waking and waiting lose no thread that can run.
use user_space_threads.Prelude.{
  ℕ, zero, suc, ◌+◌, ◌≤◌, ◌<◌, ◌≡◌, refl, Bool, true, false, not, ◌&&◌, inl, inr, Bool-cases, List,
  ◌∷◌, Option, some, Int32, minus, ◌==◌, ==→eq, arith, add_int, Ensures, bind-Ensures, if-Ensures,
  assert-Ensures,
}
use user_space_threads.Queue.{Queue, queue_slots, queue_push, queue_pop_last, err_empty}
use user_space_threads.Queue.Bounds.{IsValid, queue_push-IsValid}
use user_space_threads.Queue.Refine.{queue_push-append, queue_pop-Popped}
use user_space_threads.Machine
use user_space_threads.Machine.{
  World, Outcome, Frame, destroyed, running, sleep, in_sleep, in_wait, thread_any,
}
use user_space_threads.Machine.Objects.{
  state_eq, set_state, set_waiter, set_wait_queue, deref-Ensures,
}
use user_space_threads.Interrupt.{interrupts_set}
use user_space_threads.Thread.{is_valid_thread}
use user_space_threads.Thread.Inv.{Inv}
use user_space_threads.Thread.Safe.{set_state-Inv, set_waiter-Inv}
use user_space_threads.Thread.Masks.{AllReady}
use user_space_threads.Thread.Scheduled.{
  Scheduled, IsScheduled, push-Mem, push-Mem_self, restore-IsScheduled,
  thread_yield-IsScheduled_any,
}
use user_space_threads.Wait.{
  thread_sleep, thread_sleep_after_yield, thread_wait, thread_wait_end, thread_wait_after_yield,
  wakeup_loop, thread_wakeup,
}
use user_space_threads.Wait.Wakeup.{woken}

-- The ready queue has room for the current thread, and for every thread of any one wait queue.
pub record HasRoom (ready : Queue) (wait_queues : ℕ → Option Queue) : Type 0 where
  pub spare : ready.current_size < queue_slots
  pub wakes :
      (p : ℕ) (q : Queue)
      → wait_queues p ≡ some q
      → ready.current_size + q.current_size < queue_slots

module _ {H : Type 0} where
  pub thread_sleep-IsScheduled :
      (queue : ℕ) (stack : List Frame) (w : World H)
      → Inv w
      → Scheduled w
      → IsScheduled (thread_sleep queue stack w)
  unfolding thread_sleep
  thread_sleep-IsScheduled queue stack w v h =
      let off : World H = record w { enabled = false } in
      let asleep : World H = set_state w.current_thread sleep off in
      if-Ensures _ (queue == 0) _ _
        (λ a. restore-IsScheduled w.enabled Machine.thread_invalid stack off h)
        (λ a. deref-Ensures _ (w.wait_queues queue) _ (λ q live.
          thread_yield-IsScheduled_any (in_sleep queue w.enabled ∷ stack)
            (set_wait_queue queue (queue_push q w.current_thread).1 asleep)
            (set_state-Inv w.current_thread sleep off v (inr (inr refl)))
            (λ u alive ne. h u (ground (arith, alive, ne)) ne)))

  pub thread_sleep_after_yield-IsScheduled :
      (queue : ℕ) (s : Bool) (num : Int32) (stack : List Frame) (w : World H)
      → Scheduled w
      → IsScheduled (thread_sleep_after_yield queue s num stack w)
  unfolding thread_sleep_after_yield
  thread_sleep_after_yield-IsScheduled queue s num stack w h =
      let awake : World H = set_state w.current_thread running w in
      if-Ensures _ (num == Machine.thread_none) _ _
        (λ a. deref-Ensures _ (w.wait_queues queue) _ (λ q live.
          assert-Ensures _ ((queue_pop_last q).0 == w.current_thread) _ (λ b.
            restore-IsScheduled s Machine.thread_none stack
              (set_wait_queue queue (queue_pop_last q).1 awake)
              (λ u alive ne. h u (ground (arith, alive, ne)) ne))))
        (λ a. restore-IsScheduled s num stack w h)

  pub thread_wait_end-IsScheduled :
      (tid : Int32) (p : ℕ) (s : Bool) (stack : List Frame) (w : World H)
      → Scheduled w
      → IsScheduled (thread_wait_end tid p s stack w)
  unfolding thread_wait_end
  thread_wait_end-IsScheduled tid p s stack w h = elim (Bool-cases (p == 0)) [
    | inl e ↦ rw e (restore-IsScheduled s tid stack w h)
    | inr e ↦ rw e (restore-IsScheduled s tid stack _ h)
  ]

  pub thread_wait_after_yield-IsScheduled :
      (tid : Int32) (p : ℕ) (s : Bool) (stack : List Frame) (w : World H)
      → Scheduled w
      → IsScheduled (thread_wait_after_yield tid p s stack w)
  unfolding thread_wait_after_yield
  thread_wait_after_yield-IsScheduled tid p s stack w h =
      assert-Ensures _ (not w.enabled) _ (λ a. thread_wait_end-IsScheduled tid p s stack w h)

  pub thread_wait-IsScheduled :
      (tid : Int32) (p : ℕ) (stack : List Frame) (w : World H)
      → Inv w
      → Scheduled w
      → IsScheduled (thread_wait tid p stack w)
  unfolding thread_wait
  thread_wait-IsScheduled tid p stack w v h =
      let off : World H = record w { enabled = false } in
      let noted : World H = set_waiter tid w.current_thread off in
      let refused = restore-IsScheduled w.enabled Machine.thread_invalid stack off h in
      assert-Ensures _ w.enabled _ (λ on.
        if-Ensures _ (not (is_valid_thread tid)) _ _ (λ a. refused)
          (λ a.
            if-Ensures _
              (state_eq (w.threads tid).state destroyed
                && (w.threads tid).exit_code == minus Machine.sigkill)
              _ _ (λ b. refused)
              (λ b.
                if-Ensures _ (tid == w.current_thread) _ _ (λ c. refused)
                  (λ c.
                    if-Ensures _ (state_eq (w.threads tid).state destroyed) _ _
                      (λ d. thread_wait_end-IsScheduled tid p w.enabled stack off h)
                      (λ d.
                        if-Ensures _ (not ((w.threads tid).waiter == minus 1)) _ _ (λ e. refused)
                          (λ e.
                            thread_yield-IsScheduled_any (in_wait tid p w.enabled ∷ stack)
                              (set_state w.current_thread sleep noted)
                              (set_state-Inv w.current_thread sleep noted
                                (set_waiter-Inv tid w.current_thread off v v.current)
                                (inr (inr refl)))
                              (λ u alive ne. h u (ground (arith, alive, ne)) ne)))))))

  pub interrupts_set-Scheduled :
      (s : Bool) (w : World H) → Scheduled w → Scheduled (interrupts_set s w).1
  unfolding interrupts_set
  interrupts_set-Scheduled true w h = h
  interrupts_set-Scheduled false w h = h

  woken-Scheduled :
      (id : Int32) (w : World H)
      → IsValid w.thread_queue
      → w.thread_queue.current_size < queue_slots
      → Scheduled w
      → Scheduled (woken id w)
  woken-Scheduled id w v room h u alive ne = elim (Bool-cases (u == id)) [
    | inl e ↦ rw (==→eq e) (push-Mem_self id v room)
    | inr e ↦ push-Mem u id v (h u (ground (arith, alive)) ne)
  ]

  wakeup_loop-Scheduled :
      (fuel : ℕ) (all num : Int32) (q : Queue) (w : World H)
      → IsValid q
      → IsValid w.thread_queue
      → w.thread_queue.current_size + q.current_size ≤ queue_slots
      → Scheduled w
      → Ensures (λ a. Scheduled a.2) (wakeup_loop fuel all num q w)
  unfolding wakeup_loop
  wakeup_loop-Scheduled zero all num q w v r room h = h
  wakeup_loop-Scheduled (suc fuel) all num q w v r room h = elim (queue_pop-Popped v) [
    | inl (e, c) ↦ rw (wakeup_loop, e) h
    | inr (x, q', e, c, v', s) ↦
        let next = wakeup_loop-Scheduled fuel all num q' w v' r (omega (arith, s)) h in
        elim (Bool-cases (x == err_empty)) [
          | inl z ↦ rw (wakeup_loop, e, z) h
          | inr z ↦ elim (Bool-cases (state_eq (w.threads x).state sleep)) [
            | inl a ↦
                let pushed = queue_push-append w.thread_queue x r (omega (arith, s)) in
                let woke : Scheduled (woken x w) = woken-Scheduled x w r (omega (arith, s)) h in
                let next_woke =
                  wakeup_loop-Scheduled fuel all (add_int num 1) q' (woken x w) v'
                    (queue_push-IsValid x r) (omega (arith, s, pushed.1)) woke in
                ground arith
            | inr a ↦
                rw (wakeup_loop, e, z, e, a, e)
                  (assert-Ensures (λ (b : Int32 × Queue × World H). Scheduled b.2)
                    (not (state_eq (w.threads x).state running)) (wakeup_loop fuel all num q' w)
                    (λ b. next))
          ]
        ]
  ]

  pub thread_wakeup-Scheduled :
      (queue : ℕ) (all : Int32) (w : World H)
      → Inv w
      → AllReady w.wait_queues
      → HasRoom w.thread_queue w.wait_queues
      → Scheduled w
      → Ensures (λ a. Scheduled a.1) (thread_wakeup queue all w)
  unfolding thread_wakeup
  thread_wakeup-Scheduled queue all w v ready room h = elim (Bool-cases (queue == 0)) [
    | inl e ↦ rw (thread_wakeup, e) h
    | inr e ↦
        let off : World H = record w { enabled = false } in
        rw (thread_wakeup, e)
          (deref-Ensures _ (w.wait_queues queue) _ (λ q live.
            bind-Ensures _ (λ a. Scheduled a.2) (wakeup_loop (suc q.current_size) all 0 q off) _
              (wakeup_loop-Scheduled (suc q.current_size) all 0 q off (ready queue q live).valid
                v.ready.valid (omega (arith, room.wakes queue q live)) h)
              (λ a e' woke.
                interrupts_set-Scheduled w.enabled (set_wait_queue queue a.1 a.2) woke)))
  ]
