-- ===== src/Wait/Open.antt =====
-- If threads' own code leaves the signal unblocked, it goes on with the signal unblocked: sleeping,
-- waking and waiting keep what is asked for that.
use user_space_threads.Prelude.{
  ℕ, zero, suc, ◌≡◌, refl, Bool, true, false, not, ◌&&◌, inl, inr, Bool-cases, List, ◌∷◌, Int32,
  minus, ◌==◌, add_int, Ensures, bind-Ensures, if-Ensures, assert-Ensures,
}
use user_space_threads.Queue.{Queue, queue_push, queue_pop_last, err_empty, queue_pop}
use user_space_threads.Machine
use user_space_threads.Machine.{
  World, Outcome, Frame, destroyed, running, sleep, in_sleep, in_wait, thread_any, Thread,
}
use user_space_threads.Machine.Objects.{
  state_eq, set_state, set_waiter, set_wait_queue, deref-Ensures,
}
use user_space_threads.Interrupt.{interrupts_set}
use user_space_threads.Thread.{is_valid_thread}
use user_space_threads.Wait.{
  thread_sleep, thread_sleep_after_yield, thread_wait, thread_wait_end, thread_wait_after_yield,
  wakeup_loop, thread_wakeup,
}
use user_space_threads.Wait.Wakeup.{woken}
use user_space_threads.Thread.Open.{
  Open, Regular, LeavesOpen, set_thread-OpenContexts, set_state-Regular, restore-LeavesOpen,
  thread_yield-LeavesOpen,
}

-- The stored contexts come back to threads' own code with the signal unblocked, and the mask is `e`.
abbrev pub IsOpen : {H : Type 0} → Bool → World H → Type 0
IsOpen e w = Regular w × (w.enabled ≡ e)

module _ {H : Type 0} where
  pub interrupts_set-IsOpen : (b : Bool) (w : World H) → Regular w → IsOpen b (interrupts_set b w).1
  unfolding interrupts_set
  interrupts_set-IsOpen true w o = (o, refl)
  interrupts_set-IsOpen false w o = (o, refl)

  pub thread_sleep-LeavesOpen :
      (queue : ℕ) (stack : List Frame) (w : World H)
      → Open stack w.enabled
      → Regular w
      → LeavesOpen (thread_sleep queue stack w)
  unfolding thread_sleep
  thread_sleep-LeavesOpen queue stack w h o =
      let off : World H = record w { enabled = false } in
      let asleep : World H = set_state w.current_thread sleep off in
      if-Ensures _ (queue == 0) _ _
        (λ a. restore-LeavesOpen w.enabled Machine.thread_invalid stack off h o)
        (λ a. deref-Ensures _ (w.wait_queues queue) _ (λ q live.
          thread_yield-LeavesOpen thread_any (in_sleep queue w.enabled ∷ stack)
            (set_wait_queue queue (queue_push q w.current_thread).1 asleep) h
            (set_state-Regular w.current_thread sleep off o)))

  pub thread_sleep_after_yield-LeavesOpen :
      (queue : ℕ) (s : Bool) (num : Int32) (stack : List Frame) (w : World H)
      → Open stack s
      → Regular w
      → LeavesOpen (thread_sleep_after_yield queue s num stack w)
  unfolding thread_sleep_after_yield
  thread_sleep_after_yield-LeavesOpen queue s num stack w h o =
      let awake : World H = set_state w.current_thread running w in
      if-Ensures _ (num == Machine.thread_none) _ _
        (λ a. deref-Ensures _ (w.wait_queues queue) _ (λ q live.
          assert-Ensures _ ((queue_pop_last q).0 == w.current_thread) _ (λ b.
            restore-LeavesOpen s Machine.thread_none stack
              (set_wait_queue queue (queue_pop_last q).1 awake) h
              (set_state-Regular w.current_thread running w o))))
        (λ a. restore-LeavesOpen s num stack w h o)

  thread_wait_end-LeavesOpen :
      (tid : Int32) (at : ℕ) (s : Bool) (stack : List Frame) (w : World H)
      → Open stack s
      → Regular w
      → LeavesOpen (thread_wait_end tid at s stack w)
  unfolding thread_wait_end
  thread_wait_end-LeavesOpen tid at s stack w h o = elim (Bool-cases (at == 0)) [
    | inl e ↦ rw e (restore-LeavesOpen s tid stack w h o)
    | inr e ↦ rw e (restore-LeavesOpen s tid stack _ h o)
  ]

  pub thread_wait_after_yield-LeavesOpen :
      (tid : Int32) (at : ℕ) (s : Bool) (stack : List Frame) (w : World H)
      → Open stack s
      → Regular w
      → LeavesOpen (thread_wait_after_yield tid at s stack w)
  unfolding thread_wait_after_yield
  thread_wait_after_yield-LeavesOpen tid at s stack w h o =
      assert-Ensures _ (not w.enabled) _ (λ a. thread_wait_end-LeavesOpen tid at s stack w h o)

  pub thread_wait-LeavesOpen :
      (tid : Int32) (at : ℕ) (stack : List Frame) (w : World H)
      → Open stack w.enabled
      → Regular w
      → LeavesOpen (thread_wait tid at stack w)
  unfolding thread_wait
  thread_wait-LeavesOpen tid at stack w h o =
      let off : World H = record w { enabled = false } in
      let noted : World H = set_waiter tid w.current_thread off in
      let refused = restore-LeavesOpen w.enabled Machine.thread_invalid stack off h o in
      let o' : Regular noted = (
        set_thread-OpenContexts tid (record (w.threads tid) { waiter = w.current_thread }) w.threads
            (o.0 tid) o.0,
        o.1,
      ) in
      assert-Ensures _ w.enabled _ (λ on.
        if-Ensures _ (not (is_valid_thread tid)) _ _ (λ a. refused)
          (λ a.
            if-Ensures _
              (state_eq (w.threads tid).state destroyed
                && (w.threads tid).exit_code == minus Machine.sigkill)
              _ _ (λ b. refused)
              (λ b.
                if-Ensures _ (tid == w.current_thread) _ _ (λ c. refused)
                  (λ c.
                    if-Ensures _ (state_eq (w.threads tid).state destroyed) _ _
                      (λ d. thread_wait_end-LeavesOpen tid at w.enabled stack off h o)
                      (λ d.
                        if-Ensures _ (not ((w.threads tid).waiter == minus 1)) _ _ (λ e. refused)
                          (λ e.
                            thread_yield-LeavesOpen thread_any (in_wait tid at w.enabled ∷ stack)
                              (set_state w.current_thread sleep noted) h
                              (set_state-Regular w.current_thread sleep noted o')))))))

  wakeup_loop-IsOpen :
      (fuel : ℕ) (all num : Int32) (q : Queue) (w : World H) (e : Bool)
      → IsOpen e w
      → Ensures (λ a. IsOpen e a.2) (wakeup_loop fuel all num q w)
  unfolding wakeup_loop
  wakeup_loop-IsOpen zero all num q w e o = o
  wakeup_loop-IsOpen (suc fuel) all num q w e o =
      let x = (queue_pop q).0 in
      let q' = (queue_pop q).1 in
      let woke : IsOpen e (woken x w) = (set_state-Regular x running w o.0, o.1) in
      elim (Bool-cases (x == err_empty)) [
        | inl z ↦ rw (wakeup_loop, z) o
        | inr z ↦
            rw (wakeup_loop, z)
              (assert-Ensures _ (not (state_eq (w.threads x).state running)) _ (λ b.
                elim (Bool-cases (state_eq (w.threads x).state sleep)) [
                  | inl a ↦ elim (Bool-cases (all == 0)) [
                    | inl one ↦ rw (a, one) woke
                    | inr every ↦
                        rw (a, every)
                          (wakeup_loop-IsOpen fuel all (add_int num 1) q' (woken x w) e woke)
                  ]
                  | inr a ↦ rw a (wakeup_loop-IsOpen fuel all num q' w e o)
                ]))
      ]

  pub thread_wakeup-IsOpen :
      (queue : ℕ) (all : Int32) (w : World H)
      → Regular w
      → Ensures (λ a. IsOpen w.enabled a.1) (thread_wakeup queue all w)
  unfolding thread_wakeup
  thread_wakeup-IsOpen queue all w o = elim (Bool-cases (queue == 0)) [
    | inl e ↦ rw (thread_wakeup, e) (o, refl)
    | inr e ↦
        let off : World H = record w { enabled = false } in
        rw (thread_wakeup, e)
          (deref-Ensures _ (w.wait_queues queue) _ (λ q live.
            bind-Ensures _ (λ a. IsOpen false a.2) (wakeup_loop (suc q.current_size) all 0 q off) _
              (wakeup_loop-IsOpen (suc q.current_size) all 0 q off false (o, refl))
              (λ a e' woke. interrupts_set-IsOpen w.enabled (set_wait_queue queue a.1 a.2) woke.0)))
  ]
