-- ===== src/Step/Stale.antt =====
-- Entries that outlive their threads, and threads without an entry.
use user_space_threads.Prelude.{
  ap, ◌∙◌, Result, ℕ, ◌≡◌, ◌≢◌, true, false, List, [], ◌∷◌, some, Int32, ok, halt, assert_failed,
  minus, arith, ◌>>=◌, inl, inr,
}
use user_space_threads.Queue.{Queue, queue_push, queue_slots}
use user_space_threads.Queue.Refine.{contents, queue_pop-Popped}
use user_space_threads.Machine.{destroyed, running, sleep, World, Outcome, thread_min_stack}
use user_space_threads.Machine.Objects.{Allocator, set_state}
use user_space_threads.Thread.{thread_create}
use user_space_threads.Thread.Ready.{IsTid, IsReady}
use user_space_threads.Thread.Create.{IsLowest, thread_create_lem}
use user_space_threads.Thread.Yield.{thread_kill}
use user_space_threads.Wait.{thread_wakeup, wakeup_loop}
use user_space_threads.Step.{step}
use user_space_threads.Step.Outcomes.{step-thread_kill}

module _ {H : Type 0} where
  -- An entry of a thread that runs, at the head of a valid wait queue, fails an assertion of
  -- thread_wakeup.
  thread_wakeup-running :
      (queue : ℕ) (all t : Int32) (rest : List Int32) (q : Queue) (w : World H)
      → queue ≢ 0
      → w.wait_queues queue ≡ some q
      → IsReady q
      → contents q ≡ t ∷ rest
      → (w.threads t).state ≡ running
      → thread_wakeup queue all w ≡ halt assert_failed
  unfolding thread_wakeup wakeup_loop
  thread_wakeup-running queue all t rest q w nz live r c live' = elim (queue_pop-Popped r.valid) [
    | inl (e, c') ↦ absurd (nonempty c')
    | inr (x, q', e, c', v, k) ↦ let same : x ≡ t = cc (c, c') in ground (arith, e, same, r.tids, c)
  ]
    where
      nonempty : contents q ≡ [] → ⊥
      nonempty e = cc

module _ {H : Type 0} ⦃al : Allocator H⦄ (w : World H) (on : w.enabled ≡ true) where
  -- With interrupts on and a full ready queue, thread_create takes the lowest free slot as ever and
  -- answers its identifier, but the new thread, which runs, gets no entry: the ready queue is as it
  -- was.
  pub thread_create-full :
      (fn parg : ℕ) (tid stack_pointer : ℕ) {heap : H}
      → IsLowest w.threads tid
      → al.malloc369 thread_min_stack w.heap ≡ ok (stack_pointer, heap)
      → w.thread_queue.current_size ≡ queue_slots
      → (w' : World H) × (thread_create fn parg w ≡ ok (tid, w'))
        × ((w'.threads tid).state ≡ running)
        × (w'.thread_queue ≡ w.thread_queue)
  unfolding queue_push
  thread_create-full fn parg tid stack_pointer low m full =
      (_, thread_create_lem fn parg w on tid stack_pointer low m, ground arith, ground arith)

  -- The caller has interrupts on, and another thread `t`, not thread 0, which nobody waits
  -- for, sleeps and is the oldest entry of a valid wait queue. The caller kills it, creates
  -- a thread, which takes the slot of `t` when that is the lowest free one, and wakes the wait
  -- queue: the entry now names the new thread, which runs, and an assertion of thread_wakeup fails.
  pub wakeup-create-kill :
      (fn parg queue : ℕ) (all t : Int32) (rest : List Int32) (q : Queue) (stack_pointer : ℕ)
      {heap heap' : H}
      → IsTid t
      → t ≢ w.current_thread
      → t ≢ 0
      → (w.threads t).state ≡ sleep
      → (w.threads t).waiter ≡ minus 1
      → al.free369 (w.threads t).stack_start w.heap ≡ ok heap
      → IsLowest (set_state t destroyed w).threads t
      → al.malloc369 thread_min_stack heap ≡ ok (stack_pointer, heap')
      → queue ≢ 0
      → w.wait_queues queue ≡ some q
      → IsReady q
      → contents q ≡ t ∷ rest
      → ((thread_kill t [] w >>= step) >>= λ c.
          thread_create fn parg c.world >>= λ r. thread_wakeup queue all r.1)
        ≡ halt assert_failed
  wakeup-create-kill fn parg queue all t rest q stack_pointer {heap} {heap'} h ne nz asleep nobody f
        low m qz there r c =
      let w1 : World H = record (set_state t destroyed w) {
        heap = heap;
        administrative_mode = false;
      } in
      let killed = step-thread_kill t [] w h ne nz (ground arith) nobody f in
      let made = thread_create_lem fn parg w1 on t stack_pointer low m in
      ap
        (λ (o : Outcome H).
          o >>= λ c'. thread_create fn parg c'.world >>= λ r'. thread_wakeup queue all r'.1)
        killed
      ∙ ap (λ (o : Result (Int32 × World H)). o >>= λ r'. thread_wakeup queue all r'.1) made
      ∙ thread_wakeup-running queue all t rest q _ qz there r c (ground arith)
