-- ===== src/Step/Exit.antt =====
-- The end of a thread that nobody waits for, and the end of the last thread.
use user_space_threads.Prelude.{
  ◌≡◌, ◌≢◌, ap, ◌∙◌, ◌⊎◌, inl, inr, Bool, true, false, List, ◌∷◌, Int32, ok, halt, bad_context,
  minus, arith,
}
use user_space_threads.Machine
use user_space_threads.Machine.{
  destroyed, running, Thread, Frame, in_yield, World, saved, thread_any,
}
use user_space_threads.Machine.Objects.{Allocator, set_state, set_exit_code}
use user_space_threads.Thread.Ready.{IsTid}
use user_space_threads.Thread.Inv.{Inv}
use user_space_threads.Thread.Idle.{thread_yield-empty}
use user_space_threads.Thread.Yield.{
  thread_kill, handle_death, thread_exit, exit_to_main, thread_exit_after_death, thread_yield,
  thread_exit_after_yield, thread_yield_resumed, admin_mode, admin_mode_after_kill,
  thread_kill_after_death,
}
use user_space_threads.Step.{step, resume, run}
use user_space_threads.Step.Waited.{thread_exit-other}

-- Nobody waits for the current thread, or a thread that is dead itself.
abbrev pub IsAlone : {H : Type 0} → World H → Type 0
IsAlone w =
    ((w.threads w.current_thread).waiter ≡ minus 1)
    ⊎ ((w.threads (w.threads w.current_thread).waiter).state ≡ destroyed)

module _ {H : Type 0} ⦃al : Allocator H⦄ where
  -- The world in which the undertaker yields.
  abbrev pub undertaken : Int32 → H → World H → World H
  undertaken code heap w =
      record (set_state w.current_thread destroyed (set_exit_code w.current_thread code w)) {
        enabled = false;
        heap = heap;
        administrative_mode = false;
        thread_to_destroy = minus 1;
      }

  pub undertaken-Inv :
      (code : Int32) (heap : H) (w : World H) → Inv w → Inv (undertaken code heap w)
  undertaken-Inv code heap w v = record {
    ready = v.ready;
    current = v.current;
    waiters = λ u. ground (arith, v.waiters u, v.waiters w.current_thread);
    contexts = λ u ne live. ground (arith, v.contexts u);
    main_context = λ ne. ground (arith, v.main_context);
  }

  pub run-undertaker :
      (code : Int32) (stack : List Frame) (w : World H) {heap : H} {s : Bool} {u : Int32}
      {others : List Frame}
      → IsTid w.current_thread
      → w.current_thread ≢ 0
      → w.enabled ≡ true
      → (w.threads w.current_thread).state ≡ running
      → IsAlone w
      → (w.threads 0).context ≡ saved false (in_yield s u ∷ others)
      → al.free369 (w.threads w.current_thread).stack_start w.heap ≡ ok heap
      → run 3 (thread_exit code stack w)
        ≡ thread_yield thread_any (Machine.in_admin_yield ∷ others) (undertaken code heap w)
  unfolding run step resume thread_yield_resumed admin_mode thread_kill handle_death
      thread_kill_after_death admin_mode_after_kill
  run-undertaker code stack w {s = s} {u = u} {others = others} h nz on live (inl nobody) ctx f =
      ap (run 3) (thread_exit-other code stack (in_yield s u ∷ others) w nz on ctx) ∙ ground arith
  run-undertaker code stack w {s = s} {u = u} {others = others} h nz on live (inr dead) ctx f =
      ap (run 3) (thread_exit-other code stack (in_yield s u ∷ others) w nz on ctx) ∙ ground arith

  -- Thread 0 exits with interrupts on, no waiter and an empty ready queue: the process does not
  -- exit. thread_yield in thread_exit finds no thread, and thread_exit goes on to the load of the
  -- context of thread 0 itself, in which nothing was stored or whose thread_yield has returned.
  pub run-thread_exit-main :
      (code : Int32) (stack : List Frame) (w : World H)
      → w.current_thread ≡ 0
      → w.enabled ≡ true
      → (w.threads 0).waiter ≡ minus 1
      → w.thread_queue.current_size ≡ 0
      → run 2 (thread_exit code stack w) ≡ halt bad_context
  unfolding run step resume thread_exit exit_to_main handle_death thread_exit_after_death
      thread_exit_after_yield
  run-thread_exit-main code stack w h on nobody empty = ground (
    arith,
    thread_yield-empty (Machine.in_exit_yield code ∷ stack)
        (set_state 0 destroyed (set_exit_code 0 code (record w { enabled = false }))),
  )
