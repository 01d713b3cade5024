-- ===== src/Thread/Yield.antt =====
-- thread_yield and the death of a thread: thread_yield, handle_death, thread_kill, admin_mode and
-- thread_exit of thread.c, each up to the point where a call in it may switch contexts. What the
-- function does behind that point is a definition of its own, named after it with `_after_` and
-- the call; the frame on the stack names it.
use user_space_threads.Prelude.{
  bad_context, Bool, true, false, not, ◌&&◌, ◌||◌, List, [], ◌∷◌, Int32, ok, halt, exit_with,
  assert, minus, le_signed, lt_signed, ◌>>=◌, ◌>>◌, ◌==◌, if◌then◌else◌,
}
use user_space_threads.Queue.{thread_max_threads, queue_push}
use user_space_threads.Machine.{
  destroyed, running, sleep, Frame, in_yield, in_death, in_kill, in_admin_kill, in_admin_yield,
  in_exit_death, in_exit_yield, saved, World, Outcome, thread_any, thread_self, thread_invalid,
  thread_none,
}
use user_space_threads.Machine.Objects.{Allocator, state_eq, set_context, set_state, set_exit_code}
use user_space_threads.Machine.Switch.{setcontext}
use user_space_threads.Interrupt.{interrupts_set, interrupts_off, interrupts_enabled}
use user_space_threads.Thread.{thread_id, get_thread_any}

module _ {H : Type 0} where
  -- A call returns `value` to the innermost open call.
  abbrev pub return : Int32 → List Frame → World H → Outcome H
  return value stack w = ok (record { value = value; stack = stack; world = w })

  -- `interrupts_set(signal_state); return value;`
  abbrev pub restore : Bool → Int32 → List Frame → World H → Outcome H
  restore signal_state value stack w = return value stack (interrupts_set signal_state w).1

  -- From `getcontext` on: the context is saved and another thread's is loaded.
  unfoldable pub switch_to : Bool → Int32 → List Frame → World H → Outcome H
  unfolding interrupts_enabled
  switch_to signal_state actual_tid stack w = do
    assert (not (interrupts_enabled w))
    let current_context = saved w.enabled (in_yield signal_state actual_tid ∷ stack)
    let w1 = set_context w.current_thread current_context w
    let w2 = record w1 {
      thread_queue = (queue_push w1.thread_queue w1.current_thread).1;
      current_thread = actual_tid;
    }
    setcontext (w2.threads actual_tid).context w2

  -- The checks on the thread that was asked for or found.
  unfoldable pub yield_to : Bool → Int32 → List Frame → World H → Outcome H
  unfolding interrupts_set interrupts_enabled
  yield_to signal_state actual_tid stack w = do
    assert (not (interrupts_enabled w))
    if le_signed thread_max_threads actual_tid || lt_signed actual_tid 0
        then restore signal_state thread_invalid stack w
        else if state_eq (w.threads actual_tid).state destroyed
        then restore signal_state thread_invalid stack w
        else switch_to signal_state actual_tid stack w

  unfoldable pub thread_yield : Int32 → List Frame → World H → Outcome H
  unfolding interrupts_set thread_id
  thread_yield want_tid stack w0 =
      let (signal_state, w) = interrupts_set false w0 in
      if want_tid == thread_self || want_tid == w.current_thread
      then restore signal_state w.current_thread stack w
      else if want_tid == thread_any
      then (let (result, w') = get_thread_any (thread_id w) w in
          if result == thread_none
          then restore signal_state thread_none stack w'
          else yield_to signal_state result stack w')
      else yield_to signal_state want_tid stack w

  unfoldable pub handle_death : Int32 → List Frame → World H → Outcome H
  unfolding interrupts_off interrupts_set
  handle_death thread_to_die stack w0 =
      let (signal_state, w1) = interrupts_off w0 in
      let w = set_state thread_to_die destroyed w1 in
      let waiter = (w.threads thread_to_die).waiter in
      if waiter == minus 1 then restore signal_state 0 stack w else (do
        assert (not (state_eq (w.threads waiter).state running))
        if state_eq (w.threads waiter).state sleep
            then thread_yield waiter (in_death signal_state ∷ stack) (set_state waiter running w)
            else restore signal_state 0 stack w)

  unfoldable pub handle_death_after_yield : Bool → List Frame → World H → Outcome H
  unfolding interrupts_set
  handle_death_after_yield signal_state stack w = restore signal_state 0 stack w

  unfoldable pub thread_kill_after_death : Int32 → Bool → List Frame → World H → Outcome H
  unfolding interrupts_set
  thread_kill_after_death tid signal_state stack w = restore signal_state tid stack w

  unfoldable pub admin_mode_after_kill : List Frame → World H → Outcome H
  unfolding interrupts_enabled
  admin_mode_after_kill stack w0 = do
    let w = record w0 { administrative_mode = false; thread_to_destroy = minus 1 }
    assert (not (interrupts_enabled w))
    assert (not (w.current_thread == 0))
    assert (state_eq (w.threads w.current_thread).state destroyed)
    thread_yield thread_any (in_admin_yield ∷ stack) w

  -- Its message is printed with the mask kept, and nothing else of it is state.
  unfoldable pub admin_mode_after_yield : Int32 → World H → Outcome H
  admin_mode_after_yield result w =
      if result == thread_none then halt (exit_with 0) else (do assert false; return 0 [] w)

  -- The part of thread_exit that every thread runs: it leaves for thread 0's context. Where thread 0
  -- itself comes here, the call of thread_yield that stored that context, if there was one, has
  -- returned.
  unfoldable pub exit_to_main : Int32 → World H → Outcome H
  exit_to_main exit_code w =
      let w1 = record w { thread_to_destroy = w.current_thread; administrative_mode = true } in
      let w2 = set_exit_code w1.current_thread exit_code w1 in
      if w2.current_thread == 0 then halt bad_context else setcontext (w2.threads 0).context w2

  unfoldable pub thread_exit : Int32 → List Frame → World H → Outcome H
  unfolding interrupts_set interrupts_enabled
  thread_exit exit_code stack w0 = do
    assert (interrupts_enabled w0)
    let w = (interrupts_set false w0).1
    if w.current_thread == 0
        then handle_death w.current_thread (in_exit_death exit_code ∷ stack)
            (set_exit_code w.current_thread exit_code w)
        else exit_to_main exit_code w

  unfoldable pub thread_exit_after_death : Int32 → List Frame → World H → Outcome H
  thread_exit_after_death exit_code stack w =
      thread_yield thread_any (in_exit_yield exit_code ∷ stack) w

  unfoldable pub thread_exit_after_yield : Int32 → World H → Outcome H
  thread_exit_after_yield exit_code w = exit_to_main exit_code w

module _ {H : Type 0} ⦃al : Allocator H⦄ where
  unfoldable pub thread_kill : Int32 → List Frame → World H → Outcome H
  unfolding interrupts_set
  thread_kill tid stack w0 =
      let (signal_state, w) = interrupts_set false w0 in
      if tid == w.current_thread && not w.administrative_mode
      then restore signal_state thread_invalid stack w
      else if lt_signed tid 0 || le_signed thread_max_threads tid
      then restore signal_state thread_invalid stack w
      else if state_eq (w.threads tid).state destroyed
      then restore signal_state thread_invalid stack w
      else (do
        heap ← (if tid == 0 then ok w.heap else al.free369 (w.threads tid).stack_start w.heap)
        let w1 = record w { heap = heap; administrative_mode = false }
        handle_death tid (in_kill tid signal_state ∷ stack) w1)

  unfoldable pub admin_mode : List Frame → World H → Outcome H
  unfolding interrupts_enabled thread_id
  admin_mode stack w = do
    assert (not (interrupts_enabled w))
    thread_kill (thread_id w) (in_admin_kill ∷ stack) w

  -- thread_yield at `if (switched)`, when its context has been loaded again.
  unfoldable pub thread_yield_resumed : Bool → Int32 → List Frame → World H → Outcome H
  unfolding interrupts_set interrupts_enabled
  thread_yield_resumed signal_state actual_tid stack w = do
    assert (not (interrupts_enabled w))
    if w.administrative_mode
        then (do
          assert (w.current_thread == w.thread_to_destroy)
          assert (not (interrupts_enabled w))
          admin_mode stack w)
        else restore signal_state actual_tid stack w
