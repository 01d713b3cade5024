-- ===== src/Thread/Scheduled/Death.antt =====
-- The death of a thread loses no other thread: handle_death, thread_kill, thread_exit and what
-- follows them.
use user_space_threads.Prelude.{
  ◌<◌, refl, Bool, false, not, ◌||◌, inl, inr, List, ◌∷◌, Int32, ok, ◌==◌, le_signed, lt_signed,
  arith, ◌&&◌, if◌then◌else◌, minus, any-Ensures, if-Ensures, assert-Ensures,
}
use user_space_threads.Machine.Objects.{Allocator, set_state, set_exit_code, state_eq}
use user_space_threads.Machine
use user_space_threads.Thread.Safe.{set_state-Inv, set_exit_code-Inv}
use user_space_threads.Thread.Scheduled.{
  Scheduled, IsScheduled, setcontext-IsScheduled, restore-IsScheduled, thread_yield-IsScheduled_any,
  thread_yield-IsScheduled_to,
}
use user_space_threads.Thread.Yield.{
  handle_death, thread_kill, thread_exit, exit_to_main, admin_mode, thread_yield_resumed,
  admin_mode_after_kill,
}
use user_space_threads.Queue.{queue_slots, thread_max_threads}
use user_space_threads.Machine.{
  Thread, destroyed, running, Frame, World, Outcome, Control, thread_any, thread_invalid, sleep,
  in_death, in_kill, in_exit_death, Context, unset, saved,
}
use user_space_threads.Thread.Inv.{Inv}

module _ {H : Type 0} where
  -- A thread that is not Running needs no entry, and the waiter that it wakes goes on at once.
  pub handle_death-IsScheduled :
      (t : Int32) (stack : List Frame) (w : World H)
      → Inv w
      → w.thread_queue.current_size < queue_slots
      → Scheduled w
      → IsScheduled (handle_death t stack w)
  unfolding handle_death
  handle_death-IsScheduled t stack w v room h =
      let off : World H = record w { enabled = false } in
      let dead : World H = set_state t destroyed off in
      let waiter = (dead.threads t).waiter in
      let dead_inv : Inv dead = set_state-Inv t destroyed off v (inl refl) in
      let buried : Scheduled dead = λ u live ne. h u (ground (arith, live)) ne in
      if-Ensures _ (waiter == minus 1) _ _ (λ a. restore-IsScheduled w.enabled 0 stack dead buried)
        (λ a. assert-Ensures _ (not (state_eq (dead.threads waiter).state running)) _ (λ b.
          if-Ensures _ (state_eq (dead.threads waiter).state sleep) _ _
            (λ c.
              thread_yield-IsScheduled_to waiter (in_death w.enabled ∷ stack)
                (set_state waiter running dead)
                (set_state-Inv waiter running dead dead_inv (inr (inl (ground (arith, c))))) room
                (ground (arith, v.waiters t, a))
                (λ u live ne other. buried u (ground (arith, live)) ne) (ground arith))
            (λ c. restore-IsScheduled w.enabled 0 stack dead buried)))

  pub exit_to_main-IsScheduled :
      (code : Int32) (w : World H) → Scheduled w → IsScheduled (exit_to_main code w)
  unfolding exit_to_main
  exit_to_main-IsScheduled code w h =
      if-Ensures _ (w.current_thread == 0) _ _ (λ z. tt)
        (λ z. setcontext-IsScheduled _ _ (λ u live ne. h u (ground (arith, live)) ne))

  pub thread_exit-IsScheduled :
      (code : Int32) (stack : List Frame) (w : World H)
      → Inv w
      → w.thread_queue.current_size < queue_slots
      → Scheduled w
      → IsScheduled (thread_exit code stack w)
  unfolding thread_exit
  thread_exit-IsScheduled code stack w v room h =
      let off : World H = record w { enabled = false } in
      assert-Ensures _ w.enabled _ (λ a.
        if-Ensures _ (w.current_thread == 0) _ _
          (λ b.
            handle_death-IsScheduled w.current_thread (in_exit_death code ∷ stack)
              (set_exit_code w.current_thread code off)
              (set_exit_code-Inv w.current_thread code off v) room
              (λ u live ne. h u (ground (arith, live)) ne))
          (λ b. exit_to_main-IsScheduled code off h))

  pub admin_mode_after_kill-IsScheduled :
      (stack : List Frame) (w : World H)
      → Inv w
      → Scheduled w
      → IsScheduled (admin_mode_after_kill stack w)
  unfolding admin_mode_after_kill
  admin_mode_after_kill-IsScheduled stack w v h = assert-Ensures _ (not w.enabled) _ (λ a.
      assert-Ensures _ (not (w.current_thread == 0)) _ (λ b.
        assert-Ensures _ (state_eq (w.threads w.current_thread).state destroyed) _ (λ c.
          thread_yield-IsScheduled_any (Machine.in_admin_yield ∷ stack)
            (record w { administrative_mode = false; thread_to_destroy = minus 1 }) v h)))

module _ {H : Type 0} ⦃al : Allocator H⦄ where
  pub thread_kill-IsScheduled :
      (tid : Int32) (stack : List Frame) (w : World H)
      → Inv w
      → w.thread_queue.current_size < queue_slots
      → Scheduled w
      → IsScheduled (thread_kill tid stack w)
  unfolding thread_kill
  thread_kill-IsScheduled tid stack w v room h =
      let refused =
        restore-IsScheduled w.enabled thread_invalid stack (record w { enabled = false }) h in
      if-Ensures _ (tid == w.current_thread && not w.administrative_mode) _ _ (λ a. refused)
        (λ a.
          if-Ensures _ (lt_signed tid 0 || le_signed thread_max_threads tid) _ _ (λ b. refused)
            (λ b.
              if-Ensures _ (state_eq (w.threads tid).state destroyed) _ _ (λ c. refused)
                (λ c.
                  any-Ensures _
                    (if tid == 0 then ok w.heap else al.free369 (w.threads tid).stack_start w.heap)
                    _
                    (λ heap e.
                      handle_death-IsScheduled tid (in_kill tid w.enabled ∷ stack)
                        (record w { enabled = false; heap = heap; administrative_mode = false }) v
                        room h))))

  pub thread_yield_resumed-IsScheduled :
      (s : Bool) (t : Int32) (stack : List Frame) (w : World H)
      → Inv w
      → w.thread_queue.current_size < queue_slots
      → Scheduled w
      → IsScheduled (thread_yield_resumed s t stack w)
  unfolding thread_yield_resumed admin_mode
  thread_yield_resumed-IsScheduled s t stack w v room h = assert-Ensures _ (not w.enabled) _ (λ a.
      if-Ensures _ w.administrative_mode _ _
        (λ b. assert-Ensures _ (w.current_thread == w.thread_to_destroy) _ (λ c.
          assert-Ensures _ (not w.enabled) _ (λ d. assert-Ensures _ (not w.enabled) _ (λ e.
            thread_kill-IsScheduled w.current_thread (Machine.in_admin_kill ∷ stack) w v room h))))
        (λ b. restore-IsScheduled s t stack w h))
