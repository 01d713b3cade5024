-- ===== src/Thread/Open/Death.antt =====
-- The predicates of Thread/Open for the functions that end a thread: handle_death, thread_exit,
-- thread_kill and admin_mode.
use user_space_threads.Prelude.{
  refl, Bool, false, not, ◌&&◌, ◌||◌, List, ◌∷◌, Int32, ok, minus, le_signed, lt_signed, ◌==◌,
  if◌then◌else◌, any-Ensures, if-Ensures, assert-Ensures,
}
use user_space_threads.Queue.{thread_max_threads}
use user_space_threads.Machine
use user_space_threads.Machine.{
  Context, unset, saved, destroyed, running, sleep, Frame, in_death, in_kill, in_exit_death,
  in_wait, World, Outcome, Lock, Cv, thread_any, thread_invalid, thread_none, thread_self, State,
  Thread, in_yield,
}
use user_space_threads.Machine.Objects.{Allocator, state_eq, set_state, set_exit_code}
use user_space_threads.Thread.Yield.{
  handle_death, exit_to_main, thread_exit, thread_kill, admin_mode, thread_yield_resumed,
  admin_mode_after_kill,
}
use user_space_threads.Thread.Open.{
  Open, OpenContexts, Regular, FitsMode, LeavesOpen, set_thread-OpenContexts, set_state-Regular,
  setcontext-LeavesOpen, restore_fitting-LeavesOpen, restore-LeavesOpen, thread_yield-LeavesOpen,
}

module _ {H : Type 0} where
  handle_death-LeavesOpen :
      (t : Int32) (stack : List Frame) (w : World H)
      → Open stack w.enabled
      → Regular w
      → LeavesOpen (handle_death t stack w)
  unfolding handle_death
  handle_death-LeavesOpen t stack w h o =
      let dead : World H = set_state t destroyed (record w { enabled = false }) in
      let waiter = (dead.threads t).waiter in
      let o' = set_state-Regular t destroyed (record w { enabled = false }) o in
      if-Ensures _ (waiter == minus 1) _ _ (λ a. restore-LeavesOpen w.enabled 0 stack dead h o')
        (λ a. assert-Ensures _ (not (state_eq (dead.threads waiter).state running)) _ (λ b.
          if-Ensures _ (state_eq (dead.threads waiter).state sleep) _ _
            (λ c.
              thread_yield-LeavesOpen waiter (in_death w.enabled ∷ stack)
                (set_state waiter running dead) h (set_state-Regular waiter running dead o'))
            (λ c. restore-LeavesOpen w.enabled 0 stack dead h o')))

  set_exit_code-Regular :
      (t code : Int32) (w : World H) → Regular w → Regular (set_exit_code t code w)
  set_exit_code-Regular t code w o = (
    set_thread-OpenContexts t (record (w.threads t) { exit_code = code }) w.threads (o.0 t) o.0,
    o.1,
  )

  pub exit_to_main-LeavesOpen :
      (code : Int32) (w : World H) → Regular w → LeavesOpen (exit_to_main code w)
  unfolding exit_to_main
  exit_to_main-LeavesOpen code w o =
      let o' = set_exit_code-Regular w.current_thread code w o in
      if-Ensures _ (w.current_thread == 0) _ _ (λ z. tt)
        (λ z. setcontext-LeavesOpen 0 _ _ (o'.0 0) o'.0 (λ on. refl))

  pub thread_exit-LeavesOpen :
      (code : Int32) (stack : List Frame) (w : World H)
      → Regular w
      → LeavesOpen (thread_exit code stack w)
  unfolding thread_exit
  thread_exit-LeavesOpen code stack w o =
      let off : World H = record w { enabled = false } in
      assert-Ensures _ w.enabled _ (λ a.
        if-Ensures _ (w.current_thread == 0) _ _
          (λ b.
            handle_death-LeavesOpen w.current_thread (in_exit_death code ∷ stack)
              (set_exit_code w.current_thread code off) tt
              (set_exit_code-Regular w.current_thread code off o))
          (λ b. exit_to_main-LeavesOpen code off o))

  pub admin_mode_after_kill-LeavesOpen :
      (stack : List Frame) (w : World H)
      → OpenContexts w.threads
      → LeavesOpen (admin_mode_after_kill stack w)
  unfolding admin_mode_after_kill
  admin_mode_after_kill-LeavesOpen stack w o = assert-Ensures _ (not w.enabled) _ (λ a.
      assert-Ensures _ (not (w.current_thread == 0)) _ (λ b.
        assert-Ensures _ (state_eq (w.threads w.current_thread).state destroyed) _ (λ c.
          thread_yield-LeavesOpen thread_any (Machine.in_admin_yield ∷ stack)
            (record w { administrative_mode = false; thread_to_destroy = minus 1 }) tt (o, refl))))

module _ {H : Type 0} ⦃al : Allocator H⦄ where
  pub thread_kill-LeavesOpen :
      (tid : Int32) (stack : List Frame) (w : World H)
      → Open stack w.enabled
      → OpenContexts w.threads
      → FitsMode stack w.administrative_mode
      → LeavesOpen (thread_kill tid stack w)
  unfolding thread_kill
  thread_kill-LeavesOpen tid stack w h o m =
      let refused =
        restore_fitting-LeavesOpen w.enabled thread_invalid stack (record w { enabled = false }) h o
          m in
      if-Ensures _ (tid == w.current_thread && not w.administrative_mode) _ _ (λ a. refused)
        (λ a.
          if-Ensures _ (lt_signed tid 0 || le_signed thread_max_threads tid) _ _ (λ b. refused)
            (λ b.
              if-Ensures _ (state_eq (w.threads tid).state destroyed) _ _ (λ c. refused)
                (λ c.
                  any-Ensures _
                    (if tid == 0 then ok w.heap else al.free369 (w.threads tid).stack_start w.heap)
                    _
                    (λ heap e.
                      handle_death-LeavesOpen tid (in_kill tid w.enabled ∷ stack)
                        (record w { enabled = false; heap = heap; administrative_mode = false }) h
                        (o, refl)))))

  pub thread_yield_resumed-LeavesOpen :
      (s : Bool) (t : Int32) (stack : List Frame) (w : World H)
      → Open stack s
      → OpenContexts w.threads
      → LeavesOpen (thread_yield_resumed s t stack w)
  unfolding thread_yield_resumed admin_mode
  thread_yield_resumed-LeavesOpen s t stack w h o = assert-Ensures _ (not w.enabled) _ (λ a.
      if-Ensures _ w.administrative_mode _ _
        (λ b. assert-Ensures _ (w.current_thread == w.thread_to_destroy) _ (λ c.
          assert-Ensures _ (not w.enabled) _ (λ d. assert-Ensures _ (not w.enabled) _ (λ e.
            thread_kill-LeavesOpen w.current_thread (Machine.in_admin_kill ∷ stack) w tt o
              (λ on. tt)))))
        (λ b. restore-LeavesOpen s t stack w h (o, b)))
