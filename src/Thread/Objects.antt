-- ===== src/Thread/Objects.antt =====
-- The functions of Thread/Yield and thread_wait leave the objects that clients hold alone: locks,
-- condition variables and wait queues.
use user_space_threads.Prelude.{
  ℕ, zero, suc, ◌≡◌, refl, ◌∙◌, Bool, true, false, not, ◌&&◌, ◌||◌, List, ◌∷◌, Option, Int32, ok,
  halt, minus, le_signed, lt_signed, ◌==◌, if◌then◌else◌, arith, Ensures, any-Ensures, if-Ensures,
  assert-Ensures,
}
use user_space_threads.Queue.{Queue, thread_max_threads, queue_pop}
use user_space_threads.Machine
use user_space_threads.Machine.{
  Context, unset, saved, destroyed, running, sleep, Frame, in_death, in_kill, in_exit_death,
  in_wait, World, Outcome, Lock, Cv, thread_any, thread_invalid, thread_none, thread_self,
}
use user_space_threads.Machine.Objects.{Allocator, state_eq, set_state, set_exit_code}
use user_space_threads.Machine.Switch.{setcontext}
use user_space_threads.Interrupt.{interrupts_set}
use user_space_threads.Thread.{get_thread_any, any_loop}
use user_space_threads.Thread.Yield.{
  restore, switch_to, yield_to, thread_yield, handle_death, exit_to_main, thread_exit, thread_kill,
  admin_mode, thread_yield_resumed, admin_mode_after_kill,
}

abbrev pub Objects : Type 0
Objects = (ℕ → Option Lock) × (ℕ → Option Queue) × (ℕ → Option Cv)

abbrev pub objects : {H : Type 0} → World H → Objects
objects w = (w.locks, w.wait_queues, w.cvs)

-- Where control goes on, the objects are those of `w`.
abbrev pub KeepsObjects : {H : Type 0} → World H → Outcome H → Type 0
KeepsObjects w = Ensures (λ c. objects c.world ≡ objects w)

module _ {H : Type 0} where
  setcontext-KeepsObjects : (c : Context) (w : World H) → KeepsObjects w (setcontext c w)
  unfolding setcontext
  setcontext-KeepsObjects unset w = tt
  setcontext-KeepsObjects (saved mask stack) w = refl

  pub restore-KeepsObjects :
      (s : Bool) (v : Int32) (stack : List Frame) (w : World H)
      → KeepsObjects w (restore s v stack w)
  unfolding interrupts_set
  restore-KeepsObjects true v stack w = refl
  restore-KeepsObjects false v stack w = refl

  switch_to-KeepsObjects :
      (s : Bool) (t : Int32) (stack : List Frame) (w : World H)
      → KeepsObjects w (switch_to s t stack w)
  unfolding switch_to
  switch_to-KeepsObjects s t stack w =
      assert-Ensures _ (not w.enabled) _ (λ a. setcontext-KeepsObjects _ _)

  yield_to-KeepsObjects :
      (s : Bool) (t : Int32) (stack : List Frame) (w : World H)
      → KeepsObjects w (yield_to s t stack w)
  unfolding yield_to
  yield_to-KeepsObjects s t stack w = assert-Ensures _ (not w.enabled) _ (λ a.
      if-Ensures _ (le_signed thread_max_threads t || lt_signed t 0) _ _
        (λ b. restore-KeepsObjects s thread_invalid stack w)
        (λ b.
          if-Ensures _ (state_eq (w.threads t).state destroyed) _ _
            (λ c. restore-KeepsObjects s thread_invalid stack w)
            (λ c. switch_to-KeepsObjects s t stack w)))

  any_loop-objects :
      (fuel : ℕ) (t : Int32) (w : World H) → objects (any_loop fuel t w).1 ≡ objects w
  unfolding any_loop
  any_loop-objects zero t w = refl
  any_loop-objects (suc fuel) t w =
      ground
        (arith, any_loop-objects fuel t (record w { thread_queue = (queue_pop w.thread_queue).1 }))

  -- The objects of a world from which control comes on.
  along :
      (w w' : World H) (o : Outcome H)
      → objects w' ≡ objects w
      → KeepsObjects w' o
      → KeepsObjects w o
  along w w' (ok c) e h = h ∙ e
  along w w' (halt x) e h = tt

  pub thread_yield-KeepsObjects :
      (want : Int32) (stack : List Frame) (w : World H) → KeepsObjects w (thread_yield want stack w)
  unfolding thread_yield get_thread_any
  thread_yield-KeepsObjects want stack w =
      let off : World H = record w { enabled = false } in
      let found = any_loop (suc w.thread_queue.current_size) w.current_thread off in
      let same = any_loop-objects (suc w.thread_queue.current_size) w.current_thread off in
      if-Ensures _ (want == thread_self || want == w.current_thread) _ _
        (λ a. restore-KeepsObjects w.enabled w.current_thread stack off)
        (λ a.
          if-Ensures _ (want == thread_any) _ _
            (λ b.
              if-Ensures _ (found.0 == thread_none) _ _
                (λ c.
                  along w found.1 (restore w.enabled thread_none stack found.1) same
                    (restore-KeepsObjects w.enabled thread_none stack found.1))
                (λ c.
                  along w found.1 (yield_to w.enabled found.0 stack found.1) same
                    (yield_to-KeepsObjects w.enabled found.0 stack found.1)))
            (λ b. yield_to-KeepsObjects w.enabled want stack off))

  handle_death-KeepsObjects :
      (t : Int32) (stack : List Frame) (w : World H) → KeepsObjects w (handle_death t stack w)
  unfolding handle_death
  handle_death-KeepsObjects t stack w =
      let dead : World H = set_state t destroyed (record w { enabled = false }) in
      let waiter = (dead.threads t).waiter in
      if-Ensures _ (waiter == minus 1) _ _ (λ a. restore-KeepsObjects w.enabled 0 stack dead)
        (λ a. assert-Ensures _ (not (state_eq (dead.threads waiter).state running)) _ (λ b.
          if-Ensures _ (state_eq (dead.threads waiter).state sleep) _ _
            (λ c.
              thread_yield-KeepsObjects waiter (in_death w.enabled ∷ stack)
                (set_state waiter running dead))
            (λ c. restore-KeepsObjects w.enabled 0 stack dead)))

  pub exit_to_main-KeepsObjects :
      (code : Int32) (w : World H) → KeepsObjects w (exit_to_main code w)
  unfolding exit_to_main
  exit_to_main-KeepsObjects code w =
      if-Ensures _ (w.current_thread == 0) _ _ (λ z. tt) (λ z. setcontext-KeepsObjects _ _)

  pub thread_exit-KeepsObjects :
      (code : Int32) (stack : List Frame) (w : World H) → KeepsObjects w (thread_exit code stack w)
  unfolding thread_exit
  thread_exit-KeepsObjects code stack w =
      let off : World H = record w { enabled = false } in
      assert-Ensures _ w.enabled _ (λ a.
        if-Ensures _ (w.current_thread == 0) _ _
          (λ b.
            handle_death-KeepsObjects w.current_thread (in_exit_death code ∷ stack)
              (set_exit_code w.current_thread code off))
          (λ b. exit_to_main-KeepsObjects code off))

  pub admin_mode_after_kill-KeepsObjects :
      (stack : List Frame) (w : World H) → KeepsObjects w (admin_mode_after_kill stack w)
  unfolding admin_mode_after_kill
  admin_mode_after_kill-KeepsObjects stack w = assert-Ensures _ (not w.enabled) _ (λ a.
      assert-Ensures _ (not (w.current_thread == 0)) _ (λ b.
        assert-Ensures _ (state_eq (w.threads w.current_thread).state destroyed) _ (λ c.
          thread_yield-KeepsObjects thread_any (Machine.in_admin_yield ∷ stack)
            (record w { administrative_mode = false; thread_to_destroy = minus 1 }))))

module _ {H : Type 0} ⦃al : Allocator H⦄ where
  pub thread_kill-KeepsObjects :
      (tid : Int32) (stack : List Frame) (w : World H) → KeepsObjects w (thread_kill tid stack w)
  unfolding thread_kill
  thread_kill-KeepsObjects tid stack w =
      let refused =
        restore-KeepsObjects w.enabled thread_invalid stack (record w { enabled = false }) in
      if-Ensures _ (tid == w.current_thread && not w.administrative_mode) _ _ (λ a. refused)
        (λ a.
          if-Ensures _ (lt_signed tid 0 || le_signed thread_max_threads tid) _ _ (λ b. refused)
            (λ b.
              if-Ensures _ (state_eq (w.threads tid).state destroyed) _ _ (λ c. refused)
                (λ c.
                  any-Ensures _
                    (if tid == 0 then ok w.heap else al.free369 (w.threads tid).stack_start w.heap)
                    _
                    (λ heap e.
                      handle_death-KeepsObjects tid (in_kill tid w.enabled ∷ stack)
                        (record w { enabled = false; heap = heap; administrative_mode = false })))))

  pub thread_yield_resumed-KeepsObjects :
      (s : Bool) (t : Int32) (stack : List Frame) (w : World H)
      → KeepsObjects w (thread_yield_resumed s t stack w)
  unfolding thread_yield_resumed admin_mode
  thread_yield_resumed-KeepsObjects s t stack w = assert-Ensures _ (not w.enabled) _ (λ a.
      if-Ensures _ w.administrative_mode _ _
        (λ b. assert-Ensures _ (w.current_thread == w.thread_to_destroy) _ (λ c.
          assert-Ensures _ (not w.enabled) _ (λ d.
            assert-Ensures _ (not w.enabled) _
              (λ e. thread_kill-KeepsObjects w.current_thread (Machine.in_admin_kill ∷ stack) w))))
        (λ b. restore-KeepsObjects s t stack w))
