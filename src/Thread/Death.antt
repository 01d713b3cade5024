-- ===== src/Thread/Death.antt =====
-- Dying keeps the invariant: handle_death, thread_kill, admin_mode and thread_exit.
use user_space_threads.Prelude.{
  ◌≢◌, ==_of_ne, ℕ, refl, Bool, false, inl, List, ◌∷◌, Int32, Result, ok, halt, minus, arith,
  assert_failed, exit_with, bad_pointer, bad_context, ◌>>=◌,
}
use user_space_threads.Machine
use user_space_threads.Machine.{
  State, destroyed, running, sleep, Frame, in_death, in_kill, in_admin_kill, in_exit_death, World,
  Outcome, Control, thread_any, thread_none,
}
use user_space_threads.Machine.Objects.{set_state, set_exit_code, Allocator}
use user_space_threads.Thread.Inv.{Inv, IsSafe, setcontext-IsSafe}
use user_space_threads.Thread.Safe.{thread_yield-IsSafe, set_state-Inv, set_exit_code-Inv}
use user_space_threads.Thread.Yield.{
  handle_death, exit_to_main, thread_exit, thread_kill, admin_mode, thread_yield_resumed,
  admin_mode_after_kill,
}

module _ {H : Type 0} where
  pub handle_death-IsSafe :
      (t : Int32) (stack : List Frame) (w : World H) → Inv w → IsSafe (handle_death t stack w)
  unfolding handle_death
  handle_death-IsSafe t stack w v =
      let dead : World H = set_state t destroyed (record w { enabled = false }) in
      let waiter = (dead.threads t).waiter in
      let dead_inv : Inv dead =
        set_state-Inv t destroyed (record w { enabled = false }) v (inl refl) in
      ground (
        arith,
        dead_inv,
        set_state-Inv waiter running dead dead_inv,
        thread_yield-IsSafe waiter (in_death w.enabled ∷ stack) (set_state waiter running dead),
      )

  pub exit_to_main-IsSafe :
      (code : Int32) (w : World H) → Inv w → w.current_thread ≢ 0 → IsSafe (exit_to_main code w)
  unfolding exit_to_main
  exit_to_main-IsSafe code w v nz = rw (==_of_ne nz) (
      setcontext-IsSafe _ _ (ground (arith, v.main_context nz))
        (set_exit_code-Inv w.current_thread code w v))

  -- From a world with the invariant, thread_exit keeps it where control goes on, and never jumps to
  -- a context in which nothing was stored.
  pub thread_exit-IsSafe :
      (code : Int32) (stack : List Frame) (w : World H) → Inv w → IsSafe (thread_exit code stack w)
  unfolding thread_exit
  thread_exit-IsSafe code stack w v =
      let off : World H = record w { enabled = false } in
      ground (
        arith,
        handle_death-IsSafe w.current_thread (in_exit_death code ∷ stack)
            (set_exit_code w.current_thread code off)
            (set_exit_code-Inv w.current_thread code off v),
        exit_to_main-IsSafe code off v,
      )

  pub admin_mode_after_kill-IsSafe :
      (stack : List Frame) (w : World H) → Inv w → IsSafe (admin_mode_after_kill stack w)
  unfolding admin_mode_after_kill
  admin_mode_after_kill-IsSafe stack w v = ground (
    arith,
    thread_yield-IsSafe thread_any (Machine.in_admin_yield ∷ stack)
        (record w { administrative_mode = false; thread_to_destroy = minus 1 }),
  )

-- An allocator whose calls end the process in other ways than by a jump to an unset context.
abbrev pub NoBadContext : {A : Type 0} → Result A → Type 0
NoBadContext (ok a) = Unit
NoBadContext (halt bad_context) = ⊥
NoBadContext (halt _) = Unit

abbrev pub IsFreeSafe : {H : Type 0} → Allocator H → Type 0
IsFreeSafe {H} al = (p : ℕ) (h : H) → NoBadContext (al.free369 p h)

abbrev pub IsMallocSafe : {H : Type 0} → Allocator H → Type 0
IsMallocSafe {H} al = (size : ℕ) (h : H) → NoBadContext (al.malloc369 size h)

pub bind-IsSafe :
    {A H : Type 0} (m : Result A) (f : A → Outcome H)
    → NoBadContext m
    → ((a : A) → IsSafe (f a))
    → IsSafe (m >>= f)
bind-IsSafe (ok a) f h k = k a
bind-IsSafe (halt assert_failed) f h k = tt
bind-IsSafe (halt (exit_with code)) f h k = tt
bind-IsSafe (halt bad_pointer) f h k = tt
bind-IsSafe (halt bad_context) f h k = h

module _ {H : Type 0} ⦃al : Allocator H⦄ (free_safe : IsFreeSafe al) where
  -- thread_kill keeps the invariant and never jumps to an unset context, if free369 does not.
  pub thread_kill-IsSafe :
      (tid : Int32) (stack : List Frame) (w : World H) → Inv w → IsSafe (thread_kill tid stack w)
  unfolding thread_kill
  thread_kill-IsSafe tid stack w v = ground (
    arith,
    killed w.heap,
    bind-IsSafe (al.free369 (w.threads tid).stack_start w.heap) kill
        (free_safe (w.threads tid).stack_start w.heap) killed,
  )
    where
      kill : H → Outcome H
      kill heap =
          handle_death tid (in_kill tid w.enabled ∷ stack)
            (record w { enabled = false; heap = heap; administrative_mode = false })

      killed : (heap : H) → IsSafe (kill heap)
      killed heap = handle_death-IsSafe tid (in_kill tid w.enabled ∷ stack) _ v

  -- A thread that is loaded again goes on safely, also as the undertaker of an exited thread.
  pub thread_yield_resumed-IsSafe :
      (s : Bool) (t : Int32) (stack : List Frame) (w : World H)
      → Inv w
      → IsSafe (thread_yield_resumed s t stack w)
  unfolding thread_yield_resumed admin_mode
  thread_yield_resumed-IsSafe s t stack w v =
      ground (arith, thread_kill-IsSafe w.current_thread (Machine.in_admin_kill ∷ stack) w)
