-- ===== src/Thread/Safe.antt =====
-- Every function of Thread/Yield keeps the invariant and never jumps to an unset context, but for
-- the exit of thread 0 when nothing else can run, which needs the context of thread 0.
use user_space_threads.Prelude.{◌≡◌, ◌≢◌, refl, false, ◌⊎◌, inl, List, [], ◌∷◌, Int32, arith}
use user_space_threads.Machine
use user_space_threads.Machine.{
  State, destroyed, running, sleep, Frame, in_death, World, Outcome, thread_any, thread_none,
}
use user_space_threads.Machine.Objects.{set_state, set_waiter, set_exit_code}
use user_space_threads.Thread.{get_thread_any}
use user_space_threads.Thread.Ready.{IsTid, get_thread_any-Found, first_ready}
use user_space_threads.Thread.Inv.{Inv, IsSafe, yield_to-IsSafe, get_thread_any-Inv}
use user_space_threads.Thread.Yield.{thread_yield}
use user_space_threads.Queue.Refine.{contents}

first_ready-ne :
    (threads : Int32 → Machine.Thread) (cur : Int32) (xs : List Int32)
    → ((first_ready threads cur xs).0 ≡ thread_none) ⊎ ((first_ready threads cur xs).0 ≢ cur)
unfolding first_ready
first_ready-ne threads cur [] = inl refl
first_ready-ne threads cur (x ∷ xs) = ground (arith, first_ready-ne threads cur xs)

module _ {H : Type 0} where
  -- From a world with the invariant, thread_yield keeps it where control goes on, whatever thread is
  -- asked for, and never loads a context in which nothing was stored.
  pub thread_yield-IsSafe :
      (want : Int32) (stack : List Frame) (w : World H) → Inv w → IsSafe (thread_yield want stack w)
  unfolding thread_yield
  thread_yield-IsSafe want stack w v =
      let off : World H = record w { enabled = false } in
      let found = get_thread_any-Found w.current_thread off v.ready in
      ground (
        arith,
        yield_to-IsSafe w.enabled want stack off v,
        first_ready-ne w.threads w.current_thread (contents w.thread_queue),
        found.entry,
        found.rest,
        get_thread_any-Inv w.current_thread off v,
        yield_to-IsSafe w.enabled (get_thread_any w.current_thread off).0 stack
            (get_thread_any w.current_thread off).1,
      )

  -- A thread's state may change, unless a dead thread with no context comes to life.
  pub set_state-Inv :
      (t : Int32) (s : State) (w : World H)
      → Inv w
      → (s ≡ destroyed) ⊎ ((w.threads t).state ≢ destroyed) ⊎ (t ≡ w.current_thread)
      → Inv (set_state t s w)
  set_state-Inv t s w v h = record {
    ready = v.ready;
    current = v.current;
    waiters = λ u. ground (arith, v.waiters u, v.waiters t);
    contexts = λ u ne live. ground (arith, v.contexts u ne, h);
    main_context = λ ne. ground (arith, v.main_context);
  }

  pub set_waiter-Inv : (t u : Int32) (w : World H) → Inv w → IsTid u → Inv (set_waiter t u w)
  set_waiter-Inv t u w v h = record {
    ready = v.ready;
    current = v.current;
    waiters = λ x. ground (arith, v.waiters x);
    contexts = λ x ne live. ground (arith, v.contexts x ne);
    main_context = λ ne. ground (arith, v.main_context);
  }

  pub set_exit_code-Inv : (t c : Int32) (w : World H) → Inv w → Inv (set_exit_code t c w)
  set_exit_code-Inv t c w v = record {
    ready = v.ready;
    current = v.current;
    waiters = λ x. ground (arith, v.waiters x, v.waiters t);
    contexts = λ x ne live. ground (arith, v.contexts x ne);
    main_context = λ ne. ground (arith, v.main_context);
  }
