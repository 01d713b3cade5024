-- ===== src/Thread/Untouched.antt =====
-- thread_yield leaves the clients' objects and the timer alone, whatever thread goes on.
use user_space_threads.Prelude.{
  ℕ, zero, suc, ◌≡◌, refl, Bool, false, List, Option, Int32, ok, halt, arith,
}
use user_space_threads.Queue.{queue_pop}
use user_space_threads.Machine.{Context, unset, saved, Frame, World, Outcome, Lock, Timer}
use user_space_threads.Machine.Switch.{setcontext}
use user_space_threads.Thread.{get_thread_any, any_loop}
use user_space_threads.Thread.Yield.{thread_yield, yield_to, switch_to}

-- Where control goes on, the locks and the timer are these.
abbrev pub Untouched : {H : Type 0} → (ℕ → Option Lock) × Timer → Outcome H → Type 0
Untouched kept (ok c) = (c.world.locks, c.world.timer) ≡ kept
Untouched kept (halt h) = Unit

abbrev pub kept : {H : Type 0} → World H → (ℕ → Option Lock) × Timer
kept w = (w.locks, w.timer)

module _ {H : Type 0} where
  setcontext-Untouched : (c : Context) (w : World H) → Untouched (kept w) (setcontext c w)
  unfolding setcontext
  setcontext-Untouched unset w = tt
  setcontext-Untouched (saved mask stack) w = refl

  switch_to-Untouched :
      (s : Bool) (t : Int32) (stack : List Frame) (w : World H)
      → Untouched (kept w) (switch_to s t stack w)
  unfolding switch_to setcontext
  switch_to-Untouched s t stack w = ground arith

  yield_to-Untouched :
      (s : Bool) (t : Int32) (stack : List Frame) (w : World H)
      → Untouched (kept w) (yield_to s t stack w)
  unfolding yield_to
  yield_to-Untouched s t stack w = ground (arith, switch_to-Untouched s t stack w)

  any_loop-kept : (fuel : ℕ) (t : Int32) (w : World H) → kept (any_loop fuel t w).1 ≡ kept w
  unfolding any_loop
  any_loop-kept zero t w = refl
  any_loop-kept (suc fuel) t w =
      ground
        (arith, any_loop-kept fuel t (record w { thread_queue = (queue_pop w.thread_queue).1 }))

  pub thread_yield-Untouched :
      (want : Int32) (stack : List Frame) (w : World H)
      → Untouched (kept w) (thread_yield want stack w)
  unfolding thread_yield get_thread_any
  thread_yield-Untouched want stack w =
      let off : World H = record w { enabled = false } in
      let found = any_loop (suc w.thread_queue.current_size) w.current_thread off in
      ground (
        arith,
        yield_to-Untouched w.enabled want stack off,
        yield_to-Untouched w.enabled found.0 stack found.1,
        any_loop-kept (suc w.thread_queue.current_size) w.current_thread off,
      )
