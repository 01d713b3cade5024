-- ===== src/Thread/Open.antt =====
-- If threads' own code leaves the signal unblocked, it goes on with the signal unblocked and with no
-- thread about to be destroyed: what is asked of open calls and stored contexts for that, and that
-- thread_yield keeps it.
pub mod Death
use user_space_threads.Prelude.{
  ==→eq, ℕ, zero, suc, ◌≡◌, Bool, true, false, not, ◌||◌, List, ◌∷◌, Int32, le_signed, lt_signed,
  ◌==◌, if◌then◌else◌, arith, Ensures, if-Ensures, assert-Ensures, Bool-cases, inl, inr, [], update,
  subst,
}
use user_space_threads.Queue.{thread_max_threads, queue_pop}
use user_space_threads.Machine
use user_space_threads.Machine.{
  Context, unset, saved, destroyed, Frame, World, Outcome, thread_any, thread_invalid, thread_none,
  thread_self, State, Thread, in_yield,
}
use user_space_threads.Machine.Objects.{state_eq, set_state}
use user_space_threads.Machine.Switch.{setcontext}
use user_space_threads.Interrupt.{interrupts_set}
use user_space_threads.Thread.{get_thread_any, any_loop}
use user_space_threads.Thread.Yield.{restore, switch_to, yield_to, thread_yield}
use user_space_threads.Thread.Masks.{mask_behind}

-- The calls that end a thread: what is below them on the stack is not gone back to.
abbrev never_returns : Frame → Bool
never_returns Machine.in_admin_kill = true
never_returns Machine.in_admin_yield = true
never_returns (Machine.in_exit_death exit_code) = true
never_returns (Machine.in_exit_yield exit_code) = true
never_returns _ = false

-- When control is in the thread's own code behind these calls, with the mask `enabled` if there is
-- none, the signal is unblocked.
abbrev pub Open : List Frame → Bool → Type 0
Open [] enabled = enabled ≡ true
Open (f ∷ stack) enabled = if never_returns f then Unit {0} else Open stack (mask_behind f)

-- The innermost open call is one in which a thread that is to be destroyed goes on.
abbrev pub IsEnding : List Frame → Type 0
IsEnding (Machine.in_yield signal_state actual_tid ∷ stack) = Unit
IsEnding (Machine.in_admin_kill ∷ stack) = Unit
IsEnding _ = ⊥

-- administrative_mode is on in no other call, and not in threads' own code.
abbrev pub FitsMode : List Frame → Bool → Type 0
FitsMode stack mode = mode ≡ true → IsEnding stack

-- A thread that is to be destroyed goes on with the context of thread 0.
abbrev pub OpenContext : Int32 → Context → Type 0
OpenContext t unset = Unit
OpenContext t (saved mask stack) = Open stack mask × (t ≡ 0 → IsEnding stack)

abbrev pub OpenContexts : (Int32 → Thread) → Type 0
OpenContexts threads = (t : Int32) → OpenContext t (threads t).context

-- Outside of the calls that end a thread.
abbrev pub Regular : {H : Type 0} → World H → Type 0
Regular w = OpenContexts w.threads × (w.administrative_mode ≡ false)

-- Where control goes on, it comes back to threads' own code with the signal unblocked.
abbrev pub LeavesOpen : {H : Type 0} → Outcome H → Type 0
LeavesOpen = Ensures (λ c.
    Open c.stack c.world.enabled
    × OpenContexts c.world.threads
    × FitsMode c.stack c.world.administrative_mode)

pub not_on : {mode : Bool} → (mode ≡ true → ⊥) → mode ≡ false
not_on h = ground (arith, h)

pub false-FitsMode : {mode : Bool} (stack : List Frame) → mode ≡ false → FitsMode stack mode
false-FitsMode stack off on = absurd (ground (arith, off, on))

pub set_thread-OpenContexts :
    (t : Int32) (x : Thread) (threads : Int32 → Thread)
    → OpenContext t x.context
    → OpenContexts threads
    → OpenContexts (update threads t x)
set_thread-OpenContexts t x threads h o u = elim (Bool-cases (t == u)) [
  | inl e ↦ rw e (subst (λ v. OpenContext v x.context) (==→eq e) h)
  | inr e ↦ rw e (o u)
]

module _ {H : Type 0} where
  pub setcontext-LeavesOpen :
      (t : Int32) (c : Context) (w : World H)
      → OpenContext t c
      → OpenContexts w.threads
      → (w.administrative_mode ≡ true → t ≡ 0)
      → LeavesOpen (setcontext c w)
  unfolding setcontext
  setcontext-LeavesOpen t unset w h o main = tt
  setcontext-LeavesOpen t (saved mask stack) w h o main = (h.0, o, λ on. h.1 (main on))

  pub restore_fitting-LeavesOpen :
      (s : Bool) (v : Int32) (stack : List Frame) (w : World H)
      → Open stack s
      → OpenContexts w.threads
      → FitsMode stack w.administrative_mode
      → LeavesOpen (restore s v stack w)
  unfolding interrupts_set
  restore_fitting-LeavesOpen true v stack w h o m = (h, o, m)
  restore_fitting-LeavesOpen false v stack w h o m = (h, o, m)

  pub restore-LeavesOpen :
      (s : Bool) (v : Int32) (stack : List Frame) (w : World H)
      → Open stack s
      → Regular w
      → LeavesOpen (restore s v stack w)
  restore-LeavesOpen s v stack w h o =
      restore_fitting-LeavesOpen s v stack w h o.0 (false-FitsMode stack o.1)

  switch_to-LeavesOpen :
      (s : Bool) (t : Int32) (stack : List Frame) (w : World H)
      → Open stack s
      → Regular w
      → LeavesOpen (switch_to s t stack w)
  unfolding switch_to
  switch_to-LeavesOpen s t stack w h o =
      let x : Thread = record (w.threads w.current_thread) {
        context = saved w.enabled (in_yield s t ∷ stack);
      } in
      let stored = set_thread-OpenContexts w.current_thread x w.threads (h, λ z. tt) o.0 in
      assert-Ensures _ (not w.enabled) _ (λ a.
        setcontext-LeavesOpen t _ _ (stored t) stored (λ on. absurd (ground (arith, o.1, on))))

  yield_to-LeavesOpen :
      (s : Bool) (t : Int32) (stack : List Frame) (w : World H)
      → Open stack s
      → Regular w
      → LeavesOpen (yield_to s t stack w)
  unfolding yield_to
  yield_to-LeavesOpen s t stack w h o = assert-Ensures _ (not w.enabled) _ (λ a.
      if-Ensures _ (le_signed thread_max_threads t || lt_signed t 0) _ _
        (λ b. restore-LeavesOpen s thread_invalid stack w h o)
        (λ b.
          if-Ensures _ (state_eq (w.threads t).state destroyed) _ _
            (λ c. restore-LeavesOpen s thread_invalid stack w h o)
            (λ c. switch_to-LeavesOpen s t stack w h o)))

  any_loop-Regular :
      (fuel : ℕ) (t : Int32) (w : World H) → Regular w → Regular (any_loop fuel t w).1
  unfolding any_loop
  any_loop-Regular zero t w o = o
  any_loop-Regular (suc fuel) t w o =
      ground (
        arith,
        any_loop-Regular fuel t (record w { thread_queue = (queue_pop w.thread_queue).1 }) o,
      )

  pub thread_yield-LeavesOpen :
      (want : Int32) (stack : List Frame) (w : World H)
      → Open stack w.enabled
      → Regular w
      → LeavesOpen (thread_yield want stack w)
  unfolding thread_yield get_thread_any
  thread_yield-LeavesOpen want stack w h o =
      let off : World H = record w { enabled = false } in
      let found = any_loop (suc w.thread_queue.current_size) w.current_thread off in
      let o' : Regular found.1 =
        any_loop-Regular (suc w.thread_queue.current_size) w.current_thread off o in
      if-Ensures _ (want == thread_self || want == w.current_thread) _ _
        (λ a. restore-LeavesOpen w.enabled w.current_thread stack off h o)
        (λ a.
          if-Ensures _ (want == thread_any) _ _
            (λ b.
              if-Ensures _ (found.0 == thread_none) _ _
                (λ c. restore-LeavesOpen w.enabled thread_none stack found.1 h o')
                (λ c. yield_to-LeavesOpen w.enabled found.0 stack found.1 h o'))
            (λ b. yield_to-LeavesOpen w.enabled want stack off h o))

  pub set_state-Regular :
      (t : Int32) (s : State) (w : World H) → Regular w → Regular (set_state t s w)
  set_state-Regular t s w o =
      (set_thread-OpenContexts t (record (w.threads t) { state = s }) w.threads (o.0 t) o.0, o.1)
