-- ===== src/Step/Handler.antt =====
-- What the timer's signal leaves of the timer.
use user_space_threads.Prelude.{
  refl, Bool, ◌⊎◌, assert_failed, ℕ, ◌+◌, ◌≤◌, ◌≡◌, true, false, [], ◌∷◌, Option, Int32, ok, halt,
  Bool-cases, inl, inr, ◌==◌, ap, if◌then◌else◌,
}
use user_space_threads.Clock.{Timespec, timespec_sub}
use user_space_threads.Clock.Elapsed.{IsTime, total, timespec_sub_lem}
use user_space_threads.Machine
use user_space_threads.Machine.{Timer, Lock, World, Outcome, thread_any}
use user_space_threads.Thread.Yield.{thread_yield}
use user_space_threads.Interrupt.{set_interrupt, sig_interval, note_time}
use user_space_threads.Thread.Untouched.{Untouched, thread_yield-Untouched}
use user_space_threads.Step.{deliver, interrupt_handler}

-- Where control goes on, the timer is this one.
abbrev pub HasTimer : {H : Type 0} → Timer → Outcome H → Type 0
HasTimer timer (ok c) = c.world.timer ≡ timer
HasTimer timer (halt h) = Unit

Untouched-HasTimer :
    {H : Type 0} (locks : ℕ → Option Lock) (t : Timer) (o : Outcome H)
    → Untouched (locks, t) o
    → HasTimer t o
Untouched-HasTimer locks t (ok c) h = ap (λ x. x.1) h
Untouched-HasTimer locks t (halt e) h = tt

-- The timer as a handler that is called at `now` leaves it: running again, and if the handler is
-- loud, with the time of this message and the difference to the last one.
abbrev pub timer_after : Timespec → Timer → Timer
timer_after now t =
    if t.loud
    then record t {
      usec = sig_interval;
      first = false;
      start = now;
      end = now;
      diff = (if t.first then t.diff else timespec_sub now t.start);
    }
    else record t { usec = sig_interval }

module _ {H : Type 0} where
  -- The delivery is a yield with the signal blocked and the timer running again, unless a loud
  -- handler cannot read the clock.
  pub deliver-yields :
      (ret : Int32) (now : Timespec) (w : World H)
      → (deliver ret now w
          ≡ thread_yield thread_any
              (Machine.in_handler ∷ [])
              (record w { enabled = false; timer = timer_after now w.timer }))
        ⊎ (deliver ret now w ≡ halt assert_failed)
  unfolding deliver interrupt_handler note_time set_interrupt
  deliver-yields ret now w = go w.timer.loud refl
    where
      go :
          (b : Bool)
          → w.timer.loud ≡ b
          → (deliver ret now w
              ≡ thread_yield thread_any
                  (Machine.in_handler ∷ [])
                  (record w { enabled = false; timer = timer_after now w.timer }))
            ⊎ (deliver ret now w ≡ halt assert_failed)
      go true e = elim (Bool-cases (ret == 0)) [
        | inl z ↦ inl (rw (e, z) refl)
        | inr z ↦ inr (rw (e, z) refl)
      ]
      go false e = inl (rw e refl)

  -- The delivery of the signal runs the one-shot timer again for the next interval, whatever thread
  -- goes on. A loud handler notes the time, and from its second message on the difference to the
  -- one before; a quiet one leaves the times alone.
  pub deliver-HasTimer :
      (ret : Int32) (now : Timespec) (w : World H)
      → HasTimer (timer_after now w.timer) (deliver ret now w)
  deliver-HasTimer ret now w = elim (deliver-yields ret now w) [
    | inl e ↦ rw e (
        Untouched-HasTimer w.locks _ _
          (thread_yield-Untouched thread_any (Machine.in_handler ∷ []) _))
    | inr e ↦ rw e tt
  ]

-- Two loud messages in a row, the second at a later time: the difference that the handler keeps is
-- the time between them.
pub timer_after-twice :
    (a b : Timespec) (t : Timer)
    → t.loud ≡ true
    → IsTime a
    → IsTime b
    → total a ≤ total b
    → let diff = (timer_after b (timer_after a t)).diff in
      IsTime diff × (total diff + total a ≡ total b)
timer_after-twice a b t loud ta tb h = rw loud (timespec_sub_lem b a tb ta h)
