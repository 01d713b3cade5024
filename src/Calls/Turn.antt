-- ===== src/Calls/Turn.antt =====
-- Bounded waiting from the state that a process has reached.
use user_space_threads.Prelude.{
  ◌≤◌, ◌≡◌, ◌≢◌, sym, ap, true, false, inl, inr, Bool-cases, List, [], ◌∷◌, ◌++◌, length,
  length-append, Int32, ◌==◌, ==→eq, ==→ne, arith,
}
use mathlib.Core.List.{Mem, Mem-prop, not-mem-nil, eq-or-mem_of_mem-cons}
use mathlib.Core.Logic.Or
use user_space_threads.Queue.Refine.{contents, length-window}
use user_space_threads.Machine.{Control, running}
use user_space_threads.Machine.Objects.{Allocator}
use user_space_threads.Thread.Death.{IsMallocSafe, IsFreeSafe}
use user_space_threads.Step.Preempt.{Turnover, Paused, GetsTurn, turns-GetsTurn}
use user_space_threads.Calls.{Reached}
use user_space_threads.Calls.Reach.{Reached-Calm}
use user_space_threads.Calls.Open.{AlwaysUnblocks, Reached-CanFire, Reached-mode}
use user_space_threads.Calls.Scheduled.{AlwaysRoom, Reached-Scheduled}

-- Where an entry stands in a list.
abbrev Place : Int32 → List Int32 → Type 0
Place t xs = (before : List Int32) × (after : List Int32) × (xs ≡ before ++ t ∷ after)

place : (t : Int32) (xs : List Int32) → Mem t xs → Place t xs
place t [] m = absurd (not-mem-nil m)
place t (x ∷ xs) m = elim (Bool-cases (t == x)) [
  | inl e ↦ ([], xs, ap (λ y. y ∷ xs) (sym (==→eq e)))
  | inr e ↦
      behind x
        (place t xs (Or.elim Mem-prop (eq-or-mem_of_mem-cons m) (λ g. absurd (==→ne e g)) (λ k. k)))
]
  where
    behind : {xs : List Int32} (x : Int32) → Place t xs → Place t (x ∷ xs)
    behind x (b, a, e) = (x ∷ b, a, ap (λ l. x ∷ l) e)

module _ {H : Type 0} ⦃al : Allocator H⦄ (malloc_safe : IsMallocSafe al)
    (free_safe : IsFreeSafe al) where
  -- In a state that the process reaches, if the ready queue had room before each move,
  -- administrative_mode is off, the signal is unblocked with the timer running, and every thread
  -- that runs, other than the current one, is paused in its own code, then each such thread gets its
  -- turn within as many turnovers, by yields or by the signal in any order, as the ready queue has
  -- entries. It is asked of malloc369 and free369 that they do not jump to an unset context.
  Reached-GetsTurn :
      (c : Control H) (r : Reached c) (es : List Turnover) (t : Int32)
      → AlwaysRoom r
      → c.world.administrative_mode ≡ false
      → c.world.enabled ≡ true
      → c.world.timer.usec ≢ 0
      → ((u : Int32)
          → (c.world.threads u).state ≡ running
          → u ≢ c.world.current_thread
          → Paused (c.world.threads u).context)
      → (c.world.threads t).state ≡ running
      → t ≢ c.world.current_thread
      → c.world.thread_queue.current_size ≤ length es
      → GetsTurn es t c.world
  Reached-GetsTurn c r es t room mode on ticking paused live ne h =
      let w = c.world in
      let (before, after, e) =
        place t (contents w.thread_queue)
          (Reached-Scheduled malloc_safe free_safe c r room t live ne) in
      turns-GetsTurn es t before after w
        (record {
          inv = (Reached-Calm malloc_safe free_safe c r).0;
          mode = mode;
          on = on;
          ticking = ticking;
          paused = paused;
        })
        e live ne
        (omega (
          arith,
          h,
          length-window w.thread_queue.threads w.thread_queue.start w.thread_queue.current_size,
          ap length e,
          length-append before (t ∷ after),
        ))

  -- Nobody starves: in a state that the process reaches and in which control is in a thread's own
  -- code and the handler is registered, if the ready queue had room before each move, no thread has
  -- blocked the signal by interrupts_set or interrupts_off, and every thread that runs, other than
  -- the current one, is paused in its own code, then each such thread gets its turn within as many
  -- turnovers, by yields or by the signal in any order, as the ready queue has entries. It is asked
  -- of malloc369 and free369 that they do not jump to an unset context.
  pub Reached-CanFire-GetsTurn :
      (c : Control H) (r : Reached c) (es : List Turnover) (t : Int32)
      → AlwaysRoom r
      → AlwaysUnblocks r
      → c.stack ≡ []
      → c.world.timer.registered ≡ true
      → ((u : Int32)
          → (c.world.threads u).state ≡ running
          → u ≢ c.world.current_thread
          → Paused (c.world.threads u).context)
      → (c.world.threads t).state ≡ running
      → t ≢ c.world.current_thread
      → c.world.thread_queue.current_size ≤ length es
      → GetsTurn es t c.world
  Reached-CanFire-GetsTurn c r es t room unblocks own registered =
      let (on, ticking) = Reached-CanFire malloc_safe free_safe c r unblocks own registered in
      Reached-GetsTurn c r es t room (Reached-mode c r unblocks own) on ticking
