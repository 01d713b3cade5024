-- ===== src/Step/Preempt.antt =====
-- Bounded waiting under preemption: threads go on by their own yields and by the timer's signal, in
-- any order.
mod Switches
pub mod Picks
mod Tests
use user_space_threads.Prelude.{
  ℕ, suc, zero, ◌≤◌, ◌<◌, ◌≡◌, ◌≢◌, refl, sym, subst, Bool, true, false, inl, inr, ◌⊎◌, Bool-cases,
  List, [], ◌∷◌, ◌++◌, Int32, All, length, ok, ◌>>=◌, ◌==◌, ==→ne, ==→eq, ap, ◌∙◌, arith,
}
use user_space_threads.Clock.{Timespec}
use user_space_threads.Queue.{Queue, queue_push}
use user_space_threads.Queue.Refine.{contents}
use user_space_threads.Machine.{
  Context, Frame, saved, in_yield, in_stub, in_handler, running, World, Outcome, thread_any,
}
use user_space_threads.Machine.Objects.{Allocator}
use user_space_threads.Machine.Switch.{setcontext}
use user_space_threads.Interrupt.{set_interrupt, note_time}
use user_space_threads.Thread.{get_thread_any}
use user_space_threads.Thread.Ready.{IsTid, IsReady, get_thread_any-Found, first_ready}
use user_space_threads.Thread.Inv.{Inv, switched, switched-Inv}
use user_space_threads.Thread.Scheduled.{yield-found}
use user_space_threads.Thread.Yield.{
  return, thread_yield, yield_to, switch_to, thread_yield_resumed,
}
use user_space_threads.Step.{step, resume, run, thread_stub, deliver, interrupt_handler}
use user_space_threads.Step.Handler.{timer_after}
use user_space_threads.Step.Fair.{Sooner, push-Sooner, Turn, first_ready-Turn}
use user_space_threads.Step.Preempt.Switches.{
  Goes, turn-Goes, turned, turned-Preemptible, turned-push, turned-current, turned-runs,
}
pub use user_space_threads.Step.Preempt.Switches.{
  Turnover, yields, fires, Paused, Preemptible, turn,
}

module _ {H : Type 0} ⦃al : Allocator H⦄ where
  -- The turnovers in a row: each time the calls that control comes to go on, thread_yield and the
  -- handler, until they have returned.
  unfoldable pub turns : List Turnover → World H → Outcome H
  turns [] w = return 0 [] w
  turns (e ∷ es) w =
      run 2 (turn e w) >>= λ c. elim c.stack [ [] ↦ turns es c.world | f ∷ stack ↦ ok c ]

  -- The thread gets its turn within the turnovers: behind the first few of them control is in its
  -- own code.
  pub record GetsTurn (es : List Turnover) (t : Int32) (w : World H) : Type 0 where
    pub before : List Turnover
    pub after : List Turnover
    pub parts : es ≡ before ++ after
    pub world : World H
    pub returns : turns before w ≡ return 0 [] world
    pub current : world.current_thread ≡ t
    pub preemptible : Preemptible world

  turns-step :
      (e : Turnover) (es : List Turnover) (w w' : World H) {v : Int32}
      → run 2 (turn e w) ≡ return v [] w'
      → turns (e ∷ es) w ≡ turns es w'
  unfolding turns
  turns-step e es w w' r = rw r refl

  -- Threads go on by calls of thread_yield(THREAD_ANY) in their own code and by the timer's signal,
  -- in any order, from a state in which every thread that runs, other than the current one, is
  -- paused: a thread that runs and has `before` entries in front of it in the ready queue gets its
  -- turn within one more turnover than there are such entries, each turnover gives control to the
  -- code of some thread, and the state behind it is such a state again.
  pub turns-GetsTurn :
      (es : List Turnover) (t : Int32) (before after : List Int32) (w : World H)
      → Preemptible w
      → contents w.thread_queue ≡ before ++ t ∷ after
      → (w.threads t).state ≡ running
      → t ≢ w.current_thread
      → length before < length es
      → GetsTurn es t w
  unfolding turns
  turns-GetsTurn [] t before after w o c live ne h = absurd (omega arith)
  turns-GetsTurn (e ∷ es) t before after w o c live ne h =
      let g = turn-Goes e t before after w o c live ne in
      let w' : World H = turned e g.x g.q w in
      let o' : Preemptible w' = turned-Preemptible e g.x g.q w g.ready g.tid o in
      elim (Bool-cases (g.x == t)) [
        | inl same ↦ record {
          before = e ∷ [];
          after = es;
          parts = refl;
          world = w';
          returns = turns-step e [] w w' g.returns;
          current = turned-current e g.x g.q w ∙ ==→eq same;
          preemptible = o';
        }
        | inr other ↦ elim (g.next) [
          | inl eq ↦ absurd (==→ne other eq)
          | inr sooner ↦
              let (b, a, c', h') =
                push-Sooner (length before) t g.q w.current_thread g.ready.valid sooner in
              let later =
                turns-GetsTurn es t b a w' o' (ap contents (turned-push e g.x g.q w) ∙ c')
                  (turned-runs e g.x t g.q w live)
                  (λ z. ==→ne other (sym (z ∙ turned-current e g.x g.q w)))
                  (omega (arith, h', h)) in
              record {
                before = e ∷ later.before;
                after = later.after;
                parts = ap (λ l. e ∷ l) later.parts;
                world = later.world;
                returns = turns-step e later.before w w' g.returns ∙ later.returns;
                current = later.current;
                preemptible = later.preemptible;
              }
        ]
      ]
