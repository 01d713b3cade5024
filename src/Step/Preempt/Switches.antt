-- ===== src/Step/Preempt/Switches.antt =====
-- Turnovers of control: a yield or a signal of the timer, up to where a thread goes on in its own
-- code.
use user_space_threads.Prelude.{
  ℕ, ◌≡◌, ◌≢◌, refl, sym, Bool, true, false, inl, inr, ◌⊎◌, Bool-cases, List, [], ◌∷◌, ◌++◌, Int32,
  length, ◌==◌, ==→ne, ap, ◌∙◌, arith,
}
use user_space_threads.Clock.{Timespec}
use user_space_threads.Queue.{Queue, queue_push}
use user_space_threads.Queue.Refine.{contents}
use user_space_threads.Machine.{
  Context, Frame, saved, in_yield, in_stub, in_handler, running, World, Outcome, thread_any,
}
use user_space_threads.Machine.Objects.{Allocator}
use user_space_threads.Machine.Switch.{setcontext}
use user_space_threads.Interrupt.{set_interrupt, note_time}
use user_space_threads.Thread.Ready.{IsTid, IsReady}
use user_space_threads.Thread.Inv.{Inv, switched, switched-Inv}
use user_space_threads.Thread.Yield.{
  return, thread_yield, yield_to, switch_to, thread_yield_resumed,
}
use user_space_threads.Step.{step, resume, run, thread_stub, deliver, interrupt_handler}
use user_space_threads.Step.Handler.{timer_after}
use user_space_threads.Step.Fair.{Sooner}
use user_space_threads.Step.Preempt.Picks.{Picks, thread_yield-Picks}

-- How control leaves a thread's own code: it yields, or the timer's signal comes, at a time that
-- the clock tells.
pub data Turnover : Type 0 where
  yields : Turnover
  fires : Timespec → Turnover

-- A thread that has yielded from its own code, was preempted in it, or has not started. Its signal
-- is unblocked when it goes on.
abbrev pub Paused : Context → Type 0
Paused c =
    ((u : Int32) × (c ≡ saved false (in_yield true u ∷ [])))
    ⊎ ((u : Int32) × (c ≡ saved false (in_yield false u ∷ in_handler ∷ [])))
    ⊎ ((fn : ℕ) × (arg : ℕ) × (c ≡ saved false (in_stub fn arg ∷ [])))

-- The signal is unblocked and the timer runs, and every thread that runs, other than the current
-- one, is paused.
pub record Preemptible {H : Type 0} (w : World H) : Type 0 where
  pub inv : Inv w
  pub mode : w.administrative_mode ≡ false
  pub on : w.enabled ≡ true
  pub ticking : w.timer.usec ≢ 0
  pub paused :
      (t : Int32)
      → (w.threads t).state ≡ running
      → t ≢ w.current_thread
      → Paused (w.threads t).context

-- The open calls behind the thread_yield of a turnover.
abbrev calls : Turnover → List Frame
calls yields = []
calls (fires now) = in_handler ∷ []

module _ {H : Type 0} where
  unfoldable pub turn : Turnover → World H → Outcome H
  turn yields w = thread_yield thread_any [] w
  turn (fires now) w = deliver 0 now w

  -- The world in which a turnover calls thread_yield.
  abbrev left : Turnover → World H → World H
  left yields w = w
  left (fires now) w = record w { enabled = false; timer = timer_after now w.timer }

  turn_lem : (e : Turnover) (w : World H) → turn e w ≡ thread_yield thread_any (calls e) (left e w)
  unfolding turn deliver interrupt_handler note_time set_interrupt
  turn_lem yields w = refl
  turn_lem (fires now) w = elim (Bool-cases w.timer.loud) [ inl e ↦ rw e refl | inr e ↦ rw e refl ]

  -- The world in which `x` goes on behind a turnover, with `q` as the ready queue that it was found
  -- in.
  abbrev pub turned : Turnover → Int32 → Queue → World H → World H
  turned e x q w =
      record (switched (left e w).enabled x (calls e) (record (left e w) { thread_queue = q })) {
        enabled = true;
      }

module _ {H : Type 0} ⦃al : Allocator H⦄ where
  run-yield_to :
      (e : Turnover) (x : Int32) (q : Queue) (w : World H)
      → IsTid x
      → x ≢ w.current_thread
      → (w.threads x).state ≡ running
      → Paused (w.threads x).context
      → w.administrative_mode ≡ false
      → (v : Int32) × (run 2 (
            yield_to
              (left e w).enabled
              x
              (calls e)
              (record (left e w) { enabled = false; thread_queue = q }))
          ≡ return v [] (turned e x q w))
  unfolding run step resume thread_stub yield_to switch_to setcontext thread_yield_resumed
  run-yield_to yields x q w h ne live (inl (u, c)) na = (u, ground arith)
  run-yield_to yields x q w h ne live (inr (inl (u, c))) na = (0, ground arith)
  run-yield_to yields x q w h ne live (inr (inr (fn, arg, c))) na = (0, ground arith)
  run-yield_to (fires now) x q w h ne live (inl (u, c)) na = (u, ground arith)
  run-yield_to (fires now) x q w h ne live (inr (inl (u, c))) na = (0, ground arith)
  run-yield_to (fires now) x q w h ne live (inr (inr (fn, arg, c))) na = (0, ground arith)

  -- What a turnover leads to, for a thread `t` that waits: a thread, `t` or one before it, goes on
  -- in its own code.
  pub record Goes (e : Turnover) (t : Int32) (n : ℕ) (w : World H) : Type 0 where
    pub x : Int32
    pub q : Queue
    pub ready : IsReady q
    pub tid : IsTid x
    pub other : x ≢ w.current_thread
    pub answer : Int32
    pub returns : run 2 (turn e w) ≡ return answer [] (turned e x q w)
    pub next : (x ≡ t) ⊎ Sooner n t (contents q)

  picked-Goes :
      (e : Turnover) {t : Int32} {n : ℕ} (w : World H)
      → Preemptible w
      → (p : Picks (calls e) t n (left e w)) → p.x ≢ w.current_thread
      → (w.threads p.x).state ≡ running
      → Goes e t n w
  picked-Goes e w o p ne live =
      let (v, r) = run-yield_to e p.x p.q w p.tid ne live (o.paused p.x live ne) o.mode in
      record {
        x = p.x;
        q = p.q;
        ready = p.ready;
        tid = p.tid;
        other = ne;
        answer = v;
        returns = ap (run 2) (turn_lem e w ∙ p.picks) ∙ r;
        next = p.next;
      }

  pub turn-Goes :
      (e : Turnover) (t : Int32) (before after : List Int32) (w : World H)
      → Preemptible w
      → contents w.thread_queue ≡ before ++ t ∷ after
      → (w.threads t).state ≡ running
      → t ≢ w.current_thread
      → Goes e t (length before) w
  turn-Goes yields t before after w o c live ne =
      let p = thread_yield-Picks [] t before after w o.inv c live ne in
      picked-Goes yields w o p p.other p.live
  turn-Goes (fires now) t before after w o c live ne =
      let w0 : World H = left (fires now) w in
      let v : Inv w0 = o.inv in
      let p = thread_yield-Picks (in_handler ∷ []) t before after w0 v c live ne in
      picked-Goes (fires now) w o p p.other p.live

  switched-Preemptible :
      (s : Bool) (x : Int32) (stack : List Frame) (q : Queue) (w : World H)
      → IsReady q
      → IsTid x
      → Inv w
      → w.administrative_mode ≡ false
      → w.timer.usec ≢ 0
      → Paused (saved false (in_yield s x ∷ stack))
      → ((t : Int32)
          → (w.threads t).state ≡ running
          → t ≢ w.current_thread
          → Paused (w.threads t).context)
      → Preemptible (record (switched s x stack (record w { thread_queue = q })) { enabled = true })
  switched-Preemptible s x stack q w r h v mode ticking leaves paused = record {
    inv =
        switched-Inv s x stack (record w { thread_queue = q })
          (record {
            ready = r;
            current = v.current;
            waiters = v.waiters;
            contexts = v.contexts;
            main_context = v.main_context;
          })
          h;
    mode = mode;
    on = refl;
    ticking = ticking;
    paused = λ t live ne. elim (Bool-cases (w.current_thread == t)) [
      | inl e ↦ rw e leaves
      | inr e ↦ rw e (paused t (ground (arith, live)) (λ g. ==→ne e (sym g)))
    ];
  }

  pub turned-Preemptible :
      (e : Turnover) (x : Int32) (q : Queue) (w : World H)
      → IsReady q
      → IsTid x
      → Preemptible w
      → Preemptible (turned e x q w)
  turned-Preemptible yields x q w r h o =
      switched-Preemptible w.enabled x [] q w r h o.inv o.mode o.ticking (inl (x, rw (o.on) refl))
        o.paused
  turned-Preemptible (fires now) x q w r h o =
      switched-Preemptible false x (in_handler ∷ []) q (left (fires now) w) r h o.inv o.mode
        (ground arith) (inr (inl (x, refl))) o.paused

  pub turned-push :
      (e : Turnover) (x : Int32) (q : Queue) (w : World H)
      → (turned e x q w).thread_queue ≡ (queue_push q w.current_thread).1
  turned-push yields x q w = refl
  turned-push (fires now) x q w = refl

  pub turned-current :
      (e : Turnover) (x : Int32) (q : Queue) (w : World H) → (turned e x q w).current_thread ≡ x
  turned-current yields x q w = refl
  turned-current (fires now) x q w = refl

  pub turned-runs :
      (e : Turnover) (x t : Int32) (q : Queue) (w : World H)
      → (w.threads t).state ≡ running
      → ((turned e x q w).threads t).state ≡ running
  turned-runs yields x t q w h = ground (arith, h)
  turned-runs (fires now) x t q w h = ground (arith, h)
