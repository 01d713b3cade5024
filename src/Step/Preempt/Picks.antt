-- ===== src/Step/Preempt/Picks.antt =====
-- Which thread thread_yield(THREAD_ANY) goes to.
use user_space_threads.Prelude.{
  ℕ, ◌≡◌, ◌≢◌, sym, subst, false, ◌⊎◌, List, ◌∷◌, ◌++◌, Int32, All, length, ap, arith,
}
use user_space_threads.Queue.{Queue}
use user_space_threads.Queue.Refine.{contents}
use user_space_threads.Machine.{Frame, running, World, thread_any}
use user_space_threads.Thread.{get_thread_any}
use user_space_threads.Thread.Ready.{IsTid, IsReady, get_thread_any-Found, first_ready}
use user_space_threads.Thread.Inv.{Inv}
use user_space_threads.Thread.Scheduled.{yield-found}
use user_space_threads.Thread.Yield.{thread_yield, yield_to}
use user_space_threads.Step.Fair.{Sooner, Turn, first_ready-Turn}

module _ {H : Type 0} where
  -- What thread_yield(THREAD_ANY) goes to when a thread `t` waits in the ready queue: `t` or a
  -- thread before it.
  pub record Picks (stack : List Frame) (t : Int32) (n : ℕ) (w : World H) : Type 0 where
    pub x : Int32
    pub q : Queue
    pub ready : IsReady q
    pub tid : IsTid x
    pub other : x ≢ w.current_thread
    pub live : (w.threads x).state ≡ running
    pub picks :
        thread_yield thread_any stack w
        ≡ yield_to w.enabled x stack (record w { enabled = false; thread_queue = q })
    pub next : (x ≡ t) ⊎ Sooner n t (contents q)

  pub thread_yield-Picks :
      (stack : List Frame) (t : Int32) (before after : List Int32) (w : World H)
      → Inv w
      → contents w.thread_queue ≡ before ++ t ∷ after
      → (w.threads t).state ≡ running
      → t ≢ w.current_thread
      → Picks stack t (length before) w
  thread_yield-Picks stack t before after w v c live ne =
      let off : World H = record w { enabled = false } in
      let out = get_thread_any w.current_thread off in
      let found = get_thread_any-Found w.current_thread off v.ready in
      let q = out.1.thread_queue in
      let first : Turn w.threads w.current_thread t (length before)
          (first_ready w.threads w.current_thread (contents w.thread_queue)) =
        rw c (
          first_ready-Turn w.threads w.current_thread t before after
            (subst (All IsTid) c v.ready.tids) (ground (arith, live, ne))) in
      let turn : Turn w.threads w.current_thread t (length before) (out.0, contents q) =
        subst (Turn w.threads w.current_thread t (length before)) (sym found.entry) first in
      record {
        x = out.0;
        q = q;
        ready = found.ready;
        tid = turn.tid;
        other = ground (arith, turn.runs);
        live = ground (arith, turn.runs);
        picks =
            yield-found stack out.0 q w v.current turn.tid
              (ap (λ (z : World H). (out.0, z)) found.rest);
        next = turn.next;
      }
