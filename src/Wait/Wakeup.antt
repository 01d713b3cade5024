-- ===== src/Wait/Wakeup.antt =====
-- thread_wakeup against the list of entries: first in, first out.
use user_space_threads.Prelude.{
  ℕ, zero, suc, ◌<◌, ◌≡◌, ◌≢◌, subst, false, inl, inr, List, [], ◌∷◌, Int32, Result, ok, arith,
  add_int, All, ◌++◌, some,
}
use user_space_threads.Queue.{Queue, queue_push}
use user_space_threads.Queue.Refine.{contents, queue_pop-Popped}
use user_space_threads.Machine.{destroyed, running, sleep, World}
use user_space_threads.Machine.Objects.{set_state, set_wait_queue}
use user_space_threads.Thread.Ready.{IsTid, IsReady}
use user_space_threads.Wait.{wakeup_loop, thread_wakeup}

-- The world in which `id` has been woken: it runs, and stands at the end of the ready queue.
abbrev pub woken : {H : Type 0} → Int32 → World H → World H
woken id w = record (set_state id running w) { thread_queue = (queue_push w.thread_queue id).1 }

-- What the loop leaves: its count, the entries left in the wait queue, and the world.
pub record Woke {H : Type 0} (num : Int32) (rest : List Int32) (w : World H)
    (out : Result (Int32 × Queue × World H)) : Type 0 where
  pub queue : Queue
  pub answer : out ≡ ok (num, queue, w)
  pub entries : contents queue ≡ rest

module _ {H : Type 0} where
  -- With `all` = 0 the loop passes over the entries of dead threads, wakes the first thread that
  -- sleeps, and leaves the entries behind it.
  pub wakeup_loop-one :
      (dead rest : List Int32) (id : Int32) (fuel : ℕ) (num : Int32) (q : Queue) (w : World H)
      → IsReady q
      → contents q ≡ dead ++ id ∷ rest
      → All (λ t. (w.threads t).state ≡ destroyed) dead
      → (w.threads id).state ≡ sleep
      → q.current_size < fuel
      → Woke (add_int num 1) rest (woken id w) (wakeup_loop fuel 0 num q w)
  unfolding wakeup_loop
  wakeup_loop-one dead rest id zero num q w r c d s h = absurd (omega arith)
  wakeup_loop-one [] rest id (suc fuel) num q w r c d s h = elim (queue_pop-Popped r.valid) [
    | inl (e, c') ↦ absurd (nonempty c')
    | inr (x, q', e, c', v, k) ↦
        let t : All IsTid (x ∷ contents q') = subst (All IsTid) c' r.tids in
        let ex : x ≡ id = cc (c, c') in
        record { queue = q'; answer = ground arith; entries = cc (c, c') }
  ]
    where
      nonempty : contents q ≡ [] → ⊥
      nonempty e = cc
  wakeup_loop-one (t ∷ dead) rest id (suc fuel) num q w r c d s h =
      elim (queue_pop-Popped r.valid) [
        | inl (e, c') ↦ absurd (nonempty c')
        | inr (x, q', e, c', v, k) ↦
            let ts : All IsTid (x ∷ contents q') = subst (All IsTid) c' r.tids in
            let ex : x ≡ t = cc (c, c') in
            let er : contents q' ≡ dead ++ id ∷ rest = cc (c, c') in
            let q'-ready : IsReady q' = record { valid = v; tids = ts.1 } in
            let next = wakeup_loop-one dead rest id fuel num q' w q'-ready er d.1 s (omega arith) in
            record {
              queue = next.queue;
              answer = ground (arith, next.answer);
              entries = next.entries;
            }
      ]
    where
      nonempty : contents q ≡ [] → ⊥
      nonempty e = cc

  -- On a valid queue whose first entry that is not dead is a thread asleep, thread_wakeup(queue, 0)
  -- passes over the dead threads, wakes the thread that sleeps longest in the
  -- queue and answers 1: that thread runs and stands at the end of the ready queue, and the entries
  -- behind it stay in the wait queue. The mask is as it was.
  pub thread_wakeup-one :
      (dead rest : List Int32) (id : Int32) (queue : ℕ) (q : Queue) (w : World H)
      → queue ≢ 0
      → w.wait_queues queue ≡ some q
      → IsReady q
      → contents q ≡ dead ++ id ∷ rest
      → All (λ t. (w.threads t).state ≡ destroyed) dead
      → (w.threads id).state ≡ sleep
      → (q' : Queue) × (thread_wakeup queue 0 w ≡ ok (1, set_wait_queue queue q' (woken id w)))
        × (contents q' ≡ rest)
  unfolding thread_wakeup
  thread_wakeup-one dead rest id queue q w nz live r c d s =
      let woke =
        wakeup_loop-one dead rest id (suc q.current_size) 0 q (record w { enabled = false }) r c d s
          (omega arith) in
      (woke.queue, ground (arith, woke.answer), woke.entries)
