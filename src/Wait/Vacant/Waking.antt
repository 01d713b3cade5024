-- ===== src/Wait/Vacant/Waking.antt =====
-- What thread_wakeup leaves in the wait queue, and that it leaves the locks alone.
use user_space_threads.Prelude.{
  ℕ, zero, suc, ◌<◌, ◌≡◌, ◌≢◌, refl, ap, subst, sym, ◌∙◌, Bool, true, false, not, inl, inr,
  Bool-cases, [], ◌∷◌, none, some, Int32, ok, ◌==◌, ==_of_ne, arith, add_int, All, Ensures,
  bind-Ensures, assert-Ensures, map-Ensures, length, ==→eq, ==→ne,
}
use user_space_threads.Queue.{Queue, queue_pop, err_empty}
use user_space_threads.Queue.Refine.{contents, length-window, queue_pop-Popped}
use user_space_threads.Machine.{World, sleep, running}
use user_space_threads.Machine.Objects.{state_eq, set_wait_queue, deref-Ensures}
use user_space_threads.Interrupt.{interrupts_set}
use user_space_threads.Thread.Ready.{IsTid, IsReady}
use user_space_threads.Thread.Masks.{AllReady}
use user_space_threads.Thread.Objects.{Objects, objects}
use user_space_threads.Wait.{wakeup_loop, thread_wakeup}
use user_space_threads.Wait.Wakeup.{woken}
use user_space_threads.Wait.Vacant.{Vacant}

-- What the loop of thread_wakeup leaves: the objects, apart from the queue that it was given; that
-- queue stays empty if it was, and is emptied if all are to be woken.
record Drained {H : Type 0} (all : Int32) (q : Queue) (w : World H) (a : Int32 × Queue × World H)
    : Type 0 where
  pub same : objects a.2 ≡ objects w
  pub stays : q.current_size ≡ 0 → a.1.current_size ≡ 0
  pub empties : all ≢ 0 → a.1.current_size ≡ 0

no_entry : (q : Queue) → contents q ≡ [] → q.current_size ≡ 0
no_entry q e = sym (length-window q.threads q.start q.current_size) ∙ ap length e

pop-no_entry : (q : Queue) → q.current_size ≡ 0 → (queue_pop q).1.current_size ≡ 0
unfolding queue_pop
pop-no_entry q e = ground arith

-- What thread_wakeup leaves of the objects: all but its queue. That queue stays empty if it was,
-- and is emptied if all are to be woken.
pub record Roused (all : Int32) (queue : ℕ) (o o' : Objects) : Type 0 where
  pub locks : o'.0 ≡ o.0
  pub cvs : o'.2 ≡ o.2
  pub others : (at : ℕ) → at ≢ queue → o'.1 at ≡ o.1 at
  pub lives : (at : ℕ) → o'.1 at ≡ none → o.1 at ≡ none
  pub gone : (at : ℕ) → o.1 at ≡ none → o'.1 at ≡ none
  pub stays :
      (q' : Queue)
      → o'.1 queue ≡ some q'
      → (q : Queue) × (o.1 queue ≡ some q) × (q.current_size ≡ 0 → q'.current_size ≡ 0)
  pub empties : queue ≢ 0 → all ≢ 0 → (q' : Queue) → o'.1 queue ≡ some q' → q'.current_size ≡ 0

some-eq : {q q' : Queue} → some q ≡ some q' → q.current_size ≡ q'.current_size
some-eq e = cc

module _ {H : Type 0} where
  step-Drained :
      {all : Int32} {q q' : Queue} {w w' : World H}
      → q.current_size ≢ 0
      → objects w' ≡ objects w
      → (a : Int32 × Queue × World H) → Drained all q' w' a
      → Drained all q w a
  step-Drained ne e a d = record {
    same = d.same ∙ e;
    stays = λ z. absurd (ne z);
    empties = d.empties;
  }

  wakeup_loop-Drained :
      (fuel : ℕ) (all num : Int32) (q : Queue) (w : World H)
      → IsReady q
      → q.current_size < fuel
      → Ensures (Drained all q w) (wakeup_loop fuel all num q w)
  unfolding wakeup_loop
  wakeup_loop-Drained zero all num q w r h = absurd (omega arith)
  wakeup_loop-Drained (suc fuel) all num q w r h = elim (queue_pop-Popped r.valid) [
    | inl (e, c) ↦
        rw (wakeup_loop, e)
          (record {
            same = refl;
            stays = λ z. pop-no_entry q (no_entry q c);
            empties = λ z. pop-no_entry q (no_entry q c);
          })
    | inr (x, q', e, c, v, s) ↦
        let t : All IsTid (x ∷ contents q') = subst (All IsTid) c r.tids in
        let q'-ready : IsReady q' = record { valid = v; tids = t.1 } in
        let no_err : (x == err_empty) ≡ false = ==_of_ne (omega (arith, t.0)) in
        let next = wakeup_loop-Drained fuel all num q' w q'-ready (omega (arith, s, h)) in
        let again : (u : World H)
            → objects u ≡ objects w
            → (a : Int32 × Queue × World H) → Drained all q' u a
            → Drained all q w a =
          (λ (u : World H).
            step-Drained {all = all} {q = q} {q' = q'} {w = w} {w' = u} (omega (arith, s))) in
        elim (Bool-cases (state_eq (w.threads x).state sleep)) [
          | inl a ↦
              let next_woke =
                wakeup_loop-Drained fuel all (add_int num 1) q' (woken x w) q'-ready
                  (omega (arith, s, h)) in
              elim (Bool-cases (all == 0)) [
                | inl z ↦
                    let round : wakeup_loop (suc fuel) all num q w
                        ≡ ok (add_int num 1, q', woken x w) =
                      ground arith in
                    subst (Ensures (Drained all q w)) (sym round) (record {
                      same = refl;
                      stays = λ y. absurd (omega (arith, s, y));
                      empties = λ y. absurd (y (==→eq z));
                    })
                | inr z ↦
                    let round : wakeup_loop (suc fuel) all num q w
                        ≡ wakeup_loop fuel all (add_int num 1) q' (woken x w) =
                      ground arith in
                    subst (Ensures (Drained all q w)) (sym round) (
                      map-Ensures (wakeup_loop fuel all (add_int num 1) q' (woken x w))
                        (again (woken x w) refl) next_woke)
              ]
          | inr a ↦
              rw (wakeup_loop, e, no_err, e, a, e)
                (assert-Ensures (Drained all q w) (not (state_eq (w.threads x).state running))
                  (wakeup_loop fuel all num q' w)
                  (λ b. map-Ensures (wakeup_loop fuel all num q' w) (again w refl) next))
        ]
  ]

  interrupts_set-objects : (s : Bool) (w : World H) → objects (interrupts_set s w).1 ≡ objects w
  unfolding interrupts_set
  interrupts_set-objects true w = refl
  interrupts_set-objects false w = refl

  Drained-Roused :
      (all : Int32) (queue : ℕ) (q q' : Queue) (w w' : World H) (num : Int32)
      → w.wait_queues queue ≡ some q
      → Drained all q w (num, q', w')
      → Roused all queue (objects w) (objects (set_wait_queue queue q' w'))
  Drained-Roused all queue q q' w w' num live d = record {
    locks = ap (λ (o : Objects). o.0) d.same;
    cvs = ap (λ (o : Objects). o.2) d.same;
    lives = λ at e. ground (arith, e, ap (λ (o : Objects). o.1 at) d.same, live);
    gone = λ at e. ground (arith, e, ap (λ (o : Objects). o.1 at) d.same, live);
    others = λ at ne. ground (arith, ap (λ (o : Objects). o.1 at) d.same, ne);
    stays = λ r there. (q, live, λ z. ground (arith, there, d.stays z));
    empties = λ ne some_all r there. ground (arith, there, d.empties some_all);
  }

  pub thread_wakeup-Roused :
      (queue : ℕ) (all : Int32) (w : World H)
      → AllReady w.wait_queues
      → Ensures (λ a. Roused all queue (objects w) (objects a.1)) (thread_wakeup queue all w)
  unfolding thread_wakeup
  thread_wakeup-Roused queue all w ready = elim (Bool-cases (queue == 0)) [
    | inl e ↦
        rw (thread_wakeup, e)
          (record {
            locks = refl;
            cvs = refl;
            others = λ at ne. refl;
            lives = λ at e'. e';
            gone = λ at e'. e';
            stays = λ q there. (q, there, λ z. z);
            empties = λ ne. absurd (ne (==→eq e));
          })
    | inr e ↦
        let off : World H = record w { enabled = false } in
        rw (thread_wakeup, e)
          (deref-Ensures _ (w.wait_queues queue) _ (λ q live.
            bind-Ensures _ (Drained all q off) (wakeup_loop (suc q.current_size) all 0 q off) _
              (wakeup_loop-Drained (suc q.current_size) all 0 q off (ready queue q live)
                (omega arith))
              (λ a e' d.
                subst (Roused all queue (objects w))
                  (sym (interrupts_set-objects w.enabled (set_wait_queue queue a.1 a.2)))
                  (Drained-Roused all queue q a.1 off a.2 a.0 live d))))
  ]

  pub Roused-Vacant :
      (p : ℕ) (all : Int32) (queue : ℕ) (w w' : World H)
      → Roused all queue (objects w) (objects w')
      → Vacant p w
      → Vacant p w'
  Roused-Vacant p all queue w w' r v l q' live free there = elim (Bool-cases (l.queue == queue)) [
    | inl e ↦
        let (q, was, stays) = r.stays q' (ground (arith, there, e)) in
        stays (v l q (cc (r.locks, live)) free (ground (arith, was, e)))
    | inr e ↦ v l q' (cc (r.locks, live)) free (cc (r.others l.queue (==→ne e), there))
  ]

  pub thread_wakeup-Vacant :
      (p queue : ℕ) (all : Int32) (w : World H)
      → AllReady w.wait_queues
      → Vacant p w
      → Ensures (λ a. Vacant p a.1) (thread_wakeup queue all w)
  thread_wakeup-Vacant p queue all w ready v =
      map-Ensures (thread_wakeup queue all w) (λ a r. Roused-Vacant p all queue w a.1 r v)
        (thread_wakeup-Roused queue all w ready)
