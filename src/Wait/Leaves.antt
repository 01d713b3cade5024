-- ===== src/Wait/Leaves.antt =====
-- Waking keeps everything that a client relies on. A function that cannot switch gives back a
-- world, in which the calling thread goes on.
use user_space_threads.Prelude.{
  ℕ, zero, suc, ◌≡◌, refl, subst, Bool, true, false, List, ◌∷◌, Option, some, none, Int32, Result,
  ok, halt, assert_failed, exit_with, bad_pointer, bad_context, arith, inl, inr, All, Bool-cases,
  ◌>>=◌, ◌>>◌, ◌==◌, ==_of_ne, assert, add_int,
}
use user_space_threads.Queue.{Queue, err_empty}
use user_space_threads.Queue.Refine.{contents, queue_pop-Popped}
use user_space_threads.Machine.{Timer, running, sleep, Frame, World, Lock}
use user_space_threads.Machine.Objects.{state_eq, set_wait_queue, deref}
use user_space_threads.Interrupt.{interrupts_set}
use user_space_threads.Thread.Ready.{IsTid, IsReady}
use user_space_threads.Thread.Inv.{Inv, push-IsReady}
use user_space_threads.Thread.Safe.{set_state-Inv}
use user_space_threads.Thread.Death.{NoBadContext}
use user_space_threads.Thread.Masks.{Calm, Fits, Fits-false}
use user_space_threads.Thread.Keeps.{with_mask, with_thread}
use user_space_threads.Wait.Keeps.{with_queue}
use user_space_threads.Wait.{wakeup_loop, thread_wakeup}
use user_space_threads.Wait.Wakeup.{woken}

module _ {H : Type 0} (L : (ℕ → Option Lock) → Timer → Type 0) (stack : List Frame)
    (current : Int32) where
  -- The invariant, the discipline of the mask, and the same thread running.
  pub record Whole (w : World H) : Type 0 where
    pub inv : Inv w
    pub calm : Calm L stack w
    pub same : w.current_thread ≡ current

  -- The world that a function gives back, if it returns; it jumps to no unset context.
  abbrev pub Leaves : {A : Type 0} → (A → World H) → Result A → Type 0
  Leaves world (ok a) = Whole (world a)
  Leaves world (halt bad_context) = ⊥
  Leaves world (halt _) = Unit

  pub bind-Leaves :
      {A B : Type 0} {world : A → World H} (world' : B → World H) (m : Result A) (f : A → Result B)
      → Leaves world m
      → ((a : A) → Whole (world a) → Leaves world' (f a))
      → Leaves world' (m >>= f)
  bind-Leaves world' (ok a) f h k = k a h
  bind-Leaves world' (halt assert_failed) f h k = tt
  bind-Leaves world' (halt (exit_with code)) f h k = tt
  bind-Leaves world' (halt bad_pointer) f h k = tt
  bind-Leaves world' (halt bad_context) f h k = h

  pub any-Leaves :
      {A B : Type 0} (world : B → World H) (m : Result A) (f : A → Result B)
      → NoBadContext m
      → ((a : A) → m ≡ ok a → Leaves world (f a))
      → Leaves world (m >>= f)
  any-Leaves world (ok a) f h k = k a refl
  any-Leaves world (halt assert_failed) f h k = tt
  any-Leaves world (halt (exit_with code)) f h k = tt
  any-Leaves world (halt bad_pointer) f h k = tt
  any-Leaves world (halt bad_context) f h k = h

  pub deref-Leaves :
      {A B : Type 0} (world : B → World H) (o : Option A) (f : A → Result B)
      → ((a : A) → o ≡ some a → Leaves world (f a))
      → Leaves world (deref o >>= f)
  deref-Leaves world none f k = tt
  deref-Leaves world (some a) f k = k a refl

  pub assert-Leaves :
      {B : Type 0} (world : B → World H) (b : Bool) (r : Result B)
      → (b ≡ true → Leaves world r)
      → Leaves world (assert b >> r)
  assert-Leaves world true r k = k refl
  assert-Leaves world false r k = tt

  pub set_wait_queue-Whole :
      (p : ℕ) (q : Queue) (w : World H) → IsReady q → Whole w → Whole (set_wait_queue p q w)
  set_wait_queue-Whole p q w r k = record {
    inv = k.inv;
    calm = with_queue L p q w r k.calm;
    same = k.same;
  }

  pub interrupts_set-Whole :
      (s : Bool) (w : World H) → Fits s stack → Whole w → Whole (interrupts_set s w).1
  unfolding interrupts_set
  interrupts_set-Whole true w h k = record {
    inv = k.inv;
    calm = with_mask L true w h k.calm;
    same = k.same;
  }
  interrupts_set-Whole false w h k = record {
    inv = k.inv;
    calm = with_mask L false w h k.calm;
    same = k.same;
  }

  -- A sleeping thread is woken and put in the ready queue.
  woken-Whole :
      (id : Int32) (w : World H)
      → IsTid id
      → (w.threads id).state ≡ sleep
      → Whole w
      → Whole (woken id w)
  woken-Whole id w h asleep k =
      let inv = set_state-Inv id running w k.inv (inr (inl (λ e. cc))) in
      record {
        inv = record {
          ready = push-IsReady id k.inv.ready h;
          current = inv.current;
          waiters = inv.waiters;
          contexts = inv.contexts;
          main_context = inv.main_context;
        };
        calm = with_thread L id _ w refl k.calm;
        same = k.same;
      }

  wakeup_loop-Leaves :
      (p fuel : ℕ) (all num : Int32) (q : Queue) (w : World H)
      → IsReady q
      → Whole w
      → Leaves (λ a. set_wait_queue p a.1 a.2) (wakeup_loop fuel all num q w)
  unfolding wakeup_loop
  wakeup_loop-Leaves p zero all num q w r k = set_wait_queue-Whole p q w r k
  wakeup_loop-Leaves p (suc fuel) all num q w r k = elim (queue_pop-Popped r.valid) [
    | inl (e, c) ↦ rw (wakeup_loop, e, e) (set_wait_queue-Whole p q w r k)
    | inr (x, q', e, c, v, s) ↦
        let t : All IsTid (x ∷ contents q') = subst (All IsTid) c r.tids in
        let q'-ready : IsReady q' = record { valid = v; tids = t.1 } in
        let next = wakeup_loop-Leaves p fuel all num q' w q'-ready k in
        elim (Bool-cases (state_eq (w.threads x).state sleep)) [
          | inl a ↦
              let woke : Whole (woken x w) = woken-Whole x w t.0 (ground arith) k in
              let next_woke =
                wakeup_loop-Leaves p fuel all (add_int num 1) q' (woken x w) q'-ready woke in
              ground (arith, set_wait_queue-Whole p q' (woken x w) q'-ready woke, next_woke)
          | inr a ↦
              let no_err : (x == err_empty) ≡ false = ==_of_ne (omega (arith, t.0)) in
              rw (wakeup_loop, e, no_err, e, a, e) (assert-Leaves _ _ _ (λ r. next))
        ]
  ]

  -- thread_wakeup gives back a world in which all that was kept is kept still.
  pub thread_wakeup-Leaves :
      (queue : ℕ) (all : Int32) (w : World H)
      → Fits w.enabled stack
      → Whole w
      → Leaves (λ a. a.1) (thread_wakeup queue all w)
  unfolding thread_wakeup
  thread_wakeup-Leaves queue all w h k = elim (Bool-cases (queue == 0)) [
    | inl e ↦ rw (thread_wakeup, e) k
    | inr e ↦
        let off : World H = record w { enabled = false } in
        let k_off = interrupts_set-Whole false w (Fits-false stack) k in
        rw (thread_wakeup, e)
          (deref-Leaves (λ a. a.1) (w.wait_queues queue) _
            (λ q live.
              bind-Leaves (λ a. a.1) (wakeup_loop (suc q.current_size) all 0 q off) _
                (wakeup_loop-Leaves queue (suc q.current_size) all 0 q off
                  (k.calm.queues queue q live) k_off)
                (λ a woke. interrupts_set-Whole w.enabled _ h woke)))
  ]
