-- ===== src/Wait/Keeps.antt =====
-- Sleeping, waking and waiting keep the wait queues valid and the discipline of the signal mask.
use user_space_threads.Prelude.{
  ℕ, ◌≡◌, refl, ap, sym, subst, Bool, false, not, ◌&&◌, List, [], ◌∷◌, Option, some, none, Int32,
  minus, inl, inr, All, Bool-cases, ◌>>=◌, ◌==◌, update,
}
use user_space_threads.Queue.{Queue, queue_push, queue_pop_last, empty_queue}
use user_space_threads.Queue.Fifo
use user_space_threads.Queue.Bounds.{queue_pop_last-IsValid, empty_queue-IsValid}
use user_space_threads.Queue.Refine.{contents, pop_last_refines}
use user_space_threads.Machine
use user_space_threads.Machine.{
  Timer, destroyed, running, sleep, Frame, in_sleep, in_wait, World, Outcome, Lock, thread_any,
}
use user_space_threads.Machine.Objects.{state_eq, set_state, set_waiter, set_wait_queue, deref}
use user_space_threads.Thread.{is_valid_thread}
use user_space_threads.Thread.Ready.{IsTid, IsReady}
use user_space_threads.Thread.Inv.{Inv, push-IsReady}
use user_space_threads.Thread.Masks.{Calm, Keeps, AllReady, Fits}
use user_space_threads.Thread.Keeps.{
  if-Keeps, assert-Keeps, restore-Keeps, with_call, with_thread, thread_yield-Keeps,
}
use user_space_threads.Wait.{
  thread_sleep, thread_sleep_after_yield, thread_wait, thread_wait_end, thread_wait_after_yield,
}

front-All : (P : Int32 → Type 0) (xs : List Int32) → All P xs → All P (Fifo.front xs)
unfolding Fifo.front
front-All P [] h = tt
front-All P (x ∷ []) h = tt
front-All P (x ∷ y ∷ xs) h = (h.0, front-All P (y ∷ xs) h.1)

pub pop_last-IsReady : {q : Queue} → IsReady q → IsReady (queue_pop_last q).1
unfolding Fifo.pop_last
pop_last-IsReady {q} r = record {
  valid = queue_pop_last-IsValid r.valid;
  tids =
      subst (All IsTid) (sym (ap (λ x. x.1) (pop_last_refines r.valid)))
        (front-All IsTid (contents q) r.tids);
}

pub empty-IsReady : (slots : ℕ → Int32) → IsReady (empty_queue slots)
unfolding empty_queue
empty-IsReady slots = record { valid = empty_queue-IsValid slots; tids = tt }

update-AllReady :
    {wait_queues : ℕ → Option Queue} (p : ℕ) (q : Queue)
    → IsReady q
    → AllReady wait_queues
    → AllReady (update wait_queues p (some q))
update-AllReady {wait_queues} p q r h p' q' = elim (Bool-cases (p == p')) [
  | inl e ↦ rw e (λ s. subst IsReady (some_inj s) r)
  | inr e ↦ rw e (h p' q')
]
  where
    some_inj : {a b : Queue} → some a ≡ some b → a ≡ b
    some_inj e = cc

pub remove-AllReady :
    {wait_queues : ℕ → Option Queue} (p : ℕ)
    → AllReady wait_queues
    → AllReady (update wait_queues p none)
remove-AllReady {wait_queues} p h p' q' = elim (Bool-cases (p == p')) [
  | inl e ↦ rw e (λ s. absurd (no_some s))
  | inr e ↦ rw e (h p' q')
]
  where
    no_some : {b : Queue} → none ≡ some b → ⊥
    no_some e = cc

-- An object is read through a pointer.
pub deref-Keeps :
    {A H : Type 0} (L : (ℕ → Option Lock) → Timer → Type 0) (o : Option A) (f : A → Outcome H)
    → ((a : A) → o ≡ some a → Keeps L (f a))
    → Keeps L (deref o >>= f)
deref-Keeps L none f h = tt
deref-Keeps L (some a) f h = h a refl

module _ {H : Type 0} (L : (ℕ → Option Lock) → Timer → Type 0) where
  pub with_queue :
      (p : ℕ) (q : Queue) (w : World H) {stack : List Frame}
      → IsReady q
      → Calm L stack w
      → Calm L stack (set_wait_queue p q w)
  with_queue p q w r k = record {
    queues = update-AllReady p q r k.queues;
    of_locks = k.of_locks;
    contexts = k.contexts;
    fits = k.fits;
    masked = k.masked;
  }

  pub thread_sleep-Keeps :
      (queue : ℕ) (stack : List Frame) (w : World H)
      → Inv w
      → Calm L stack w
      → Keeps L (thread_sleep queue stack w)
  unfolding thread_sleep
  thread_sleep-Keeps queue stack w v k =
      let f = in_sleep queue w.enabled in
      let off : World H = record w { enabled = false } in
      let k_off : Calm L (f ∷ stack) off = with_call L f w k.fits k in
      let asleep : World H = set_state w.current_thread sleep off in
      if-Keeps L (queue == 0) _ _
        (λ e. restore-Keeps L f w.enabled Machine.thread_invalid off k.fits k_off)
        (λ e. deref-Keeps L (w.wait_queues queue) _ (λ q live.
          thread_yield-Keeps L thread_any (f ∷ stack)
            (set_wait_queue queue (queue_push q w.current_thread).1 asleep)
            (with_queue queue _ asleep
              (push-IsReady w.current_thread (k.queues queue q live) v.current)
              (with_thread L w.current_thread _ off refl k_off))))

  pub thread_sleep_after_yield-Keeps :
      (queue : ℕ) (s : Bool) (v : Int32) (stack : List Frame) (w : World H)
      → Fits s stack
      → Calm L (in_sleep queue s ∷ stack) w
      → Keeps L (thread_sleep_after_yield queue s v stack w)
  unfolding thread_sleep_after_yield
  thread_sleep_after_yield-Keeps queue s v stack w h k =
      let awake : World H = set_state w.current_thread running w in
      let k' = with_thread L w.current_thread _ w refl k in
      if-Keeps L (v == Machine.thread_none) _ _
        (λ e. deref-Keeps L (w.wait_queues queue) _ (λ q live.
          assert-Keeps L ((queue_pop_last q).0 == w.current_thread) _ (λ a.
            restore-Keeps L (in_sleep queue s) s Machine.thread_none
              (set_wait_queue queue (queue_pop_last q).1 awake) h
              (with_queue queue _ awake (pop_last-IsReady (k.queues queue q live)) k'))))
        (λ e. restore-Keeps L (in_sleep queue s) s v w h k)

  thread_wait_end-Keeps :
      (tid : Int32) (p : ℕ) (s : Bool) (stack : List Frame) (w : World H)
      → Fits s stack
      → Calm L (in_wait tid p s ∷ stack) w
      → Keeps L (thread_wait_end tid p s stack w)
  unfolding thread_wait_end
  thread_wait_end-Keeps tid p s stack w h k = elim (Bool-cases (p == 0)) [
    | inl e ↦ rw e (restore-Keeps L (in_wait tid p s) s tid w h k)
    | inr e ↦ rw e (
        restore-Keeps L (in_wait tid p s) s tid
          (record w { ints = update w.ints p (w.threads tid).exit_code }) h k)
  ]

  pub thread_wait_after_yield-Keeps :
      (tid : Int32) (p : ℕ) (s : Bool) (stack : List Frame) (w : World H)
      → Fits s stack
      → Calm L (in_wait tid p s ∷ stack) w
      → Keeps L (thread_wait_after_yield tid p s stack w)
  unfolding thread_wait_after_yield
  thread_wait_after_yield-Keeps tid p s stack w h k =
      assert-Keeps L (not w.enabled) _ (λ a. thread_wait_end-Keeps tid p s stack w h k)

  pub thread_wait-Keeps :
      (tid : Int32) (p : ℕ) (stack : List Frame) (w : World H)
      → Calm L stack w
      → Keeps L (thread_wait tid p stack w)
  unfolding thread_wait
  thread_wait-Keeps tid p stack w k =
      let f = in_wait tid p w.enabled in
      let off : World H = record w { enabled = false } in
      let k_off : Calm L (f ∷ stack) off = with_call L f w k.fits k in
      let noted : World H = set_waiter tid w.current_thread off in
      let refused = restore-Keeps L f w.enabled Machine.thread_invalid off k.fits k_off in
      assert-Keeps L w.enabled _ (λ on.
        if-Keeps L (not (is_valid_thread tid)) _ _ (λ a. refused)
          (λ a.
            if-Keeps L
              (state_eq (w.threads tid).state destroyed
                && (w.threads tid).exit_code == minus Machine.sigkill)
              _ _ (λ b. refused)
              (λ b.
                if-Keeps L (tid == w.current_thread) _ _ (λ c. refused)
                  (λ c.
                    if-Keeps L (state_eq (w.threads tid).state destroyed) _ _
                      (λ d. thread_wait_end-Keeps tid p w.enabled stack off k.fits k_off)
                      (λ d.
                        if-Keeps L (not ((w.threads tid).waiter == minus 1)) _ _ (λ e. refused)
                          (λ e.
                            thread_yield-Keeps L thread_any (f ∷ stack)
                              (set_state w.current_thread sleep noted)
                              (with_thread L w.current_thread _ noted refl
                                (with_thread L tid _ off refl k_off))))))))
