-- ===== src/Calls/Wakeups.antt =====
-- No wake-up is lost at a lock, from thread_init on.
use user_space_threads.Prelude.{ℕ, ◌≡◌, ap, subst, ◌∙◌, Option, none}
use user_space_threads.Machine.{World, Outcome, Control, Lock}
use user_space_threads.Machine.Objects.{Allocator}
use user_space_threads.Thread.Init.{thread_init-Started}
use user_space_threads.Thread.Death.{IsMallocSafe, IsFreeSafe}
use user_space_threads.Wait.Vacant.{Vacant}
use user_space_threads.Lock.Separate.{Separate, LeavesSeparate, Separate-Owns}
use user_space_threads.Thread.Objects.{Objects, objects}
use user_space_threads.Calls.{Move, Reached}
use user_space_threads.Calls
use user_space_threads.Calls.Reach.{Reached-Calm}
use user_space_threads.Calls.Vacant.{SleepsElsewhere, MoveElsewhere, AlwaysOwner, Reached-Vacant}
use user_space_threads.Calls.Separate.{Spares, MoveSpares, AlwaysSpared, Move-LeavesSeparate}

none-Separate :
    (o : Objects)
    → ((p : ℕ) → o.0 p ≡ none)
    → ((p : ℕ) → o.1 p ≡ none)
    → ((p : ℕ) → o.2 p ≡ none)
    → Separate o
none-Separate o no_lock no_queue no_cv = record {
  null = no_queue 0;
  of_lock = λ p l live. absurd (cc (no_lock p, live));
  of_cv = λ cv c live. absurd (cc (no_cv cv, live));
  locks = λ p p' l l' ne live. absurd (cc (no_lock p, live));
  mixed = λ p cv l c live. absurd (cc (no_lock p, live));
  cvs = λ cv cv' c c' ne live. absurd (cc (no_cv cv, live));
}

module _ {H : Type 0} ⦃al : Allocator H⦄ where
  Spares-SleepsElsewhere :
      (p : ℕ) (w : World H) (call : Calls.Call) → Spares w call → SleepsElsewhere p w call
  Spares-SleepsElsewhere p w (Calls.sleep_on queue) h = h.0 p
  Spares-SleepsElsewhere p w (Calls.reserve size) h = tt
  Spares-SleepsElsewhere p w (Calls.fill_lock q queue) h = h.1
  Spares-SleepsElsewhere p w (Calls.free_lock q) h = tt
  Spares-SleepsElsewhere p w (Calls.fill_cv q queue) h = tt
  Spares-SleepsElsewhere p w (Calls.free_cv q) h = tt
  Spares-SleepsElsewhere p w (Calls.create fn parg) h = tt
  Spares-SleepsElsewhere p w (Calls.yield t) h = tt
  Spares-SleepsElsewhere p w (Calls.exit c) h = tt
  Spares-SleepsElsewhere p w (Calls.kill t) h = tt
  Spares-SleepsElsewhere p w Calls.new_queue h = tt
  Spares-SleepsElsewhere p w (Calls.drop_queue q) h = tt
  Spares-SleepsElsewhere p w (Calls.wakeup q all) h = tt
  Spares-SleepsElsewhere p w (Calls.wait_for t at) h = tt
  Spares-SleepsElsewhere p w Calls.new_lock h = tt
  Spares-SleepsElsewhere p w (Calls.drop_lock l) h = tt
  Spares-SleepsElsewhere p w (Calls.acquire l) h = tt
  Spares-SleepsElsewhere p w (Calls.release l) h = tt
  Spares-SleepsElsewhere p w Calls.new_cv h = tt
  Spares-SleepsElsewhere p w (Calls.drop_cv c) h = tt
  Spares-SleepsElsewhere p w (Calls.wait_on c l) h = tt
  Spares-SleepsElsewhere p w (Calls.signal c l) h = tt
  Spares-SleepsElsewhere p w (Calls.broadcast c l) h = tt
  Spares-SleepsElsewhere p w (Calls.set_signals b) h = tt
  Spares-SleepsElsewhere p w (Calls.register verbose) h = tt
  Spares-SleepsElsewhere p w Calls.be_quiet h = tt
  Spares-SleepsElsewhere p w Calls.be_loud h = tt

  MoveSpares-MoveElsewhere :
      (p : ℕ) {c : Control H} {o : Outcome H} (m : Move c o) → MoveSpares m → MoveElsewhere p m
  MoveSpares-MoveElsewhere p (Calls.goes_on x f stack w) h = tt
  MoveSpares-MoveElsewhere p (Calls.calls x w call) h = Spares-SleepsElsewhere p w call h
  MoveSpares-MoveElsewhere p (Calls.fires x ret now w on set) h = tt

  module _ (malloc_safe : IsMallocSafe al) (free_safe : IsFreeSafe al) where
    -- In every state that the process reaches, each lock and each condition variable has a live
    -- wait queue, and no two of them have the same one. It is asked that before each move malloc369
    -- would give out no block, behind another one, at which a wait queue lives, and of malloc369
    -- and free369 that they do not jump to an unset context and that no signal comes inside them;
    -- that no thread destroys or sleeps directly on the wait queue of a lock or of a condition
    -- variable, which a lock_destroy or a cv_destroy does that a signal interrupts; and that an
    -- interrupted lock_create or cv_create finds the wait queue that it made alive and in no other
    -- object, and for a lock empty.
    pub Reached-Separate :
        (c : Control H) (r : Reached c) → AlwaysSpared r → Separate (objects c.world)
    Reached-Separate c (Calls.boots uninit w0 w v behind pristine no_handler e) spared =
        let started = thread_init-Started uninit w0 behind e in
        none-Separate (objects w)
          (λ p. ap (λ (f : ℕ → Option Lock). f p) started.locks ∙ pristine.locks p)
          (λ p. cc (started.wait_queues, pristine.wait_queues p))
          (λ p. cc (started.cvs, pristine.cvs p))
    Reached-Separate c (Calls.moves c0 _ o r m e) (fresh, spares, before) = subst LeavesSeparate e (
        Move-LeavesSeparate m spares fresh (Reached-Calm malloc_safe free_safe c0 r).1.queues
          (Reached-Separate c0 r before))

    owner : (p : ℕ) (c : Control H) (r : Reached c) → AlwaysSpared r → AlwaysOwner p r
    owner p c (Calls.boots uninit w0 w v behind pristine no_handler e) spared = tt
    owner p c (Calls.moves c0 _ o r m e) (fresh, spares, before) = (
      Separate-Owns p (objects c0.world) (Reached-Separate c0 r before),
      MoveSpares-MoveElsewhere p m spares,
      owner p c0 r before,
    )

    -- No wake-up is lost at a lock: in every state that the process reaches, the wait queue of
    -- every free lock is empty. It is asked that before each move malloc369 would give out no
    -- block, behind another one, at which a wait queue lives, and of malloc369 and free369 that
    -- they do not jump to an unset context and that no signal comes inside them; that no thread
    -- destroys or sleeps directly on the wait queue of a lock or of a condition variable, which a
    -- lock_destroy or a cv_destroy does that a signal interrupts; and that an interrupted
    -- lock_create or cv_create finds the wait queue that it made alive and in no other object, and
    -- for a lock empty.
    pub Reached-AllVacant :
        (c : Control H) (r : Reached c) → AlwaysSpared r → (p : ℕ) → Vacant p c.world
    Reached-AllVacant c r spared p = Reached-Vacant malloc_safe free_safe p c r (owner p c r spared)
