-- ===== src/Calls/Reach.antt =====
-- What every sequence of moves from thread_init on keeps.
use user_space_threads.Prelude.{
  ◌==◌, ==→ne, Bool-cases, Bool, true, false, ◌≢◌, ℕ, ◌≡◌, refl, subst, inl, inr, ◌⊎◌, List, Option,
  some, none, Int32, ok, halt, arith,
}
use user_space_threads.Queue.{Queue}
use user_space_threads.Machine
use user_space_threads.Machine.{
  Timer, Frame, Context, unset, saved, Thread, World, Control, Outcome, Lock,
}
use user_space_threads.Machine.Objects.{Allocator}
use user_space_threads.Thread.Yield.{thread_exit_after_yield, exit_to_main}
use user_space_threads.Thread.Inv.{Inv, IsSafe}
use user_space_threads.Thread.Init.{thread_init-Started}
use user_space_threads.Thread.Death.{IsFreeSafe, IsMallocSafe, exit_to_main-IsSafe}
use user_space_threads.Thread.Masks.{Calm, Keeps}
use user_space_threads.Lock.Keeps.{Stands}
use user_space_threads.Step.{step, resume, deliver}
use user_space_threads.Step.Safe.{
  step-IsSafe, deliver-IsSafe, resume-IsSafe, IsNotMainExit, NoMainExit,
}
use user_space_threads.Calls.{Call, Move, Reached, perform}
use user_space_threads.Calls
use user_space_threads.Calls.Keeps.{Ticks, resume-Keeps, deliver-Keeps}
use user_space_threads.Calls.Perform.{StandsNew, StandsParts, perform-Good}

-- Where control goes on, the invariant holds.
abbrev pub HasInv : {H : Type 0} → Outcome H → Type 0
HasInv (ok c) = Inv c.world
HasInv (halt h) = Unit

IsSafe-HasInv : {H : Type 0} (o : Outcome H) → IsSafe o → HasInv o
IsSafe-HasInv (ok c) h = h
IsSafe-HasInv (halt e) h = tt

-- No claim about the locks and the timer.
abbrev pub AnyLocks : (ℕ → Option Lock) → Timer → Type 0
AnyLocks locks timer = Unit

pub AnyLocks-Stands : {current : Int32} → Stands AnyLocks current
AnyLocks-Stands = record {
  handed = λ locks timer p l t h e m. tt;
  gone = λ locks timer p l h e m. tt;
}

AnyLocks-Ticks : Ticks AnyLocks
AnyLocks-Ticks = record {
  fired = λ locks timer now h. tt;
  registered = λ locks timer verbose h. tt;
  spoken = λ locks timer loud h. tt;
}

AnyLocks-StandsParts : (call : Call) → StandsParts AnyLocks call
AnyLocks-StandsParts (Calls.fill_lock p queue) = λ locks timer h. tt
AnyLocks-StandsParts (Calls.free_lock p) = λ locks timer h. tt
AnyLocks-StandsParts _ = tt

-- A registered handler has its timer running.
abbrev pub Armed : (ℕ → Option Lock) → Timer → Type 0
Armed locks timer = timer.registered ≡ true → timer.usec ≢ 0

Armed-Stands : {current : Int32} → Stands Armed current
Armed-Stands = record { handed = λ locks timer p l t h e m. h; gone = λ locks timer p l h e m. h }

Armed-Ticks : Ticks Armed
Armed-Ticks = record {
  fired = λ locks timer now h. ground (arith, h);
  registered = λ locks timer verbose h. ground (arith, h);
  spoken = λ locks timer loud h. h;
}

Armed-StandsParts : (call : Call) → StandsParts Armed call
Armed-StandsParts (Calls.fill_lock p queue) = λ locks timer h. h
Armed-StandsParts (Calls.free_lock p) = λ locks timer h. h
Armed-StandsParts _ = tt

module _ {H : Type 0} ⦃al : Allocator H⦄ (L : (ℕ → Option Lock) → Timer → Type 0) where
  -- A claim about the locks stands a move, if that is a part of a lock_create or a lock_destroy.
  abbrev pub MoveStandsParts : {c : Control H} {o : Outcome H} → Move c o → Type 0
  MoveStandsParts (Calls.goes_on x f stack w) = Unit
  MoveStandsParts (Calls.calls x w call) = StandsParts L call
  MoveStandsParts (Calls.fires x ret now w on set) = Unit

  any_move :
      ((call : Call) → StandsParts L call)
      → {c : Control H} {o : Outcome H} (m : Move c o) → MoveStandsParts m
  any_move parts (Calls.goes_on x f stack w) = tt
  any_move parts (Calls.calls x w call) = parts call
  any_move parts (Calls.fires x ret now w on set) = tt

module _ {H : Type 0} ⦃al : Allocator H⦄ (malloc_safe : IsMallocSafe al)
    (free_safe : IsFreeSafe al) where
  exit_yield-HasInv :
      (code : Int32) (x : Int32) (stack : List Frame) (w : World H)
      → Inv w
      → HasInv (resume (Machine.in_exit_yield code) x stack w)
  unfolding resume thread_exit_after_yield exit_to_main
  exit_yield-HasInv code x stack w v = elim (Bool-cases (w.current_thread == 0)) [
    | inl z ↦ rw z tt
    | inr nz ↦ IsSafe-HasInv _ (exit_to_main-IsSafe code w v (==→ne nz))
  ]

  resume-HasInv :
      (f : Frame) (x : Int32) (stack : List Frame) (w : World H)
      → Inv w
      → HasInv (resume f x stack w)
  resume-HasInv f x stack w v = elim (main_cases f) [
    | inl (code, e) ↦ rw e (exit_yield-HasInv code x stack w v)
    | inr h ↦ IsSafe-HasInv _ (resume-IsSafe free_safe f x stack w v h)
  ]
    where
      main_cases :
          (g : Frame) → ((code : Int32) × (g ≡ Machine.in_exit_yield code)) ⊎ IsNotMainExit g w
      main_cases (Machine.in_exit_yield code) = inl (code, refl)
      main_cases _ = inr tt

  module _ (L : (ℕ → Option Lock) → Timer → Type 0) where
    -- A move keeps the invariant and what Calls/Keeps keeps.
    pub Move-Keeps :
        {c : Control H} {o : Outcome H} (m : Move c o)
        → Stands L c.world.current_thread
        → Ticks L
        → StandsNew L c.world
        → MoveStandsParts L m
        → Inv c.world
        → Calm L c.stack c.world
        → HasInv o × Keeps L o
    unfolding step
    Move-Keeps (Calls.goes_on v f stack w) st ticks new parts inv k =
        (resume-HasInv f v stack w inv, resume-Keeps L f v stack w st inv k)
    Move-Keeps (Calls.calls v w call) st ticks new parts inv k =
        let good = perform-Good malloc_safe free_safe L w st ticks call new parts inv k in
        (IsSafe-HasInv (perform call w) good.0, good.1)
    Move-Keeps (Calls.fires v ret now w on set) st ticks new parts inv k = (
      IsSafe-HasInv (deliver ret now w) (deliver-IsSafe ret now w inv),
      deliver-Keeps L ticks ret now w k,
    )

    -- What holds of the timer of a process with no handler, and stands every move.
    Reached-Keeps :
        ((current : Int32) → Stands L current)
        → Ticks L
        → ((w : World H) → StandsNew L w)
        → ((call : Call) → StandsParts L call)
        → ((locks : ℕ → Option Lock) (timer : Timer) → timer.registered ≡ false → L locks timer)
        → (c : Control H) → Reached c
        → Inv c.world × Calm L c.stack c.world
    Reached-Keeps st ticks new parts begin c
          (Calls.boots uninit w0 w v behind pristine no_handler e) =
        let started = thread_init-Started uninit w0 behind e in
        (
          started.inv,
          record {
            queues =
                λ p q live. absurd (no_some (pristine.wait_queues p) (started.wait_queues) live);
            of_locks = begin w.locks w.timer (rw (started.timer) no_handler);
            contexts = λ t. rw (started.contexts t) tt;
            fits = tt;
            masked = tt;
          },
        )
      where
        no_some :
            {p : ℕ} {q : Queue} {a b : ℕ → Option Queue} → a p ≡ none → b ≡ a → b p ≡ some q → ⊥
        no_some e f g = cc
    Reached-Keeps st ticks new parts begin c (Calls.moves c0 _ o r m e) =
        let (inv, k) = Reached-Keeps st ticks new parts begin c0 r in
        let (inv', k') =
          Move-Keeps m (st c0.world.current_thread) ticks (new c0.world) (any_move L parts m) inv
            k in
        (subst HasInv e inv', subst (Keeps L) e k')

  -- In every state that the process reaches from thread_init by calls of its threads, signals of
  -- the timer and returns of calls, the invariant of the library holds, every wait queue is valid
  -- and holds thread identifiers, every stored context has the signal blocked, and the signal is
  -- blocked wherever a call is open that can switch threads. A signal may interrupt the functions
  -- that make and destroy objects, but not malloc369 and free369. It is asked of these that they do
  -- not jump to an unset context.
  pub Reached-Calm : (c : Control H) → Reached c → Inv c.world × Calm AnyLocks c.stack c.world
  Reached-Calm =
      Reached-Keeps AnyLocks (λ current. AnyLocks-Stands) AnyLocks-Ticks
        (λ w p heap locks timer x e h. tt) AnyLocks-StandsParts (λ locks timer h. tt)

  -- In every state that the process reaches and in which the handler of the timer's signal is
  -- registered, the timer runs: preemption never ends. It is asked of malloc369 and free369 that
  -- they do not jump to an unset context.
  pub Reached-Armed :
      (c : Control H) → Reached c → c.world.timer.registered ≡ true → c.world.timer.usec ≢ 0
  Reached-Armed c r =
      (Reached-Keeps Armed (λ current. Armed-Stands) Armed-Ticks (λ w p heap locks timer x e h. h)
        Armed-StandsParts (λ locks timer off on. absurd (both off on)) c r).1.of_locks
    where
      both : {b : Bool} → b ≡ false → b ≡ true → ⊥
      both off on = cc

  -- From a state that the process reaches, no move jumps to a context in which nothing was stored or
  -- whose function has returned, but for the exit of thread 0 behind a yield that found nothing else
  -- to run; and a move that goes on keeps the invariant.
  pub Move-IsSafe :
      {c : Control H} {o : Outcome H} → Reached c → Move c o → NoMainExit c.stack c.world → IsSafe o
  Move-IsSafe {c} {o} r (Calls.goes_on v f stack w) m =
      step-IsSafe free_safe c (Reached-Calm c r).0 m
  Move-IsSafe {c} {o} r (Calls.calls v w call) m =
      let (inv, k) = Reached-Calm c r in
      (perform-Good malloc_safe free_safe AnyLocks w AnyLocks-Stands AnyLocks-Ticks call
        (λ p heap locks timer x e h. tt) (AnyLocks-StandsParts call) inv k).0
  Move-IsSafe {c} {o} r (Calls.fires v ret now w on set) m =
      deliver-IsSafe ret now w (Reached-Calm c r).0
