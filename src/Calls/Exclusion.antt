-- ===== src/Calls/Exclusion.antt =====
-- Mutual exclusion: what other threads can do to a lock that a thread holds.
use user_space_threads.Prelude.{
  subst, halt, ℕ, ◌≡◌, ◌≢◌, inl, inr, ◌⊎◌, Option, some, none, Int32, ok, minus, arith, update,
}
use user_space_threads.Machine.{Timer, World, Control, Outcome, Lock}
use user_space_threads.Machine.Objects.{Allocator}
use user_space_threads.Thread.Death.{IsFreeSafe, IsMallocSafe}
use user_space_threads.Lock.{lock_size}
use user_space_threads.Lock.Keeps.{Stands}
use user_space_threads.Thread.Masks.{Keeps, Calm}
use user_space_threads.Calls.{Call, Move, Reached}
use user_space_threads.Calls
use user_space_threads.Calls.Keeps.{Ticks}
use user_space_threads.Calls.Perform.{StandsNew, StandsParts}
use user_space_threads.Calls.Reach.{Reached-Calm, Move-Keeps, MoveStandsParts}

-- The lock at `p` is `l`.
abbrev pub Holds : ℕ → Lock → (ℕ → Option Lock) → Timer → Type 0
Holds p l locks timer = locks p ≡ some l

elsewhere :
    (locks : ℕ → Option Lock) (p q : ℕ) (l : Lock) (x : Option Lock)
    → locks p ≡ some l
    → q ≢ p
    → update locks q x p ≡ some l
elsewhere locks p q l x h ne = ground (arith, h)

-- The claim stands what a thread can do that is not the holder.
Holds-Stands :
    (p : ℕ) (l : Lock) (current : Int32)
    → l.current ≢ minus 1
    → l.current ≢ current
    → Stands (Holds p l) current
Holds-Stands p l current ne nc = record {
  handed =
      λ locks timer q m t h e d. elsewhere locks p q l _ h (λ same. other locks q m h e d same);
  gone =
      λ locks timer q m h e d. elsewhere locks p q l _ h (λ same. other locks q m h e (inl d) same);
}
  where
    other :
        (locks : ℕ → Option Lock) (q : ℕ) (m : Lock)
        → locks p ≡ some l
        → locks q ≡ some m
        → (m.current ≡ minus 1) ⊎ (m.current ≡ current)
        → q ≡ p
        → ⊥
    other locks q m h e d same =
        let there : locks p ≡ some m = subst (λ a. locks a ≡ some m) same e in
        let it : m.current ≡ l.current = cc (there, h) in
        elim d [ inl z ↦ ne (cc (z, it)) | inr z ↦ nc (cc (z, it)) ]

Holds-Ticks : (p : ℕ) (l : Lock) → Ticks (Holds p l)
Holds-Ticks p l = record {
  fired = λ locks timer now h. h;
  registered = λ locks timer verbose h. h;
  spoken = λ locks timer loud h. h;
}

-- A move is not the end of an interrupted lock_create or lock_destroy of the lock at `p`.
abbrev pub IsApart : ℕ → Call → Type 0
IsApart p (Calls.fill_lock q queue) = q ≢ p
IsApart p (Calls.free_lock q) = q ≢ p
IsApart p _ = Unit

abbrev pub MoveIsApart :
    {H : Type 0} ⦃al : Allocator H⦄ → ℕ → {c : Control H} {o : Outcome H} → Move c o → Type 0
MoveIsApart p (Calls.goes_on x f stack w) = Unit
MoveIsApart p (Calls.calls x w call) = IsApart p call
MoveIsApart p (Calls.fires x ret now w on set) = Unit

Holds-StandsParts : (p : ℕ) (l : Lock) (call : Call) → IsApart p call → StandsParts (Holds p l) call
Holds-StandsParts p l (Calls.fill_lock q queue) apart =
    λ locks timer h. elsewhere locks p q l _ h apart
Holds-StandsParts p l (Calls.free_lock q) apart = λ locks timer h. elsewhere locks p q l _ h apart
Holds-StandsParts p l _ apart = tt

Holds-MoveStandsParts :
    {H : Type 0} ⦃al : Allocator H⦄ (p : ℕ) (l : Lock) {c : Control H} {o : Outcome H}
    (m : Move c o)
    → MoveIsApart p m
    → MoveStandsParts (Holds p l) m
Holds-MoveStandsParts p l (Calls.goes_on x f stack w) apart = tt
Holds-MoveStandsParts p l (Calls.calls x w call) apart = Holds-StandsParts p l call apart
Holds-MoveStandsParts p l (Calls.fires x ret now w on set) apart = tt

-- malloc369 gives lock_create no address at which a lock lives.
abbrev pub IsFresh : {H : Type 0} ⦃al : Allocator H⦄ → World H → Type 0
IsFresh ⦃al⦄ w =
    (p : ℕ) (heap : _) → al.malloc369 lock_size w.heap ≡ ok (p, heap) → w.locks p ≡ none

-- Where control goes on, the lock at `p` is `l`.
abbrev pub HasLock : {H : Type 0} → ℕ → Lock → Outcome H → Type 0
HasLock p l (ok c) = c.world.locks p ≡ some l
HasLock p l (halt h) = Unit

Keeps-HasLock :
    {H : Type 0} (p : ℕ) (l : Lock) (o : Outcome H) → Keeps (Holds p l) o → HasLock p l o
Keeps-HasLock p l (ok c) k = k.of_locks
Keeps-HasLock p l (halt h) k = tt

module _ {H : Type 0} ⦃al : Allocator H⦄ (malloc_safe : IsMallocSafe al)
    (free_safe : IsFreeSafe al) where
  -- Mutual exclusion: no move of a thread that does not hold a lock changes the holder, whatever
  -- thread goes on behind it. It is asked that the move is not the end of a lock_create or a
  -- lock_destroy of this lock that a signal has interrupted, that malloc369 gives out no address of
  -- a live lock, that no signal comes inside malloc369 and free369, and that these do not jump to
  -- an unset context.
  pub Move-Holds :
      {c : Control H} {o : Outcome H} (p : ℕ) (l : Lock)
      → Reached c
      → (m : Move c o) → MoveIsApart p m
      → IsFresh c.world
      → c.world.locks p ≡ some l
      → l.current ≢ minus 1
      → l.current ≢ c.world.current_thread
      → HasLock p l o
  Move-Holds {c} {o} p l r m apart fresh live ne nc =
      let (inv, k) = Reached-Calm malloc_safe free_safe c r in
      let held : Calm (Holds p l) c.stack c.world = record {
        queues = k.queues;
        of_locks = live;
        contexts = k.contexts;
        fits = k.fits;
        masked = k.masked;
      } in
      let stands_new : StandsNew (Holds p l) c.world = λ q heap locks timer x e h.
        elsewhere locks p q l (some x) h (λ same. taken same (fresh q heap e)) in
      Keeps-HasLock p l o
        (Move-Keeps malloc_safe free_safe (Holds p l) m
          (Holds-Stands p l c.world.current_thread ne nc) (Holds-Ticks p l) stands_new
          (Holds-MoveStandsParts p l m apart) inv held).1
    where
      taken : {q : ℕ} → q ≡ p → c.world.locks q ≡ none → ⊥
      taken {q} same e = cc
