-- ===== src/Lock/Separate.antt =====
-- Each lock and each condition variable has a live wait queue of its own: what writes to the objects
-- keep of that.
pub mod Keeps
pub mod Create
use user_space_threads.Prelude.{
  ℕ, ◌≡◌, ◌≢◌, refl, ap, inl, inr, Bool-cases, none, some, Int32, ◌==◌, arith, update, Ensures, ◌∙◌,
}
use user_space_threads.Queue.{Queue}
use user_space_threads.Machine.{World, Outcome, Lock, Cv}
use user_space_threads.Thread.Objects.{Objects, objects}
use user_space_threads.Wait.Vacant.Waking.{Roused}
use user_space_threads.Lock.Vacant.{Owns}

-- There is no wait queue at NULL, each lock and each condition variable has a live one, and no two
-- of them have the same.
pub record Separate (o : Objects) : Type 0 where
  pub null : o.1 0 ≡ none
  pub of_lock : (p : ℕ) (l : Lock) → o.0 p ≡ some l → o.1 l.queue ≢ none
  pub of_cv : (cv : ℕ) (c : Cv) → o.2 cv ≡ some c → o.1 c.queue ≢ none
  pub locks :
      (p p' : ℕ) (l l' : Lock) → p' ≢ p → o.0 p ≡ some l → o.0 p' ≡ some l' → l.queue ≢ l'.queue
  pub mixed : (p cv : ℕ) (l : Lock) (c : Cv) → o.0 p ≡ some l → o.2 cv ≡ some c → l.queue ≢ c.queue
  pub cvs :
      (cv cv' : ℕ) (c c' : Cv) → cv' ≢ cv → o.2 cv ≡ some c → o.2 cv' ≡ some c' → c.queue ≢ c'.queue

abbrev pub IsSeparate : {H : Type 0} → World H → Type 0
IsSeparate w = Separate (objects w)

-- Where control goes on, wait queues are separate.
abbrev pub LeavesSeparate : {H : Type 0} → Outcome H → Type 0
LeavesSeparate = Ensures (λ c. IsSeparate c.world)

pub Separate-Owns : (p : ℕ) (o : Objects) → Separate o → Owns p o.0 o.2
Separate-Owns p o s = record {
  queue = λ l live null. s.of_lock p l live (ap o.1 null ∙ s.null);
  of_locks = λ p' l l' ne live live'. s.locks p p' l l' ne live live';
  of_cvs = λ cv l c live there. s.mixed p cv l c live there;
}

module _ (o : Objects) (s : Separate o) where
  -- Another queue is written at an address that is not NULL.
  pub set_wait_queue-Separate :
      (queue : ℕ) (q : Queue) → queue ≢ 0 → Separate (o.0, update o.1 queue (some q), o.2)
  set_wait_queue-Separate queue q nz = record {
    null = ground (arith, s.null);
    of_lock = λ p l live. ground (arith, s.of_lock p l live);
    of_cv = λ cv c live. ground (arith, s.of_cv cv c live);
    locks = s.locks;
    mixed = s.mixed;
    cvs = s.cvs;
  }

  -- A lock changes hands.
  pub set_lock-Separate :
      (p : ℕ) (l : Lock) (t : Int32)
      → o.0 p ≡ some l
      → Separate (update o.0 p (some (record l { current = t })), o.1, o.2)
  set_lock-Separate p l t live = record {
    null = s.null;
    of_lock = λ p' l' live'. ground (arith, live, s.of_lock p l live, s.of_lock p' l');
    of_cv = s.of_cv;
    locks = λ a b m m' ne there there'. same a m there (λ k was e.
        same b m' there' (λ k' was' e'. ground (arith, s.locks a b k k' ne was was', e, e')));
    mixed = λ a cv m c there there'.
        same a m there (λ k was e. ground (arith, s.mixed a cv k c was there', e));
    cvs = s.cvs;
  }
    where
      same :
          {P : Type 0} (a : ℕ) (m : Lock)
          → update o.0 p (some (record l { current = t })) a ≡ some m
          → ((k : Lock) → o.0 a ≡ some k → k.queue ≡ m.queue → P)
          → P
      same a m there k = elim (Bool-cases (p == a)) [
        | inl e ↦ k l (ground (arith, live, e)) (ground (arith, there, e))
        | inr e ↦ k m (ground (arith, there, e)) refl
      ]

  pub Roused-Separate :
      (all : Int32) (queue : ℕ) (o' : Objects) → Roused all queue o o' → Separate o'
  Roused-Separate all queue o' r = record {
    null = r.gone 0 s.null;
    of_lock = λ p l live e. s.of_lock p l (cc (r.locks, live)) (r.lives l.queue e);
    of_cv = λ cv c live e. s.of_cv cv c (cc (r.cvs, live)) (r.lives c.queue e);
    locks =
        λ p p' l l' ne live live'. s.locks p p' l l' ne (cc (r.locks, live)) (cc (r.locks, live'));
    mixed = λ p cv l c live there. s.mixed p cv l c (cc (r.locks, live)) (cc (r.cvs, there));
    cvs = λ cv cv' c c' ne live live'. s.cvs cv cv' c c' ne (cc (r.cvs, live)) (cc (r.cvs, live'));
  }

  -- A new lock gets a wait queue where there was none.
  pub new_lock-Separate :
      (p queue : ℕ) (q : Queue) (l : Lock)
      → queue ≢ 0
      → o.1 queue ≡ none
      → l.queue ≡ queue
      → Separate (update o.0 p (some l), update o.1 queue (some q), o.2)
  new_lock-Separate p queue q l nz fresh at = record {
    null = ground (arith, s.null);
    of_lock = λ p' l' live. ground (arith, at, s.of_lock p' l');
    of_cv = λ cv c live. ground (arith, s.of_cv cv c live);
    locks = λ a b m m' ne there there'.
        ground (arith, at, ne, s.locks a b m m' ne, s.of_lock a m, s.of_lock b m', fresh);
    mixed = λ a cv m c there live. ground (arith, at, s.mixed a cv m c, s.of_cv cv c live, fresh);
    cvs = s.cvs;
  }

  pub new_cv-Separate :
      (cv queue : ℕ) (q : Queue) (c : Cv)
      → queue ≢ 0
      → o.1 queue ≡ none
      → c.queue ≡ queue
      → Separate (o.0, update o.1 queue (some q), update o.2 cv (some c))
  new_cv-Separate cv queue q c nz fresh at = record {
    null = ground (arith, s.null);
    of_lock = λ p l live. ground (arith, s.of_lock p l live);
    of_cv = λ cv' c' live. ground (arith, at, s.of_cv cv' c');
    locks = s.locks;
    mixed =
        λ p a l c' live there. ground (arith, at, s.mixed p a l c' live, s.of_lock p l live, fresh);
    cvs = λ a b d d' ne there there'.
        ground (arith, at, ne, s.cvs a b d d' ne, s.of_cv a d, s.of_cv b d', fresh);
  }

  -- A lock or a condition variable gets a live wait queue that no other has, or goes.
  pub fill_lock-Separate :
      (p : ℕ) (l : Lock)
      → o.1 l.queue ≢ none
      → ((p' : ℕ) (l' : Lock) → o.0 p' ≡ some l' → l'.queue ≢ l.queue)
      → ((cv : ℕ) (c : Cv) → o.2 cv ≡ some c → c.queue ≢ l.queue)
      → Separate (update o.0 p (some l), o.1, o.2)
  fill_lock-Separate p l there no_lock no_cv = record {
    null = s.null;
    of_lock = λ a m live. ground (arith, there, s.of_lock a m);
    of_cv = s.of_cv;
    locks = λ a b m m' ne live live'.
        ground (arith, ne, s.locks a b m m' ne, no_lock a m, no_lock b m', live, live');
    mixed = λ a cv m c live live'. ground (arith, s.mixed a cv m c, no_cv cv c live', live);
    cvs = s.cvs;
  }

  pub fill_cv-Separate :
      (cv : ℕ) (c : Cv)
      → o.1 c.queue ≢ none
      → ((p : ℕ) (l : Lock) → o.0 p ≡ some l → l.queue ≢ c.queue)
      → ((cv' : ℕ) (c' : Cv) → o.2 cv' ≡ some c' → c'.queue ≢ c.queue)
      → Separate (o.0, o.1, update o.2 cv (some c))
  fill_cv-Separate cv c there no_lock no_cv = record {
    null = s.null;
    of_lock = s.of_lock;
    of_cv = λ a d live. ground (arith, there, s.of_cv a d);
    locks = s.locks;
    mixed = λ p a l d live live'. ground (arith, s.mixed p a l d live, no_lock p l live, live');
    cvs = λ a b d d' ne live live'.
        ground (arith, ne, s.cvs a b d d' ne, no_cv a d, no_cv b d', live, live');
  }

  pub free_lock-Separate : (p : ℕ) → Separate (update o.0 p none, o.1, o.2)
  free_lock-Separate p = record {
    null = s.null;
    of_lock = λ a m live. ground (arith, s.of_lock a m);
    of_cv = s.of_cv;
    locks = λ a b m m' ne live live'. ground (arith, s.locks a b m m' ne);
    mixed = λ a cv m c live live'. ground (arith, s.mixed a cv m c);
    cvs = s.cvs;
  }

  pub free_cv-Separate : (cv : ℕ) → Separate (o.0, o.1, update o.2 cv none)
  free_cv-Separate cv = record {
    null = s.null;
    of_lock = s.of_lock;
    of_cv = λ a d live. ground (arith, s.of_cv a d);
    locks = s.locks;
    mixed = λ p a l d live live'. ground (arith, s.mixed p a l d live);
    cvs = λ a b d d' ne live live'. ground (arith, s.cvs a b d d' ne);
  }

  -- A wait queue that no lock and no condition variable has is gone.
  pub drop_queue-Separate :
      (queue : ℕ)
      → ((p : ℕ) (l : Lock) → o.0 p ≡ some l → l.queue ≢ queue)
      → ((cv : ℕ) (c : Cv) → o.2 cv ≡ some c → c.queue ≢ queue)
      → Separate (o.0, update o.1 queue none, o.2)
  drop_queue-Separate queue no_lock no_cv = record {
    null = ground (arith, s.null);
    of_lock = λ p l live. ground (arith, s.of_lock p l live, no_lock p l live);
    of_cv = λ cv c live. ground (arith, s.of_cv cv c live, no_cv cv c live);
    locks = s.locks;
    mixed = s.mixed;
    cvs = s.cvs;
  }

  pub drop_lock-Separate :
      (p : ℕ) (l : Lock)
      → o.0 p ≡ some l
      → Separate (update o.0 p none, update o.1 l.queue none, o.2)
  drop_lock-Separate p l live = record {
    null = ground (arith, s.null);
    of_lock = λ p' l' there. ground (arith, s.of_lock p' l', s.locks p p' l l', live);
    of_cv = λ cv c there. ground (arith, s.of_cv cv c there, s.mixed p cv l c live there);
    locks = λ a b m m' ne there there'. ground (arith, s.locks a b m m' ne);
    mixed = λ a cv m c there there'. ground (arith, s.mixed a cv m c);
    cvs = s.cvs;
  }

  pub drop_cv-Separate :
      (cv : ℕ) (c : Cv)
      → o.2 cv ≡ some c
      → Separate (o.0, update o.1 c.queue none, update o.2 cv none)
  drop_cv-Separate cv c live = record {
    null = ground (arith, s.null);
    of_lock = λ p l there. ground (arith, s.of_lock p l there, s.mixed p cv l c there live);
    of_cv = λ cv' c' there. ground (arith, s.of_cv cv' c', s.cvs cv cv' c c', live);
    locks = s.locks;
    mixed = λ p a l c' there there'. ground (arith, s.mixed p a l c' there);
    cvs = λ a b d d' ne there there'. ground (arith, s.cvs a b d d' ne);
  }
