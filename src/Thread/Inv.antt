-- ===== src/Thread/Inv.antt =====
-- The invariant of the thread library, and that switching contexts keeps it.
use user_space_threads.Prelude.{
  ◌≡◌, ◌≢◌, Bool, false, ◌⊎◌, List, ◌∷◌, Int32, ok, halt, bad_context, minus, ==_of_ne, Bool-cases,
  inl, inr, sym, [], All-append, arith,
}
use user_space_threads.Queue.{Queue, queue_push}
use user_space_threads.Queue.Bounds.{queue_push-IsValid}
use user_space_threads.Queue.Refine.{contents, push_contents}
use user_space_threads.Machine.{
  Context, unset, saved, destroyed, Frame, in_yield, Thread, World, Outcome,
}
use user_space_threads.Machine.Objects.{set_context}
use user_space_threads.Machine.Switch.{setcontext}
use user_space_threads.Interrupt.{interrupts_enabled}
use user_space_threads.Thread.Yield.{switch_to, yield_to}
use user_space_threads.Thread.{get_thread_any}
use user_space_threads.Thread.Ready.{IsTid, IsReady, get_thread_any-Found}

-- A context that getcontext has stored, which it does with interrupts off.
abbrev pub IsSaved : Context → Type 0
IsSaved unset = ⊥
IsSaved (saved mask stack) = mask ≡ false

-- Nobody waits, or a thread does.
abbrev pub IsWaiter : Int32 → Type 0
IsWaiter t = (t ≡ minus 1) ⊎ IsTid t

-- The invariant reads the table of threads, the ready queue and the current thread.
pub record Sound (threads : Int32 → Thread) (queue : Queue) (current_thread : Int32) : Type 0 where
  pub ready : IsReady queue
  pub current : IsTid current_thread
  pub waiters : (t : Int32) → IsWaiter (threads t).waiter
  pub contexts :
      (t : Int32) → t ≢ current_thread → (threads t).state ≢ destroyed → IsSaved (threads t).context
  pub main_context : current_thread ≢ 0 → IsSaved (threads 0).context

abbrev pub Inv : {H : Type 0} → World H → Type 0
Inv w = Sound w.threads w.thread_queue w.current_thread

-- An outcome that keeps the invariant where control goes on, and is no jump to an unset context.
abbrev pub IsSafe : {H : Type 0} → Outcome H → Type 0
IsSafe (ok c) = Inv c.world
IsSafe (halt bad_context) = ⊥
IsSafe (halt _) = Unit

pub push-IsReady : {q : Queue} (x : Int32) → IsReady q → IsTid x → IsReady (queue_push q x).1
push-IsReady {q} x r h = record {
  valid = queue_push-IsValid x r.valid;
  tids = elim (push_contents q x r.valid) [
    | inl e ↦ rw e r.tids
    | inr e ↦ rw e (All-append IsTid (contents q) (x ∷ []) r.tids (h, tt))
  ];
}

module _ {H : Type 0} where
  pub setcontext-IsSafe : (c : Context) (w : World H) → IsSaved c → Inv w → IsSafe (setcontext c w)
  unfolding setcontext
  setcontext-IsSafe unset w h v = elim h [ ]
  setcontext-IsSafe (saved mask stack) w h v = v

  -- The world in which switch_to loads the other context.
  abbrev pub switched : Bool → Int32 → List Frame → World H → World H
  switched signal_state t stack w =
      record (set_context w.current_thread (saved false (in_yield signal_state t ∷ stack)) w) {
        thread_queue = (queue_push w.thread_queue w.current_thread).1;
        current_thread = t;
      }

  pub switched-Inv :
      (s : Bool) (t : Int32) (stack : List Frame) (w : World H)
      → Inv w
      → IsTid t
      → Inv (switched s t stack w)
  switched-Inv s t stack w v h = record {
    ready = push-IsReady w.current_thread v.ready v.current;
    current = h;
    waiters = λ u. ground (arith, v.waiters u, v.waiters w.current_thread);
    contexts = λ u ne live. ground (arith, v.contexts u);
    main_context = λ ne. ground (arith, v.main_context);
  }

  pub switch_to-IsSafe :
      (s : Bool) (t : Int32) (stack : List Frame) (w : World H)
      → Inv w
      → IsTid t
      → t ≢ w.current_thread
      → (w.threads t).state ≢ destroyed
      → IsSafe (switch_to s t stack w)
  unfolding switch_to interrupts_enabled
  switch_to-IsSafe s t stack w v h ne live = elim (Bool-cases w.enabled) [
    | inl e ↦ rw e tt
    | inr e ↦
        rw (e, ==_of_ne {a = w.current_thread} {b = t} (λ p. ne (sym p)))
          (setcontext-IsSafe (w.threads t).context _ (v.contexts t ne live)
            (switched-Inv s t stack w v h))
  ]

  pub yield_to-IsSafe :
      (s : Bool) (t : Int32) (stack : List Frame) (w : World H)
      → Inv w
      → t ≢ w.current_thread
      → IsSafe (yield_to s t stack w)
  unfolding yield_to
  yield_to-IsSafe s t stack w v ne = ground (arith, switch_to-IsSafe s t stack w v)

  pub get_thread_any-Inv : (t : Int32) (w : World H) → Inv w → Inv (get_thread_any t w).1
  get_thread_any-Inv t w v =
      let f = get_thread_any-Found t w v.ready in
      rw f.rest (record {
        ready = f.ready;
        current = v.current;
        waiters = v.waiters;
        contexts = v.contexts;
        main_context = v.main_context;
      })
