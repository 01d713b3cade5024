-- ===== src/Thread/Scheduled.antt =====
-- No thread that can run is lost: each has an entry in the ready queue. This is kept by
-- thread_yield and by the death of a thread.
mod Listed
pub mod Death
pub use Listed.*
use user_space_threads.Prelude.{
  ◌+◌, ◌≤◌, ◌<◌, ◌≡◌, ◌≢◌, refl, sym, ap, subst, Bool, true, false, not, ◌||◌, inl, inr, ◌⊎◌,
  Bool-cases, List, [], ◌∷◌, ◌++◌, length, Int32, All, ok, ◌==◌, ==→eq, ==→ne, ==_of_ne, le_signed,
  lt_signed, arith, Ensures, if-Ensures, assert-Ensures,
}
use mathlib.Core.List.{Mem}
use user_space_threads.Queue.{Queue, queue_slots, queue_push, thread_max_threads}
use user_space_threads.Queue.Bounds.{IsValid}
use user_space_threads.Queue.Refine.{contents, length-window, push_contents, queue_push-append}
use user_space_threads.Machine.{
  Thread, destroyed, running, Frame, World, Outcome, Control, thread_any, thread_none,
  thread_invalid, thread_self, Context, unset, saved,
}
use user_space_threads.Machine.Objects.{state_eq}
use user_space_threads.Machine.Switch.{setcontext}
use user_space_threads.Interrupt.{interrupts_set}
use user_space_threads.Thread.{get_thread_any}
use user_space_threads.Thread.Ready.{IsTid, IsReady, can_run, first_ready, get_thread_any-Found}
use user_space_threads.Thread.Inv.{Inv, switched, get_thread_any-Inv}
use user_space_threads.Thread.Yield.{restore, switch_to, yield_to, thread_yield}

-- Every thread in state Running, but for the current one, has an entry in the ready queue.
abbrev pub Scheduled : {H : Type 0} → World H → Type 0
Scheduled w =
    (t : Int32)
    → (w.threads t).state ≡ running
    → t ≢ w.current_thread
    → Mem t (contents w.thread_queue)

-- The same, and some thread `but` besides the current one may lack its entry.
abbrev pub ScheduledBut : {H : Type 0} → Int32 → World H → Type 0
ScheduledBut but w = AllListed w.threads w.current_thread but (contents w.thread_queue)

abbrev pub IsScheduled : {H : Type 0} → Outcome H → Type 0
IsScheduled = Ensures (λ c. Scheduled c.world)

module _ {H : Type 0} where
  pub setcontext-IsScheduled :
      (c : Context) (w : World H) → Scheduled w → IsScheduled (setcontext c w)
  unfolding setcontext
  setcontext-IsScheduled unset w h = tt
  setcontext-IsScheduled (saved mask stack) w h = h

  pub restore-IsScheduled :
      (s : Bool) (v : Int32) (stack : List Frame) (w : World H)
      → Scheduled w
      → IsScheduled (restore s v stack w)
  unfolding interrupts_set
  restore-IsScheduled true v stack w h = h
  restore-IsScheduled false v stack w h = h

  switched-Scheduled :
      (s : Bool) (t : Int32) (stack : List Frame) (w : World H)
      → IsValid w.thread_queue
      → w.thread_queue.current_size < queue_slots
      → ScheduledBut t w
      → Scheduled (switched s t stack w)
  switched-Scheduled s t stack w v room h u live ne = elim (Bool-cases (u == w.current_thread)) [
    | inl e ↦ rw (==→eq e) (push-Mem_self w.current_thread v room)
    | inr e ↦ push-Mem u w.current_thread v (h u (ground (arith, live)) (==→ne e) ne)
  ]

  -- The current thread gets an entry, and the thread that switch_to goes to needs none.
  switch_to-IsScheduled :
      (s : Bool) (t : Int32) (stack : List Frame) (w : World H)
      → IsValid w.thread_queue
      → w.thread_queue.current_size < queue_slots
      → ScheduledBut t w
      → IsScheduled (switch_to s t stack w)
  unfolding switch_to
  switch_to-IsScheduled s t stack w v room h = elim (Bool-cases w.enabled) [
    | inl e ↦ rw e tt
    | inr e ↦ rw e (setcontext-IsScheduled _ _ (switched-Scheduled s t stack w v room h))
  ]

  -- yield_to goes to `t`, or refuses and changes nothing.
  yield_to-IsScheduled :
      (s : Bool) (t : Int32) (stack : List Frame) (w : World H)
      → IsValid w.thread_queue
      → w.thread_queue.current_size < queue_slots
      → ScheduledBut t w
      → (Scheduled w) ⊎ (IsTid t × ((w.threads t).state ≡ running))
      → IsScheduled (yield_to s t stack w)
  unfolding yield_to
  yield_to-IsScheduled s t stack w v room h k = assert-Ensures _ (not w.enabled) _ (λ a.
      if-Ensures _ (le_signed thread_max_threads t || lt_signed t 0) _ _
        (λ b. restore-IsScheduled s thread_invalid stack w (stays k (λ tid live. ground arith)))
        (λ b.
          if-Ensures _ (state_eq (w.threads t).state destroyed) _ _
            (λ c. restore-IsScheduled s thread_invalid stack w (stays k (λ tid live. ground arith)))
            (λ c. switch_to-IsScheduled s t stack w v room h)))
    where
      stays : {P Q : Type 0} → (Scheduled w) ⊎ (P × Q) → (P → Q → ⊥) → Scheduled w
      stays (inl k) f = k
      stays (inr (p, q)) f = absurd (f p q)

  module _ (stack : List Frame) (x : Int32) (q : Queue) (w : World H)
      (current : IsTid w.current_thread) where
    yield-none :
        x ≡ thread_none
        → get_thread_any w.current_thread (record w { enabled = false })
          ≡ (x, record w { enabled = false; thread_queue = q })
        → thread_yield thread_any stack w
          ≡ restore w.enabled thread_none stack (record w { enabled = false; thread_queue = q })
    unfolding thread_yield
    yield-none none e = ground (arith, e)

    pub yield-found :
        IsTid x
        → get_thread_any w.current_thread (record w { enabled = false })
          ≡ (x, record w { enabled = false; thread_queue = q })
        → thread_yield thread_any stack w
          ≡ yield_to w.enabled x stack (record w { enabled = false; thread_queue = q })
    unfolding thread_yield
    yield-found tid e = ground (arith, e)

  -- thread_yield(THREAD_ANY) keeps every thread listed: it takes an entry before it makes one.
  pub thread_yield-IsScheduled_any :
      (stack : List Frame) (w : World H)
      → Inv w
      → Scheduled w
      → IsScheduled (thread_yield thread_any stack w)
  unfolding thread_yield
  thread_yield-IsScheduled_any stack w v h =
      let off : World H = record w { enabled = false } in
      let f = get_thread_any-Found w.current_thread off v.ready in
      let first =
        first_ready-First w.threads w.current_thread (contents w.thread_queue) v.ready.tids
          (λ t live ne other. h t live ne) in
      go (get_thread_any w.current_thread off).0
        (get_thread_any w.current_thread off).1.thread_queue f.ready
        (ap (λ (z : World H). ((get_thread_any w.current_thread off).0, z)) f.rest)
        (subst (First w.threads w.current_thread (contents w.thread_queue)) (sym f.entry) first)
    where
      go :
          (x : Int32) (q : Queue)
          → IsReady q
          → get_thread_any w.current_thread (record w { enabled = false })
            ≡ (x, record w { enabled = false; thread_queue = q })
          → First w.threads w.current_thread (contents w.thread_queue) (x, contents q)
          → IsScheduled (thread_yield thread_any stack w)
      go x q r e (inl (none, listed)) =
          subst IsScheduled (sym (yield-none stack x q w v.current none e))
            (restore-IsScheduled w.enabled thread_none stack _ (λ t live ne. listed t live ne ne))
      go x q r e (inr (tid, live, less, listed)) =
          let fewer : q.current_size < queue_slots = omega (
            arith,
            less,
            length-window q.threads q.start q.current_size,
            length-window w.thread_queue.threads w.thread_queue.start w.thread_queue.current_size,
          ) in
          subst IsScheduled (sym (yield-found stack x q w v.current tid e)) (
            yield_to-IsScheduled w.enabled x stack (record w { enabled = false; thread_queue = q })
              r.valid fewer listed (inr (tid, live)))

  -- A yield to one thread makes an entry and takes none.
  pub thread_yield-IsScheduled_to :
      (want : Int32) (stack : List Frame) (w : World H)
      → Inv w
      → w.thread_queue.current_size < queue_slots
      → IsTid want
      → ScheduledBut want w
      → (w.threads want).state ≡ running
      → IsScheduled (thread_yield want stack w)
  unfolding thread_yield
  thread_yield-IsScheduled_to want stack w v room tid h live =
      let off : World H = record w { enabled = false } in
      if-Ensures _ (want == thread_self || want == w.current_thread) _ _
        (λ a.
          restore-IsScheduled w.enabled w.current_thread stack off
            (λ t alive ne. h t alive ne (λ g. ground (arith, tid))))
        (λ a.
          if-Ensures _ (want == thread_any) _ _ (λ b. absurd (ground (arith, tid)))
            (λ b.
              yield_to-IsScheduled w.enabled want stack off v.ready.valid room h (inr (tid, live))))

  -- Whatever is asked for, thread_yield loses no thread if there is room for one more entry.
  pub thread_yield-IsScheduled :
      (want : Int32) (stack : List Frame) (w : World H)
      → Inv w
      → w.thread_queue.current_size < queue_slots
      → Scheduled w
      → IsScheduled (thread_yield want stack w)
  unfolding thread_yield
  thread_yield-IsScheduled want stack w v room h = elim (Bool-cases (want == thread_any)) [
    | inl e ↦ rw (==→eq e) (thread_yield-IsScheduled_any stack w v h)
    | inr e ↦
        let off : World H = record w { enabled = false } in
        rw e (
          if-Ensures _ (want == thread_self || want == w.current_thread) _ _
            (λ a. restore-IsScheduled w.enabled w.current_thread stack off h)
            (λ a.
              yield_to-IsScheduled w.enabled want stack off v.ready.valid room
                (λ t live ne other. h t live ne) (inl h)))
  ]
