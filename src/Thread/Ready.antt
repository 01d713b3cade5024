-- ===== src/Thread/Ready.antt =====
-- get_thread_any against the list of ready entries.
use user_space_threads.Prelude.{
  ℕ, zero, suc, ◌<◌, ◌≡◌, refl, subst, Bool, false, not, ◌&&◌, inl, inr, Bool-cases, List, [], ◌∷◌,
  Int32, All, ◌==◌, ==_of_ne, if◌then◌else◌, arith,
}
use user_space_threads.Queue.{Queue, thread_max_threads, err_empty}
use user_space_threads.Queue.Bounds.{IsValid}
use user_space_threads.Queue.Refine.{contents, queue_pop-Popped}
use user_space_threads.Machine.{Thread, running, World, thread_none}
use user_space_threads.Machine.Objects.{state_eq}
use user_space_threads.Thread.{any_loop, get_thread_any}

-- A thread identifier is an index of the table.
abbrev pub IsTid : Int32 → Type 0
IsTid t = t < thread_max_threads

-- A ready queue that is valid and holds thread identifiers.
pub record IsReady (q : Queue) : Type 0 where
  pub valid : IsValid q
  pub tids : All IsTid (contents q)

-- Is `t` a thread that `current` may switch to?
abbrev pub can_run : (Int32 → Thread) → Int32 → Int32 → Bool
can_run threads current t = state_eq (threads t).state running && not (t == current)

-- The first entry that can run, and the entries behind it; those before it are dropped.
unfoldable pub first_ready : (Int32 → Thread) → Int32 → List Int32 → Int32 × List Int32
first_ready threads current [] = (thread_none, [])
first_ready threads current (x ∷ xs) =
    if can_run threads current x then (x, xs) else first_ready threads current xs

module _ {H : Type 0} where
  -- What get_thread_any answers and leaves.
  pub record Found (current : Int32) (w : World H) (out : Int32 × World H) : Type 0 where
    pub entry :
        (out.0, contents out.1.thread_queue)
        ≡ first_ready w.threads current (contents w.thread_queue)
    pub rest : out.1 ≡ record w { thread_queue = out.1.thread_queue }
    pub ready : IsReady out.1.thread_queue

  any_loop-Found :
      (fuel : ℕ) (current : Int32) (w : World H)
      → IsReady w.thread_queue
      → w.thread_queue.current_size < fuel
      → Found current w (any_loop fuel current w)
  unfolding any_loop first_ready
  any_loop-Found zero current w r h = absurd (omega arith)
  any_loop-Found (suc fuel) current w r h = elim (queue_pop-Popped r.valid) [
    | inl (e, c) ↦ rw (e, any_loop, e) (record { entry = rw c; rest = refl; ready = r })
    | inr (x, q', e, c, v, s) ↦
        let t : All IsTid (x ∷ contents q') = subst (All IsTid) c r.tids in
        let q'-ready : IsReady q' = record { valid = v; tids = t.1 } in
        let no_err : (x == err_empty) ≡ false = ==_of_ne (omega arith) in
        elim (Bool-cases (can_run w.threads current x)) [
          | inl g ↦
              rw (e, any_loop, no_err, e, g, e)
                (record { entry = rw (c, g); rest = refl; ready = q'-ready })
          | inr g ↦
              rw (e, any_loop, no_err, e, g, e)
                (skip x q' c g (
                  any_loop-Found fuel current (record w { thread_queue = q' }) q'-ready
                    (omega arith)))
        ]
  ]
    where
      skip :
          (x : Int32) (q' : Queue)
          → contents w.thread_queue ≡ x ∷ contents q'
          → can_run w.threads current x ≡ false
          → {out : Int32 × World H} → Found current (record w { thread_queue = q' }) out
          → Found current w out
      skip x q' c g f = record { entry = rw (c, g) f.entry; rest = f.rest; ready = f.ready }

  -- On a valid ready queue of thread identifiers get_thread_any takes the first entry whose thread
  -- runs and is not `current`, or answers THREAD_NONE if there is none. It drops the entries before
  -- it and changes nothing else, and the queue stays such a queue.
  pub get_thread_any-Found :
      (current : Int32) (w : World H)
      → IsReady w.thread_queue
      → Found current w (get_thread_any current w)
  unfolding get_thread_any
  get_thread_any-Found current w r = any_loop-Found _ current w r (omega arith)
