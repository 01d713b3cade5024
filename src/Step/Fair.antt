-- ===== src/Step/Fair.antt =====
-- Bounded waiting: among threads that only yield, a ready thread gets its turn.
use user_space_threads.Prelude.{
  ℕ, zero, suc, ◌≤◌, ◌<◌, ◌≡◌, ◌≢◌, refl, sym, subst, Bool, true, false, inl, inr, ◌⊎◌, List, [],
  ◌∷◌, ◌++◌, Int32, ok, arith, All, length, Bool-cases, ◌>>=◌, ◌==◌, ==→ne, ==→eq, ap, ◌∙◌,
}
use mathlib.Core.List.{append_assoc}
use user_space_threads.Queue.{Queue, queue_push}
use user_space_threads.Queue.Bounds.{IsValid}
use user_space_threads.Queue.Refine.{contents, push_contents}
use user_space_threads.Machine.{
  Context, saved, in_yield, in_stub, Thread, running, World, Outcome, thread_any,
}
use user_space_threads.Machine.Objects.{Allocator}
use user_space_threads.Machine.Switch.{setcontext}
use user_space_threads.Thread.{get_thread_any}
use user_space_threads.Thread.Ready.{IsTid, IsReady, can_run, first_ready, get_thread_any-Found}
use user_space_threads.Thread.Inv.{Inv, switched, switched-Inv}
use user_space_threads.Thread.Yield.{
  return, thread_yield, yield_to, switch_to, thread_yield_resumed,
}
use user_space_threads.Step.{step, resume, thread_stub}

-- The entries of a ready queue in which `t` has fewer than `n` entries before it.
abbrev pub Sooner : ℕ → Int32 → List Int32 → Type 0
Sooner n t xs =
    (before : List Int32) × (after : List Int32) × (xs ≡ before ++ t ∷ after) × (length before < n)

pub push-Sooner :
    (n : ℕ) (t : Int32) (q : Queue) (x : Int32)
    → IsValid q
    → Sooner n t (contents q)
    → Sooner n t (contents (queue_push q x).1)
push-Sooner n t q x v (b, a, e, h) = elim (push_contents q x v) [
  | inl g ↦ (b, a, g ∙ e, h)
  | inr g ↦ (b, a ++ x ∷ [], g ∙ ap (λ l. l ++ x ∷ []) e ∙ append_assoc b (t ∷ a) (x ∷ []), h)
]

-- What get_thread_any finds when `t` can run: a thread that can run, `t` or one before it.
pub record Turn (threads : Int32 → Thread) (current t : Int32) (n : ℕ) (out : Int32 × List Int32)
    : Type 0 where
  pub runs : can_run threads current out.0 ≡ true
  pub tid : IsTid out.0
  pub next : (out.0 ≡ t) ⊎ Sooner n t out.1

pub first_ready-Turn :
    (threads : Int32 → Thread) (current t : Int32) (before after : List Int32)
    → All IsTid (before ++ t ∷ after)
    → can_run threads current t ≡ true
    → Turn threads current t (length before) (first_ready threads current (before ++ t ∷ after))
unfolding first_ready
first_ready-Turn threads current t [] after h r =
    rw r (record { runs = r; tid = h.0; next = inl refl })
first_ready-Turn threads current t (y ∷ ys) after h r =
    elim (Bool-cases (can_run threads current y)) [
      | inl e ↦ rw e (record { runs = e; tid = h.0; next = inr (ys, after, refl, omega arith) })
      | inr e ↦
          let later = first_ready-Turn threads current t ys after h.1 r in
          rw e (record { runs = later.runs; tid = later.tid; next = weaken later.next })
    ]
  where
    weaken :
        {x : Int32} {xs : List Int32}
        → (x ≡ t) ⊎ Sooner (length ys) t xs
        → (x ≡ t) ⊎ Sooner (suc (length ys)) t xs
    weaken (inl e) = inl e
    weaken (inr (b, a, e, h')) = inr (b, a, e, omega (arith, h'))

-- A thread that has yielded from its own code, or has not started.
abbrev pub JustYielded : Context → Type 0
JustYielded c =
    ((s : Bool) × (u : Int32) × (c ≡ saved false (in_yield s u ∷ [])))
    ⊎ ((fn : ℕ) × (arg : ℕ) × (c ≡ saved false (in_stub fn arg ∷ [])))

-- Every thread that runs, other than the current one, waits behind its own yield or at its start.
pub record OnlyYields {H : Type 0} (w : World H) : Type 0 where
  pub inv : Inv w
  pub mode : w.administrative_mode ≡ false
  pub yielded :
      (t : Int32)
      → (w.threads t).state ≡ running
      → t ≢ w.current_thread
      → JustYielded (w.threads t).context

module _ {H : Type 0} ⦃al : Allocator H⦄ where
  -- `n` times in a row, the thread in whose code control is calls thread_yield(THREAD_ANY), and the
  -- call that control comes to goes on.
  unfoldable pub rounds : ℕ → World H → Outcome H
  rounds zero w = return 0 [] w
  rounds (suc n) w = (thread_yield thread_any [] w >>= step) >>= λ c. elim c.stack [
    | [] ↦ rounds n c.world
    | f ∷ stack ↦ ok c
  ]

  -- The world in which `x` goes on: the caller's context is stored.
  abbrev turned : Bool → Int32 → Queue → World H → World H
  turned s x q w = record (switched w.enabled x [] (record w { thread_queue = q })) { enabled = s }

  step-yield_to :
      (x : Int32) (q : Queue) (w : World H)
      → IsTid x
      → x ≢ w.current_thread
      → (w.threads x).state ≡ running
      → JustYielded (w.threads x).context
      → w.administrative_mode ≡ false
      → (v : Int32) × (s : Bool) × ((yield_to w.enabled x []
              (record w { enabled = false; thread_queue = q })
            >>= step)
          ≡ return v [] (turned s x q w))
  unfolding step resume thread_stub yield_to switch_to setcontext thread_yield_resumed
  step-yield_to x q w h ne live (inl (s, u, e)) na = (u, s, ground arith)
  step-yield_to x q w h ne live (inr (fn, arg, e)) na = (0, true, ground arith)

  turned-OnlyYields :
      (s : Bool) (x : Int32) (q : Queue) (w : World H)
      → IsReady q
      → IsTid x
      → OnlyYields w
      → OnlyYields (turned s x q w)
  turned-OnlyYields s x q w r h o = record {
    inv =
        switched-Inv w.enabled x [] (record w { thread_queue = q })
          (record {
            ready = r;
            current = o.inv.current;
            waiters = o.inv.waiters;
            contexts = o.inv.contexts;
            main_context = o.inv.main_context;
          })
          h;
    mode = o.mode;
    yielded = λ t live ne. elim (Bool-cases (w.current_thread == t)) [
      | inl e ↦ rw e (inl (w.enabled, x, refl))
      | inr e ↦ rw e (o.yielded t (ground arith) (==→ne' e))
    ];
  }
    where
      ==→ne' : {t : Int32} → (w.current_thread == t) ≡ false → t ≢ w.current_thread
      ==→ne' e g = ==→ne e (sym g)

  yield-found :
      (x : Int32) (q : Queue) (w : World H)
      → IsTid w.current_thread
      → IsTid x
      → get_thread_any w.current_thread (record w { enabled = false })
        ≡ (x, record w { enabled = false; thread_queue = q })
      → thread_yield thread_any [] w
        ≡ yield_to w.enabled x [] (record w { enabled = false; thread_queue = q })
  unfolding thread_yield
  yield-found x q w hc hx e = ground (arith, e)

  -- Whose turn is next: `t` itself, or a thread that leaves `t` with fewer entries before it.
  next-turn :
      (t : Int32) (before after : List Int32) (w : World H)
      → OnlyYields w
      → contents w.thread_queue ≡ before ++ t ∷ after
      → (w.threads t).state ≡ running
      → t ≢ w.current_thread
      → (v : Int32) × (s : Bool) × (x : Int32) × (q : Queue) × ((thread_yield thread_any [] w
            >>= step)
          ≡ return v [] (turned s x q w))
        × IsReady q
        × IsTid x
        × ((x ≡ t) ⊎ Sooner (length before) t (contents q))
  next-turn t before after w o c live ne =
      let off : World H = record w { enabled = false } in
      let out = get_thread_any w.current_thread off in
      let found = get_thread_any-Found w.current_thread off o.inv.ready in
      let q = out.1.thread_queue in
      let turn : Turn w.threads w.current_thread t (length before) (out.0, contents q) =
        subst (Turn w.threads w.current_thread t (length before)) (turn_eq (sym found.entry)) (
          first_ready-Turn w.threads w.current_thread t before after
            (subst (All IsTid) c o.inv.ready.tids) (ground arith)) in
      let ne_x : out.0 ≢ w.current_thread = ground (arith, turn.runs) in
      let live_x : (w.threads out.0).state ≡ running = ground (arith, turn.runs) in
      let (v, s, e) =
        step-yield_to out.0 q w turn.tid ne_x live_x (o.yielded out.0 live_x ne_x) o.mode in
      let y =
        yield-found out.0 q w o.inv.current turn.tid
          (ap (λ (z : World H). (out.0, z)) found.rest) in
      (v, s, out.0, q, rw y e, found.ready, turn.tid, turn.next)
    where
      turn_eq :
          {p : Int32 × List Int32}
          → first_ready w.threads w.current_thread (contents w.thread_queue) ≡ p
          → first_ready w.threads w.current_thread (before ++ t ∷ after) ≡ p
      turn_eq e = rw (sym c) e

  rounds-step :
      (n : ℕ) (w w' : World H) {v : Int32}
      → (thread_yield thread_any [] w >>= step) ≡ return v [] w'
      → rounds (suc n) w ≡ rounds n w'
  unfolding rounds
  rounds-step n w w' e = rw e refl

  -- The thread gets its turn within `n` rounds.
  abbrev pub TurnWithin : ℕ → Int32 → World H → Type 0
  TurnWithin n t w =
      (k : ℕ) × (k ≤ n) × (w' : World H) × (rounds k w ≡ return 0 [] w') × (w'.current_thread ≡ t)

  -- Among threads that only yield, a thread that runs and has `before` entries in front of it in the
  -- ready queue gets its turn within one more yield than there are such entries: each of the calls
  -- returns to the code of some thread, and the last one to the code of that thread.
  pub rounds-TurnWithin :
      (n : ℕ) (t : Int32) (before after : List Int32) (w : World H)
      → OnlyYields w
      → contents w.thread_queue ≡ before ++ t ∷ after
      → (w.threads t).state ≡ running
      → t ≢ w.current_thread
      → length before < n
      → TurnWithin n t w
  unfolding rounds
  rounds-TurnWithin zero t before after w o c live ne h = absurd (omega arith)
  rounds-TurnWithin (suc n) t before after w o c live ne h =
      let (v, s, x, q, e, r, hx, next) = next-turn t before after w o c live ne in
      let w' : World H = turned s x q w in
      elim (Bool-cases (x == t)) [
        | inl same ↦ (1, omega arith, w', rounds-step 0 w w' e, ==→eq same)
        | inr other ↦ elim next [
          | inl g ↦ absurd (==→ne other g)
          | inr sooner ↦
              let (b, a, c', h') =
                push-Sooner (length before) t q w.current_thread r.valid sooner in
              let (k, le, w'', e', at) =
                rounds-TurnWithin n t b a w' (turned-OnlyYields s x q w r hx o) c'
                  (ground (arith, live)) (λ g. ==→ne other (sym g)) (omega (arith, h', h)) in
              (suc k, omega (arith, le), w'', rounds-step k w w' e ∙ e', at)
        ]
      ]
