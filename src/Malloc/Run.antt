-- ===== src/Malloc/Run.antt =====
-- A client's calls of malloc369 and free369, in order, against the same calls of the C library with
-- a list of the live blocks kept beside them.
use user_space_threads.Prelude.{
  ℕ, suc, ◌+◌, ◌^◌, ◌<◌, ◌≡◌, ◌≢◌, refl, subst, Option-cases, inl, inr, List, [], ◌∷◌, Option, none,
  some, Result, ok, halt, length, ◌==◌, ◌||◌, Bool, leb, ◌&&◌, ◌>>=◌, if◌then◌else◌, arith,
}
use user_space_threads.Malloc.{
  KHash, Libc, Malloc, malloc369, free369, get_current_num_mallocs, get_current_bytes_malloced,
  is_leak_free, init_csc369_malloc,
}
use user_space_threads.Malloc.Ledger.{Blocks, find, remove, total, IsDictionary}
use user_space_threads.Malloc.Balanced.{
  Balanced, after_malloc, malloc369-Balanced, after_free, free369-Balanced,
}

pub data Request : Type 0 where
  allocate : ℕ → Request
  release : ℕ → Request

-- The bytes that are asked for in all.
abbrev pub asked : List Request → ℕ
asked [] = 0
asked (allocate n ∷ ops) = n + asked ops
asked (release p ∷ ops) = asked ops

abbrev pub allocations : List Request → ℕ
allocations [] = 0
allocations (allocate n ∷ ops) = suc (allocations ops)
allocations (release p ∷ ops) = allocations ops

module _ {S : Type 0} ⦃lc : Libc S⦄ where
  -- The calls on the C library itself, with the live blocks. There is a result if the client asks
  -- for no empty block and frees live blocks only, and the C library gives each block at a new
  -- pointer that is not NULL and takes it back.
  unfoldable pub plan : List Request → Blocks → S → Option (Blocks × S)
  plan [] live libc = some (live, libc)
  plan (allocate n ∷ ops) live libc =
      let (p, libc') = lc.malloc n libc in
      let rest = plan ops ((p, n) ∷ live) libc' in
      if p == 0 || n == 0 then none else elim (find p live) [ none ↦ rest | some k ↦ none ]
  plan (release p ∷ ops) live libc = elim (find p live) [
    | none ↦ none
    | some n ↦ elim (lc.free p libc) [ ok libc' ↦ plan ops (remove p live) libc' | halt h ↦ none ]
  ]

module _ {M S : Type 0} where
  -- What the functions of malloc369.c that read the counters answer.
  abbrev pub Reports : Blocks → Malloc M S → Type 0
  Reports live s =
      (get_current_num_mallocs s ≡ ok (length live))
      × (get_current_bytes_malloced s ≡ ok (total live))
      × ((num_tol bytes_tol : ℕ)
          → num_tol < 2 ^ 31
          → bytes_tol < 2 ^ 31
          → is_leak_free num_tol bytes_tol s
            ≡ ok (leb (total live) bytes_tol && leb (length live) num_tol))

module _ {M S : Type 0} ⦃kh : KHash M⦄ ⦃lc : Libc S⦄ where
  unfoldable pub run : List Request → Malloc M S → Result (Malloc M S)
  run [] s = ok s
  run (allocate n ∷ ops) s = malloc369 n s >>= λ r. run ops r.1
  run (release p ∷ ops) s = free369 p s >>= run ops

  module _ (map : IsDictionary kh) where
    -- Where a plan goes on, and on what condition.
    plan-allocate :
        (n : ℕ) (ops : List Request) (live live' : Blocks) (libc libc' : S)
        → plan (allocate n ∷ ops) live libc ≡ some (live', libc')
        → let (p, next) = lc.malloc n libc in
          (p ≢ 0)
          × (n ≢ 0)
          × (find p live ≡ none)
          × (plan ops ((p, n) ∷ live) next ≡ some (live', libc'))
    unfolding plan
    plan-allocate n ops live live' libc libc' e = ground arith

    plan-release :
        (p : ℕ) (ops : List Request) (live live' : Blocks) (libc libc' : S)
        → plan (release p ∷ ops) live libc ≡ some (live', libc')
        → (n : ℕ) × (next : S) × (find p live ≡ some n)
          × (lc.free p libc ≡ ok next)
          × (plan ops (remove p live) next ≡ some (live', libc'))
    unfolding plan
    plan-release p ops live live' libc libc' e = elim (Option-cases (find p live)) [
      | inl f ↦ absurd (ground (arith, f, e))
      | inr (n, f) ↦ taken n f (lc.free p libc) refl
    ]
      where
        taken :
            (n : ℕ)
            → find p live ≡ some n
            → (r : Result S) → lc.free p libc ≡ r
            → (n : ℕ) × (next : S) × (find p live ≡ some n)
              × (lc.free p libc ≡ ok next)
              × (plan ops (remove p live) next ≡ some (live', libc'))
        taken n f (ok next) g = (n, next, f, g, ground (arith, f, g, e))
        taken n f (halt x) g = absurd (ground (arith, f, g, e))

    plan-nil :
        (live live' : Blocks) (libc libc' : S)
        → plan [] live libc ≡ some (live', libc')
        → (live ≡ live') × (libc ≡ libc')
    unfolding plan
    plan-nil live live' libc libc' e = ground (arith, e)

    record Ran (live : Blocks) (libc : S) (out : Result (Malloc M S)) : Type 0 where
      pub state : Malloc M S
      pub returns : out ≡ ok state
      pub balanced : Balanced live state
      pub same : state.libc ≡ libc

    run-Ran :
        (ops : List Request) (live live' : Blocks) (libc' : S) (s : Malloc M S)
        → Balanced live s
        → plan ops live s.libc ≡ some (live', libc')
        → s.num_mallocs + allocations ops < 2 ^ 63
        → s.bytes_malloced + asked ops < 2 ^ 63
        → Ran live' libc' (run ops s)
    unfolding run
    run-Ran [] live live' libc' s b e h g =
        let (l, c) = plan-nil live live' s.libc libc' e in
        record { state = s; returns = refl; balanced = subst (λ x. Balanced x s) l b; same = c }
    run-Ran (allocate n ∷ ops) live live' libc' s b e h g =
        let (p, next) = lc.malloc n s.libc in
        let (np, nn, new, e') = plan-allocate n ops live live' s.libc libc' e in
        let (m, b') =
          malloc369-Balanced map n p next live s b refl np nn new (omega arith) (omega arith) in
        rw m (
          run-Ran ops ((p, n) ∷ live) live' libc' (after_malloc n p next s) b' e' (omega arith)
            (omega arith))
    run-Ran (release p ∷ ops) live live' libc' s b e h g =
        let (n, next, f, r, e') = plan-release p ops live live' s.libc libc' e in
        let (m, b') = free369-Balanced map n p next live s b f r in
        rw m (run-Ran ops (remove p live) live' libc' (after_free n p next s) b' e' h g)

    Balanced-Reports : (live : Blocks) (s : Malloc M S) → Balanced live s → Reports live s
    unfolding get_current_num_mallocs get_current_bytes_malloced is_leak_free
    Balanced-Reports live s b = (
      ground (arith, b.count, b.count_lt),
      ground (arith, b.bytes, b.bytes_lt),
      λ num_tol bytes_tol h g. ground (arith, b.count, b.count_lt, b.bytes, b.bytes_lt),
    )

    -- From init_csc369_malloc on, any calls of malloc369 and free369 that the C library serves, by a
    -- client that asks for no empty block and frees live blocks only, return: no assertion of
    -- malloc369.c fails. What was allocated and not freed is then what the counters and the test for
    -- leaks report, and the C library is left as by the same calls without the accounting. It is
    -- asked that the hash map is a dictionary and that no counter reaches 2 ^ 63.
    pub run-init_csc369_malloc :
        (ops : List Request) (live : Blocks) (libc : S) (verb : Bool) (s : Malloc M S)
        → plan ops [] s.libc ≡ some (live, libc)
        → allocations ops < 2 ^ 63
        → asked ops < 2 ^ 63
        → (s' : Malloc M S) × (run ops (init_csc369_malloc verb s) ≡ ok s')
          × Reports live s'
          × (s'.libc ≡ libc)
    unfolding init_csc369_malloc
    run-init_csc369_malloc ops live libc verb s e h g =
        let ran =
          run-Ran ops [] live libc (init_csc369_malloc verb s)
            (record {
              ledger = tt;
              count = omega arith;
              bytes = omega arith;
              count_lt = omega arith;
              bytes_lt = omega arith;
            })
            e (omega arith) (omega arith) in
        (ran.state, ran.returns, Balanced-Reports live ran.state ran.balanced, ran.same)
