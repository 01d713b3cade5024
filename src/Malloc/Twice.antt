-- ===== src/Malloc/Twice.antt =====
-- Freeing a block twice, and the test for leaks.
use user_space_threads.Prelude.{
  ℕ, ◌+◌, ◌-◌, ◌^◌, ◌≤◌, ◌<◌, ◌≡◌, ◌≢◌, refl, false, true, Bool, ok, halt, ◌>>=◌, ◌&&◌, leb, arith,
  inl, inr, ◌==◌, Result, ==→ne, ==→eq, ◌⊎◌, if◌then◌else◌, not, assert, ◌>>◌, lt_long, sub_long,
  add_long,
}
use user_space_threads.Malloc.{
  KHash, Libc, Malloc, free369, free_live, free_only, fill_region, is_leak_free,
  get_current_bytes_malloced, get_current_num_mallocs, freed,
}
use user_space_threads.Malloc.Balance.{InRange}

-- What free369 relies on in khash.h, documented there: a value stored through the iterator of a key
-- is found under that key.
abbrev pub KeepsValue : {M : Type 0} → KHash M → Type 0
KeepsValue {M} kh =
    (m : M) (p v : ℕ)
    → kh.kh_get m p ≢ kh.kh_end m
    → let m' = kh.set_value m (kh.kh_get m p) v in
      (kh.kh_get m' p ≢ kh.kh_end m') × (kh.kh_value m' (kh.kh_get m' p) ≡ v)

module _ {M S : Type 0} ⦃kh : KHash M⦄ ⦃lc : Libc S⦄ where
  -- free369 of NULL, of a pointer that is not in the map, or of a block that is marked as freed is
  -- the C library's free alone.
  free369-only :
      (p : ℕ) (s : Malloc M S)
      → (p ≡ 0)
        ⊎ (kh.kh_get s.malloc_map p ≡ kh.kh_end s.malloc_map)
        ⊎ (freed ≤ kh.kh_value s.malloc_map (kh.kh_get s.malloc_map p))
      → free369 p s ≡ free_only p s
  unfolding free369
  free369-only p s h = ground arith

  -- A free369 behind what gave this state is the C library's free alone.
  abbrev Only : ℕ → Result (Malloc M S) → Type 0
  Only p m = (m >>= free369 p) ≡ (m >>= free_only p)

  assert-Only : (p : ℕ) (b : Bool) (m : Result (Malloc M S)) → Only p m → Only p (assert b >> m)
  assert-Only p true m h = h
  assert-Only p false m h = refl

  if-Only :
      (p : ℕ) (b : Bool) (x y : Result (Malloc M S))
      → (b ≡ true → Only p x)
      → (b ≡ false → Only p y)
      → Only p (if b then x else y)
  if-Only p true x y h k = h refl
  if-Only p false x y h k = k refl

  libc-Only :
      (p : ℕ) (r : Result S) (f : S → Result (Malloc M S))
      → ((libc : S) → Only p (f libc))
      → Only p (r >>= f)
  libc-Only p (ok libc) f h = h libc
  libc-Only p (halt e) f h = refl

  free_only-Only :
      (p : ℕ) (s : Malloc M S)
      → (p ≡ 0)
        ⊎ (kh.kh_get s.malloc_map p ≡ kh.kh_end s.malloc_map)
        ⊎ (freed ≤ kh.kh_value s.malloc_map (kh.kh_get s.malloc_map p))
      → Only p (free_only p s)
  unfolding free_only
  free_only-Only p s h =
      libc-Only p (lc.free p s.libc) _ (λ libc. free369-only p (record s { libc = libc }) h)

  module _ (keeps : KeepsValue kh) where
    free_live-free369 :
        (p : ℕ) (s : Malloc M S)
        → kh.kh_get s.malloc_map p ≢ kh.kh_end s.malloc_map
        → Only p (free_live p (kh.kh_get s.malloc_map p) s)
    unfolding free_live
    free_live-free369 p s h =
        let size = kh.kh_value s.malloc_map (kh.kh_get s.malloc_map p) in
        let k = keeps s.malloc_map p (size + freed) h in
        assert-Only p (not (size == 0)) _ (
          assert-Only p (lt_long 0 (sub_long s.num_mallocs s.num_frees)) _ (
            assert-Only p (leb size (sub_long s.bytes_malloced s.bytes_freed)) _ (
              libc-Only p (lc.free p s.libc) _ (λ libc.
                free369-only p
                  (record s {
                    num_frees = add_long s.num_frees 1;
                    bytes_freed = add_long s.bytes_freed size;
                    malloc_map =
                        kh.set_value s.malloc_map (kh.kh_get s.malloc_map p) (size + freed);
                    memory = fill_region size 0 p s.memory;
                    libc = libc;
                  })
                  (inr (inr (omega (arith, k.1))))))))

    -- If the hash map keeps what is stored in it, a free369 behind a free369 of the same pointer
    -- does what the C library's free does there and no more: no count changes and no byte is
    -- overwritten, whatever the first one did.
    pub free369-free369 : (p : ℕ) (s : Malloc M S) → Only p (free369 p s)
    unfolding free369
    free369-free369 p s =
        let k = kh.kh_get s.malloc_map p in
        if-Only p (p == 0) _ _ (λ a. free_only-Only p s (inl (==→eq a)))
          (λ a.
            if-Only p (k == kh.kh_end s.malloc_map) _ _
              (λ b. free_only-Only p s (inr (inl (==→eq b))))
              (λ b.
                if-Only p (leb freed (kh.kh_value s.malloc_map k)) _ _
                  (λ c. free_only-Only p s (inr (inr (ground arith))))
                  (λ c. free_live-free369 p s (==→ne b))))

-- With the counters in range, is_leak_free answers whether no more bytes and blocks are outstanding
-- than the tolerances, which are no negative ints.
pub is_leak_free_lem :
    {M S : Type 0} (num_tol bytes_tol : ℕ) (s : Malloc M S)
    → InRange 0 s
    → num_tol < 2 ^ 31
    → bytes_tol < 2 ^ 31
    → is_leak_free num_tol bytes_tol s
      ≡ ok (
          leb (s.bytes_malloced - s.bytes_freed) bytes_tol
          && leb (s.num_mallocs - s.num_frees) num_tol)
unfolding is_leak_free get_current_bytes_malloced get_current_num_mallocs
is_leak_free_lem num_tol bytes_tol s r h g = ground arith
