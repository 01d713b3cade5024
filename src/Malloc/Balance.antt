-- ===== src/Malloc/Balance.antt =====
-- What malloc369 and free369 leave outstanding.
use user_space_threads.Prelude.{
  ℕ, ◌+◌, ◌^◌, ◌≤◌, ◌<◌, ◌≡◌, ◌≢◌, false, ok, is_negative, ◌>>=◌, arith, sub_long,
}
use user_space_threads.Malloc.{KHash, Libc, Malloc, malloc369, free369, free_live, free_only}

-- What malloc369.c relies on in khash.h, documented there: kh_put does not fail, and a value stored
-- through its iterator is found under the key.
pub record IsMap {M : Type 0} (kh : KHash M) : Type 0 where
  pub put_works : (m : M) (p : ℕ) → is_negative (kh.kh_put m p).1 ≡ false
  pub found :
      (m : M) (p v : ℕ)
      → let (k, ret, m') = kh.kh_put m p in
        kh.kh_get (kh.set_value m' k v) p ≢ kh.kh_end (kh.set_value m' k v)
  pub value :
      (m : M) (p v : ℕ)
      → let (k, ret, m') = kh.kh_put m p in
        let m'' = kh.set_value m' k v in kh.kh_value m'' (kh.kh_get m'' p) ≡ v

-- The blocks and the bytes that are allocated and not freed.
abbrev pub outstanding : {M S : Type 0} → Malloc M S → ℕ × ℕ
outstanding s = (sub_long s.num_mallocs s.num_frees, sub_long s.bytes_malloced s.bytes_freed)

-- No more was freed than allocated, and no counter is near its limit.
pub record InRange {M S : Type 0} (size : ℕ) (s : Malloc M S) : Type 0 where
  pub frees_le : s.num_frees ≤ s.num_mallocs
  pub mallocs_lt : s.num_mallocs + 1 < 2 ^ 63
  pub freed_le : s.bytes_freed ≤ s.bytes_malloced
  pub bytes_lt : s.bytes_malloced + size < 2 ^ 63

module _ {M S : Type 0} ⦃kh : KHash M⦄ ⦃lc : Libc S⦄ (map : IsMap kh) where
  -- If the hash map is a map, the C library gives a block and takes it back, and the counters are
  -- in range, a block of nonzero size that is allocated and freed leaves the counts of outstanding
  -- blocks and bytes as they were, and no assertion of free369 fails.
  pub free369-malloc369 :
      (size p : ℕ) (s : Malloc M S) {libc libc' : S}
      → InRange size s
      → size ≢ 0
      → p ≢ 0
      → lc.malloc size s.libc ≡ (p, libc)
      → lc.free p libc ≡ ok libc'
      → (malloc369 size s >>= λ r. free369 r.0 r.1 >>= λ s'. ok (outstanding s'))
        ≡ ok (outstanding s)
  unfolding malloc369 free369 free_live free_only
  free369-malloc369 size p s b nz np m f = ground (
    arith,
    map.put_works s.malloc_map p,
    map.found s.malloc_map p size,
    map.value s.malloc_map p size,
  )
