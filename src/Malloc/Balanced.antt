-- ===== src/Malloc/Balanced.antt =====
-- The counters and the map of malloc369.c against a list of the live blocks, over one call.
use user_space_threads.Prelude.{ℕ, ◌+◌, ◌^◌, ◌<◌, ◌≡◌, ◌≢◌, ◌∷◌, none, some, ok, length, arith}
use user_space_threads.Malloc.{
  KHash, Libc, Malloc, malloc369, free369, free_live, freed, fill_region,
}
use user_space_threads.Malloc.Ledger.{
  Blocks, find, remove, total, IsDictionary, IsLedger, IsLedger-other, find-IsLedger,
  remove-IsLedger, remove_counts,
}

module _ {M S : Type 0} ⦃kh : KHash M⦄ ⦃lc : Libc S⦄ where
  -- The counters are those of the live blocks, and the map holds these blocks.
  pub record Balanced (live : Blocks) (s : Malloc M S) : Type 0 where
    pub ledger : IsLedger kh s.malloc_map live
    pub count : s.num_frees + length live ≡ s.num_mallocs
    pub bytes : s.bytes_freed + total live ≡ s.bytes_malloced
    pub count_lt : s.num_mallocs < 2 ^ 63
    pub bytes_lt : s.bytes_malloced < 2 ^ 63

  abbrev pub after_malloc : ℕ → ℕ → S → Malloc M S → Malloc M S
  after_malloc n p libc s = record s {
    num_mallocs = s.num_mallocs + 1;
    bytes_malloced = s.bytes_malloced + n;
    malloc_map = let (k, ret, m) = kh.kh_put s.malloc_map p in kh.set_value m k n;
    libc = libc;
  }

  abbrev pub after_free : ℕ → ℕ → S → Malloc M S → Malloc M S
  after_free n p libc s = record s {
    num_frees = s.num_frees + 1;
    bytes_freed = s.bytes_freed + n;
    malloc_map = kh.set_value s.malloc_map (kh.kh_get s.malloc_map p) (n + freed);
    memory = fill_region n 0 p s.memory;
    libc = libc;
  }

  module _ (map : IsDictionary kh) where
    pub malloc369-Balanced :
        (n p : ℕ) (libc : S) (live : Blocks) (s : Malloc M S)
        → Balanced live s
        → lc.malloc n s.libc ≡ (p, libc)
        → p ≢ 0
        → n ≢ 0
        → find p live ≡ none
        → s.num_mallocs + 1 < 2 ^ 63
        → s.bytes_malloced + n < 2 ^ 63
        → (malloc369 n s ≡ ok (p, after_malloc n p libc s))
          × Balanced ((p, n) ∷ live) (after_malloc n p libc s)
    unfolding malloc369
    malloc369-Balanced n p libc live s b e np nn new h g =
        let put = map.put s.malloc_map p n in
        (
          ground (arith, e, map.put_works s.malloc_map p),
          record {
            ledger = (
              ground (arith, put p),
              np,
              nn,
              new,
              IsLedger-other kh _ _ p n live put new b.ledger,
            );
            count = omega (arith, b.count);
            bytes = omega (arith, b.bytes);
            count_lt = h;
            bytes_lt = g;
          },
        )

    pub free369-Balanced :
        (n p : ℕ) (libc : S) (live : Blocks) (s : Malloc M S)
        → Balanced live s
        → find p live ≡ some n
        → lc.free p s.libc ≡ ok libc
        → (free369 p s ≡ ok (after_free n p libc s))
          × Balanced (remove p live) (after_free n p libc s)
    unfolding free369 free_live
    free369-Balanced n p libc live s b e f =
        let (at, np, nn) = find-IsLedger kh s.malloc_map p n live b.ledger e in
        let (rest, gone) = remove-IsLedger kh s.malloc_map p live b.ledger in
        let (len, sum) = remove_counts p n live e in
        (
          ground (arith, f),
          record {
            ledger =
                IsLedger-other kh _ _ p (n + freed) (remove p live)
                  (λ q. map.set s.malloc_map p (n + freed) q (λ z. ground (arith, at, z))) gone
                  rest;
            count = omega (arith, b.count, len);
            bytes = omega (arith, b.bytes, sum);
            count_lt = b.count_lt;
            bytes_lt = b.bytes_lt;
          },
        )
