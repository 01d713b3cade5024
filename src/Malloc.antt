-- ===== src/Malloc.antt =====
-- malloc369.c: malloc and free with accounting. The hash map (khash.h) and malloc and free of the C
-- library are parameters. Messages are left out. A `long` or `size_t` is its pattern of 64 bits.
pub mod Fill
pub mod Balance
pub mod Twice
pub mod Ledger
pub mod Balanced
pub mod Run
mod Tests
use user_space_threads.Prelude.{
  ℕ, zero, suc, ◌+◌, ◌-◌, ◌%◌, ◌^◌, ◌≡◌, Bool, false, not, Int32, Result, ok, halt, exit_with,
  assert, minus, is_negative, leb, ◌>>=◌, ◌>>◌, ◌==◌, if◌then◌else◌, update, add_long, sub_long,
  lt_long, le_long,
}
use user_space_threads.Machine.Objects.{Allocator}

-- FREED, the top bit of a size
abbrev pub freed : ℕ
freed = 2 ^ 63

-- khash_t(ptrmap) and the calls that malloc369.c makes of it: kh_put gives an iterator, a status
-- and the map; kh_value is read and written through an iterator.
pub record KHash (M : Type 0) : Type 0 where
  pub kh_init : M
  pub kh_put : M → ℕ → ℕ × Int32 × M
  pub kh_get : M → ℕ → ℕ
  pub kh_end : M → ℕ
  pub kh_value : M → ℕ → ℕ
  pub set_value : M → ℕ → ℕ → M

-- malloc (0 is NULL) and free of the C library.
pub record Libc (S : Type 0) : Type 0 where
  pub malloc : ℕ → S → ℕ × S
  pub free : ℕ → S → Result S
  -- what the array of ints in a fresh block holds
  pub ints_at : ℕ → S → ℕ → Int32

-- The globals of malloc369.c, the bytes of memory, and the state of the C library's allocator.
pub record Malloc (M S : Type 0) : Type 0 where
  pub num_mallocs : ℕ
  pub num_frees : ℕ
  pub bytes_malloced : ℕ
  pub bytes_freed : ℕ
  pub verbose : Bool
  pub malloc_map : M
  pub memory : ℕ → ℕ
  pub libc : S

-- `for (i = first; i < first + n; i++) region[i] = 0xee`
unfoldable pub fill_region : ℕ → ℕ → ℕ → (ℕ → ℕ) → ℕ → ℕ
fill_region zero first ptr memory = memory
fill_region (suc n) first ptr memory =
    fill_region n (first + 1) ptr (update memory (ptr + first) 0xee)

module _ {M S : Type 0} ⦃kh : KHash M⦄ ⦃lc : Libc S⦄ where
  unfoldable pub malloc369 : ℕ → Malloc M S → Result (ℕ × Malloc M S)
  malloc369 size s0 = do
    let s = record s0 {
      num_mallocs = add_long s0.num_mallocs 1;
      bytes_malloced = add_long s0.bytes_malloced size;
    }
    let (m, libc) = lc.malloc size s.libc
    if m == 0
        then halt (exit_with (minus 1))
        else (let (k, ret, map) = kh.kh_put s.malloc_map m in
            do
              assert (not (is_negative ret))
              ok (m, record s { malloc_map = kh.set_value map k size; libc = libc }))

  -- free369 on a block that is in the map and not yet freed: `k` is its iterator.
  unfoldable pub free_live : ℕ → ℕ → Malloc M S → Result (Malloc M S)
  free_live ptr k s = do
    let size = kh.kh_value s.malloc_map k
    assert (not (size == 0))
    assert (lt_long 0 (sub_long s.num_mallocs s.num_frees))
    assert (leb size (sub_long s.bytes_malloced s.bytes_freed))
    libc ← lc.free ptr s.libc
    ok (record s {
      num_frees = add_long s.num_frees 1;
      bytes_freed = add_long s.bytes_freed size;
      malloc_map = kh.set_value s.malloc_map k (size + freed);
      memory = fill_region size 0 ptr s.memory;
      libc = libc;
    })

  -- The C library's free alone.
  unfoldable pub free_only : ℕ → Malloc M S → Result (Malloc M S)
  free_only ptr s = do libc ← lc.free ptr s.libc; ok (record s { libc = libc })

  unfoldable pub free369 : ℕ → Malloc M S → Result (Malloc M S)
  unfolding free_live free_only
  free369 ptr s =
      if ptr == 0
      then free_only ptr s
      else (let k = kh.kh_get s.malloc_map ptr in
          if k == kh.kh_end s.malloc_map
          then free_only ptr s
          else if leb freed (kh.kh_value s.malloc_map k)
          then free_only ptr s
          else free_live ptr k s)

  unfoldable pub init_csc369_malloc : Bool → Malloc M S → Malloc M S
  init_csc369_malloc verb s = record s {
    malloc_map = kh.kh_init;
    verbose = verb;
    num_mallocs = 0;
    bytes_malloced = 0;
    num_frees = 0;
    bytes_freed = 0;
  }

  -- The allocator that thread.c uses.
  instance abbrev pub malloc369_allocator : Allocator (Malloc M S)
  malloc369_allocator = record {
    malloc369 = malloc369;
    free369 = free369;
    block = λ p s. lc.ints_at p s.libc;
  }

module _ {M S : Type 0} where
  unfoldable pub get_current_bytes_malloced : Malloc M S → Result ℕ
  get_current_bytes_malloced s = do
    assert (le_long s.bytes_freed s.bytes_malloced)
    ok (sub_long s.bytes_malloced s.bytes_freed)

  unfoldable pub get_current_num_mallocs : Malloc M S → Result ℕ
  get_current_num_mallocs s = do
    assert (le_long s.num_frees s.num_mallocs)
    ok (sub_long s.num_mallocs s.num_frees)

  unfoldable pub get_num_mallocs : Malloc M S → ℕ
  get_num_mallocs s = s.num_mallocs

  unfoldable pub get_bytes_malloced : Malloc M S → ℕ
  get_bytes_malloced s = s.bytes_malloced

  -- The tolerances are ints; these are their patterns as `long`. The second test is made only if
  -- the first fails.
  unfoldable pub is_leak_free : ℕ → ℕ → Malloc M S → Result Bool
  unfolding get_current_bytes_malloced get_current_num_mallocs
  is_leak_free num_mallocs_tol num_bytes_tol s = do
    bytes ← get_current_bytes_malloced s
    if lt_long num_bytes_tol bytes
        then ok false
        else (do num ← get_current_num_mallocs s; ok (not (lt_long num_mallocs_tol num)))
