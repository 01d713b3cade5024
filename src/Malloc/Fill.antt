-- ===== src/Malloc/Fill.antt =====
-- The loop of free369 that overwrites a block.
use user_space_threads.Prelude.{ℕ, zero, suc, ◌+◌, ◌≤◌, ◌<◌, ◌≡◌, refl, ◌⊎◌, arith, update}
use user_space_threads.Malloc.{fill_region}

-- The loop keeps every byte outside the part that it still has to fill.
pub fill_region-outside :
    (n first ptr : ℕ) (memory : ℕ → ℕ) (a : ℕ)
    → (a < ptr + first) ⊎ (ptr + first + n ≤ a)
    → fill_region n first ptr memory a ≡ memory a
unfolding fill_region
fill_region-outside zero first ptr memory a h = refl
fill_region-outside (suc n) first ptr memory a h =
    ground (arith, fill_region-outside n (first + 1) ptr (update memory (ptr + first) 0xee) a)

-- The loop over the bytes `first` to `first + n - 1` of the block at `ptr` leaves 0xee in each.
pub fill_region-inside :
    (n first ptr : ℕ) (memory : ℕ → ℕ) (a : ℕ)
    → ptr + first ≤ a
    → a < ptr + first + n
    → fill_region n first ptr memory a ≡ 0xee
unfolding fill_region
fill_region-inside zero first ptr memory a h g = absurd (omega arith)
fill_region-inside (suc n) first ptr memory a h g = ground (
  arith,
  fill_region-inside n (first + 1) ptr (update memory (ptr + first) 0xee) a,
  fill_region-outside n (first + 1) ptr (update memory (ptr + first) 0xee) a,
)
