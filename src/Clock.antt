-- ===== src/Clock.antt =====
-- common.c: the difference of two times, and the busy wait. A `long` is its pattern of 64 bits.
pub mod Elapsed
mod Tests
use user_space_threads.Prelude.{
  ℕ, ◌+◌, ◌*◌, ◌%◌, ◌^◌, true, false, not, List, [], ◌∷◌, Option, none, some, Int32, Result, ok,
  assert, leb, ◌>>=◌, ◌>>◌, ◌==◌, if◌then◌else◌, long_mod, add_long, sub_long, lt_long,
}

abbrev pub nsec_per_sec : ℕ
nsec_per_sec = 1_000_000_000

-- `struct timespec`
pub record Timespec : Type 0 where
  pub tv_sec : ℕ
  pub tv_nsec : ℕ

unfoldable pub timespec_sub : Timespec → Timespec → Timespec
timespec_sub a b =
    let sec = sub_long a.tv_sec b.tv_sec in
    let nsec = sub_long a.tv_nsec b.tv_nsec in
    if lt_long nsec 0
    then record { tv_sec = sub_long sec 1; tv_nsec = add_long nsec nsec_per_sec }
    else record { tv_sec = sec; tv_nsec = nsec }

-- `diff.tv_sec * NSEC_PER_SEC + diff.tv_nsec`, which the test of spin reads as unsigned
abbrev pub nanoseconds : Timespec → ℕ
nanoseconds d = (d.tv_sec * nsec_per_sec + d.tv_nsec) % long_mod

-- The loop of spin over the times that clock_gettime gives: the time at which it ends, or `none`
-- if it has not ended at the last of them.
unfoldable pub spin_loop : ℕ → Timespec → List Timespec → Option Timespec
unfolding timespec_sub
spin_loop nsecs start [] = none
spin_loop nsecs start (now ∷ later) = elim (leb nsecs (nanoseconds (timespec_sub now start))) [
  | true ↦ some now
  | false ↦ spin_loop nsecs start later
]

-- `ret` and `start` are the first answer of clock_gettime.
unfoldable pub spin : ℕ → Int32 → Timespec → List Timespec → Result (Option Timespec)
unfolding spin_loop
spin usecs ret start readings = do
  assert (ret == 0)
  ok (spin_loop (usecs * 1000 % long_mod) start readings)
