-- ===== src/Clock/Tests.antt =====
-- The theorems on times at concrete times.
use user_space_threads.Prelude.{◌+◌, ◌≡◌, ◌++◌, [], ◌∷◌, some, ok, arith}
use user_space_threads.Clock.{Timespec, timespec_sub, spin}
use user_space_threads.Clock.Elapsed.{IsTime, total, timespec_sub_lem, spin_lem}

abbrev earlier : Timespec
earlier = record { tv_sec = 5; tv_nsec = 900_000_000 }

abbrev soon : Timespec
soon = record { tv_sec = 5; tv_nsec = 900_000_100 }

abbrev after_a_second : Timespec
after_a_second = record { tv_sec = 7; tv_nsec = 100 }

timespec_sub_lem_example :
    IsTime (timespec_sub after_a_second earlier)
    × (total (timespec_sub after_a_second earlier) + total earlier ≡ total after_a_second)
timespec_sub_lem_example =
    timespec_sub_lem after_a_second earlier (omega arith) (omega arith) (omega arith)

spin_lem_example : spin 1 0 earlier ((soon ∷ []) ++ after_a_second ∷ []) ≡ ok (some after_a_second)
spin_lem_example =
    spin_lem 1 earlier after_a_second (soon ∷ []) [] (omega arith) (omega arith)
      ((record { time = omega arith; behind = omega arith; near = omega arith }, omega arith), tt)
      (record { time = omega arith; behind = omega arith; near = omega arith }) (omega arith)
