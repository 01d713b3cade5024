-- ===== src/Clock/Elapsed.antt =====
-- The difference of two times, and when the busy wait ends.
use user_space_threads.Prelude.{
  ℕ, ◌+◌, ◌*◌, ◌^◌, ◌%◌, ◌≤◌, ◌<◌, ◌≡◌, List, [], ◌∷◌, ◌++◌, some, ok, ap, long_mod, arith, All,
}
use user_space_threads.Clock.{Timespec, timespec_sub, nsec_per_sec, nanoseconds, spin_loop, spin}

-- A time of clock_gettime: the nanoseconds are below a second, and the seconds are no negative.
pub record IsTime (t : Timespec) : Type 0 where
  pub sec_in : t.tv_sec < 2 ^ 63
  pub nsec_in : t.tv_nsec < nsec_per_sec

abbrev pub total : Timespec → ℕ
total t = t.tv_sec * nsec_per_sec + t.tv_nsec

-- `timespec_sub` of a later and an earlier time is a time again, and their distance.
pub timespec_sub_lem :
    (a b : Timespec)
    → IsTime a
    → IsTime b
    → total b ≤ total a
    → IsTime (timespec_sub a b) × (total (timespec_sub a b) + total b ≡ total a)
unfolding timespec_sub
timespec_sub_lem a b ta tb h = ground arith

-- Where the distance is less than 2 ^ 64 nanoseconds, spin computes it.
nanoseconds_lem :
    (a b : Timespec)
    → IsTime a
    → IsTime b
    → total b ≤ total a
    → total a < total b + 2 ^ 64
    → nanoseconds (timespec_sub a b) + total b ≡ total a
nanoseconds_lem a b ta tb h near =
    let d = timespec_sub a b in let (t, e) = timespec_sub_lem a b ta tb h in omega (arith, e, near)

-- A reading of the clock that is a time, and not before `start` or 2 ^ 64 nanoseconds behind it.
pub record IsReading (start t : Timespec) : Type 0 where
  pub time : IsTime t
  pub behind : total start ≤ total t
  pub near : total t < total start + 2 ^ 64

spin_loop_lem :
    (nsecs : ℕ) (start now : Timespec) (early later : List Timespec)
    → IsTime start
    → All (λ t. IsReading start t × (total t < total start + nsecs)) early
    → IsReading start now
    → total start + nsecs ≤ total now
    → spin_loop nsecs start (early ++ now ∷ later) ≡ some now
unfolding spin_loop
spin_loop_lem nsecs start now [] later ts h r g =
    ground (arith, nanoseconds_lem now start r.time ts r.behind r.near)
spin_loop_lem nsecs start now (t ∷ early) later ts ((r', soon), h) r g = ground (
  arith,
  nanoseconds_lem t start r'.time ts r'.behind r'.near,
  spin_loop_lem nsecs start now early later ts h r g,
)

-- spin(usecs) ends at the first reading of the clock, `now`, that is `usecs` microseconds or more
-- behind the start: the clock answers with times, none of them before the start or 2 ^ 64
-- nanoseconds behind it, and `usecs` microseconds are less than 2 ^ 64 nanoseconds.
pub spin_lem :
    (usecs : ℕ) (start now : Timespec) (early later : List Timespec)
    → usecs * 1000 < 2 ^ 64
    → IsTime start
    → All (λ t. IsReading start t × (total t < total start + usecs * 1000)) early
    → IsReading start now
    → total start + usecs * 1000 ≤ total now
    → spin usecs 0 start (early ++ now ∷ later) ≡ ok (some now)
unfolding spin
spin_lem usecs start now early later small ts h r g =
    let same : usecs * 1000 % long_mod ≡ usecs * 1000 = omega (arith, small) in
    rw same (ap ok (spin_loop_lem (usecs * 1000) start now early later ts h r g))
