-- ===== src/Prelude/Word.antt =====
-- The C type `int`, held as its bit pattern of 32 bits: a negative value -n is 2 ^ 32 - n.
-- Equality of ints is equality of patterns; the orders below are the signed ones.
use Prim.Native.Nat.{ℕ, ◌+◌, ◌-◌, ◌%◌, ◌^◌}
use mathlib.Core.Bool.{Bool, true, false, not}
use user_space_threads.Prelude.Tests.{ltb, leb, if◌then◌else◌}

-- The bit pattern of an `int`.
abbrev pub Int32 : Type 0
Int32 = ℕ

abbrev pub int_mod : ℕ
int_mod = 2 ^ 32

-- The pattern of -n.
abbrev pub minus : ℕ → Int32
minus n = int_mod - n

abbrev pub is_negative : Int32 → Bool
is_negative a = leb (2 ^ 31) a

-- `a < b`, signed: the patterns from 2 ^ 31 on are the negative ints, in their order.
abbrev pub lt_signed : Int32 → Int32 → Bool
lt_signed a b =
    if is_negative a
    then (if is_negative b then ltb a b else true)
    else (if is_negative b then false else ltb a b)

abbrev pub le_signed : Int32 → Int32 → Bool
le_signed a b = not (lt_signed b a)

-- `a + b` and `a - b`. The source never overflows them; the pattern wraps.
abbrev pub add_int : Int32 → Int32 → Int32
add_int a b = (a + b) % int_mod

abbrev pub sub_int : Int32 → Int32 → Int32
sub_int a b = (a + int_mod - b) % int_mod

-- `long` and `size_t`: patterns of 64 bits.
abbrev pub long_mod : ℕ
long_mod = 2 ^ 64

abbrev pub add_long : ℕ → ℕ → ℕ
add_long a b = (a + b) % long_mod

abbrev pub sub_long : ℕ → ℕ → ℕ
sub_long a b = (a + long_mod - b) % long_mod

-- `a < b` on long
abbrev pub lt_long : ℕ → ℕ → Bool
lt_long a b = ltb ((a + 2 ^ 63) % long_mod) ((b + 2 ^ 63) % long_mod)

abbrev pub le_long : ℕ → ℕ → Bool
le_long a b = not (lt_long b a)
