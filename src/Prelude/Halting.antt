-- ===== src/Prelude/Halting.antt =====
-- Results of code that may end the process: by a failed `assert`, by `exit`, by an access through a
-- pointer to no live object, or by a jump to a context in which nothing was stored or whose function
-- has returned. C leaves the last two undefined.
use user_space_threads.Prelude.Word.{Int32}
use mathlib.Core.Bool.{Bool, true, false}

pub data Halt : Type 0 where
  assert_failed : Halt
  exit_with : Int32 → Halt
  bad_pointer : Halt
  bad_context : Halt

pub data Result {ℓ} (A : Type ℓ) : Type ℓ where
  ok : A → Result A
  halt : Halt → Result A

infixl 5 ◌>>=◌ ◌>>◌
abbrev pub ◌>>=◌ {ℓ κ} : {A : Type ℓ} {B : Type κ} → Result A → (A → Result B) → Result B
ok a >>= f = f a
halt h >>= f = halt h

abbrev pub ◌>>◌ {ℓ} : {B : Type ℓ} → Result (Unit {0}) → Result B → Result B
m >> k = m >>= λ _. k

-- C's `assert`.
abbrev pub assert : Bool → Result (Unit {0})
assert true = ok tt
assert false = halt assert_failed
