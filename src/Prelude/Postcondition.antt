-- ===== src/Prelude/Postcondition.antt =====
-- What holds of a result if there is one.
use mathlib.Core.Path.{◌≡◌, refl}
use mathlib.Core.Bool.{Bool, true, false}
use user_space_threads.Prelude.Tests.{if◌then◌else◌}
use user_space_threads.Prelude.Halting.{Result, ok, halt, assert, ◌>>=◌, ◌>>◌}

abbrev pub Ensures {ℓ κ} : {A : Type ℓ} → (A → Type κ) → Result A → Type κ
Ensures P (ok a) = P a
Ensures P (halt h) = Unit

module _ {ℓ κ} {B : Type ℓ} (P : B → Type κ) where
  pub bind-Ensures {μ ν} :
      {A : Type μ} (Q : A → Type ν) (m : Result A) (f : A → Result B)
      → Ensures Q m
      → ((a : A) → m ≡ ok a → Q a → Ensures P (f a))
      → Ensures P (m >>= f)
  bind-Ensures Q (ok a) f h k = k a refl h
  bind-Ensures Q (halt e) f h k = tt

  pub any-Ensures {μ} :
      {A : Type μ} (m : Result A) (f : A → Result B)
      → ((a : A) → m ≡ ok a → Ensures P (f a))
      → Ensures P (m >>= f)
  any-Ensures (ok a) f k = k a refl
  any-Ensures (halt e) f k = tt

  pub assert-Ensures :
      (b : Bool) (r : Result B) → (b ≡ true → Ensures P r) → Ensures P (assert b >> r)
  assert-Ensures true r k = k refl
  assert-Ensures false r k = tt

  pub if-Ensures :
      (b : Bool) (x y : Result B)
      → (b ≡ true → Ensures P x)
      → (b ≡ false → Ensures P y)
      → Ensures P (if b then x else y)
  if-Ensures true x y h k = h refl
  if-Ensures false x y h k = k refl

pub map-Ensures {ℓ κ ν} :
    {A : Type ℓ} {P : A → Type κ} {Q : A → Type ν} (r : Result A)
    → ((a : A) → P a → Q a)
    → Ensures P r
    → Ensures Q r
map-Ensures (ok a) f h = f a h
map-Ensures (halt e) f h = tt
