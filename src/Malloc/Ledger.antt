-- ===== src/Malloc/Ledger.antt =====
-- The blocks that are allocated and not freed, as a list of pointers with their sizes.
use user_space_threads.Prelude.{
  ℕ, suc, ◌+◌, ◌≡◌, ◌≢◌, refl, false, Bool-cases, inl, inr, List, [], ◌∷◌, Option, none, some,
  length, ◌==◌, if◌then◌else◌, is_negative, arith,
}
use user_space_threads.Malloc.{KHash}

abbrev pub Blocks : Type 0
Blocks = List (ℕ × ℕ)

abbrev pub find : ℕ → Blocks → Option ℕ
find p [] = none
find p ((q, n) ∷ live) = if q == p then some n else find p live

abbrev pub remove : ℕ → Blocks → Blocks
remove p [] = []
remove p ((q, n) ∷ live) = if q == p then live else (q, n) ∷ remove p live

abbrev pub total : Blocks → ℕ
total [] = 0
total ((q, n) ∷ live) = n + total live

-- What the hash map holds under a key.
abbrev pub value_at : {M : Type 0} → KHash M → M → ℕ → Option ℕ
value_at kh m p =
    if kh.kh_get m p == kh.kh_end m then none else some (kh.kh_value m (kh.kh_get m p))

-- What malloc369.c relies on in khash.h, documented there: kh_put does not fail, and a value that
-- is stored through the iterator of a key is found under that key and changes no other.
pub record IsDictionary {M : Type 0} (kh : KHash M) : Type 0 where
  pub put_works : (m : M) (p : ℕ) → is_negative (kh.kh_put m p).1 ≡ false
  pub put :
      (m : M) (p v q : ℕ)
      → let (k, ret, m') = kh.kh_put m p in
        value_at kh (kh.set_value m' k v) q ≡ (if p == q then some v else value_at kh m q)
  pub set :
      (m : M) (p v q : ℕ)
      → value_at kh m p ≢ none
      → value_at kh (kh.set_value m (kh.kh_get m p) v) q
        ≡ (if p == q then some v else value_at kh m q)

-- Each block is in the map with its size, which is not 0, and no pointer is NULL or stands twice.
abbrev pub IsLedger : {M : Type 0} → KHash M → M → Blocks → Type 0
IsLedger kh m [] = Unit
IsLedger kh m ((p, n) ∷ live) =
    (value_at kh m p ≡ some n) × (p ≢ 0) × (n ≢ 0) × (find p live ≡ none) × IsLedger kh m live

module _ {M : Type 0} (kh : KHash M) where
  -- A map that differs at a pointer that is in no block.
  pub IsLedger-other :
      (m m' : M) (p v : ℕ) (live : Blocks)
      → ((q : ℕ) → value_at kh m' q ≡ (if p == q then some v else value_at kh m q))
      → find p live ≡ none
      → IsLedger kh m live
      → IsLedger kh m' live
  IsLedger-other m m' p v [] e new h = tt
  IsLedger-other m m' p v ((q, n) ∷ live) e new h = elim (Bool-cases (q == p)) [
    | inl a ↦ absurd (ground (arith, new, a))
    | inr a ↦ (
      ground (arith, e q, h.0, a),
      h.1,
      h.2,
      h.3,
      IsLedger-other m m' p v live e (ground (arith, new, a)) h.4,
    )
  ]

  pub find-IsLedger :
      (m : M) (p n : ℕ) (live : Blocks)
      → IsLedger kh m live
      → find p live ≡ some n
      → (value_at kh m p ≡ some n) × (p ≢ 0) × (n ≢ 0)
  find-IsLedger m p n [] h e = absurd (ground arith)
  find-IsLedger m p n ((q, k) ∷ live) h e = elim (Bool-cases (q == p)) [
    | inl a ↦ ground (arith, h.0, h.1, h.2, a, e)
    | inr a ↦ find-IsLedger m p n live h.4 (ground (arith, a, e))
  ]

  find-remove_ne : (p q : ℕ) (live : Blocks) → find q live ≡ none → find q (remove p live) ≡ none
  find-remove_ne p q [] h = refl
  find-remove_ne p q ((r, n) ∷ live) h = ground (arith, find-remove_ne p q live)

  pub remove-IsLedger :
      (m : M) (p : ℕ) (live : Blocks)
      → IsLedger kh m live
      → IsLedger kh m (remove p live) × (find p (remove p live) ≡ none)
  remove-IsLedger m p [] h = (tt, refl)
  remove-IsLedger m p ((q, n) ∷ live) h = elim (Bool-cases (q == p)) [
    | inl a ↦ rw a (h.4, ground (arith, h.3, a))
    | inr a ↦
        let (rest, gone) = remove-IsLedger m p live h.4 in
        rw (a, a) ((h.0, h.1, h.2, find-remove_ne p q live h.3, rest), gone)
  ]

pub remove_counts :
    (p n : ℕ) (live : Blocks)
    → find p live ≡ some n
    → (suc (length (remove p live)) ≡ length live) × (n + total (remove p live) ≡ total live)
remove_counts p n [] e = absurd (ground arith)
remove_counts p n ((q, k) ∷ live) e = elim (Bool-cases (q == p)) [
  | inl a ↦ ground (arith, a, e)
  | inr a ↦ let (l, t) = remove_counts p n live (ground (arith, a, e)) in rw a (omega (arith, l, t))
]
