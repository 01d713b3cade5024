-- ===== src/Queue/Fifo.antt =====
-- What a queue promises: a list of identifiers, oldest first, of at most `queue_slots` entries.
use user_space_threads.Prelude.{
  ℕ, Bool, true, false, List, [], ◌∷◌, ◌++◌, Int32, length, ◌==◌, if◌then◌else◌,
}

unfoldable pub push : ℕ → List Int32 → Int32 → Bool × List Int32
push slots xs x = if length xs == slots then (false, xs) else (true, xs ++ x ∷ [])

unfoldable pub pop : Int32 → List Int32 → Int32 × List Int32
pop empty [] = (empty, [])
pop empty (x ∷ xs) = (x, xs)

-- All entries but the last, and the last one.
unfoldable pub front : List Int32 → List Int32
front [] = []
front (x ∷ []) = []
front (x ∷ y ∷ xs) = x ∷ front (y ∷ xs)

unfoldable pub last_or : Int32 → List Int32 → Int32
last_or empty [] = empty
last_or empty (x ∷ xs) = last_or x xs

unfoldable pub pop_last : Int32 → List Int32 → Int32 × List Int32
unfolding front last_or
pop_last empty xs = (last_or empty xs, front xs)
