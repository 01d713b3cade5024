-- ===== src/Calls/Perform/Safe.antt =====
-- lock_acquire and cv_wait jump to no context in which nothing was stored.
use user_space_threads.Prelude.{
  ℕ, ◌≡◌, refl, Bool, true, false, not, List, [], ◌∷◌, Option, some, none, Int32, Result, ok, halt,
  arith, ◌>>=◌, ◌>>◌, ◌==◌, assert, assert_failed, exit_with, bad_pointer, bad_context,
}
use user_space_threads.Machine.{Timer, Frame, World, Outcome, Lock, in_cv_sleep}
use user_space_threads.Machine.Objects.{deref}
use user_space_threads.Thread.Inv.{Inv, IsSafe}
use user_space_threads.Wait.Safe.{thread_sleep-IsSafe}
use user_space_threads.Wait.Leaves.{Whole, Leaves, interrupts_set-Whole}
use user_space_threads.Lock.{lock_acquire, lock_release, cv_wait}
use user_space_threads.Lock.Keeps.{Stands, lock_release-Leaves}
use user_space_threads.Step.Safe.{acquire_loop-IsSafe}

module _ {H : Type 0} where
  assert-IsSafe : (b : Bool) (o : Outcome H) → (b ≡ true → IsSafe o) → IsSafe (assert b >> o)
  assert-IsSafe true o h = h refl
  assert-IsSafe false o h = tt

  deref-IsSafe :
      {A : Type 0} (o : Option A) (f : A → Outcome H)
      → ((a : A) → o ≡ some a → IsSafe (f a))
      → IsSafe (deref o >>= f)
  deref-IsSafe none f h = tt
  deref-IsSafe (some a) f h = h a refl

  Leaves-IsSafe :
      {L : (ℕ → Option Lock) → Timer → Type 0} {stack : List Frame} {current : Int32}
      (m : Result (World H)) (f : World H → Outcome H)
      → Leaves L stack current (λ w. w) m
      → ((w : World H) → Whole L stack current w → IsSafe (f w))
      → IsSafe (m >>= f)
  Leaves-IsSafe (ok w) f h k = k w h
  Leaves-IsSafe (halt assert_failed) f h k = tt
  Leaves-IsSafe (halt (exit_with code)) f h k = tt
  Leaves-IsSafe (halt bad_pointer) f h k = tt
  Leaves-IsSafe (halt bad_context) f h k = h

module _ {H : Type 0} (L : (ℕ → Option Lock) → Timer → Type 0) (current : Int32) where
  pub lock_acquire-IsSafe :
      (lock : ℕ) (stack : List Frame) (w : World H) → Inv w → IsSafe (lock_acquire lock stack w)
  unfolding lock_acquire
  lock_acquire-IsSafe lock stack w v =
      ground (arith, acquire_loop-IsSafe lock w.enabled stack (record w { enabled = false }) v)

  pub cv_wait-IsSafe :
      (st : Stands L current) (cv lock : ℕ) (w : World H)
      → Whole L [] current w
      → IsSafe (cv_wait cv lock [] w)
  unfolding cv_wait
  cv_wait-IsSafe st cv lock w k =
      let off : World H = record w { enabled = false } in
      assert-IsSafe (not (cv == 0)) _ (λ a. assert-IsSafe (not (lock == 0)) _ (λ b.
        deref-IsSafe (w.locks lock) _ (λ l live.
          assert-IsSafe (l.current == w.current_thread) _ (λ mine.
            Leaves-IsSafe (lock_release lock off) _
              (lock_release-Leaves L current st lock [] off
                (interrupts_set-Whole L [] current false w tt k))
              (λ w1 k1. deref-IsSafe (w1.cvs cv) _ (λ c there.
                thread_sleep-IsSafe c.queue (in_cv_sleep lock w.enabled ∷ []) w1 k1.inv))))))
