-- ===== src/Thread/Keeps/Frames.antt =====
-- How a call is opened, goes on and returns within the discipline of the signal mask.
use user_space_threads.Prelude.{
  ℕ, ◌≡◌, refl, Bool, false, true, List, ◌∷◌, Option, Int32, Result, ok, halt, arith, ◌>>=◌, ◌>>◌,
  assert, if◌then◌else◌,
}
use user_space_threads.Interrupt.{interrupts_set}
use user_space_threads.Machine.{Timer, Context, unset, saved, Frame, World, Outcome, Lock, Thread}
use user_space_threads.Machine.Objects.{set_thread}
use user_space_threads.Machine.Switch.{setcontext}
use user_space_threads.Thread.Masks.{Calm, Keeps, Fits, IsMaskedContext, Fits-false, mask_behind}
use user_space_threads.Thread.Yield.{restore}

pub bind-Keeps :
    {A H : Type 0} (L : (ℕ → Option Lock) → Timer → Type 0) (m : Result A) (f : A → Outcome H)
    → ((a : A) → Keeps L (f a))
    → Keeps L (m >>= f)
bind-Keeps L (ok a) f k = k a
bind-Keeps L (halt h) f k = tt

-- Both ways of a test, and an assertion that holds.
pub if-Keeps :
    {H : Type 0} (L : (ℕ → Option Lock) → Timer → Type 0) (b : Bool) (x y : Outcome H)
    → (b ≡ true → Keeps L x)
    → (b ≡ false → Keeps L y)
    → Keeps L (if b then x else y)
if-Keeps L true x y h k = h refl
if-Keeps L false x y h k = k refl

pub assert-Keeps :
    {H : Type 0} (L : (ℕ → Option Lock) → Timer → Type 0) (b : Bool) (o : Outcome H)
    → (b ≡ true → Keeps L o)
    → Keeps L (assert b >> o)
assert-Keeps L true o h = h refl
assert-Keeps L false o h = tt

module _ {H : Type 0} (L : (ℕ → Option Lock) → Timer → Type 0) where
  pub setcontext-Keeps :
      (c : Context) (w : World H) {stack : List Frame}
      → IsMaskedContext c
      → Calm L stack w
      → Keeps L (setcontext c w)
  unfolding setcontext
  setcontext-Keeps unset w h k = tt
  setcontext-Keeps (saved mask stack) w h k = record {
    queues = k.queues;
    of_locks = k.of_locks;
    contexts = k.contexts;
    fits = rw (h.0) (Fits-false stack);
    masked = h.1;
  }

  -- The mask may change, if it fits the open calls.
  pub with_mask :
      (s : Bool) (w : World H) {stack : List Frame}
      → Fits s stack
      → Calm L stack w
      → Calm L stack (record w { enabled = s })
  with_mask s w h k = record {
    queues = k.queues;
    of_locks = k.of_locks;
    contexts = k.contexts;
    fits = h;
    masked = k.masked;
  }

  -- A call that is opened with the signal blocked.
  pub with_call :
      (f : Frame) (w : World H) {stack : List Frame}
      → Fits (mask_behind f) stack
      → Calm L stack w
      → Calm L (f ∷ stack) (record w { enabled = false })
  with_call f w h k = record {
    queues = k.queues;
    of_locks = k.of_locks;
    contexts = k.contexts;
    fits = refl;
    masked = (h, k.masked);
  }

  -- An open call returns, and its mask is restored.
  pub returned :
      (f : Frame) (s : Bool) (w : World H) {stack : List Frame}
      → Fits s stack
      → Calm L (f ∷ stack) w
      → Calm L stack (record w { enabled = s })
  returned f s w h k = record {
    queues = k.queues;
    of_locks = k.of_locks;
    contexts = k.contexts;
    fits = h;
    masked = k.masked.1;
  }

  pub restore-Keeps :
      (f : Frame) (s : Bool) (v : Int32) (w : World H) {stack : List Frame}
      → Fits s stack
      → Calm L (f ∷ stack) w
      → Keeps L (restore s v stack w)
  unfolding interrupts_set
  restore-Keeps f true v w h k = returned f true w h k
  restore-Keeps f false v w h k = returned f false w h k

  -- The fields of a thread other than its context may change.
  pub with_thread :
      (t : Int32) (x : Thread) (w : World H) {stack : List Frame}
      → x.context ≡ (w.threads t).context
      → Calm L stack w
      → Calm L stack (set_thread t x w)
  with_thread t x w e k = record {
    queues = k.queues;
    of_locks = k.of_locks;
    contexts = λ u. ground (arith, k.contexts u, k.contexts t);
    fits = k.fits;
    masked = k.masked;
  }

  -- One open call behind another.
  pub reopened :
      (f g : Frame) (w : World H) {stack : List Frame}
      → Fits (mask_behind g) stack
      → Calm L (f ∷ stack) w
      → Calm L (g ∷ stack) w
  reopened f g w h k = record {
    queues = k.queues;
    of_locks = k.of_locks;
    contexts = k.contexts;
    fits = k.fits;
    masked = (h, k.masked.1);
  }
