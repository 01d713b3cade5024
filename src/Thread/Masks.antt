-- ===== src/Thread/Masks.antt =====
-- The signal mask across context switches: which mask an open call leaves behind it, and what a
-- client's part of the world has to satisfy beside the invariant of Thread/Inv.
use user_space_threads.Prelude.{
  ℕ, ◌≡◌, refl, Bool, true, false, List, [], ◌∷◌, Option, some, Int32, ok, halt,
}
use user_space_threads.Queue.{Queue}
use user_space_threads.Machine
use user_space_threads.Machine.{Timer, Frame, Context, unset, saved, Thread, Lock, World, Outcome}
use user_space_threads.Thread.Ready.{IsReady}

-- The mask that a frame restores when its call goes on and returns. The calls that end a thread
-- return to nobody; what stands below them keeps the signal blocked.
abbrev pub mask_behind : Frame → Bool
mask_behind (Machine.in_yield signal_state actual_tid) = signal_state
mask_behind (Machine.in_stub thread_main arg) = true
mask_behind (Machine.in_death signal_state) = signal_state
mask_behind (Machine.in_kill tid signal_state) = signal_state
mask_behind Machine.in_admin_kill = false
mask_behind Machine.in_admin_yield = false
mask_behind (Machine.in_exit_death exit_code) = false
mask_behind (Machine.in_exit_yield exit_code) = false
mask_behind (Machine.in_sleep queue enabled) = enabled
mask_behind (Machine.in_wait tid exit_code signal) = signal
mask_behind (Machine.in_acquire lock signals) = signals
mask_behind (Machine.in_cv_sleep lock signal) = signal
mask_behind (Machine.in_cv_acquire signal) = signal
mask_behind Machine.in_handler = true

-- With an open call on the stack the signal is blocked.
abbrev pub Fits : Bool → List Frame → Type 0
Fits enabled [] = Unit
Fits enabled (f ∷ stack) = enabled ≡ false

-- Every open call gives control back with a mask that fits the calls below it.
abbrev pub IsMasked : List Frame → Type 0
IsMasked [] = Unit
IsMasked (f ∷ stack) = Fits (mask_behind f) stack × IsMasked stack

-- A stored context, if anything was stored, has the signal blocked.
abbrev pub IsMaskedContext : Context → Type 0
IsMaskedContext unset = Unit
IsMaskedContext (saved mask stack) = (mask ≡ false) × IsMasked stack

-- Every wait queue is valid and holds thread identifiers.
abbrev pub AllReady : (ℕ → Option Queue) → Type 0
AllReady wait_queues = (p : ℕ) (q : Queue) → wait_queues p ≡ some q → IsReady q

pub Fits-false : (stack : List Frame) → Fits false stack
Fits-false [] = tt
Fits-false (f ∷ stack) = refl

module _ (OfLocks : (ℕ → Option Lock) → Timer → Type 0) where
  -- The wait queues, what is claimed of the locks and the timer, the stored contexts, and the mask
  -- and the open calls where control is.
  pub record Sane (wait_queues : ℕ → Option Queue) (locks : ℕ → Option Lock) (timer : Timer)
      (threads : Int32 → Thread) (enabled : Bool) (stack : List Frame) : Type 0 where
    pub queues : AllReady wait_queues
    pub of_locks : OfLocks locks timer
    pub contexts : (t : Int32) → IsMaskedContext (threads t).context
    pub fits : Fits enabled stack
    pub masked : IsMasked stack

  abbrev pub Calm : {H : Type 0} → List Frame → World H → Type 0
  Calm stack w = Sane w.wait_queues w.locks w.timer w.threads w.enabled stack

  abbrev pub Keeps : {H : Type 0} → Outcome H → Type 0
  Keeps (ok c) = Calm c.stack c.world
  Keeps (halt h) = Unit
