-- ===== src/Calls/Accounted.antt =====
-- The process with malloc369.c as its allocator.
use user_space_threads.Prelude.{Bool, true, false, ◌≡◌, ◌⊎◌, if◌then◌else◌}
use user_space_threads.Machine.{Control, Outcome, World}
use user_space_threads.Thread.Inv.{Inv}
use user_space_threads.Malloc.{Malloc}
use user_space_threads.Machine.Objects.{Allocator}
use user_space_threads.Calls
use user_space_threads.Calls.{Move, Reached}

-- A call comes to malloc369 or free369 with the signal unblocked, if it is unblocked at the call.
abbrev is_open : Calls.Call → Bool
is_open Calls.new_queue = true
is_open (Calls.drop_queue p) = true
is_open Calls.new_lock = true
is_open (Calls.drop_lock p) = true
is_open Calls.new_cv = true
is_open (Calls.drop_cv p) = true
is_open (Calls.reserve size) = true
is_open (Calls.free_lock p) = true
is_open (Calls.free_cv p) = true
is_open _ = false

-- Where a call comes to malloc369 or free369, no signal can come: it is blocked, by the function or
-- already at the call, or the timer is off.
abbrev pub IsShielded : {H : Type 0} → World H → Calls.Call → Type 0
IsShielded w call = if is_open call then (w.enabled ≡ false) ⊎ (w.timer.usec ≡ 0) else Unit {0}

module _ {H : Type 0} ⦃al : Allocator H⦄ where
  abbrev pub MoveIsShielded : {c : Control H} {o : Outcome H} → Move c o → Type 0
  MoveIsShielded (Calls.goes_on x f stack w) = Unit
  MoveIsShielded (Calls.calls x w call) = IsShielded w call
  MoveIsShielded (Calls.fires x ret now w on set) = Unit

  abbrev pub AlwaysShielded : {c : Control H} → Reached c → Type 0
  AlwaysShielded (Calls.boots uninit w0 w v behind pristine no_handler e) = Unit
  AlwaysShielded (Calls.moves c0 _ o r m e) = MoveIsShielded m × AlwaysShielded r
