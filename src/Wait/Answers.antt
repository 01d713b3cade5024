-- ===== src/Wait/Answers.antt =====
-- All that thread_wait can do in a call: refuse, return the status of a thread that has exited, or
-- put the caller to sleep.
use user_space_threads.Prelude.{
  ℕ, ◌≤◌, ◌<◌, ◌≡◌, ◌≢◌, refl, true, false, ◌⊎◌, inl, inr, Bool-cases, List, ◌∷◌, Int32, minus,
  ◌==◌, ==→eq, ==→ne, arith, update, if◌then◌else◌,
}
use user_space_threads.Queue.{thread_max_threads}
use user_space_threads.Machine.{
  Frame, World, Outcome, State, destroyed, running, sleep, in_wait, thread_any, thread_invalid,
  sigkill,
}
use user_space_threads.Machine.Objects.{state_eq, set_state, set_waiter}
use user_space_threads.Thread.{is_valid_thread}
use user_space_threads.Thread.Yield.{return, thread_yield}
use user_space_threads.Wait.{thread_wait, thread_wait_end}

-- Why thread_wait refuses: there is no such slot, it is destroyed with the exit status -SIGKILL, it
-- is that of the caller, or it is not destroyed and its waiter is set.
abbrev pub IsRefused : {H : Type 0} → Int32 → World H → Type 0
IsRefused tid w =
    (thread_max_threads ≤ tid)
    ⊎ ((w.threads tid).state ≡ destroyed × ((w.threads tid).exit_code ≡ minus sigkill))
    ⊎ (tid ≡ w.current_thread)
    ⊎ ((w.threads tid).state ≢ destroyed × ((w.threads tid).waiter ≢ minus 1))

-- Another slot, destroyed with a status other than that of a killed thread.
pub record HasExited {H : Type 0} (tid : Int32) (w : World H) : Type 0 where
  pub slot : tid < thread_max_threads
  pub other : tid ≢ w.current_thread
  pub dead : (w.threads tid).state ≡ destroyed
  pub not_killed : (w.threads tid).exit_code ≢ minus sigkill

-- Another slot, not destroyed, whose waiter is not set.
pub record CanWait {H : Type 0} (tid : Int32) (w : World H) : Type 0 where
  pub slot : tid < thread_max_threads
  pub other : tid ≢ w.current_thread
  pub lives : (w.threads tid).state ≢ destroyed
  pub nobody : (w.threads tid).waiter ≡ minus 1

-- The status of the thread is stored, if there is a place for it.
abbrev pub with_status : {H : Type 0} → Int32 → ℕ → World H → World H
with_status tid p w =
    if p == 0 then w else record w { ints = update w.ints p (w.threads tid).exit_code }

pub data Answers {H : Type 0} (tid : Int32) (p : ℕ) (stack : List Frame) (w : World H)
    (o : Outcome H) : Type 0 where
  refused : IsRefused tid w → o ≡ return thread_invalid stack w → Answers tid p stack w o
  exited : HasExited tid w → o ≡ return tid stack (with_status tid p w) → Answers tid p stack w o
  waits :
      CanWait tid w
      → o
        ≡ thread_yield thread_any (in_wait tid p true ∷ stack) (
            set_state w.current_thread sleep
              (set_waiter tid w.current_thread (record w { enabled = false })))
      → Answers tid p stack w o

valid_slot : (tid : Int32) → is_valid_thread tid ≡ true → tid < thread_max_threads
unfolding is_valid_thread
valid_slot tid e = ground (arith, e)

no_slot : (tid : Int32) → is_valid_thread tid ≡ false → thread_max_threads ≤ tid
unfolding is_valid_thread
no_slot tid e = ground (arith, e)

is_dead : (s : State) → state_eq s destroyed ≡ true → s ≡ destroyed
is_dead destroyed e = refl
is_dead running e = cc
is_dead sleep e = cc

is_alive : (s : State) → state_eq s destroyed ≡ false → s ≢ destroyed
is_alive s e z = ground (arith, e, z)

module _ {H : Type 0} where
  -- thread_wait, called with the signal unblocked, does one of three things. It returns
  -- THREAD_INVALID and changes nothing, and then there is no such slot, or the slot is destroyed
  -- with the exit status -SIGKILL, or it is that of the caller, or it is not destroyed and its
  -- waiter is set. Or it returns the identifier and stores the exit status of the slot, if the
  -- pointer is not NULL, and then the slot is another than the caller's and is destroyed with
  -- another status. Or it notes the caller as the waiter, marks it as asleep and yields with the
  -- signal blocked, and then the slot is another than the caller's, not destroyed, and its waiter
  -- is not set.
  pub thread_wait-Answers :
      (tid : Int32) (p : ℕ) (stack : List Frame) (w : World H)
      → w.enabled ≡ true
      → Answers tid p stack w (thread_wait tid p stack w)
  unfolding thread_wait thread_wait_end
  thread_wait-Answers tid p stack w on = elim (Bool-cases (is_valid_thread tid)) [
    | inr outside ↦ refused (inl (no_slot tid outside)) (ground arith)
    | inl slot ↦ elim (Bool-cases (state_eq (w.threads tid).state destroyed)) [
      | inl dead ↦ elim (Bool-cases ((w.threads tid).exit_code == minus sigkill)) [
        | inl killed ↦
            refused (inr (inl (is_dead (w.threads tid).state dead, ==→eq killed))) (ground arith)
        | inr not_killed ↦ elim (Bool-cases (tid == w.current_thread)) [
          | inl self ↦ refused (inr (inr (inl (==→eq self)))) (ground arith)
          | inr other ↦
              exited
                (record {
                  slot = valid_slot tid slot;
                  other = ==→ne other;
                  dead = is_dead (w.threads tid).state dead;
                  not_killed = ==→ne not_killed;
                })
                (ground arith)
        ]
      ]
      | inr alive ↦ elim (Bool-cases (tid == w.current_thread)) [
        | inl self ↦ refused (inr (inr (inl (==→eq self)))) (ground arith)
        | inr other ↦ elim (Bool-cases ((w.threads tid).waiter == minus 1)) [
          | inr taken ↦
              refused (inr (inr (inr (is_alive (w.threads tid).state alive, ==→ne taken))))
                (ground arith)
          | inl nobody ↦
              waits
                (record {
                  slot = valid_slot tid slot;
                  other = ==→ne other;
                  lives = is_alive (w.threads tid).state alive;
                  nobody = ==→eq nobody;
                })
                (ground arith)
        ]
      ]
    ]
  ]
