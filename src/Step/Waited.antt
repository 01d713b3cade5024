-- ===== src/Step/Waited.antt =====
-- The exit of a thread that another thread waits for, up to the return of that thread's
-- thread_wait.
use user_space_threads.Prelude.{
  ℕ, ◌≡◌, ◌≢◌, refl, Bool, true, false, List, ◌∷◌, Int32, ok, minus, arith, update, ap, ◌∙◌,
}
use user_space_threads.Queue.{queue_push}
use user_space_threads.Machine
use user_space_threads.Machine.{
  destroyed, running, sleep, Frame, in_yield, in_wait, in_death, in_kill, World, Outcome, Control,
  saved,
}
use user_space_threads.Machine.Switch.{setcontext}
use user_space_threads.Machine.Objects.{Allocator, set_state, set_exit_code, set_context}
use user_space_threads.Thread.Ready.{IsTid}
use user_space_threads.Thread.Inv.{switched}
use user_space_threads.Thread.Yield.{
  return, thread_kill, handle_death, thread_exit, exit_to_main, thread_yield, yield_to, switch_to,
  thread_yield_resumed, admin_mode,
}
use user_space_threads.Wait.{thread_wait_after_yield, thread_wait_end}
use user_space_threads.Step.{step, resume, run}

-- The open calls of the undertaker when it yields to the waiter of the dead thread `t`.
abbrev pub undertaking : Int32 → List Frame → List Frame
undertaking t stack = in_death false ∷ in_kill t false ∷ Machine.in_admin_kill ∷ stack

module _ {H : Type 0} ⦃al : Allocator H⦄ where
  pub thread_exit-other :
      (code : Int32) (stack frames : List Frame) (w : World H)
      → w.current_thread ≢ 0
      → w.enabled ≡ true
      → (w.threads 0).context ≡ saved false frames
      → thread_exit code stack w
        ≡ return 0 frames (record (set_exit_code w.current_thread code w) {
          enabled = false;
          thread_to_destroy = w.current_thread;
          administrative_mode = true;
        })
  unfolding thread_exit exit_to_main setcontext
  thread_exit-other code stack frames w nz on ctx = ground arith

  -- thread_yield that is loaded in administrative mode, up to the yield to the waiter.
  resumed-undertaker :
      (s : Bool) (u : Int32) (stack : List Frame) (w : World H) {heap : H} {waiter : Int32}
      → IsTid w.current_thread
      → w.current_thread ≢ 0
      → w.current_thread ≡ w.thread_to_destroy
      → w.enabled ≡ false
      → w.administrative_mode ≡ true
      → (w.threads w.current_thread).state ≡ running
      → (w.threads w.current_thread).waiter ≡ waiter
      → waiter ≢ minus 1
      → waiter ≢ w.current_thread
      → (w.threads waiter).state ≡ sleep
      → al.free369 (w.threads w.current_thread).stack_start w.heap ≡ ok heap
      → thread_yield_resumed s u stack w
        ≡ thread_yield waiter
            (undertaking w.current_thread stack)
            (record (set_state waiter running (set_state w.current_thread destroyed w)) {
              enabled = false;
              heap = heap;
              administrative_mode = false;
            })
  unfolding thread_yield_resumed admin_mode thread_kill handle_death
  resumed-undertaker s u stack w h nz to off admin live waits nw ne asleep f = ground arith

  pub thread_yield-loads :
      (t : Int32) (stack frames : List Frame) (w : World H)
      → IsTid t
      → t ≢ w.current_thread
      → (w.threads t).state ≢ destroyed
      → (w.threads t).context ≡ saved false frames
      → thread_yield t stack w
        ≡ return 0 frames (record (switched w.enabled t stack w) { enabled = false })
  unfolding thread_yield yield_to switch_to setcontext
  thread_yield-loads t stack frames w h ne live ctx = ground arith

  pub run-waiter :
      (x v t : Int32) (p : ℕ) (waiting : List Frame) (w : World H)
      → w.enabled ≡ false
      → w.administrative_mode ≡ false
      → p ≢ 0
      → run 2 (return x (in_yield false v ∷ in_wait t p true ∷ waiting) w)
        ≡ return t waiting
            (record w { enabled = true; ints = update w.ints p (w.threads t).exit_code })
  unfolding run step resume thread_yield_resumed thread_wait_after_yield thread_wait_end
  run-waiter x v t p waiting w off admin np = ground arith

  -- The world in which the waiter goes on: the thread `t` is destroyed and its status is kept, its
  -- stack is freed, the waiter runs, and the undertaker's open calls are stored in the slot of `t`.
  abbrev pub buried : Int32 → Int32 → List Frame → H → World H → World H
  buried code waiter undertaker heap w =
      let t = w.current_thread in
      let dead = set_state t destroyed (set_exit_code t code w) in
      let context = saved false (in_yield false waiter ∷ undertaking t undertaker) in
      record (set_context t context (set_state waiter running dead)) {
        heap = heap;
        thread_queue = (queue_push w.thread_queue t).1;
        current_thread = waiter;
        thread_to_destroy = t;
        administrative_mode = false;
        enabled = true;
      }

  -- A thread other than thread 0 exits with interrupts on and a stack that can be freed, while
  -- another thread, thread 0 or not, sleeps in thread_wait for it, when thread 0 has yielded before:
  -- thread_wait returns the identifier of the dead thread to the waiter, with interrupts on,
  -- and the status of the exit is stored at the address that the waiter gave.
  pub run-thread_exit-waited :
      (code : Int32) (stack : List Frame) (w : World H) {heap : H} {waiter : Int32} {p : ℕ}
      {s : Bool} {u v : Int32} {others waiting : List Frame}
      → IsTid w.current_thread
      → w.current_thread ≢ 0
      → w.enabled ≡ true
      → (w.threads w.current_thread).state ≡ running
      → (w.threads w.current_thread).waiter ≡ waiter
      → IsTid waiter
      → waiter ≢ w.current_thread
      → (w.threads waiter).state ≡ sleep
      → (w.threads waiter).context
        ≡ saved false (in_yield false v ∷ in_wait w.current_thread p true ∷ waiting)
      → (w.threads 0).context ≡ saved false (in_yield s u ∷ others)
      → al.free369 (w.threads w.current_thread).stack_start w.heap ≡ ok heap
      → p ≢ 0
      → run 3 (thread_exit code stack w)
        ≡ return w.current_thread waiting
            (record (buried code waiter others heap w) { ints = update w.ints p code })
  unfolding run step resume
  run-thread_exit-waited code stack w {heap} {waiter} {p} {s} {u} {v} {others} {waiting} h nz on
        live waits hw ne asleep wctx ctx f np =
      let t = w.current_thread in
      let x : World H = record (set_exit_code t code w) {
        enabled = false;
        thread_to_destroy = t;
        administrative_mode = true;
      } in
      let y : World H = record (set_state waiter running (set_state t destroyed x)) {
        enabled = false;
        heap = heap;
        administrative_mode = false;
      } in
      let frames = undertaking t others in
      let z : World H = record (switched false waiter frames y) { enabled = false } in
      let e1 = thread_exit-other code stack (in_yield s u ∷ others) w nz on ctx in
      let e2 =
        resumed-undertaker s u others x {heap = heap} {waiter = waiter} h nz refl refl refl
          (ground arith) (ground arith) (omega arith) ne (ground arith) (ground arith) in
      let e3 =
        thread_yield-loads waiter frames (in_yield false v ∷ in_wait t p true ∷ waiting) y hw ne
          (ground arith) (ground arith) in
      let e4 = run-waiter 0 v t p waiting z refl refl np in
      let code_kept : (z.threads t).exit_code ≡ code = ground arith in
      ap (run 3) e1
      ∙ ap (run 2) e2
      ∙ ap (run 2) e3
      ∙ e4
      ∙ ap
          (λ (k : Int32).
            return t waiting
              (record (buried code waiter others heap w) { ints = update w.ints p k }))
          code_kept
