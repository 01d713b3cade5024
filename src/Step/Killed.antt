-- ===== src/Step/Killed.antt =====
-- The kill of a thread that another thread waits for.
use user_space_threads.Prelude.{
  ℕ, ◌≡◌, ◌≢◌, refl, true, false, List, ◌∷◌, Int32, ok, minus, arith, update, ap, ◌∙◌,
}
use user_space_threads.Machine.{
  destroyed, running, sleep, saved, Frame, in_yield, in_wait, in_death, in_kill, World,
}
use user_space_threads.Machine.Objects.{Allocator, set_state}
use user_space_threads.Thread.Ready.{IsTid}
use user_space_threads.Thread.Inv.{switched}
use user_space_threads.Thread.Yield.{return, thread_kill, handle_death, thread_yield}
use user_space_threads.Step.{run}
use user_space_threads.Step.Waited.{thread_yield-loads, run-waiter}

module _ {H : Type 0} ⦃al : Allocator H⦄ where
  -- The world in which the killer yields to the waiter.
  abbrev pub killed : Int32 → Int32 → H → World H → World H
  killed tid waiter heap w = record (set_state waiter running (set_state tid destroyed w)) {
    enabled = false;
    heap = heap;
    administrative_mode = false;
  }

  thread_kill-yields :
      (tid waiter : Int32) (stack : List Frame) (w : World H) {heap : H}
      → IsTid tid
      → tid ≢ w.current_thread
      → tid ≢ 0
      → (w.threads tid).state ≢ destroyed
      → (w.threads tid).waiter ≡ waiter
      → waiter ≢ minus 1
      → waiter ≢ tid
      → (w.threads waiter).state ≡ sleep
      → al.free369 (w.threads tid).stack_start w.heap ≡ ok heap
      → thread_kill tid stack w
        ≡ thread_yield waiter
            (in_death false ∷ in_kill tid w.enabled ∷ stack)
            (killed tid waiter heap w)
  unfolding thread_kill handle_death
  thread_kill-yields tid waiter stack w h ne nz live waits some_waiter nw asleep f = ground arith

  -- thread_kill of another thread than the caller and thread 0, whose stack can be freed, while a
  -- third thread sleeps in thread_wait for it: the next code to run is not the caller's but the
  -- waiter's, whose thread_wait returns the identifier of the killed thread and stores the exit
  -- status that stands in its slot. The caller, in the ready queue, has the rest of its kill
  -- stored.
  pub run-thread_kill-waited :
      (tid : Int32) (stack : List Frame) (w : World H) {heap : H} {waiter v : Int32} {p : ℕ}
      {waiting : List Frame}
      → IsTid tid
      → tid ≢ w.current_thread
      → tid ≢ 0
      → (w.threads tid).state ≢ destroyed
      → (w.threads tid).waiter ≡ waiter
      → IsTid waiter
      → waiter ≢ tid
      → waiter ≢ w.current_thread
      → (w.threads waiter).state ≡ sleep
      → (w.threads waiter).context ≡ saved false (in_yield false v ∷ in_wait tid p true ∷ waiting)
      → al.free369 (w.threads tid).stack_start w.heap ≡ ok heap
      → p ≢ 0
      → let frames = in_death false ∷ in_kill tid w.enabled ∷ stack in
        run 2 (thread_kill tid stack w)
        ≡ return tid waiting (record (switched false waiter frames (killed tid waiter heap w)) {
          enabled = true;
          ints = update w.ints p (w.threads tid).exit_code;
        })
  run-thread_kill-waited tid stack w {heap} {waiter} {v} {p} {waiting} h ne nz live waits hw nw nc
        asleep ctx f np =
      let y : World H = killed tid waiter heap w in
      let frames = in_death false ∷ in_kill tid w.enabled ∷ stack in
      let z : World H = record (switched false waiter frames y) { enabled = false } in
      let e1 =
        thread_kill-yields tid waiter stack w {heap = heap} h ne nz live waits (omega arith) nw
          asleep f in
      let e2 =
        thread_yield-loads waiter frames (in_yield false v ∷ in_wait tid p true ∷ waiting) y hw nc
          (ground arith) (ground arith) in
      let e3 = run-waiter 0 v tid p waiting z refl refl np in
      let kept : (z.threads tid).exit_code ≡ (w.threads tid).exit_code = ground arith in
      ap (run 2) e1
      ∙ ap (run 2) e2
      ∙ e3
      ∙ ap
          (λ (k : Int32).
            return tid waiting (record z { enabled = true; ints = update w.ints p k }))
          kept
