-- ===== src/Step/Succeeded.antt =====
-- The exit of a thread that nobody waits for, up to the thread that goes on.
use user_space_threads.Prelude.{
  ◌≡◌, ◌≢◌, refl, ap, ◌∙◌, Bool, true, false, List, [], ◌∷◌, inl, inr, Int32, ok, arith, subst,
}
use user_space_threads.Queue.{Queue}
use user_space_threads.Queue.Refine.{contents}
use user_space_threads.Machine
use user_space_threads.Machine.{
  destroyed, running, Frame, in_yield, in_kill, World, Outcome, saved, thread_any,
}
use user_space_threads.Machine.Switch.{setcontext}
use user_space_threads.Machine.Objects.{Allocator}
use user_space_threads.Thread.Ready.{IsTid}
use user_space_threads.Thread.Inv.{Inv, switched}
use user_space_threads.Thread.Yield.{return, thread_exit, yield_to, switch_to}
use user_space_threads.Step.{run}
use user_space_threads.Step.Exit.{IsAlone, undertaken, undertaken-Inv, run-undertaker}
use user_space_threads.Step.Preempt.Picks.{Picks, thread_yield-Picks}

module _ {H : Type 0} ⦃al : Allocator H⦄ where
  -- What the exit leaves: the thread `t` goes on with the signal blocked, the slot of the thread
  -- that was current is destroyed with the status of the exit and the open calls of its undertaker,
  -- its stack is freed, and every other slot is as it was.
  pub record Passes (code t : Int32) (heap : H) (w w' : World H) : Type 0 where
    pub current : w'.current_thread ≡ t
    pub destroys : (w'.threads w.current_thread).state ≡ destroyed
    pub status : (w'.threads w.current_thread).exit_code ≡ code
    pub others : (u : Int32) → u ≢ w.current_thread → w'.threads u ≡ w.threads u
    pub freed : w'.heap ≡ heap
    pub blocked : w'.enabled ≡ false
    pub mode : w'.administrative_mode ≡ false

  -- The world in which `t` goes on, with `q` as the ready queue that it was found in.
  abbrev succeeded : Int32 → Int32 → List Frame → H → Queue → World H → World H
  succeeded code t stack heap q w =
      switched false t stack (record (undertaken code heap w) { thread_queue = q })

  succeeded-Passes :
      (code t : Int32) (stack : List Frame) (heap : H) (q : Queue) (w : World H)
      → Passes code t heap w (succeeded code t stack heap q w)
  succeeded-Passes code t stack heap q w = record {
    current = refl;
    destroys = ground arith;
    status = ground arith;
    others = λ u ne. ground (arith, ne);
    freed = refl;
    blocked = refl;
    mode = refl;
  }

  yield_to-loads :
      (t : Int32) (stack frames : List Frame) (w : World H)
      → IsTid t
      → t ≢ w.current_thread
      → w.enabled ≡ false
      → (w.threads t).state ≡ running
      → (w.threads t).context ≡ saved false frames
      → yield_to false t stack w ≡ return 0 frames (switched false t stack w)
  unfolding yield_to switch_to setcontext
  yield_to-loads t stack frames w h ne off live ctx = ground arith

  picked : {t : Int32} {stack : List Frame} {w : World H} (p : Picks stack t 0 w) → p.x ≡ t
  picked p = elim p.next [ inl e ↦ e | inr (b, a, e, h) ↦ absurd (omega (arith, h)) ]

  -- A thread other than thread 0 exits with interrupts on and a stack that can be freed, while
  -- nobody waits for it but for a dead thread, when thread 0 has yielded before and another thread
  -- that runs is in front in the ready queue: that thread goes on where it was stopped, with the
  -- signal blocked. The slot of the dead thread is destroyed with the status of the exit, its stack
  -- is freed, and the other slots are as they were.
  pub run-thread_exit-Passes :
      (code : Int32) (stack : List Frame) (w : World H) {heap : H} {s : Bool} {u t : Int32}
      {others frames : List Frame} {after : List Int32}
      → Inv w
      → w.current_thread ≢ 0
      → w.enabled ≡ true
      → (w.threads w.current_thread).state ≡ running
      → IsAlone w
      → (w.threads 0).context ≡ saved false (in_yield s u ∷ others)
      → al.free369 (w.threads w.current_thread).stack_start w.heap ≡ ok heap
      → contents w.thread_queue ≡ t ∷ after
      → t ≢ w.current_thread
      → (w.threads t).state ≡ running
      → (w.threads t).context ≡ saved false frames
      → (w' : World H) × (run 3 (thread_exit code stack w) ≡ return 0 frames w')
        × Passes code t heap w w'
  run-thread_exit-Passes code stack w {heap} {s} {u} {t} {others} {frames} {after} v nz on live
        alone ctx f front ne goes tctx =
      let undertaker : List Frame = Machine.in_admin_yield ∷ others in
      let w1 : World H = undertaken code heap w in
      let p : Picks undertaker t 0 w1 =
        thread_yield-Picks undertaker t [] after w1 (undertaken-Inv code heap w v) front
          (ground arith) ne in
      let found : World H = record w1 { thread_queue = p.q } in
      (
        succeeded code t undertaker heap p.q w,
        run-undertaker code stack w v.current nz on live alone ctx f
            ∙ p.picks
            ∙ ap (λ x. yield_to false x undertaker found) (picked p)
            ∙ yield_to-loads t undertaker frames found (subst IsTid (picked p) p.tid) ne refl
                (ground arith) (ground arith),
        succeeded-Passes code t undertaker heap p.q w,
      )
