-- ===== src/Thread/Keeps.antt =====
-- The functions of Thread/Yield keep the discipline of the signal mask.
mod Frames
pub use Frames.*
use user_space_threads.Prelude.{
  ℕ, zero, suc, ◌≡◌, refl, Bool, false, true, List, ◌∷◌, Option, Int32, Result, ok, halt, minus,
  arith, ◌>>=◌, ◌>>◌, ◌==◌, not, ◌&&◌, ◌||◌, lt_signed, le_signed, assert, if◌then◌else◌,
}
use user_space_threads.Interrupt.{interrupts_set}
use user_space_threads.Queue.{thread_max_threads, queue_pop}
use user_space_threads.Machine
use user_space_threads.Machine.{
  Timer, State, Context, unset, saved, destroyed, running, sleep, Frame, World, Outcome, Lock,
  Thread, Control, thread_any, in_yield, in_death, in_kill, in_exit_death,
}
use user_space_threads.Machine.Objects.{state_eq, Allocator, set_thread, set_state, set_exit_code}
use user_space_threads.Machine.Switch.{setcontext}
use user_space_threads.Thread.{any_loop, get_thread_any}
use user_space_threads.Thread.Inv.{switched}
use user_space_threads.Thread.Masks.{Calm, Keeps, Fits, IsMaskedContext, Fits-false, mask_behind}
use user_space_threads.Thread.Yield.{
  switch_to, yield_to, thread_yield, handle_death, exit_to_main, thread_exit, thread_kill,
  admin_mode, thread_yield_resumed, admin_mode_after_kill, restore,
}

module _ {H : Type 0} (L : (ℕ → Option Lock) → Timer → Type 0) where
  switch_to-Keeps :
      (s : Bool) (t : Int32) (stack : List Frame) (w : World H)
      → Fits s stack
      → Calm L stack w
      → Keeps L (switch_to s t stack w)
  unfolding switch_to
  switch_to-Keeps s t stack w h k =
      let after : World H = switched s t stack w in
      let later : Calm L stack after = record {
        queues = k.queues;
        of_locks = k.of_locks;
        contexts = λ u. ground (arith, k.contexts u);
        fits = k.fits;
        masked = k.masked;
      } in
      ground (arith, setcontext-Keeps L (after.threads t).context after (later.contexts t) later)

  yield_to-Keeps :
      (s : Bool) (t : Int32) (stack : List Frame) (w : World H)
      → Fits s stack
      → Calm L stack w
      → Keeps L (yield_to s t stack w)
  unfolding yield_to
  yield_to-Keeps s t stack w h k =
      ground (arith, switch_to-Keeps s t stack w h k, with_mask L s w h k)

  any_loop-Calm :
      (fuel : ℕ) (t : Int32) (w : World H) {stack : List Frame}
      → Calm L stack w
      → Calm L stack (any_loop fuel t w).1
  unfolding any_loop
  any_loop-Calm zero t w k = k
  any_loop-Calm (suc fuel) t w k =
      ground
        (arith, any_loop-Calm fuel t (record w { thread_queue = (queue_pop w.thread_queue).1 }) k)

  pub thread_yield-Keeps :
      (want : Int32) (stack : List Frame) (w : World H)
      → Calm L stack w
      → Keeps L (thread_yield want stack w)
  unfolding thread_yield get_thread_any
  thread_yield-Keeps want stack w k =
      let off : World H = record w { enabled = false } in
      let k_off : Calm L stack off = with_mask L false w (Fits-false stack) k in
      let found = any_loop (suc w.thread_queue.current_size) w.current_thread off in
      let k_found : Calm L stack found.1 = any_loop-Calm _ w.current_thread off k_off in
      ground (
        arith,
        k,
        yield_to-Keeps w.enabled want stack off k.fits k_off,
        yield_to-Keeps w.enabled found.0 stack found.1 k.fits k_found,
        with_mask L w.enabled found.1 k.fits k_found,
      )

  pub handle_death-Keeps :
      (t : Int32) (stack : List Frame) (w : World H)
      → Calm L stack w
      → Keeps L (handle_death t stack w)
  unfolding handle_death
  handle_death-Keeps t stack w k =
      let off : World H = record w { enabled = false } in
      let dead : World H = set_state t destroyed off in
      let waiter = (dead.threads t).waiter in
      let k_open : Calm L (in_death w.enabled ∷ stack) dead =
        with_thread L t _ off refl (with_call L (in_death w.enabled) w k.fits k) in
      if-Keeps L (waiter == minus 1) _ _
        (λ e. restore-Keeps L (in_death w.enabled) w.enabled 0 dead k.fits k_open)
        (λ e. assert-Keeps L (not (state_eq (dead.threads waiter).state running)) _ (λ a.
          if-Keeps L (state_eq (dead.threads waiter).state sleep) _ _
            (λ z.
              thread_yield-Keeps waiter (in_death w.enabled ∷ stack) (set_state waiter running dead)
                (with_thread L waiter _ dead refl k_open))
            (λ z. restore-Keeps L (in_death w.enabled) w.enabled 0 dead k.fits k_open)))

  pub exit_to_main-Keeps :
      (code : Int32) (w : World H) {stack : List Frame}
      → Calm L stack w
      → Keeps L (exit_to_main code w)
  unfolding exit_to_main
  exit_to_main-Keeps code w k =
      let k' =
        with_thread L w.current_thread (record (w.threads w.current_thread) { exit_code = code }) w
          refl k in
      if-Keeps L (w.current_thread == 0) _ _ (λ z. tt)
        (λ z. setcontext-Keeps L _ _ (k'.contexts 0) k')

  pub thread_exit-Keeps :
      (code : Int32) (stack : List Frame) (w : World H)
      → Calm L stack w
      → Keeps L (thread_exit code stack w)
  unfolding thread_exit
  thread_exit-Keeps code stack w k =
      let off : World H = record w { enabled = false } in
      let open_call : Calm L (in_exit_death code ∷ stack) off =
        with_call L (in_exit_death code) w (Fits-false stack) k in
      ground (
        arith,
        handle_death-Keeps w.current_thread (in_exit_death code ∷ stack)
            (set_exit_code w.current_thread code off)
            (with_thread L w.current_thread _ off refl open_call),
        exit_to_main-Keeps code off open_call,
      )

  pub admin_mode_after_kill-Keeps :
      (stack : List Frame) (w : World H)
      → Calm L (Machine.in_admin_kill ∷ stack) w
      → Keeps L (admin_mode_after_kill stack w)
  unfolding admin_mode_after_kill
  admin_mode_after_kill-Keeps stack w k = assert-Keeps L (not w.enabled) _ (λ a.
      assert-Keeps L (not (w.current_thread == 0)) _ (λ b.
        assert-Keeps L (state_eq (w.threads w.current_thread).state destroyed) _ (λ c.
          thread_yield-Keeps thread_any (Machine.in_admin_yield ∷ stack)
            (record w { administrative_mode = false; thread_to_destroy = minus 1 })
            (reopened L Machine.in_admin_kill Machine.in_admin_yield w (Fits-false stack) k))))

module _ {H : Type 0} ⦃al : Allocator H⦄ (L : (ℕ → Option Lock) → Timer → Type 0) where
  pub thread_kill-Keeps :
      (tid : Int32) (stack : List Frame) (w : World H)
      → Calm L stack w
      → Keeps L (thread_kill tid stack w)
  unfolding thread_kill
  thread_kill-Keeps tid stack w k =
      let off : World H = record w { enabled = false } in
      let refused =
        restore-Keeps L (in_kill tid w.enabled) w.enabled Machine.thread_invalid off k.fits
          (with_call L (in_kill tid w.enabled) w k.fits k) in
      if-Keeps L (tid == w.current_thread && not w.administrative_mode) _ _ (λ a. refused)
        (λ a.
          if-Keeps L (lt_signed tid 0 || le_signed thread_max_threads tid) _ _ (λ b. refused)
            (λ b.
              if-Keeps L (state_eq (w.threads tid).state destroyed) _ _ (λ c. refused)
                (λ c.
                  bind-Keeps L
                    (if tid == 0 then ok w.heap else al.free369 (w.threads tid).stack_start w.heap)
                    kill killed)))
    where
      kill : H → Outcome H
      kill heap =
          handle_death tid (in_kill tid w.enabled ∷ stack)
            (record w { enabled = false; heap = heap; administrative_mode = false })

      killed : (heap : H) → Keeps L (kill heap)
      killed heap =
          handle_death-Keeps L tid (in_kill tid w.enabled ∷ stack) _
            (with_call L (in_kill tid w.enabled) w k.fits k)

  pub thread_yield_resumed-Keeps :
      (s : Bool) (t : Int32) (stack : List Frame) (w : World H)
      → Fits s stack
      → Calm L (in_yield s t ∷ stack) w
      → Keeps L (thread_yield_resumed s t stack w)
  unfolding thread_yield_resumed admin_mode
  thread_yield_resumed-Keeps s t stack w h k =
      let below : Calm L (Machine.in_admin_kill ∷ stack) w =
        reopened L (in_yield s t) Machine.in_admin_kill w (Fits-false stack) k in
      assert-Keeps L (not w.enabled) _ (λ a.
        if-Keeps L w.administrative_mode _ _
          (λ b. assert-Keeps L (w.current_thread == w.thread_to_destroy) _ (λ c.
            assert-Keeps L (not w.enabled) _ (λ d.
              assert-Keeps L (not w.enabled) _
                (λ e. thread_kill-Keeps w.current_thread (Machine.in_admin_kill ∷ stack) w below))))
          (λ b. restore-Keeps L (in_yield s t) s t w h k))
