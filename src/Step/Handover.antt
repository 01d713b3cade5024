-- ===== src/Step/Handover.antt =====
-- A lock from the thread that releases it to one that waits for it, and a condition variable from
-- the signal to the return of cv_wait.
mod Tests
use user_space_threads.Prelude.{
  ℕ, ◌≡◌, ◌≢◌, refl, ap, ◌∙◌, Bool, false, List, [], ◌∷◌, ◌++◌, some, Int32, minus, All, ◌==◌,
  ◌>>=◌, arith,
}
use user_space_threads.Queue.{Queue}
use user_space_threads.Queue.Refine.{contents}
use user_space_threads.Machine.{
  running, sleep, Frame, in_yield, in_sleep, in_acquire, in_cv_sleep, World, Lock, Cv, saved,
  thread_none,
}
use user_space_threads.Machine.Objects.{Allocator, set_lock, set_wait_queue}
use user_space_threads.Thread.Ready.{IsTid, IsReady}
use user_space_threads.Thread.Inv.{switched}
use user_space_threads.Thread.Yield.{return, thread_yield, thread_yield_resumed}
use user_space_threads.Wait.{thread_sleep_after_yield}
use user_space_threads.Wait.Wakeup.{woken}
use user_space_threads.Wait.Broadcast.{Distinct, Asleep, Asleep-woken, woken_all}
use user_space_threads.Lock.{
  lock_release, lock_acquire, acquire_loop, cv_signal, cv_wait_after_sleep, cv_wait_after_acquire,
}
use user_space_threads.Lock.Release.{lock_release-every, cv_signal-one}
use user_space_threads.Step.{step, resume, run}
use user_space_threads.Step.Waited.{thread_yield-loads}
use user_space_threads.Wait.Woken.{woken_all-Roused, woken_all-runs}

-- A thread that waits for a lock, and one that waits on a condition variable with that lock.
abbrev pub acquiring : Int32 → ℕ → ℕ → Bool → List Frame → List Frame
acquiring u queue lock signals stack =
    in_yield false u ∷ in_sleep queue false ∷ in_acquire lock signals ∷ stack

abbrev pub waiting_on : Int32 → ℕ → ℕ → Bool → List Frame → List Frame
waiting_on u queue lock signal stack =
    in_yield false u ∷ in_sleep queue false ∷ in_cv_sleep lock signal ∷ stack

module _ {H : Type 0} ⦃al : Allocator H⦄ where
  -- The call of lock_acquire goes on, finds the lock free and takes it.
  run-acquiring :
      (x u : Int32) (queue lock : ℕ) (signals : Bool) (l : Lock) (stack : List Frame) (w : World H)
      → w.enabled ≡ false
      → w.administrative_mode ≡ false
      → u ≢ thread_none
      → w.locks lock ≡ some l
      → l.current ≡ minus 1
      → run 3 (return x (acquiring u queue lock signals stack) w)
        ≡ return 0 stack (record (set_lock lock (record l { current = w.current_thread }) w) {
          enabled = signals;
        })
  unfolding run step resume thread_yield_resumed thread_sleep_after_yield acquire_loop
  run-acquiring x u queue lock signals l stack w off admin nu live free = ground arith

  run-waiting_on :
      (x u : Int32) (queue lock : ℕ) (signal : Bool) (l : Lock) (stack : List Frame) (w : World H)
      → w.enabled ≡ false
      → w.administrative_mode ≡ false
      → u ≢ thread_none
      → lock ≢ 0
      → w.locks lock ≡ some l
      → l.current ≡ minus 1
      → run 4 (return x (waiting_on u queue lock signal stack) w)
        ≡ return 0 stack (record (set_lock lock (record l { current = w.current_thread }) w) {
          enabled = signal;
        })
  unfolding run step resume thread_yield_resumed thread_sleep_after_yield acquire_loop
      cv_wait_after_sleep lock_acquire cv_wait_after_acquire
  run-waiting_on x u queue lock signal l stack w off admin nu nz live free = ground arith

  -- What the thread `t` finds when the call that it waited in returns: it runs, it holds the lock,
  -- and its mask is as it was.
  pub record Holder (t : Int32) (lock : ℕ) (l : Lock) (mask : Bool) (w : World H) : Type 0 where
    pub current : w.current_thread ≡ t
    pub state : (w.threads t).state ≡ running
    pub holds : w.locks lock ≡ some (record l { current = t })
    pub enabled : w.enabled ≡ mask

  -- The holder of a lock, whose wait queue is valid and holds different threads, all asleep, calls
  -- lock_release and then yields to one of them, which waits in lock_acquire: the lock passes to
  -- that thread, whose lock_acquire returns with the mask that it was called with.
  pub run-lock_release-acquiring :
      (lock : ℕ) (l : Lock) (q : Queue) (w : World H) (t u : Int32) (before after : List Int32)
      (signals : Bool) (stack waiting : List Frame)
      → lock ≢ 0
      → w.locks lock ≡ some l
      → l.current ≡ w.current_thread
      → w.administrative_mode ≡ false
      → l.queue ≢ 0
      → w.wait_queues l.queue ≡ some q
      → IsReady q
      → contents q ≡ before ++ t ∷ after
      → Distinct (contents q)
      → All (Asleep w) (contents q)
      → IsTid t
      → t ≢ w.current_thread
      → (w.threads t).context ≡ saved false (acquiring u l.queue lock signals waiting)
      → u ≢ thread_none
      → (w' : World H) × (run 3 (lock_release lock w >>= thread_yield t stack)
          ≡ return 0 waiting w')
        × Holder t lock l signals w'
  run-lock_release-acquiring lock l q w t u before after signals stack waiting set live mine admin
        nz there ready c distinct asleep tid ne ctx nu =
      let free : World H = set_lock lock (record l { current = minus 1 }) w in
      let (q', e, empty) =
        lock_release-every lock l q w set live mine ready distinct asleep nz there in
      let w1 : World H = set_wait_queue l.queue q' (woken_all (contents q) free) in
      let r = woken_all-Roused t (contents q) free in
      let runs : (w1.threads t).state ≡ running = rw c (woken_all-runs t before after free) in
      let w2 : World H = record (switched w1.enabled t stack w1) { enabled = false } in
      let e1 =
        thread_yield-loads t stack (acquiring u l.queue lock signals waiting) w1 tid
          (ground (arith, r.current)) (ground (arith, runs)) (ground (arith, r.context)) in
      let e2 =
        run-acquiring 0 u l.queue lock signals (record l { current = minus 1 }) waiting w2 refl
          (r.mode ∙ admin) nu (ground (arith, r.locks)) refl in
      (
        record (set_lock lock (record l { current = t }) w2) { enabled = signals },
        ap (λ m. run 3 (m >>= thread_yield t stack)) e ∙ ap (run 3) e1 ∙ e2,
        record {
          current = refl;
          state = ground (arith, runs, r.current);
          holds = ground arith;
          enabled = refl;
        },
      )

  -- The holder of a lock calls cv_signal on a condition variable whose wait queue has a thread in
  -- cv_wait in front, asleep; then it releases the lock, at which other threads may wait, and yields
  -- to that thread: its cv_wait takes the lock again and returns with the mask that it was called
  -- with. The wait queues are valid, and the one of the lock holds different threads, all asleep.
  pub run-cv_signal-waiting_on :
      (cv lock : ℕ) (c : Cv) (l : Lock) (qc ql : Queue) (w : World H) (t u : Int32)
      (rest : List Int32) (signal : Bool) (stack waiting : List Frame)
      → lock ≢ 0
      → w.locks lock ≡ some l
      → l.current ≡ w.current_thread
      → w.administrative_mode ≡ false
      → cv ≢ 0
      → w.cvs cv ≡ some c
      → c.queue ≢ 0
      → w.wait_queues c.queue ≡ some qc
      → IsReady qc
      → contents qc ≡ t ∷ rest
      → (w.threads t).state ≡ sleep
      → l.queue ≢ 0
      → l.queue ≢ c.queue
      → w.wait_queues l.queue ≡ some ql
      → IsReady ql
      → Distinct (contents ql)
      → All (λ x. t ≢ x) (contents ql)
      → All (Asleep w) (contents ql)
      → IsTid t
      → t ≢ w.current_thread
      → (w.threads t).context ≡ saved false (waiting_on u c.queue lock signal waiting)
      → u ≢ thread_none
      → (w' : World H) × (run 4 (cv_signal cv lock w >>= lock_release lock >>= thread_yield t stack)
          ≡ return 0 waiting w')
        × Holder t lock l signal w'
  run-cv_signal-waiting_on cv lock c l qc ql w t u rest signal stack waiting set live mine admin
        cvset is cz there cready entries asleep lz apart at lready distinct others sleeping tid ne
        ctx nu =
      let (qc', e0, left) =
        cv_signal-one lock l qc w cv c [] rest t set live mine cvset is cz there cready entries tt
          asleep in
      let w1 : World H = set_wait_queue c.queue qc' (woken t w) in
      let (ql', e1, empty) =
        lock_release-every lock l ql w1 set live mine lready distinct
          (Asleep-woken t (contents ql) w others sleeping) lz (ground (arith, at, apart)) in
      let free : World H = set_lock lock (record l { current = minus 1 }) w1 in
      let w2 : World H = set_wait_queue l.queue ql' (woken_all (contents ql) free) in
      let r = woken_all-Roused t (contents ql) free in
      let runs : (w2.threads t).state ≡ running = r.runs (ground arith) in
      let w3 : World H = record (switched w2.enabled t stack w2) { enabled = false } in
      let e2 =
        thread_yield-loads t stack (waiting_on u c.queue lock signal waiting) w2 tid
          (ground (arith, r.current)) (ground (arith, runs)) (ground (arith, r.context, ctx)) in
      let e3 =
        run-waiting_on 0 u c.queue lock signal (record l { current = minus 1 }) waiting w3 refl
          (r.mode ∙ admin) nu set (ground (arith, r.locks)) refl in
      (
        record (set_lock lock (record l { current = t }) w3) { enabled = signal },
        ap (λ m. run 4 (m >>= lock_release lock >>= thread_yield t stack)) e0
            ∙ ap (λ m. run 4 (m >>= thread_yield t stack)) e1
            ∙ ap (run 4) e2
            ∙ e3,
        record {
          current = refl;
          state = ground (arith, runs, r.current);
          holds = ground arith;
          enabled = refl;
        },
      )
