-- ===== src/Step/Alone.antt =====
-- A thread that would have to wait for a lock, or on a condition variable, while no other thread can
-- run.
mod Sleep
mod Tests
use user_space_threads.Prelude.{
  ℕ, zero, suc, ◌≡◌, ◌≢◌, refl, ap, sym, subst, ◌∙◌, Bool, false, List, ◌∷◌, ◌⊎◌, inl, inr, some,
  Int32, ok, minus, ◌==◌, ==_of_ne, ◌>>=◌, arith,
}
use user_space_threads.Queue.{Queue, queue_push, queue_pop, queue_pop_last}
use user_space_threads.Queue.Refine.{contents, queue_pop_last-push}
use user_space_threads.Machine.{
  Frame, in_sleep, in_acquire, in_cv_sleep, in_cv_acquire, World, Outcome, Control, Lock, Cv,
  thread_none,
}
use user_space_threads.Machine.Objects.{Allocator, set_lock, set_wait_queue}
use user_space_threads.Thread.Yield.{return}
use user_space_threads.Wait.{thread_sleep, thread_wakeup, wakeup_loop}
use user_space_threads.Lock.{
  lock_acquire, acquire_loop, lock_release, cv_wait, cv_wait_after_sleep, cv_wait_after_acquire,
}
use user_space_threads.Lock.Exclusion.{lock_acquire-free}
use user_space_threads.Step.{step, resume, run}
use user_space_threads.Step.Alone.Sleep.{
  lies, risen, Alone, thread_sleep-Alone, after-Alone, risen-Alone,
}

module _ {H : Type 0} ⦃al : Allocator H⦄ where
  -- Control is in a call of lock_acquire of the thread `t`, with the signal blocked and the lock as
  -- it was.
  pub record Spins (lock : ℕ) (l : Lock) (s : Bool) (stack : List Frame) (t : Int32) (o : Outcome H)
      : Type 0 where
    pub control : Control H
    pub goes : o ≡ ok control
    pub inside :
        (control.stack ≡ in_acquire lock s ∷ stack)
        ⊎ (control.stack ≡ in_sleep l.queue false ∷ in_acquire lock s ∷ stack)
    pub current : control.world.current_thread ≡ t
    pub blocked : control.world.enabled ≡ false
    pub held : control.world.locks lock ≡ some l

  enters :
      (lock : ℕ) (l : Lock) (q : Queue) (s : Bool) (stack : List Frame) (w : World H)
      → Alone l.queue q w
      → w.locks lock ≡ some l
      → l.current ≢ minus 1
      → w.enabled ≡ false
      → acquire_loop lock s stack w
        ≡ return thread_none (in_sleep l.queue false ∷ in_acquire lock s ∷ stack) (lies l.queue q w)
  unfolding acquire_loop
  enters lock l q s stack w a live held off =
      ground (arith, thread_sleep-Alone l.queue q (in_acquire lock s ∷ stack) w a)

  acquire_loop-Spins :
      (rounds lock : ℕ) (l : Lock) (q : Queue) (s : Bool) (stack : List Frame) (w : World H)
      → Alone l.queue q w
      → w.locks lock ≡ some l
      → l.current ≢ minus 1
      → w.enabled ≡ false
      → Spins lock l s stack w.current_thread (run rounds (acquire_loop lock s stack w))
  unfolding run step resume
  acquire_loop-Spins zero lock l q s stack w a live held off =
      rw (enters lock l q s stack w a live held off) (record {
        control = record {
          value = thread_none;
          stack = in_sleep l.queue false ∷ in_acquire lock s ∷ stack;
          world = lies l.queue q w;
        };
        goes = refl;
        inside = inr refl;
        current = refl;
        blocked = refl;
        held = live;
      })
  acquire_loop-Spins (suc zero) lock l q s stack w a live held off =
      rw
        (
          enters lock l q s stack w a live held off,
          after-Alone l.queue q false (in_acquire lock s ∷ stack) w a,
        )
        (record {
          control = record {
            value = thread_none;
            stack = in_acquire lock s ∷ stack;
            world = risen l.queue q w;
          };
          goes = refl;
          inside = inl refl;
          current = refl;
          blocked = refl;
          held = live;
        })
  acquire_loop-Spins (suc (suc rounds)) lock l q s stack w a live held off =
      subst (Spins lock l s stack w.current_thread)
        (sym (
          ap (run (suc (suc rounds))) (enters lock l q s stack w a live held off)
          ∙ ap (run (suc rounds)) (after-Alone l.queue q false (in_acquire lock s ∷ stack) w a)))
        (acquire_loop-Spins rounds lock l (queue_pop_last (queue_push q w.current_thread).1).1 s
          stack (risen l.queue q w) (risen-Alone l.queue q w a) live held refl)

  -- A thread calls lock_acquire on a lock that is held, by itself or by another thread, while no
  -- thread waits in the ready queue: however often the calls in it return, it is still in
  -- lock_acquire, with the signal blocked and the lock held as before. The wait queue of the lock is
  -- valid and has room.
  pub run-lock_acquire-Spins :
      (rounds lock : ℕ) (l : Lock) (q : Queue) (stack : List Frame) (w : World H)
      → lock ≢ 0
      → w.locks lock ≡ some l
      → l.current ≢ minus 1
      → Alone l.queue q w
      → Spins lock l w.enabled stack w.current_thread (run rounds (lock_acquire lock stack w))
  unfolding lock_acquire
  run-lock_acquire-Spins rounds lock l q stack w nz live held a = rw (==_of_ne nz) (
      acquire_loop-Spins rounds lock l q w.enabled stack (record w { enabled = false })
        (record {
          empty = a.empty;
          tid = a.tid;
          set = a.set;
          live = a.live;
          valid = a.valid;
          room = a.room;
        })
        live held refl)

  -- The world in which cv_wait sleeps: the lock is free, and nobody was woken.
  abbrev gave_up : ℕ → Lock → Queue → World H → World H
  gave_up lock l ql w =
      set_wait_queue l.queue ql
        (set_lock lock (record l { current = minus 1 }) (record w { enabled = false }))

  lock_release-nobody :
      (lock : ℕ) (l : Lock) (ql : Queue) (w : World H)
      → lock ≢ 0
      → w.locks lock ≡ some l
      → l.current ≡ w.current_thread
      → l.queue ≢ 0
      → w.wait_queues l.queue ≡ some ql
      → ql.current_size ≡ 0
      → lock_release lock (record w { enabled = false }) ≡ ok (gave_up lock l ql w)
  unfolding lock_release thread_wakeup wakeup_loop queue_pop
  lock_release-nobody lock l ql w set live mine nz there none_asleep = ground arith

  -- cv_wait from where it sleeps, with the lock free.
  run-waits :
      (lock : ℕ) (l : Lock) (queue : ℕ) (q : Queue) (s : Bool) (stack : List Frame) (w : World H)
      → Alone queue q w
      → lock ≢ 0
      → w.locks lock ≡ some l
      → l.current ≡ minus 1
      → w.enabled ≡ false
      → run 3 (thread_sleep queue (in_cv_sleep lock s ∷ stack) w)
        ≡ return 0 stack
            (record (set_lock lock (record l { current = w.current_thread }) (risen queue q w)) {
              enabled = s;
            })
  unfolding run step resume cv_wait_after_sleep cv_wait_after_acquire
  run-waits lock l queue q s stack w a set live free off =
      ap (run 3) (thread_sleep-Alone queue q (in_cv_sleep lock s ∷ stack) w a)
      ∙ ap (run 2) (after-Alone queue q w.enabled (in_cv_sleep lock s ∷ stack) w a)
      ∙ ground (
        arith,
        lock_acquire-free lock l (record (risen queue q w) { enabled = w.enabled }) live set free
            (in_cv_acquire s ∷ stack),
      )

  -- A thread that holds a lock, for which nobody waits, calls cv_wait while no thread waits in the
  -- ready queue: with no signal cv_wait returns at once, with the mask that it was called with. The
  -- lock has been released and taken again by the thread, and its entry in the wait queue of the
  -- condition variable, which is valid and has room, is gone.
  pub run-cv_wait-Alone :
      (cv lock : ℕ) (l : Lock) (c : Cv) (ql q : Queue) (stack : List Frame) (w : World H)
      → cv ≢ 0
      → lock ≢ 0
      → w.locks lock ≡ some l
      → l.current ≡ w.current_thread
      → l.queue ≢ 0
      → w.wait_queues l.queue ≡ some ql
      → ql.current_size ≡ 0
      → w.cvs cv ≡ some c
      → c.queue ≢ l.queue
      → Alone c.queue q w
      → (w' : World H) × (run 3 (cv_wait cv lock stack w) ≡ return 0 stack w')
        × (w'.enabled ≡ w.enabled)
        × (w'.locks lock ≡ some l)
        × (w'.current_thread ≡ w.current_thread)
        × (q' : Queue) × (w'.wait_queues c.queue ≡ some q')
        × (contents q' ≡ contents q)
  unfolding cv_wait
  run-cv_wait-Alone cv lock l c ql q stack w ncv nlock live mine nz there none_asleep has apart a =
      let w1 : World H = gave_up lock l ql w in
      let a1 : Alone c.queue q w1 = record {
        empty = a.empty;
        tid = a.tid;
        set = a.set;
        live = ground (arith, a.live);
        valid = a.valid;
        room = a.room;
      } in
      let w' : World H =
        record (set_lock lock (record l { current = w.current_thread }) (risen c.queue q w1)) {
          enabled = w.enabled;
        } in
      let sleeps : cv_wait cv lock stack w
          ≡ thread_sleep c.queue (in_cv_sleep lock w.enabled ∷ stack) w1 =
        ground (arith, lock_release-nobody lock l ql w nlock live mine nz there none_asleep) in
      (
        w',
        ap (run 3) sleeps
            ∙ run-waits lock (record l { current = minus 1 }) c.queue q w.enabled stack w1 a1 nlock
                (ground arith) refl refl,
        refl,
        ground arith,
        refl,
        (queue_pop_last (queue_push q w.current_thread).1).1,
        ground arith,
        (queue_pop_last-push q w.current_thread a.valid a.room).1,
      )
