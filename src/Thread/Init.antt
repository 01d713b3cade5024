-- ===== src/Thread/Init.antt =====
-- thread_init: the loop that clears the table, and the state that the process starts in.
use user_space_threads.Prelude.{
  subst, fun_ext, ℕ, zero, suc, ◌+◌, ◌≤◌, ◌≡◌, refl, true, Int32, ok, minus, arith, ltb, leb, ◌&&◌,
  if◌then◌else◌, ◌==◌, update,
}
use user_space_threads.Queue.{thread_max_threads}
use user_space_threads.Machine.{Thread, running, unset, World}
use user_space_threads.Thread.{thread_init, clear_threads, uncreated_thread}
use user_space_threads.Thread.Inv.{Inv}

-- The loop of thread_init puts the thread that does not exist in the `n` slots from `first` on, and
-- leaves every other slot.
pub clear_threads_lem :
    (n : ℕ) (first : Int32) (threads : Int32 → Thread) (t : Int32)
    → clear_threads n first threads t
      ≡ (if leb first t && ltb t (first + n) then uncreated_thread else threads t)
unfolding clear_threads
clear_threads_lem zero first threads t = ground arith
clear_threads_lem (suc n) first threads t =
    ground (arith, clear_threads_lem n (first + 1) (update threads first uncreated_thread) t)

-- Nothing stands behind the end of the table.
abbrev pub NothingBehind : (Int32 → Thread) → Type 0
NothingBehind threads = (t : Int32) → thread_max_threads ≤ t → threads t ≡ uncreated_thread

-- Thread 0, as thread_init makes it from its uninitialised local.
abbrev pub main_of : Thread → Thread
main_of uninit = record uninit {
  context = unset;
  is_main = true;
  state = running;
  waiter = minus 1;
}

module _ {H : Type 0} (uninit : Thread) (w : World H) where
  -- The world with thread 0 alone in the table.
  abbrev pub begun : World H
  begun = record w {
    threads = update (clear_threads thread_max_threads 0 w.threads) 0 (main_of uninit);
    current_thread = 0;
    enabled = true;
  }

  pub thread_init-begun :
      w.thread_queue.current_size ≡ 0
      → w.thread_queue.start ≡ 0
      → w.thread_queue.end ≡ 0
      → thread_init uninit w ≡ ok begun
  unfolding thread_init
  thread_init-begun size start end = rw (size, start, end) (ground arith)

  -- If thread_init returns, the ready queue was empty and at its start.
  thread_init-start :
      {w' : World H}
      → thread_init uninit w ≡ ok w'
      → (w.thread_queue.current_size ≡ 0) × (w.thread_queue.start ≡ 0) × (w.thread_queue.end ≡ 0)
  unfolding thread_init
  thread_init-start e = ground arith

  module _ (behind : NothingBehind w.threads) where
    begun-thread :
        (t : Int32) → begun.threads t ≡ (if t == 0 then main_of uninit else uncreated_thread)
    begun-thread t = ground (arith, clear_threads_lem thread_max_threads 0 w.threads t, behind t)

    -- thread_init with an empty ready queue at its start succeeds: the calling thread is thread 0,
    -- which runs, no other thread exists, interrupts are on, and all else is as it was.
    pub thread_init_lem :
        w.thread_queue.current_size ≡ 0
        → w.thread_queue.start ≡ 0
        → w.thread_queue.end ≡ 0
        → thread_init uninit w
          ≡ ok (record w {
            threads = λ t. if t == 0 then main_of uninit else uncreated_thread;
            current_thread = 0;
            enabled = true;
          })
    thread_init_lem size start end =
        let same : begun.threads ≡ (λ t. if t == 0 then main_of uninit else uncreated_thread) =
          fun_ext begun-thread in
        cc (thread_init-begun size start end, same)

  -- What thread_init leaves, if it returns and nothing stands behind the table: the invariant of the
  -- library, no stored context, no thread that runs but
  -- the calling one, the objects as
  -- they were, and interrupts on.
  pub record Started (w' : World H) : Type 0 where
    pub inv : Inv w'
    pub contexts : (t : Int32) → (w'.threads t).context ≡ unset
    pub alone : (t : Int32) → (w'.threads t).state ≡ running → t ≡ w'.current_thread
    pub wait_queues : w'.wait_queues ≡ w.wait_queues
    pub locks : w'.locks ≡ w.locks
    pub cvs : w'.cvs ≡ w.cvs
    pub timer : w'.timer ≡ w.timer
    pub enabled : w'.enabled ≡ true
    pub mode : w'.administrative_mode ≡ w.administrative_mode

  pub thread_init-Started :
      {w' : World H} → NothingBehind w.threads → thread_init uninit w ≡ ok w' → Started w'
  thread_init-Started {w'} behind e =
      let (size, start, end) = thread_init-start e in
      let same : begun ≡ w' = cc (e, thread_init-begun size start end) in
      subst Started same (record {
        inv = record {
          ready = record { valid = omega (arith, size, start, end); tids = rw size tt };
          current = omega arith;
          waiters = λ t. ground (arith, begun-thread behind t);
          contexts = λ t ne live. ground (arith, begun-thread behind t);
          main_context = λ ne. absurd (ne refl);
        };
        contexts = λ t. ground (arith, begun-thread behind t);
        alone = λ t live. ground (arith, begun-thread behind t, live);
        wait_queues = refl;
        locks = refl;
        cvs = refl;
        timer = refl;
        enabled = refl;
        mode = refl;
      })
