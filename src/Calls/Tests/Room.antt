-- ===== src/Calls/Tests/Room.antt =====
-- No thread is lost and the signal can come: the theorems at a process in which thread 0 has made
-- thread 1.
use user_space_threads.Prelude.{
  ℕ, ◌≡◌, ◌≢◌, refl, true, false, [], ◌∷◌, inl, inr, Bool-cases, ◌==◌, Int32, arith,
}
use user_space_threads.Queue.{empty_queue, queue_push}
use user_space_threads.Machine.{Control, running}
use user_space_threads.Thread.Scheduled.{Scheduled}
use user_space_threads.Thread.Init.{clear_threads_lem}
use user_space_threads.Wait.Scheduled.{HasRoom}
use user_space_threads.Step.Preempt.{Paused, GetsTurn, fires}
use user_space_threads.Interrupt.{sig_interval, register_interrupt_handler, set_interrupt}
use user_space_threads.Calls.{Reached, perform}
use user_space_threads.Calls
use user_space_threads.Calls.Scheduled.{AlwaysRoom, Reached-Scheduled}
use user_space_threads.Calls.Turn.{Reached-CanFire-GetsTurn}
use user_space_threads.Calls.Open.{AlwaysUnblocks, Reached-CanFire}
use user_space_threads.Calls.Tests.{
  bump, process, init, init-Reached, with_lock, taken-Reached, created, created-Reached,
}

init-HasRoom : HasRoom init.thread_queue init.wait_queues
init-HasRoom = record { spare = omega arith; wakes = λ p q e. ground (arith, e) }

with_lock-HasRoom : HasRoom with_lock.thread_queue with_lock.wait_queues
unfolding empty_queue
with_lock-HasRoom = record { spare = omega arith; wakes = λ p q e. ground (arith, e) }

created-AlwaysRoom : AlwaysRoom created-Reached
unfolding created-Reached taken-Reached init-Reached
created-AlwaysRoom = (with_lock-HasRoom, (with_lock-HasRoom, (init-HasRoom, tt)))

Reached-Scheduled_example : Scheduled created
Reached-Scheduled_example =
    Reached-Scheduled (λ size h. tt) (λ p h. tt) (record { value = 1; stack = []; world = created })
      created-Reached created-AlwaysRoom

-- Thread 0 has also registered the handler.
abbrev ticking : Control ℕ
ticking = record {
  value = 0;
  stack = [];
  world = record created {
    timer = record (created.timer) { registered = true; loud = false; usec = sig_interval };
  };
}

ticking-Reached : Reached ticking
unfolding perform register_interrupt_handler set_interrupt
ticking-Reached =
    Calls.moves _ _ _ created-Reached (Calls.calls 1 created (Calls.register false)) refl

created-HasRoom : HasRoom created.thread_queue created.wait_queues
unfolding empty_queue queue_push
created-HasRoom = record { spare = omega arith; wakes = λ p q e. ground (arith, e) }

ticking-AlwaysRoom : AlwaysRoom ticking-Reached
unfolding ticking-Reached
ticking-AlwaysRoom = (created-HasRoom, created-AlwaysRoom)

-- Thread 1 has not started, and there is no other thread.
ticking-Paused :
    (u : Int32)
    → (ticking.world.threads u).state ≡ running
    → u ≢ ticking.world.current_thread
    → Paused (ticking.world.threads u).context
ticking-Paused u live ne = elim (Bool-cases (1 == u)) [
  | inl e ↦ rw e (inr (inr (8, 9, refl)))
  | inr e ↦ absurd (ground (arith, live, clear_threads_lem 1024 0 process.threads u))
]

ticking-AlwaysUnblocks : AlwaysUnblocks ticking-Reached
unfolding ticking-Reached created-Reached taken-Reached init-Reached
ticking-AlwaysUnblocks = (tt, (tt, (tt, (tt, tt))))

Reached-CanFire-GetsTurn_example :
    GetsTurn (fires (record { tv_sec = 3; tv_nsec = 5 }) ∷ []) 1 ticking.world
unfolding queue_push
Reached-CanFire-GetsTurn_example =
    Reached-CanFire-GetsTurn (λ size h. tt) (λ p h. tt) ticking ticking-Reached
      (fires (record { tv_sec = 3; tv_nsec = 5 }) ∷ []) 1 ticking-AlwaysRoom ticking-AlwaysUnblocks
      refl refl ticking-Paused refl (omega arith) (omega arith)

Reached-CanFire_example : (ticking.world.enabled ≡ true) × (ticking.world.timer.usec ≢ 0)
Reached-CanFire_example =
    Reached-CanFire (λ size h. tt) (λ p h. tt) ticking ticking-Reached ticking-AlwaysUnblocks refl
      refl
