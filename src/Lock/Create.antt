-- ===== src/Lock/Create.antt =====
-- Making and destroying wait queues, locks and condition variables, and making threads.
use user_space_threads.Prelude.{
  ℕ, ◌≡◌, not, inl, inr, List, Option, some, none, Int32, ok, minus, Bool-cases, ==→eq, ◌==◌,
  update,
}
use user_space_threads.Queue.{empty_queue}
use user_space_threads.Machine.{Timer, Frame, World, Lock}
use user_space_threads.Machine.Objects.{Allocator}
use user_space_threads.Thread.Death.{IsMallocSafe, IsFreeSafe}
use user_space_threads.Wait.Keeps.{empty-IsReady, remove-AllReady}
use user_space_threads.Wait.{wait_queue_create, wait_queue_destroy, wait_queue_size}
use user_space_threads.Wait.Leaves.{
  Whole, Leaves, bind-Leaves, any-Leaves, deref-Leaves, assert-Leaves, set_wait_queue-Whole,
}
use user_space_threads.Lock.{lock_create, lock_destroy, cv_create, cv_destroy, lock_size, cv_size}
use user_space_threads.Lock.Keeps.{Stands}

module _ {H : Type 0} ⦃al : Allocator H⦄ (L : (ℕ → Option Lock) → Timer → Type 0)
    (stack : List Frame) (current : Int32) (malloc_safe : IsMallocSafe al)
    (free_safe : IsFreeSafe al) where
  pub wait_queue_create-Leaves :
      (w : World H)
      → Whole L stack current w
      → Leaves L stack current (λ a. a.1) (wait_queue_create w)
  unfolding wait_queue_create
  wait_queue_create-Leaves w k =
      any-Leaves L stack current _ (al.malloc369 wait_queue_size w.heap) _
        (malloc_safe wait_queue_size w.heap)
        (λ a e. assert-Leaves L stack current _ (not (a.0 == 0)) _ (λ nz.
          set_wait_queue-Whole L stack current a.0 (empty_queue (al.block a.0 a.1))
            (record w { heap = a.1 }) (empty-IsReady (al.block a.0 a.1))
            (record { inv = k.inv; calm = k.calm; same = k.same })))

  -- The wait queue at an address is gone.
  remove-Whole :
      (p : ℕ) (heap : H) (w : World H)
      → Whole L stack current w
      → Whole L stack current (record w { heap = heap; wait_queues = update w.wait_queues p none })
  remove-Whole p heap w k = record {
    inv = k.inv;
    calm = record {
      queues = remove-AllReady p k.calm.queues;
      of_locks = k.calm.of_locks;
      contexts = k.calm.contexts;
      fits = k.calm.fits;
      masked = k.calm.masked;
    };
    same = k.same;
  }

  pub wait_queue_destroy-Leaves :
      (p : ℕ) (w : World H)
      → Whole L stack current w
      → Leaves L stack current (λ w'. w') (wait_queue_destroy p w)
  unfolding wait_queue_destroy
  wait_queue_destroy-Leaves p w k =
      any-Leaves L stack current _ (al.free369 p w.heap) _ (free_safe p w.heap)
        (λ heap e. remove-Whole p heap w k)

  pub lock_create-Leaves :
      (w : World H)
      → ((p : ℕ) (heap : H) (locks : ℕ → Option Lock) (timer : Timer) (x : Lock)
          → al.malloc369 lock_size w.heap ≡ ok (p, heap)
          → L locks timer
          → L (update locks p (some x)) timer)
      → Whole L stack current w
      → Leaves L stack current (λ a. a.1) (lock_create w)
  unfolding lock_create
  lock_create-Leaves w fresh k =
      any-Leaves L stack current _ (al.malloc369 lock_size w.heap) _ (malloc_safe lock_size w.heap)
        (λ a e.
          bind-Leaves L stack current _ (wait_queue_create (record w { heap = a.1 })) _
            (wait_queue_create-Leaves (record w { heap = a.1 })
              (record { inv = k.inv; calm = k.calm; same = k.same }))
            (λ b made. elim (Bool-cases (a.0 == 0)) [
              | inl z ↦ rw z tt
              | inr z ↦ rw z (record {
                inv = made.inv;
                calm = record {
                  queues = made.calm.queues;
                  of_locks = fresh a.0 a.1 b.1.locks b.1.timer _ e made.calm.of_locks;
                  contexts = made.calm.contexts;
                  fits = made.calm.fits;
                  masked = made.calm.masked;
                };
                same = made.same;
              })
            ]))

  pub cv_create-Leaves :
      (w : World H) → Whole L stack current w → Leaves L stack current (λ a. a.1) (cv_create w)
  unfolding cv_create
  cv_create-Leaves w k =
      any-Leaves L stack current _ (al.malloc369 cv_size w.heap) _ (malloc_safe cv_size w.heap)
        (λ a e.
          bind-Leaves L stack current _ (wait_queue_create (record w { heap = a.1 })) _
            (wait_queue_create-Leaves (record w { heap = a.1 })
              (record { inv = k.inv; calm = k.calm; same = k.same }))
            (λ b made. elim (Bool-cases (a.0 == 0)) [
              | inl z ↦ rw z tt
              | inr z ↦ rw z (record { inv = made.inv; calm = made.calm; same = made.same })
            ]))

  pub lock_destroy-Leaves :
      (lock : ℕ) (w : World H)
      → Stands L current
      → Whole L stack current w
      → Leaves L stack current (λ w'. w') (lock_destroy lock w)
  unfolding lock_destroy
  lock_destroy-Leaves lock w st k = assert-Leaves L stack current _ (not (lock == 0)) _ (λ nz.
      deref-Leaves L stack current _ (w.locks lock) _ (λ l live.
        assert-Leaves L stack current _ (l.current == minus 1) _ (λ free.
          any-Leaves L stack current _ (al.free369 l.queue w.heap) _ (free_safe l.queue w.heap)
            (λ heap e.
              any-Leaves L stack current _ (al.free369 lock heap) _ (free_safe lock heap)
                (λ heap' e'.
                  let left = remove-Whole l.queue heap' w k in
                  record {
                    inv = left.inv;
                    calm = record {
                      queues = left.calm.queues;
                      of_locks = st.gone w.locks w.timer lock l k.calm.of_locks live (==→eq free);
                      contexts = left.calm.contexts;
                      fits = left.calm.fits;
                      masked = left.calm.masked;
                    };
                    same = left.same;
                  })))))

  pub cv_destroy-Leaves :
      (cv : ℕ) (w : World H)
      → Whole L stack current w
      → Leaves L stack current (λ w'. w') (cv_destroy cv w)
  unfolding cv_destroy
  cv_destroy-Leaves cv w k = assert-Leaves L stack current _ (not (cv == 0)) _ (λ nz.
      deref-Leaves L stack current _ (w.cvs cv) _ (λ c live.
        any-Leaves L stack current _ (al.free369 c.queue w.heap) _ (free_safe c.queue w.heap)
          (λ heap e.
            any-Leaves L stack current _ (al.free369 cv heap) _ (free_safe cv heap) (λ heap' e'.
              let left = remove-Whole c.queue heap' w k in
              record { inv = left.inv; calm = left.calm; same = left.same }))))
