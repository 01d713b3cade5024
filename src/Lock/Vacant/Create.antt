-- ===== src/Lock/Vacant/Create.antt =====
-- The wait queue of a free lock is empty: this is kept by the functions that make and destroy locks,
-- condition variables and wait queues.
use user_space_threads.Prelude.{
  ℕ, ◌≡◌, refl, not, inl, inr, Bool-cases, Option, none, some, minus, ◌==◌, arith, update, Ensures,
  any-Ensures, bind-Ensures, if-Ensures, map-Ensures, assert-Ensures,
}
use user_space_threads.Queue.{Queue, empty_queue}
use user_space_threads.Machine.{World, Lock}
use user_space_threads.Machine.Objects.{Allocator, deref-Ensures}
use user_space_threads.Wait.{wait_queue_create, wait_queue_destroy, wait_queue_size}
use user_space_threads.Wait.Vacant.{IsVacant, Vacant, set_wait_queue-Vacant}
use user_space_threads.Lock.{lock_create, lock_destroy, cv_create, cv_destroy, lock_size, cv_size}

module _ {H : Type 0} ⦃al : Allocator H⦄ (p : ℕ) where
  -- The new wait queue is there and empty.
  abbrev Made : ℕ × World H → Type 0
  Made a = Vacant p a.1 × ((q : Queue) × (a.1.wait_queues a.0 ≡ some q) × (q.current_size ≡ 0))

  wait_queue_create-Made : (w : World H) → Vacant p w → Ensures Made (wait_queue_create w)
  unfolding wait_queue_create empty_queue
  wait_queue_create-Made w v = any-Ensures _ (al.malloc369 wait_queue_size w.heap) _ (λ a e.
      assert-Ensures _ (not (a.0 == 0)) _ (λ nz. (
        set_wait_queue-Vacant p a.0 (empty_queue (al.block a.0 a.1)) (record w { heap = a.1 }) v
            (λ l live free at. refl),
        (empty_queue (al.block a.0 a.1), ground arith, refl),
      )))

  pub wait_queue_create-Vacant :
      (w : World H) → Vacant p w → Ensures (λ a. Vacant p a.1) (wait_queue_create w)
  wait_queue_create-Vacant w v =
      map-Ensures {P = Made} (wait_queue_create w) (λ a made. made.0) (wait_queue_create-Made w v)

  fewer :
      (queue : ℕ) (locks : ℕ → Option Lock) (w : World H)
      → Vacant p w
      → ((l : Lock) → locks p ≡ some l → w.locks p ≡ some l)
      → IsVacant p locks (update w.wait_queues queue none)
  fewer queue locks w v same l q live free there = elim (Bool-cases (queue == l.queue)) [
    | inl e ↦ absurd (ground (arith, there, e))
    | inr e ↦ v l q (same l live) free (ground (arith, there, e))
  ]

  pub wait_queue_destroy-Vacant :
      (wq : ℕ) (w : World H) → Vacant p w → Ensures (Vacant p) (wait_queue_destroy wq w)
  unfolding wait_queue_destroy
  wait_queue_destroy-Vacant wq w v =
      any-Ensures _ (al.free369 wq w.heap) _ (λ heap e. fewer wq w.locks w v (λ l live. live))

  pub lock_destroy-Vacant :
      (lock : ℕ) (w : World H) → Vacant p w → Ensures (Vacant p) (lock_destroy lock w)
  unfolding lock_destroy
  lock_destroy-Vacant lock w v = assert-Ensures _ (not (lock == 0)) _ (λ a.
      deref-Ensures _ (w.locks lock) _ (λ l live. assert-Ensures _ (l.current == minus 1) _ (λ b.
        any-Ensures _ (al.free369 l.queue w.heap) _ (λ heap e.
          any-Ensures _ (al.free369 lock heap) _ (λ heap' e'.
            fewer l.queue (update w.locks lock none) w v (λ k there. ground (arith, there)))))))

  pub cv_destroy-Vacant : (cv : ℕ) (w : World H) → Vacant p w → Ensures (Vacant p) (cv_destroy cv w)
  unfolding cv_destroy
  cv_destroy-Vacant cv w v = assert-Ensures _ (not (cv == 0)) _ (λ a.
      deref-Ensures _ (w.cvs cv) _ (λ c live. any-Ensures _ (al.free369 c.queue w.heap) _ (λ heap e.
        any-Ensures _ (al.free369 cv heap) _
          (λ heap' e'. fewer c.queue w.locks w v (λ l there. there)))))

  pub lock_create-Vacant : (w : World H) → Vacant p w → Ensures (λ a. Vacant p a.1) (lock_create w)
  unfolding lock_create
  lock_create-Vacant w v = any-Ensures _ (al.malloc369 lock_size w.heap) _ (λ a e.
      bind-Ensures _ _ (wait_queue_create (record w { heap = a.1 })) _
        (wait_queue_create-Made (record w { heap = a.1 }) v)
        (λ b e' made.
          if-Ensures _ (a.0 == 0) _ _ (λ z. tt)
            (λ z l q live free there. elim (Bool-cases (a.0 == p)) [
              | inl same ↦
                  let (q', is, empty) = made.1 in ground (arith, live, there, is, empty, same)
              | inr other ↦ made.0 l q (ground (arith, live, other)) free there
            ])))

  pub cv_create-Vacant : (w : World H) → Vacant p w → Ensures (λ a. Vacant p a.1) (cv_create w)
  unfolding cv_create
  cv_create-Vacant w v = any-Ensures _ (al.malloc369 cv_size w.heap) _ (λ a e.
      bind-Ensures _ _ (wait_queue_create (record w { heap = a.1 })) _
        (wait_queue_create-Made (record w { heap = a.1 }) v)
        (λ b e' made. if-Ensures _ (a.0 == 0) _ _ (λ z. tt) (λ z. made.0)))
