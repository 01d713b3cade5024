-- ===== src/Lock/Parts.antt =====
-- The functions that make and destroy locks and condition variables, cut at the places where the
-- signal can come, and a lock_destroy that it interrupts.
use user_space_threads.Prelude.{
  ℕ, ◌≡◌, refl, sym, ap, not, none, Result, ok, halt, assert, minus, ◌==◌, ◌>>=◌, ◌>>◌, update,
}
use user_space_threads.Machine.{World, Lock, Cv}
use user_space_threads.Machine.Objects.{Allocator, deref}
use user_space_threads.Wait.{wait_queue_create, wait_queue_destroy}
use user_space_threads.Lock.{
  lock_create, lock_destroy, cv_create, cv_destroy, lock_size, cv_size, reserve, fill_lock,
  free_lock, fill_cv, free_cv,
}

bind_assoc :
    {A B C : Type 0} (m : Result A) (f : A → Result B) (g : B → Result C)
    → ((m >>= f) >>= g) ≡ (m >>= λ a. f a >>= g)
bind_assoc (ok a) f g = refl
bind_assoc (halt e) f g = refl

module _ {H : Type 0} ⦃al : Allocator H⦄ (w : World H) where
  lock_create-parts :
      lock_create w
      ≡ (reserve lock_size w >>= λ a. wait_queue_create a.1 >>= λ b. fill_lock a.0 b.0 b.1)
  unfolding lock_create reserve
  lock_create-parts = sym (bind_assoc (al.malloc369 lock_size w.heap) _ _)

  cv_create-parts :
      cv_create w ≡ (reserve cv_size w >>= λ a. wait_queue_create a.1 >>= λ b. fill_cv a.0 b.0 b.1)
  unfolding cv_create reserve
  cv_create-parts = sym (bind_assoc (al.malloc369 cv_size w.heap) _ _)

  cut :
      (queue : ℕ) (rest : World H → Result (World H))
      → (wait_queue_destroy queue w >>= rest) ≡ (
          al.free369 queue w.heap >>= λ heap.
          rest (record w { heap = heap; wait_queues = update w.wait_queues queue none }))
  unfolding wait_queue_destroy
  cut queue rest =
      bind_assoc (al.free369 queue w.heap)
        (λ heap. ok (record w { heap = heap; wait_queues = update w.wait_queues queue none })) rest

  lock_destroy-parts :
      (lock : ℕ)
      → lock_destroy lock w ≡ (
          assert (not (lock == 0))
          >> (deref (w.locks lock) >>= λ l.
              assert (l.current == minus 1) >> (wait_queue_destroy l.queue w >>= free_lock lock)))
  unfolding lock_destroy wait_queue_destroy free_lock
  lock_destroy-parts lock =
      ap (λ (k : Lock → Result (World H)). assert (not (lock == 0)) >> (deref (w.locks lock) >>= k))
        (λ i l. assert (l.current == minus 1) >> sym (cut l.queue (free_lock lock)) i)

  cv_destroy-parts :
      (cv : ℕ)
      → cv_destroy cv w ≡ (
          assert (not (cv == 0))
          >> (deref (w.cvs cv) >>= λ c. wait_queue_destroy c.queue w >>= free_cv cv))
  unfolding cv_destroy wait_queue_destroy free_cv
  cv_destroy-parts cv =
      ap (λ (k : Cv → Result (World H)). assert (not (cv == 0)) >> (deref (w.cvs cv) >>= k))
        (λ i c. sym (cut c.queue (free_cv cv)) i)
