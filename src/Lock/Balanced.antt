-- ===== src/Lock/Balanced.antt =====
-- A lock that is made and destroyed, with malloc369.c as the allocator.
use user_space_threads.Prelude.{
  ℕ, ◌+◌, ◌^◌, ◌<◌, ◌≡◌, ◌≢◌, refl, subst, ◌∷◌, none, ok, minus, ◌>>=◌, update, arith,
}
use user_space_threads.Queue.{empty_queue}
use user_space_threads.Machine.{World}
use user_space_threads.Machine.Objects.{set_lock, set_wait_queue}
use user_space_threads.Malloc.{KHash, Libc, Malloc, malloc369, free369, malloc369_allocator}
use user_space_threads.Malloc.Ledger.{Blocks, find, remove, IsDictionary}
use user_space_threads.Malloc.Balanced.{
  Balanced, after_malloc, malloc369-Balanced, after_free, free369-Balanced,
}
use user_space_threads.Wait.{wait_queue_create, wait_queue_size}
use user_space_threads.Lock.{lock_create, lock_destroy, lock_size}

remove_first : (p n : ℕ) (live : Blocks) → remove p ((p, n) ∷ live) ≡ live
remove_first p n live = ground arith

module _ {M S : Type 0} ⦃kh : KHash M⦄ ⦃lc : Libc S⦄ (map : IsDictionary kh) where
  -- The heap behind two calls of malloc369, for the lock at `p` and the wait queue at `q`.
  abbrev made : ℕ → ℕ → S → S → Malloc M S → Malloc M S
  made p q s1 s2 s = after_malloc wait_queue_size q s2 (after_malloc lock_size p s1 s)

  abbrev freed : ℕ → ℕ → S → S → Malloc M S → Malloc M S
  freed p q s3 s4 s = after_free lock_size p s4 (after_free wait_queue_size q s3 s)

  module _ (live : Blocks) (w : World (Malloc M S)) (b : Balanced live w.heap) (p q : ℕ)
      (s1 s2 s3 s4 : S) (gives_lock : lc.malloc lock_size w.heap.libc ≡ (p, s1))
      (gives_queue : lc.malloc wait_queue_size s1 ≡ (q, s2)) (p_ne_null : p ≢ 0) (q_ne_null : q ≢ 0)
      (p_new : find p live ≡ none) (q_new : find q ((p, lock_size) ∷ live) ≡ none)
      (takes_queue : lc.free q s2 ≡ ok s3) (takes_lock : lc.free p s3 ≡ ok s4)
      (few : w.heap.num_mallocs + 2 < 2 ^ 63)
      (small : w.heap.bytes_malloced + lock_size + wait_queue_size < 2 ^ 63) where
    abbrev with_lock : World (Malloc M S)
    with_lock =
        set_lock p (record { queue = q; current = minus 1 })
          (set_wait_queue q (empty_queue (lc.ints_at q s2))
            (record w { heap = made p q s1 s2 w.heap }))

    first :
        (malloc369 lock_size w.heap ≡ ok (p, after_malloc lock_size p s1 w.heap))
        × Balanced ((p, lock_size) ∷ live) (after_malloc lock_size p s1 w.heap)
    first =
        malloc369-Balanced map lock_size p s1 live w.heap b gives_lock p_ne_null (omega arith) p_new
          (omega arith) (omega arith)

    second :
        (malloc369 wait_queue_size (after_malloc lock_size p s1 w.heap)
          ≡ ok (q, made p q s1 s2 w.heap))
        × Balanced ((q, wait_queue_size) ∷ (p, lock_size) ∷ live) (made p q s1 s2 w.heap)
    second =
        malloc369-Balanced map wait_queue_size q s2 ((p, lock_size) ∷ live)
          (after_malloc lock_size p s1 w.heap) first.1 gives_queue q_ne_null (omega arith) q_new
          (omega arith) (omega arith)

    creates : lock_create w ≡ ok (p, with_lock)
    unfolding lock_create wait_queue_create
    creates = ground (arith, first.0, second.0)

    third :
        (free369 q (made p q s1 s2 w.heap)
          ≡ ok (after_free wait_queue_size q s3 (made p q s1 s2 w.heap)))
        × Balanced ((p, lock_size) ∷ live) (after_free wait_queue_size q s3 (made p q s1 s2 w.heap))
    third =
        let f =
          free369-Balanced map wait_queue_size q s3 ((q, wait_queue_size) ∷ (p, lock_size) ∷ live)
            (made p q s1 s2 w.heap) second.1 (ground arith) takes_queue in
        (
          f.0,
          subst (λ l. Balanced l (after_free wait_queue_size q s3 (made p q s1 s2 w.heap)))
              (remove_first q wait_queue_size ((p, lock_size) ∷ live)) f.1,
        )

    fourth :
        (free369 p (after_free wait_queue_size q s3 (made p q s1 s2 w.heap))
          ≡ ok (freed p q s3 s4 (made p q s1 s2 w.heap)))
        × Balanced live (freed p q s3 s4 (made p q s1 s2 w.heap))
    fourth =
        let f =
          free369-Balanced map lock_size p s4 ((p, lock_size) ∷ live)
            (after_free wait_queue_size q s3 (made p q s1 s2 w.heap)) third.1 (ground arith)
            takes_lock in
        (
          f.0,
          subst (λ l. Balanced l (freed p q s3 s4 (made p q s1 s2 w.heap)))
              (remove_first p lock_size live) f.1,
        )

    -- lock_create and then lock_destroy of the new lock, with malloc369.c as the allocator over a C
    -- library that gives out two new blocks and takes them back, and with the counters in range:
    -- both return, and the counters and the hash map are again those of the blocks that were live
    -- before. There is no lock and no wait queue at the two addresses, and the C library is left as
    -- by its own four calls. It is asked that the hash map is a dictionary.
    pub lock_destroy-create :
        (w' : World (Malloc M S)) × ((lock_create w >>= λ a. lock_destroy a.0 a.1) ≡ ok w')
        × Balanced live w'.heap
        × (w'.heap.libc ≡ s4)
        × (w'.locks p ≡ none)
        × (w'.wait_queues q ≡ none)
        × (w'.threads ≡ w.threads)
        × (w'.thread_queue ≡ w.thread_queue)
    unfolding lock_destroy
    lock_destroy-create = (
      record with_lock {
        heap = freed p q s3 s4 (made p q s1 s2 w.heap);
        wait_queues = update with_lock.wait_queues q none;
        locks = update with_lock.locks p none;
      },
      rw creates (ground (arith, third.0, fourth.0)),
      fourth.1,
      refl,
      ground arith,
      ground arith,
      refl,
      refl,
    )
