-- ===== src/Lock/Separate/Create.antt =====
-- Making and destroying wait queues, locks and condition variables keeps the wait queues separate.
use user_space_threads.Prelude.{
  ℕ, ◌≡◌, ◌≢◌, refl, subst, sym, not, none, some, minus, ok, ◌==◌, ==→ne, inl, inr, Bool-cases,
  update, Ensures, any-Ensures, bind-Ensures, if-Ensures, map-Ensures, assert-Ensures,
}
use user_space_threads.Queue.{Queue, empty_queue}
use user_space_threads.Machine.{World, Lock, Cv}
use user_space_threads.Machine.Objects.{Allocator, deref-Ensures}
use user_space_threads.Thread.Objects.{Objects, objects}
use user_space_threads.Wait.{wait_queue_create, wait_queue_destroy, wait_queue_size}
use user_space_threads.Lock.{lock_create, lock_destroy, cv_create, cv_destroy, lock_size, cv_size}
use user_space_threads.Lock.Separate.{
  Separate, IsSeparate, set_wait_queue-Separate, new_lock-Separate, new_cv-Separate,
  drop_queue-Separate, drop_lock-Separate, drop_cv-Separate,
}

-- The block that malloc369 gives out behind another one is not where a wait queue lives.
abbrev pub GivesFresh : {H : Type 0} ⦃al : Allocator H⦄ → World H → Type 0
GivesFresh {H} ⦃al⦄ w =
    (size p queue : ℕ) (heap heap' : H)
    → al.malloc369 size w.heap ≡ ok (p, heap)
    → al.malloc369 wait_queue_size heap ≡ ok (queue, heap')
    → w.wait_queues queue ≡ none

module _ {H : Type 0} ⦃al : Allocator H⦄ where
  -- What wait_queue_create leaves.
  record Made (w : World H) (a : ℕ × World H) : Type 0 where
    q : Queue
    heap : H
    gave : al.malloc369 wait_queue_size w.heap ≡ ok (a.0, heap)
    ne_null : a.0 ≢ 0
    made : objects a.1 ≡ (w.locks, update w.wait_queues a.0 (some q), w.cvs)

  wait_queue_create-Made : (w : World H) → Ensures (Made w) (wait_queue_create w)
  unfolding wait_queue_create
  wait_queue_create-Made w = any-Ensures _ (al.malloc369 wait_queue_size w.heap) _ (λ a e.
      elim (Bool-cases (a.0 == 0)) [
        | inl z ↦ rw z tt
        | inr nz ↦ rw nz (record {
          q = empty_queue (al.block a.0 a.1);
          heap = a.1;
          gave = e;
          ne_null = ==→ne nz;
          made = refl;
        })
      ])

  pub wait_queue_create-Separate :
      (w : World H) → IsSeparate w → Ensures (λ a. IsSeparate a.1) (wait_queue_create w)
  wait_queue_create-Separate w s =
      map-Ensures {P = Made w} (wait_queue_create w)
        (λ a m.
          subst Separate (sym m.made) (set_wait_queue-Separate (objects w) s a.0 m.q m.ne_null))
        (wait_queue_create-Made w)

  pub wait_queue_destroy-Separate :
      (queue : ℕ) (w : World H)
      → ((p : ℕ) (l : Lock) → w.locks p ≡ some l → l.queue ≢ queue)
      → ((cv : ℕ) (c : Cv) → w.cvs cv ≡ some c → c.queue ≢ queue)
      → IsSeparate w
      → Ensures (λ w'. IsSeparate w') (wait_queue_destroy queue w)
  unfolding wait_queue_destroy
  wait_queue_destroy-Separate queue w no_lock no_cv s =
      any-Ensures _ (al.free369 queue w.heap) _
        (λ heap e. drop_queue-Separate (objects w) s queue no_lock no_cv)

  pub lock_create-Separate :
      (w : World H) → GivesFresh w → IsSeparate w → Ensures (λ a. IsSeparate a.1) (lock_create w)
  unfolding lock_create
  lock_create-Separate w fresh s = any-Ensures _ (al.malloc369 lock_size w.heap) _ (λ a e.
      bind-Ensures _ (Made (record w { heap = a.1 })) (wait_queue_create (record w { heap = a.1 }))
        _ (wait_queue_create-Made (record w { heap = a.1 }))
        (λ b e' m.
          if-Ensures _ (a.0 == 0) _ _ (λ z. tt)
            (λ z.
              subst
                (λ (o : Objects).
                  Separate
                    (update o.0 a.0 (some (record { queue = b.0; current = minus 1 })), o.1, o.2))
                (sym m.made)
                (new_lock-Separate (objects w) s a.0 b.0 m.q
                  (record { queue = b.0; current = minus 1 }) m.ne_null
                  (fresh lock_size a.0 b.0 a.1 m.heap e m.gave) refl))))

  pub cv_create-Separate :
      (w : World H) → GivesFresh w → IsSeparate w → Ensures (λ a. IsSeparate a.1) (cv_create w)
  unfolding cv_create
  cv_create-Separate w fresh s = any-Ensures _ (al.malloc369 cv_size w.heap) _ (λ a e.
      bind-Ensures _ (Made (record w { heap = a.1 })) (wait_queue_create (record w { heap = a.1 }))
        _ (wait_queue_create-Made (record w { heap = a.1 }))
        (λ b e' m.
          if-Ensures _ (a.0 == 0) _ _ (λ z. tt)
            (λ z.
              subst
                (λ (o : Objects).
                  Separate (o.0, o.1, update o.2 a.0 (some (record { queue = b.0 }))))
                (sym m.made)
                (new_cv-Separate (objects w) s a.0 b.0 m.q (record { queue = b.0 }) m.ne_null
                  (fresh cv_size a.0 b.0 a.1 m.heap e m.gave) refl))))

  pub lock_destroy-Separate :
      (lock : ℕ) (w : World H) → IsSeparate w → Ensures (λ w'. IsSeparate w') (lock_destroy lock w)
  unfolding lock_destroy
  lock_destroy-Separate lock w s = assert-Ensures _ (not (lock == 0)) _ (λ a.
      deref-Ensures _ (w.locks lock) _ (λ l live. assert-Ensures _ (l.current == minus 1) _ (λ b.
        any-Ensures _ (al.free369 l.queue w.heap) _ (λ heap e.
          any-Ensures _ (al.free369 lock heap) _
            (λ heap' e'. drop_lock-Separate (objects w) s lock l live)))))

  pub cv_destroy-Separate :
      (cv : ℕ) (w : World H) → IsSeparate w → Ensures (λ w'. IsSeparate w') (cv_destroy cv w)
  unfolding cv_destroy
  cv_destroy-Separate cv w s = assert-Ensures _ (not (cv == 0)) _ (λ a.
      deref-Ensures _ (w.cvs cv) _ (λ c live. any-Ensures _ (al.free369 c.queue w.heap) _ (λ heap e.
        any-Ensures _ (al.free369 cv heap) _
          (λ heap' e'. drop_cv-Separate (objects w) s cv c live))))
