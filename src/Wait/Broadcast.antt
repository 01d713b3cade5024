-- ===== src/Wait/Broadcast.antt =====
-- thread_wakeup against a loop over the list of entries, and the waking of all of them.
use user_space_threads.Prelude.{
  ◌^◌, ℕ, zero, suc, ◌+◌, ◌<◌, ◌≡◌, ◌≢◌, refl, subst, ◌∙◌, true, false, not, inl, inr, List, [],
  ◌∷◌, Int32, Result, ok, Halt, halt, assert, arith, add_int, All, length, some, ◌>>◌, ◌==◌,
  ==_of_ne,
}
use user_space_threads.Queue.{Queue, err_empty}
use user_space_threads.Queue.Refine.{contents, length-window, queue_pop-Popped}
use user_space_threads.Machine.{running, sleep, World}
use user_space_threads.Machine.Objects.{state_eq, set_wait_queue}
use user_space_threads.Thread.Ready.{IsTid, IsReady}
use user_space_threads.Wait.{wakeup_loop, thread_wakeup}
use user_space_threads.Wait.Wakeup.{woken}

module _ {H : Type 0} where
  -- The loop as it would be on a list, oldest entry first: an entry of a running thread is an error,
  -- one of a dead thread is passed over, and one of a sleeping thread is woken; with `all` = 0 the
  -- loop ends behind the first that is woken. It gives the count, the entries left and the world.
  unfoldable pub wake_entries :
      Int32 → List Int32 → Int32 → World H → Result (Int32 × List Int32 × World H)
  wake_entries all [] num w = ok (num, [], w)
  wake_entries all (id ∷ ids) num w = do
    assert (not (state_eq (w.threads id).state running))
    elim (state_eq (w.threads id).state sleep) [
      | true ↦ elim (all == 0) [
        | true ↦ ok (add_int num 1, ids, woken id w)
        | false ↦ wake_entries all ids (add_int num 1) (woken id w)
      ]
      | false ↦ wake_entries all ids num w
    ]

  -- The queue as the list of its entries.
  abbrev pub listed : Result (Int32 × Queue × World H) → Result (Int32 × List Int32 × World H)
  listed (ok a) = ok (a.0, contents a.1, a.2)
  listed (halt h) = halt h

  -- On a valid queue, with fuel for more rounds than there are entries, the loop of thread_wakeup
  -- does what the loop over the list of entries does, failed assertions included.
  pub wakeup_loop_refines :
      (fuel : ℕ) (all num : Int32) (q : Queue) (w : World H)
      → IsReady q
      → q.current_size < fuel
      → listed (wakeup_loop fuel all num q w) ≡ wake_entries all (contents q) num w
  unfolding wakeup_loop wake_entries
  wakeup_loop_refines zero all num q w r h = absurd (omega arith)
  wakeup_loop_refines (suc fuel) all num q w r h = elim (queue_pop-Popped r.valid) [
    | inl (e, c) ↦ rw (wakeup_loop, e, e, c) refl
    | inr (x, q', e, c, v, s) ↦
        let t : All IsTid (x ∷ contents q') = subst (All IsTid) c r.tids in
        let q'-ready : IsReady q' = record { valid = v; tids = t.1 } in
        let no_err : (x == err_empty) ≡ false = ==_of_ne (omega (arith, t.0)) in
        let same = wakeup_loop_refines fuel all num q' w q'-ready (omega (arith, s, h)) in
        let woke =
          wakeup_loop_refines fuel all (add_int num 1) q' (woken x w) q'-ready
            (omega (arith, s, h)) in
        ground (arith, e, c, same, woke)
  ]

-- No entry occurs twice.
abbrev pub Distinct : List Int32 → Type 0
Distinct [] = Unit
Distinct (x ∷ xs) = All (λ y. x ≢ y) xs × Distinct xs

module _ {H : Type 0} where
  abbrev pub Asleep : World H → Int32 → Type 0
  Asleep w t = (w.threads t).state ≡ sleep

  -- The world in which the threads have been woken, in the order of the list.
  abbrev pub woken_all : List Int32 → World H → World H
  woken_all [] w = w
  woken_all (id ∷ ids) w = woken_all ids (woken id w)

  pub Asleep-woken :
      (id : Int32) (ids : List Int32) (w : World H)
      → All (λ y. id ≢ y) ids
      → All (Asleep w) ids
      → All (Asleep (woken id w)) ids
  Asleep-woken id [] w h a = tt
  Asleep-woken id (y ∷ ids) w h a = (ground (arith, h.0, a.0), Asleep-woken id ids w h.1 a.1)

  wake_entries-every :
      (all num : Int32) (ids : List Int32) (w : World H)
      → all ≢ 0
      → num + length ids < 2 ^ 32
      → Distinct ids
      → All (Asleep w) ids
      → wake_entries all ids num w ≡ ok (num + length ids, [], woken_all ids w)
  unfolding wake_entries
  wake_entries-every all num [] w nz h d a = ground arith
  wake_entries-every all num (id ∷ ids) w nz h d a =
      let next =
        wake_entries-every all (num + 1) ids (woken id w) nz (omega arith) d.1
          (Asleep-woken id ids w d.0 a.1) in
      ground (arith, a.0, next)

  -- Waking does not read the mask.
  pub woken_all-mask :
      (ids : List Int32) (w : World H)
      → record (woken_all ids (record w { enabled = false })) { enabled = w.enabled }
        ≡ woken_all ids w
  woken_all-mask [] w = refl
  woken_all-mask (id ∷ ids) w = woken_all-mask ids (woken id w)

  listed-ok :
      (o : Result (Int32 × Queue × World H)) {n : Int32} {ids : List Int32} {w : World H}
      → listed o ≡ ok (n, ids, w)
      → (q : Queue) × (o ≡ ok (n, q, w)) × (contents q ≡ ids)
  listed-ok (ok a) e = (a.1, cc, cc)
  listed-ok (halt h) e = absurd (distinct e)
    where
      distinct : {h : Halt} {x : Int32 × List Int32 × World H} → halt h ≡ ok x → ⊥
      distinct e = cc

  -- On a valid queue whose entries are different threads, all asleep, thread_wakeup with `all`
  -- other than 0 wakes every one of them in the order of the queue, leaves the queue empty, and
  -- answers how many they were. The mask is as it was.
  pub thread_wakeup-every :
      (queue : ℕ) (all : Int32) (q : Queue) (w : World H)
      → queue ≢ 0
      → all ≢ 0
      → w.wait_queues queue ≡ some q
      → IsReady q
      → Distinct (contents q)
      → All (Asleep w) (contents q)
      → (q' : Queue) × (thread_wakeup queue all w
          ≡ ok (length (contents q), set_wait_queue queue q' (woken_all (contents q) w)))
        × (contents q' ≡ [])
  unfolding thread_wakeup
  thread_wakeup-every queue all q w nz na live r d a =
      let off : World H = record w { enabled = false } in
      let loop = wakeup_loop (suc q.current_size) all 0 q off in
      let same = wakeup_loop_refines (suc q.current_size) all 0 q off r (omega arith) in
      let woke =
        wake_entries-every all 0 (contents q) off na
          (omega (arith, r.valid, length-window q.threads q.start q.current_size)) d a in
      let (q', e, empty) = listed-ok loop (same ∙ woke) in (q', ground (arith, e, restored), empty)
    where
      restored :
          record (woken_all (contents q) (record w { enabled = false })) { enabled = w.enabled }
          ≡ woken_all (contents q) w
      restored = woken_all-mask (contents q) w
