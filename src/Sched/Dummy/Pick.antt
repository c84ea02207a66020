-- ===== src/Sched/Dummy/Pick.antt =====
-- `pick_next_task_dummy` of dummy.c against the order in which the queues hold the tasks.
use mathlib.Core.List.{head?}
use epfl_ba6_os.Prelude.{
  ℕ, zero, suc, ◌+◌, ◌≤◌, ◌<◌, ◌≡◌, refl, ap, inl, inr, List, [], ◌∷◌, ◌++◌, Option, none, some,
  ◌==◌, count, Bool-cases, ==_iff, arith,
}
use epfl_ba6_os.Sched.ListHead.{ListHead, dummy_queue_size}
use epfl_ba6_os.Sched.Dummy.{Rq, task, set_task, pick_from, pick_next_task_dummy}
use epfl_ba6_os.Sched.Dummy.Place.{on_queue, IsQueued, IsPlaced-of_kept}

module _ ⦃K : ListHead⦄ where
  open K use {Links, entries, list_empty, list_first_entry, list_empty_iff, first-entries}

  -- The queues from `i` on, laid end to end.
  abbrev pub run_order : ℕ → ℕ → Links → List ℕ
  run_order zero i l = []
  run_order (suc n) i l = entries l i ++ run_order n (i + 1) l

  -- What a choice does to the state: the age of the chosen task starts anew.
  abbrev pub picked : Rq → Option ℕ → Rq
  picked rq none = rq
  picked rq (some p) = set_task rq p (record (task rq p) { dummy_age_tick = 0 })

  pick_from_lem :
      (n i : ℕ) (rq : Rq)
      → pick_from n i rq
        ≡ (head? (run_order n i rq.queues), picked rq (head? (run_order n i rq.queues)))
  unfolding pick_from
  pick_from_lem zero i rq = refl
  pick_from_lem (suc n) i rq = go (entries rq.queues i) refl (pick_from_lem n (i + 1) rq)
    where
      go :
          (xs : List ℕ)
          → entries rq.queues i ≡ xs
          → pick_from n (i + 1) rq ≡ (
            head? (run_order n (i + 1) rq.queues),
            picked rq (head? (run_order n (i + 1) rq.queues)),
          )
          → pick_from (suc n) i rq ≡ (
            head? (run_order (suc n) i rq.queues),
            picked rq (head? (run_order (suc n) i rq.queues)),
          )
      go [] e h = rw ((list_empty_iff rq.queues i).1 e, e) h
      go (p ∷ ps) e h = elim (Bool-cases (list_empty rq.queues i)) [
        | inl b ↦ cc (e, (list_empty_iff rq.queues i).0 b)
        | inr b ↦ rw (b, e, first-entries rq.queues i p ps e) refl
      ]

  -- The class chooses the first task of the queues laid end to end, from the queue of priority 135
  -- to that of 139, and none exactly when they are all empty. The state changes in the age of the
  -- chosen task alone, which starts anew.
  pub pick_next_task_lem :
      (rq : Rq)
      → pick_next_task_dummy rq ≡ (
        head? (run_order dummy_queue_size 0 rq.queues),
        picked rq (head? (run_order dummy_queue_size 0 rq.queues)),
      )
  unfolding pick_next_task_dummy
  pick_next_task_lem rq = pick_from_lem dummy_queue_size 0 rq

  -- What stands first in the queues laid end to end stands on the first queue that is not empty.
  head-run_order :
      (n i p : ℕ) (l : Links)
      → head? (run_order n i l) ≡ some p
      → (k : ℕ) × (i ≤ k)
        × (k < i + n)
        × (0 < count p (entries l k))
        × ((r : ℕ) → i ≤ r → r < k → entries l r ≡ [])
  head-run_order zero i p l h = cc
  head-run_order (suc n) i p l h = go (entries l i) refl (head-run_order n (i + 1) p l)
    where
      go :
          (xs : List ℕ)
          → entries l i ≡ xs
          → (head? (run_order n (i + 1) l) ≡ some p
              → (k : ℕ) × (i + 1 ≤ k)
                × (k < i + 1 + n)
                × (0 < count p (entries l k))
                × ((r : ℕ) → i + 1 ≤ r → r < k → entries l r ≡ []))
          → (k : ℕ) × (i ≤ k)
            × (k < i + suc n)
            × (0 < count p (entries l k))
            × ((r : ℕ) → i ≤ r → r < k → entries l r ≡ [])
      go [] e ih =
          let found = ih (rw e at h) in
          (
            found.0,
            omega arith,
            omega arith,
            found.3,
            λ r lo hi. elim (Bool-cases (i == r)) [
              | inl at_i ↦ rw (← (==_iff i r).0 at_i) e
              | inr above ↦ found.4 r (ground arith) hi
            ],
          )
      go (q ∷ qs) e ih =
          (i, omega arith, omega arith, ground arith, λ r lo hi. absurd (omega arith))

  -- A task that the class chooses stands on a queue, and all queues before that one are empty: no
  -- task waits at a better level.
  pub pick_next_task_first :
      (rq : Rq) (p : ℕ)
      → (pick_next_task_dummy rq).0 ≡ some p
      → (i : ℕ) × (i < dummy_queue_size)
        × (0 < on_queue rq p i)
        × ((q r : ℕ) → r < i → on_queue rq q r ≡ 0)
  pick_next_task_first rq p h =
      let found = head-run_order dummy_queue_size 0 p rq.queues (rw (pick_next_task_lem rq) at h) in
      (found.0, found.2, found.3, λ q r b. rw (found.4 r (omega arith) b))

  picked-kept :
      (rq : Rq) (o : Option ℕ) (q : ℕ)
      → ((picked rq o).queues ≡ rq.queues) × ((task (picked rq o) q).prio ≡ (task rq q).prio)
  picked-kept rq none q = (refl, refl)
  picked-kept rq (some p) q = (refl, ground arith)

  -- The choice keeps the invariant.
  pub pick_next_task-IsQueued : (rq : Rq) → IsQueued rq → IsQueued (pick_next_task_dummy rq).1
  pick_next_task-IsQueued rq v = rw (pick_next_task_lem rq) λ q.
      let o = head? (run_order dummy_queue_size 0 rq.queues) in
      IsPlaced-of_kept rq (picked rq o) q
        (λ r b. ap (λ l. count q (entries l r)) (picked-kept rq o q).0) (picked-kept rq o q).1 (v q)

  pub pick_next_task-queues : (rq : Rq) → (pick_next_task_dummy rq).1.queues ≡ rq.queues
  pick_next_task-queues rq =
      rw (pick_next_task_lem rq)
        ((picked-kept rq (head? (run_order dummy_queue_size 0 rq.queues)) 0).0)
