-- ===== src/Sched/Dummy/Invariant.antt =====
-- The run queue's invariant: every function of dummy.c keeps each task on one queue at most, at or
-- above the queue of its priority.
use epfl_ba6_os.Prelude.{
  ℕ, zero, suc, ◌+◌, ◌-◌, ◌≤◌, ◌<◌, ◌≡◌, ◌∙◌, inl, inr, ◌&&◌, List, [], ◌∷◌, some, ltb, leb, ◌==◌,
  Bool-cases, All, All-of_count, All-mono, add32, arith,
}
use epfl_ba6_os.Sched.ListHead.{ListHead, dummy_queue_size}
use epfl_ba6_os.Sched.Dummy.{
  Rq, task, age_task, age_tasks, age_queues, tick_timeslice, task_tick_dummy,
}
use epfl_ba6_os.Sched.Dummy.Place.{
  on_queue, IsLevel, IsPlaced, IsQueued, on_queue-age_task, Kept-age_task, Kept-age_queues,
  IsPlaced-of_kept,
}
use epfl_ba6_os.Sched.Dummy.Enqueue.{requeued, requeue_lem, requeued-IsQueued}

module _ ⦃K : ListHead⦄ where
  open K use {entries}

  age_task-IsQueued :
      (i p : ℕ) (rq : Rq)
      → 1 ≤ i
      → i < dummy_queue_size
      → IsLevel (task rq p) i
      → IsQueued rq
      → IsQueued (age_task i p rq)
  age_task-IsQueued i p rq lo hi l v q =
      elim (Bool-cases (ltb rq.sysctl_age_threshold (task rq p).dummy_age_tick && p == q)) [
        | inl moved ↦ inr (
          i - 1,
          omega arith,
          (λ r b. on_queue-age_task i p rq q r ∙ rw moved),
          rw ((Kept-age_task i p rq).prio q) (ground arith),
        )
        | inr stays ↦
            IsPlaced-of_kept rq (age_task i p rq) q (λ r b. on_queue-age_task i p rq q r ∙ rw stays)
              ((Kept-age_task i p rq).prio q) (v q)
      ]

  age_tasks-IsQueued :
      (i : ℕ) (ps : List ℕ) (rq : Rq)
      → 1 ≤ i
      → i < dummy_queue_size
      → All (λ p. IsLevel (task rq p) i) ps
      → IsQueued rq
      → IsQueued (age_tasks i ps rq)
  unfolding age_tasks
  age_tasks-IsQueued i [] rq lo hi l v = v
  age_tasks-IsQueued i (p ∷ ps) rq lo hi l v =
      age_tasks-IsQueued i ps (age_task i p rq) lo hi
        (All-mono ps (λ q h. rw ((Kept-age_task i p rq).prio q) h) l.1)
        (age_task-IsQueued i p rq lo hi l.0 v)

  -- What stands on a queue has the level of the queue.
  IsLevel-of_entries :
      (rq : Rq) (i : ℕ)
      → i < dummy_queue_size
      → IsQueued rq
      → (p : ℕ) → 0 < on_queue rq p i
      → IsLevel (task rq p) i
  IsLevel-of_entries rq i b v p h = go (v p)
    where
      go : IsPlaced rq p → IsLevel (task rq p) i
      go (inl a) = absurd (omega (arith, a i b))
      go (inr (j, c, a, l)) = ground (arith, a i b)

  pub age_queues-IsQueued :
      (n i : ℕ) (rq : Rq)
      → 1 ≤ i
      → n + i ≤ dummy_queue_size
      → IsQueued rq
      → IsQueued (age_queues n i rq)
  unfolding age_queues
  age_queues-IsQueued zero i rq lo hi v = v
  age_queues-IsQueued (suc n) i rq lo hi v =
      age_queues-IsQueued n (i + 1) (age_tasks i (entries rq.queues i) rq) (omega arith)
        (omega arith)
        (age_tasks-IsQueued i (entries rq.queues i) rq lo (omega arith)
          (All-of_count (λ p. IsLevel (task rq p) i) (entries rq.queues i)
            (IsLevel-of_entries rq i (omega arith) v))
          v)

  pub tick_timeslice-IsQueued :
      (rq : Rq) (curr : ℕ)
      → IsLevel (task rq curr) 0
      → IsQueued rq
      → (rq' : Rq) × (tick_timeslice rq curr ≡ some rq') × IsQueued rq'
  unfolding tick_timeslice
  tick_timeslice-IsQueued rq curr l v =
      elim (Bool-cases (leb rq.sysctl_timeslice rq.dummy_timeslice)) [
        | inl e ↦ (
          record (requeued ticked curr) { dummy_timeslice = 0 },
          rw (e, requeue_lem ticked curr l),
          requeued-IsQueued ticked curr l v,
        )
        | inr e ↦ (ticked, rw e, v)
      ]
    where
      ticked : Rq
      ticked = record rq { dummy_timeslice = add32 rq.dummy_timeslice 1 }

  -- A tick whose current task has a priority from 135 to 139 stays within the bounds of the queues
  -- and keeps the invariant.
  pub task_tick-IsQueued :
      (rq : Rq) (curr : ℕ)
      → IsLevel (task rq curr) 0
      → IsQueued rq
      → (rq' : Rq) × (task_tick_dummy rq curr ≡ some rq') × IsQueued rq'
  unfolding task_tick_dummy
  task_tick-IsQueued rq curr l v =
      tick_timeslice-IsQueued (age_queues 4 1 rq) curr (rw ((Kept-age_queues 4 1 rq).prio curr) l)
        (age_queues-IsQueued 4 1 rq (omega arith) (omega arith) v)
