-- ===== src/Sched/Dummy/Slice.antt =====
-- Round robin in dummy.c: the end of a time slice, a yield, and the tasks that a tick leaves queued.
use epfl_ba6_os.Prelude.{
  ℕ, zero, suc, ◌+◌, ◌^◌, ◌≤◌, ◌<◌, ◌≡◌, ◌≢◌, refl, ◌∙◌, inl, inr, ◌⊎◌, ◌↔◌, [], ◌∷◌, ◌++◌, some,
  none, true, Bool-cases, ==_iff, ◌==◌, leb, ltb, if◌then◌else◌, remove, add32, arith,
}
use epfl_ba6_os.Sched.ListHead.{ListHead}
use epfl_ba6_os.Sched.Dummy.{
  Rq, task, dummy_priority_min, dummy_priority_max, age_queues, tick_timeslice, task_tick_dummy,
  requeue_task_dummy, enqueue_task_dummy,
}
use epfl_ba6_os.Sched.Dummy.Place.{total, IsLevel, IsPlaced, IsQueued, Kept-age_queues}
use epfl_ba6_os.Sched.Dummy.Enqueue.{
  requeued, requeue_lem, own_queue, on_queue-requeued, entries-requeued, enqueue_lem,
  enqueue_out_of_bounds,
}
use epfl_ba6_os.Sched.Dummy.Invariant.{task_tick-IsQueued}
use epfl_ba6_os.Sched.Dummy.Aging.{Aged-age_queues, Same-age_queues}

module _ ⦃K : ListHead⦄ where
  open K use {entries}

  -- `requeue_task_dummy` of a task with a priority from 135 to 139 puts it last on the queue of its
  -- priority, keeps the order of all other tasks, starts its age anew, asks for it to be
  -- rescheduled, and changes no other task and no count.
  pub requeue_task-rotates :
      (rq : Rq) (p : ℕ)
      → IsLevel (task rq p) 0
      → rq.nr_running < 2 ^ 32
      → (rq' : Rq) × (requeue_task_dummy rq p ≡ some rq')
        × ((r : ℕ)
            → entries rq'.queues r ≡ (
                if own_queue (task rq p) == r
                then remove p (entries rq.queues r) ++ p ∷ []
                else remove p (entries rq.queues r)))
        × (task rq' p ≡ record (task rq p) { dummy_age_tick = 0; need_resched = true })
        × ((q : ℕ) → p ≢ q → task rq' q ≡ task rq q)
        × (rq'.nr_running ≡ rq.nr_running)
        × (rq'.dummy_timeslice ≡ rq.dummy_timeslice)
  requeue_task-rotates rq p l small = (
    requeued rq p,
    requeue_lem rq p l,
    entries-requeued rq p,
    ground arith,
    (λ q ne. ground arith),
    omega arith,
    refl,
  )

  -- `enqueue_task_dummy` leaves the bounds of the queues exactly at the priorities that are not
  -- from 135 to 139; at those it enqueues.
  pub enqueue_task_faults_iff :
      (rq : Rq) (p : ℕ)
      → (enqueue_task_dummy rq p ≡ none)
        ↔ ((task rq p).prio < dummy_priority_min ⊎ dummy_priority_max < (task rq p).prio)
  enqueue_task_faults_iff rq p = (faults, enqueue_out_of_bounds rq p)
    where
      faults :
          enqueue_task_dummy rq p ≡ none
          → (task rq p).prio < dummy_priority_min ⊎ dummy_priority_max < (task rq p).prio
      faults h = elim (Bool-cases (ltb (task rq p).prio dummy_priority_min)) [
        | inl low ↦ inl (ground arith)
        | inr not_low ↦ elim (Bool-cases (ltb dummy_priority_max (task rq p).prio)) [
          | inl high ↦ inr (ground arith)
          | inr not_high ↦ cc (enqueue_lem rq p (ground arith, ground arith))
        ]
      ]

  -- The time slice in a tick, whose current task has a priority from 135 to 139: when the counter
  -- has reached the tunable the current task goes to the end of its queue and the counter starts
  -- anew; before, the counter grows by one and the queues stay. The counter never passes the
  -- tunable.
  tick_timeslice_lem :
      (rq : Rq) (curr : ℕ)
      → IsLevel (task rq curr) 0
      → rq.sysctl_timeslice < 2 ^ 32
      → (rq' : Rq) × (tick_timeslice rq curr ≡ some rq')
        × (rq'.dummy_timeslice
            ≡ (if leb rq.sysctl_timeslice rq.dummy_timeslice then 0 else rq.dummy_timeslice + 1))
        × (rq'.dummy_timeslice ≤ rq.sysctl_timeslice)
        × ((r : ℕ)
            → entries rq'.queues r ≡ (
                if leb rq.sysctl_timeslice rq.dummy_timeslice
                then (if own_queue (task rq curr) == r
                    then remove curr (entries rq.queues r) ++ curr ∷ []
                    else remove curr (entries rq.queues r))
                else entries rq.queues r))
  unfolding tick_timeslice
  tick_timeslice_lem rq curr l small =
      elim (Bool-cases (leb rq.sysctl_timeslice rq.dummy_timeslice)) [
        | inl e ↦ (
          record (requeued ticked curr) { dummy_timeslice = 0 },
          rw (e, requeue_lem ticked curr l),
          rw e,
          omega arith,
          λ r. rw e (entries-requeued ticked curr r),
        )
        | inr e ↦ (ticked, rw e, ground arith, ground arith, λ r. rw e)
      ]
    where
      ticked : Rq
      ticked = record rq { dummy_timeslice = add32 rq.dummy_timeslice 1 }

  -- The aging loops leave each task on as many queues as before.
  total-age_queues : (rq : Rq) (q : ℕ) → IsPlaced rq q → total (age_queues 4 1 rq) q ≡ total rq q
  total-age_queues rq q (inl a) =
      let s = Same-age_queues 4 1 q rq (λ j lo hi. a j hi) in
      rw (s.place 0, s.place 1, s.place 2, s.place 3, s.place 4)
  total-age_queues rq q (inr (zero, b, a, l)) =
      let s = Same-age_queues 4 1 q rq (λ j lo hi. a j hi ∙ ground arith) in
      rw (s.place 0, s.place 1, s.place 2, s.place 3, s.place 4)
  total-age_queues rq q (inr (suc k, b, a, l)) =
      let s = Aged-age_queues 4 1 (suc k) q rq (omega arith) b (omega arith) a in
      ground (
        arith,
        s.place 0,
        s.place 1,
        s.place 2,
        s.place 3,
        s.place 4,
        a 0 (omega arith),
        a 1 (omega arith),
        a 2 (omega arith),
        a 3 (omega arith),
        a 4 (omega arith),
      )

  total-requeued :
      (rq : Rq) (p q : ℕ)
      → IsLevel (task rq p) 0
      → total rq p ≡ 1
      → total (requeued rq p) q ≡ total rq q
  total-requeued rq p q l one = elim (Bool-cases (p == q)) [
    | inl e ↦
        let same = (==_iff p q).0 e in
        ground (
          arith,
          on_queue-requeued rq p q 0 (omega arith),
          on_queue-requeued rq p q 1 (omega arith),
          on_queue-requeued rq p q 2 (omega arith),
          on_queue-requeued rq p q 3 (omega arith),
          on_queue-requeued rq p q 4 (omega arith),
        )
    | inr e ↦ ground (
      arith,
      on_queue-requeued rq p q 0 (omega arith),
      on_queue-requeued rq p q 1 (omega arith),
      on_queue-requeued rq p q 2 (omega arith),
      on_queue-requeued rq p q 3 (omega arith),
      on_queue-requeued rq p q 4 (omega arith),
    )
  ]

  total-tick_timeslice :
      (rq rq' : Rq) (curr q : ℕ)
      → IsLevel (task rq curr) 0
      → total rq curr ≡ 1
      → tick_timeslice rq curr ≡ some rq'
      → total rq' q ≡ total rq q
  unfolding tick_timeslice
  total-tick_timeslice rq rq' curr q l one h =
      elim (Bool-cases (leb rq.sysctl_timeslice rq.dummy_timeslice)) [
        | inl e ↦
            let same : some (record (requeued ticked curr) { dummy_timeslice = 0 }) ≡ some rq' =
              rw (e, requeue_lem ticked curr l) at h in
            let eq : record (requeued ticked curr) { dummy_timeslice = 0 } ≡ rq' = cc in
            rw (← eq) (total-requeued ticked curr q l one)
        | inr e ↦
            let same : some ticked ≡ some rq' = rw e at h in let eq : ticked ≡ rq' = cc in rw (← eq)
      ]
    where
      ticked : Rq
      ticked = record rq { dummy_timeslice = add32 rq.dummy_timeslice 1 }

  -- No tick loses a task, makes one up, or puts one on two queues: if the invariant holds and the
  -- current task is queued at a priority from 135 to 139, the tick ends and each task stands on as
  -- many queues as before.
  pub total-task_tick :
      (rq : Rq) (curr : ℕ)
      → IsQueued rq
      → IsLevel (task rq curr) 0
      → total rq curr ≡ 1
      → (rq' : Rq) × (task_tick_dummy rq curr ≡ some rq') × ((q : ℕ) → total rq' q ≡ total rq q)
  unfolding task_tick_dummy
  total-task_tick rq curr v l one =
      let done = task_tick-IsQueued rq curr l v in
      (
        done.0,
        done.1,
        λ q.
            total-tick_timeslice (age_queues 4 1 rq) done.0 curr q
              (rw ((Kept-age_queues 4 1 rq).prio curr) l) (total-age_queues rq curr (v curr) ∙ one)
              done.1
            ∙ total-age_queues rq q (v q),
      )
