-- ===== src/Sched/Dummy/Steps.antt =====
-- Histories of a run queue: the calls that core.c makes of the class, in any order.
use epfl_ba6_os.Prelude.{
  ℕ, ◌≡◌, refl, subst, inl, inr, Option, some, true, Bool-cases, ==_iff, add32, ◌==◌, leb, ltb,
  arith,
}
use epfl_ba6_os.Sched.ListHead.{ListHead}
use epfl_ba6_os.Sched.Dummy.{
  Task, Rq, task, set_task, init_dummy_rq, enqueue_task_dummy, dequeue_task_dummy,
  requeue_task_dummy, yield_task_dummy, check_preempt_curr_dummy, pick_next_task_dummy,
  task_tick_dummy, tick_timeslice, age_queues, switched_to_dummy, prio_changed_dummy,
}
use epfl_ba6_os.Sched.Dummy.Place.{IsAbsent, IsLevel, IsQueued, IsPlaced-of_kept}
use epfl_ba6_os.Sched.Dummy.Enqueue.{
  enqueue_lem, requeue_lem, dequeue_lem, enqueued-IsQueued, dequeued-IsQueued, requeued-IsQueued,
}
use epfl_ba6_os.Sched.Dummy.Invariant.{tick_timeslice-IsQueued, age_queues-IsQueued}
use epfl_ba6_os.Sched.Dummy.Pick.{pick_next_task-IsQueued}

module _ ⦃K : ListHead⦄ where
  open K use {entries, init_list_head, entries-init}

  -- A call that ran to its end. The core enqueues a task that is on no queue, and changes a
  -- priority while the task is on none.
  pub data Step (rq : Rq) : Rq → Type 0 where
    enqueues : {rq' : Rq} (p : ℕ) → IsAbsent rq p → enqueue_task_dummy rq p ≡ some rq' → Step rq rq'
    dequeues : (p : ℕ) → Step rq (dequeue_task_dummy rq p)
    yields : {rq' : Rq} → yield_task_dummy rq ≡ some rq' → Step rq rq'
    ticks : {rq' : Rq} → task_tick_dummy rq rq.curr ≡ some rq' → Step rq rq'
    picks : Step rq (pick_next_task_dummy rq).1
    switches : (p : ℕ) → Step rq (record rq { curr = p })
    sets_prio :
        (p n : ℕ) → IsAbsent rq p → Step rq (set_task rq p (record (task rq p) { prio = n }))
    preempts : (p : ℕ) → Step rq (check_preempt_curr_dummy rq p)
    switched_to : (p : ℕ) → Step rq (switched_to_dummy rq p)
    prio_changed : (p old : ℕ) → Step rq (prio_changed_dummy rq p old)

  pub data Reach (rq : Rq) : Rq → Type 0 where
    here : Reach rq rq
    next : {a b : Rq} → Reach rq a → Step a b → Reach rq b

  -- An enqueue that does not fault was at a priority that has a queue.
  pub enqueue-IsLevel :
      (rq rq' : Rq) (p : ℕ) → enqueue_task_dummy rq p ≡ some rq' → IsLevel (task rq p) 0
  unfolding enqueue_task_dummy
  enqueue-IsLevel rq rq' p h = ground arith

  requeue-IsLevel :
      (rq rq' : Rq) (p : ℕ) → requeue_task_dummy rq p ≡ some rq' → IsLevel (task rq p) 0
  unfolding requeue_task_dummy enqueue_task_dummy dequeue_task_dummy
  requeue-IsLevel rq rq' p h = ground arith

  subst_some :
      {rq' : Rq} {o : Option Rq} {r : Rq} → o ≡ some r → o ≡ some rq' → IsQueued r → IsQueued rq'
  subst_some {rq'} {o} {r} e h v = let same : r ≡ rq' = cc in subst IsQueued same v

  tick_IsLevel :
      (rq rq' : Rq) (p : ℕ)
      → leb rq.sysctl_timeslice rq.dummy_timeslice ≡ true
      → tick_timeslice rq p ≡ some rq'
      → IsLevel (task rq p) 0
  unfolding tick_timeslice requeue_task_dummy enqueue_task_dummy dequeue_task_dummy
  tick_IsLevel rq rq' p e h = ground arith

  tick_some-IsQueued :
      (rq rq' : Rq) (p : ℕ) → IsQueued rq → tick_timeslice rq p ≡ some rq' → IsQueued rq'
  unfolding tick_timeslice
  tick_some-IsQueued rq rq' p v h = elim (Bool-cases (leb rq.sysctl_timeslice rq.dummy_timeslice)) [
    | inl e ↦
        let done = tick_timeslice-IsQueued rq p (tick_IsLevel rq rq' p e h) v in
        subst_some done.1 h done.2
    | inr e ↦ subst_some {r = record rq { dummy_timeslice = add32 rq.dummy_timeslice 1 }} (rw e) h v
  ]

  set_task-IsQueued :
      (rq : Rq) (p : ℕ) (t : Task)
      → t.prio ≡ (task rq p).prio
      → IsQueued rq
      → IsQueued (set_task rq p t)
  set_task-IsQueued rq p t e v q =
      IsPlaced-of_kept rq (set_task rq p t) q (λ r b. refl) (ground arith) (v q)

  pub check_preempt-IsQueued :
      (rq : Rq) (p : ℕ) → IsQueued rq → IsQueued (check_preempt_curr_dummy rq p)
  unfolding check_preempt_curr_dummy
  check_preempt-IsQueued rq p v = elim (Bool-cases (ltb (task rq rq.curr).prio (task rq p).prio)) [
    | inl e ↦ rw e (set_task-IsQueued rq p _ refl v)
    | inr e ↦ rw e v
  ]

  switched_to-IsQueued : (rq : Rq) (p : ℕ) → IsQueued rq → IsQueued (switched_to_dummy rq p)
  unfolding switched_to_dummy
  switched_to-IsQueued rq p v q =
      IsPlaced-of_kept rq (switched_to_dummy rq p) q (λ r b. ground arith) (ground arith) (v q)

  prio_changed-IsQueued :
      (rq : Rq) (p old : ℕ) → IsQueued rq → IsQueued (prio_changed_dummy rq p old)
  unfolding prio_changed_dummy
  prio_changed-IsQueued rq p old v q =
      IsPlaced-of_kept rq (prio_changed_dummy rq p old) q (λ r b. ground arith) (ground arith) (v q)

  sets_prio-IsQueued :
      (rq : Rq) (p n : ℕ)
      → IsAbsent rq p
      → IsQueued rq
      → IsQueued (set_task rq p (record (task rq p) { prio = n }))
  sets_prio-IsQueued rq p n a v q = elim (Bool-cases (p == q)) [
    | inl e ↦ inl (λ r b. rw (← (==_iff p q).0 e) (a r b))
    | inr e ↦
        IsPlaced-of_kept rq (set_task rq p (record (task rq p) { prio = n })) q (λ r b. refl)
          (ground arith) (v q)
  ]

  -- Each call keeps the invariant of the run queue.
  pub Step-IsQueued : {rq rq' : Rq} → Step rq rq' → IsQueued rq → IsQueued rq'
  unfolding yield_task_dummy task_tick_dummy
  Step-IsQueued {rq} (enqueues p a e) v =
      let l = enqueue-IsLevel rq _ p e in
      subst_some (enqueue_lem rq p l) e (enqueued-IsQueued rq p l a v)
  Step-IsQueued {rq} (dequeues p) v = rw (dequeue_lem rq p) (dequeued-IsQueued rq p v)
  Step-IsQueued {rq} (yields e) v =
      let l = requeue-IsLevel rq _ rq.curr e in
      subst_some (requeue_lem rq rq.curr l) e (requeued-IsQueued rq rq.curr l v)
  Step-IsQueued {rq} (ticks e) v =
      tick_some-IsQueued (age_queues 4 1 rq) _ rq.curr
        (age_queues-IsQueued 4 1 rq (omega arith) (omega arith) v) e
  Step-IsQueued {rq} picks v = pick_next_task-IsQueued rq v
  Step-IsQueued (switches p) v = v
  Step-IsQueued {rq} (sets_prio p n a) v = sets_prio-IsQueued rq p n a v
  Step-IsQueued {rq} (preempts p) v = check_preempt-IsQueued rq p v
  Step-IsQueued {rq} (switched_to p) v = switched_to-IsQueued rq p v
  Step-IsQueued {rq} (prio_changed p old) v = prio_changed-IsQueued rq p old v

  Reach-IsQueued : {rq rq' : Rq} → Reach rq rq' → IsQueued rq → IsQueued rq'
  Reach-IsQueued here v = v
  Reach-IsQueued (next h s) v = Step-IsQueued s (Reach-IsQueued h v)

  pub init_dummy_rq-IsAbsent : (rq : Rq) (p : ℕ) → IsAbsent (init_dummy_rq rq) p
  unfolding init_dummy_rq
  init_dummy_rq-IsAbsent rq p r b = simp entries-init (ground arith)

  -- From a run queue that `init_dummy_rq` has set up, no history of calls brings a task on two
  -- queues, or twice on one, or below the queue of its priority.
  pub Reach-init-IsQueued : (rq : Rq) {rq' : Rq} → Reach (init_dummy_rq rq) rq' → IsQueued rq'
  Reach-init-IsQueued rq h = Reach-IsQueued h (λ p. inl (init_dummy_rq-IsAbsent rq p))
