-- ===== src/Sched/Dummy/Enqueue.antt =====
-- Putting a task on its queue, taking it off, and sending it to the end: `enqueue_task_dummy`,
-- `dequeue_task_dummy`, `requeue_task_dummy` and `yield_task_dummy` of dummy.c.
use epfl_ba6_os.Prelude.{
  ℕ, ◌-◌, ◌<◌, ◌≡◌, refl, ◌∙◌, ◌⊎◌, inl, inr, [], ◌∷◌, ◌++◌, none, some, true, ◌==◌, if◌then◌else◌,
  remove, add32, sub32, Bool-cases, arith,
}
use epfl_ba6_os.Sched.ListHead.{ListHead, dummy_queue_size}
use epfl_ba6_os.Sched.Dummy.{
  Task, Rq, task, set_task, dummy_priority_min, dummy_priority_max, enqueue_task_dummy,
  dequeue_task_dummy, requeue_task_dummy, yield_task_dummy,
}
use epfl_ba6_os.Sched.Dummy.Place.{
  on_queue, IsAbsent, IsLevel, IsQueued, count-add, count-del, IsPlaced-of_kept,
}

-- The index of the queue of a priority.
abbrev pub own_queue : Task → ℕ
own_queue t = t.prio - dummy_priority_min

module _ ⦃K : ListHead⦄ where
  open K use {entries, list_add_tail, list_del_init, entries-add, entries-del}

  -- The state after `enqueue_task_dummy`, where the index is within bounds.
  abbrev pub enqueued : Rq → ℕ → Rq
  enqueued rq p = record (set_task rq p (record (task rq p) { dummy_age_tick = 0 })) {
    queues = list_add_tail rq.queues p (own_queue (task rq p));
    nr_running = add32 rq.nr_running 1;
  }

  abbrev pub dequeued : Rq → ℕ → Rq
  dequeued rq p = record rq {
    queues = list_del_init rq.queues p;
    nr_running = sub32 rq.nr_running 1;
  }

  abbrev pub requeued : Rq → ℕ → Rq
  requeued rq p =
      let queued = enqueued (dequeued rq p) p in
      set_task queued p (record (task queued p) { need_resched = true })

  pub enqueue_lem :
      (rq : Rq) (p : ℕ) → IsLevel (task rq p) 0 → enqueue_task_dummy rq p ≡ some (enqueued rq p)
  unfolding enqueue_task_dummy
  enqueue_lem rq p l = ground arith

  -- A priority outside of 135 to 139 has no queue: the index is out of bounds.
  pub enqueue_out_of_bounds :
      (rq : Rq) (p : ℕ)
      → (task rq p).prio < dummy_priority_min ⊎ dummy_priority_max < (task rq p).prio
      → enqueue_task_dummy rq p ≡ none
  unfolding enqueue_task_dummy
  enqueue_out_of_bounds rq p l = ground arith

  pub dequeue_lem : (rq : Rq) (p : ℕ) → dequeue_task_dummy rq p ≡ dequeued rq p
  unfolding dequeue_task_dummy
  dequeue_lem rq p = refl

  pub requeue_lem :
      (rq : Rq) (p : ℕ) → IsLevel (task rq p) 0 → requeue_task_dummy rq p ≡ some (requeued rq p)
  unfolding requeue_task_dummy
  requeue_lem rq p l = rw (dequeue_lem rq p, enqueue_lem (dequeued rq p) p l)

  pub yield_lem :
      (rq : Rq) → IsLevel (task rq rq.curr) 0 → yield_task_dummy rq ≡ some (requeued rq rq.curr)
  unfolding yield_task_dummy
  yield_lem rq l = requeue_lem rq rq.curr l

  -- Off its queue, a task is on none.
  pub dequeued-IsAbsent : (rq : Rq) (p : ℕ) → IsAbsent (dequeued rq p) p
  dequeued-IsAbsent rq p r b = rw (count-del rq.queues p p r) (ground arith)

  pub on_queue-enqueued :
      (rq : Rq) (p q r : ℕ)
      → IsAbsent rq p
      → r < dummy_queue_size
      → on_queue (enqueued rq p) q r
        ≡ (if p == q then (if own_queue (task rq p) == r then 1 else 0) else on_queue rq q r)
  on_queue-enqueued rq p q r a b = count-add rq.queues p (own_queue (task rq p)) q r a b

  -- Enqueueing a task that is on no queue keeps the invariant.
  pub enqueued-IsQueued :
      (rq : Rq) (p : ℕ)
      → IsLevel (task rq p) 0
      → IsAbsent rq p
      → IsQueued rq
      → IsQueued (enqueued rq p)
  enqueued-IsQueued rq p l a v q = elim (Bool-cases (p == q)) [
    | inl e ↦ inr (
      own_queue (task rq p),
      omega arith,
      (λ r b. on_queue-enqueued rq p q r a b ∙ rw e),
      ground arith,
    )
    | inr e ↦
        IsPlaced-of_kept rq (enqueued rq p) q (λ r b. on_queue-enqueued rq p q r a b ∙ rw e) (rw e)
          (v q)
  ]

  -- So does taking a task off.
  pub dequeued-IsQueued : (rq : Rq) (p : ℕ) → IsQueued rq → IsQueued (dequeued rq p)
  dequeued-IsQueued rq p v q = elim (Bool-cases (p == q)) [
    | inl e ↦ inl (λ r b. count-del rq.queues p q r ∙ rw e)
    | inr e ↦
        IsPlaced-of_kept rq (dequeued rq p) q (λ r b. count-del rq.queues p q r ∙ rw e) refl (v q)
  ]

  pub requeued-IsQueued :
      (rq : Rq) (p : ℕ) → IsLevel (task rq p) 0 → IsQueued rq → IsQueued (requeued rq p)
  requeued-IsQueued rq p l v q =
      IsPlaced-of_kept (enqueued (dequeued rq p) p) (requeued rq p) q (λ r b. refl) (ground arith)
        (enqueued-IsQueued (dequeued rq p) p l (dequeued-IsAbsent rq p) (dequeued-IsQueued rq p v)
          q)

  -- Sending a task to the end takes it off the queue where it stands and puts it last on the queue
  -- of its priority; the order of the others stays.
  pub entries-requeued :
      (rq : Rq) (p r : ℕ)
      → entries (requeued rq p).queues r ≡ (
          if own_queue (task rq p) == r
          then remove p (entries rq.queues r) ++ p ∷ []
          else remove p (entries rq.queues r))
  entries-requeued rq p r = rw (
    entries-add (list_del_init rq.queues p) p (own_queue (task rq p)) r (dequeued-IsAbsent rq p),
    entries-del rq.queues p r,
  )

  pub on_queue-requeued :
      (rq : Rq) (p q r : ℕ)
      → r < dummy_queue_size
      → on_queue (requeued rq p) q r
        ≡ (if p == q then (if own_queue (task rq p) == r then 1 else 0) else on_queue rq q r)
  on_queue-requeued rq p q r b =
      on_queue-enqueued (dequeued rq p) p q r (dequeued-IsAbsent rq p) b
      ∙ ground (arith, count-del rq.queues p q r)
