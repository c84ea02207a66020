-- ===== src/Sched/Dummy/Preempt.antt =====
-- Who is marked for rescheduling by dummy.c when a task wakes up or changes its priority.
use epfl_ba6_os.Prelude.{ℕ, ◌≡◌, Bool, ◌&&◌, ◌||◌, ◌==◌, ltb, arith}
use epfl_ba6_os.Sched.ListHead.{ListHead}
use epfl_ba6_os.Sched.Dummy.{
  Rq, task, check_preempt_curr_dummy, switched_to_dummy, prio_changed_dummy, resched_task,
}

module _ ⦃K : ListHead⦄ where
  abbrev pub marked : Rq → ℕ → Bool
  marked rq p = (task rq p).need_resched

  -- `check_preempt_curr_dummy` marks the task that it is given exactly if the number of its
  -- priority is above that of the running task, and marks no other. So it never marks the running
  -- task, whatever task is given.
  pub check_preempt-marks :
      (rq : Rq) (p q : ℕ)
      → (marked (check_preempt_curr_dummy rq p) q
          ≡ (marked rq q || (p == q && ltb (task rq rq.curr).prio (task rq p).prio)))
        × (marked (check_preempt_curr_dummy rq p) rq.curr ≡ marked rq rq.curr)
  unfolding check_preempt_curr_dummy resched_task
  check_preempt-marks rq p q = (ground arith, ground arith)

  -- When a task joins the class the running task is marked exactly if it is that task and is
  -- runnable.
  pub switched_to-marks :
      (rq : Rq) (p : ℕ)
      → marked (switched_to_dummy rq p) rq.curr
        ≡ (marked rq rq.curr || ((task rq p).on_rq && rq.curr == p))
  unfolding switched_to_dummy resched_task
  switched_to-marks rq p = ground arith

  -- When the priority of a task changes within the class the running task is marked exactly if it
  -- is that task, is runnable, and the number of its priority has grown.
  pub prio_changed-marks :
      (rq : Rq) (p old : ℕ)
      → marked (prio_changed_dummy rq p old) rq.curr
        ≡ (marked rq rq.curr || ((task rq p).on_rq && (rq.curr == p && ltb old (task rq p).prio)))
  unfolding prio_changed_dummy resched_task
  prio_changed-marks rq p old = ground arith
