-- ===== src/Sched/Core.antt =====
-- The functions of kernel/sched/core.c that call a class through `p->sched_class`. The clock and the
-- statistics are left out.
pub mod Keeps
pub mod Preempt
pub mod Next
pub mod Activate
pub mod Quiet
mod Tests
use epfl_ba6_os.Prelude.{
  ℕ, ◌+◌, ◌/◌, ◌%◌, List, [], ◌∷◌, Bool, true, false, not, ◌&&◌, Option, none, some, ◌==◌,
  if◌then◌else◌, ◌>>=◌, add64, sub64,
}
use epfl_ba6_os.Sched.ListHead.{ListHead}
use epfl_ba6_os.Sched.Prio.{
  SchedClass, stop_sched_class, rt_sched_class, fair_sched_class, dummy_sched_class,
  idle_sched_class, TaskParams,
}
use epfl_ba6_os.Sched.Dummy.{
  Task, Rq, task, set_task, resched_task, enqueue_task_dummy, dequeue_task_dummy, yield_task_dummy,
  check_preempt_curr_dummy, pick_next_task_dummy, put_prev_task_dummy, set_curr_task_dummy,
  task_tick_dummy, switched_from_dummy, switched_to_dummy, prio_changed_dummy,
  get_rr_interval_dummy,
}
use epfl_ba6_os.Sched.Machine.{
  ClassOps, Cpu, Kernel, call_if_set, class_eq, class_index, dequeue_sleep, dummy_class, each_class,
  enqueue_head, enqueue_wakeup, enqueue_waking, on_rq, prio, resched, set_class, set_on_rq,
  set_prio, set_state, task_contributes_to_load, task_current, task_running_state, when,
  with_picked, with_rq, write_params, write_task,
}

module _ ⦃K : ListHead⦄ ⦃E : Kernel⦄ where
  open E use {Others, other_class}

  abbrev pub Sys : Type 0
  Sys = Cpu Others

  -- What a class's address points to.
  abbrev pub ops : SchedClass → ClassOps Sys
  ops stop_sched_class = other_class stop_sched_class
  ops rt_sched_class = other_class rt_sched_class
  ops fair_sched_class = other_class fair_sched_class
  ops dummy_sched_class = dummy_class
  ops idle_sched_class = other_class idle_sched_class

  -- `p->sched_class`
  abbrev pub class_of_task : Sys → ℕ → SchedClass
  class_of_task s p = (s.params p).sched_class

  abbrev pub task_ops : Sys → ℕ → ClassOps Sys
  task_ops s p = ops (class_of_task s p)

  unfoldable pub enqueue_task : Sys → ℕ → ℕ → Option Sys
  enqueue_task s p flags = (task_ops s p).enqueue_task s p flags

  unfoldable pub dequeue_task : Sys → ℕ → ℕ → Option Sys
  dequeue_task s p flags = (task_ops s p).dequeue_task s p flags

  unfoldable pub activate_task : Sys → ℕ → ℕ → Option Sys
  unfolding task_contributes_to_load enqueue_task
  activate_task s p flags =
      let s' =
        if task_contributes_to_load (s.params p)
        then record s { nr_uninterruptible = sub64 s.nr_uninterruptible 1 }
        else s in
      enqueue_task s' p flags

  unfoldable pub deactivate_task : Sys → ℕ → ℕ → Option Sys
  unfolding task_contributes_to_load dequeue_task
  deactivate_task s p flags =
      let s' =
        if task_contributes_to_load (s.params p)
        then record s { nr_uninterruptible = add64 s.nr_uninterruptible 1 }
        else s in
      dequeue_task s' p flags

  unfoldable pub check_class_changed : Sys → ℕ → SchedClass → ℕ → Option Sys
  check_class_changed s p prev_class oldprio =
      if not (class_eq prev_class (class_of_task s p))
      then (do
        s' ← call_if_set (ops prev_class).switched_from s p
        (task_ops s' p).switched_to s' p)
      else if not (oldprio == prio s p)
      then (task_ops s p).prio_changed s p oldprio
      else some s

  -- The loop of `check_preempt_curr`, over the classes that are left.
  unfoldable pub preempt_from : List SchedClass → Sys → ℕ → Sys
  preempt_from [] s p = s
  preempt_from (c ∷ cs) s p =
      if class_eq c (class_of_task s s.rq.curr)
      then s
      else if class_eq c (class_of_task s p)
      then resched s s.rq.curr
      else preempt_from cs s p

  -- The end of it.
  unfoldable pub skip_update : Sys → Sys
  skip_update s =
      if on_rq s s.rq.curr && (task s.rq s.rq.curr).need_resched
      then record s { skip_clock_update = true }
      else s

  unfoldable pub check_preempt_curr : Sys → ℕ → ℕ → Option Sys
  unfolding preempt_from skip_update
  check_preempt_curr s p flags = do
    s' ←
        if class_eq (class_of_task s p) (class_of_task s s.rq.curr)
        then (task_ops s s.rq.curr).check_preempt_curr s p flags
        else some (preempt_from each_class s p)
    some (skip_update s')

  unfoldable pub put_prev_task : Sys → ℕ → Option Sys
  put_prev_task s prev = (task_ops s prev).put_prev_task s prev

  abbrev pub picked_or : Option ℕ → Sys → Option (ℕ × Sys) → Option (ℕ × Sys)
  picked_or none s rest = rest
  picked_or (some p) s rest = some (p, s)

  -- `pick_next_task`: the loop over the classes that are left. `none` is BUG().
  unfoldable pub pick_from_classes : List SchedClass → Sys → Option (ℕ × Sys)
  pick_from_classes [] s = none
  pick_from_classes (c ∷ cs) s = do
    (p, s') ← (ops c).pick_next_task s
    picked_or p s' (pick_from_classes cs s')

  unfoldable pub pick_next_task : Sys → Option (ℕ × Sys)
  unfolding pick_from_classes
  pick_next_task s = pick_from_classes each_class s

  unfoldable pub scheduler_tick : Sys → Option Sys
  scheduler_tick s = (task_ops s s.rq.curr).task_tick s s.rq.curr 0
