-- ===== src/Sched/Core/Activate.antt =====
-- What `activate_task` and `check_preempt_curr` of core.c leave alone.
use epfl_ba6_os.Prelude.{
  ℕ, refl, List, [], ◌∷◌, some, Bool, true, false, ◌&&◌, sub64, if◌then◌else◌, arith,
}
use epfl_ba6_os.Sched.ListHead.{ListHead}
use epfl_ba6_os.Sched.Prio.{SchedClass}
use epfl_ba6_os.Sched.Dummy.{task, resched_task}
use epfl_ba6_os.Sched.Machine.{
  Kernel, resched, each_class, task_contributes_to_load, on_rq, class_eq,
}
use epfl_ba6_os.Sched.Core.{
  Sys, preempt_from, skip_update, activate_task, check_preempt_curr, class_of_task,
}
use epfl_ba6_os.Sched.Core.Keeps.{
  Same, Same-refl, Same-then, Post-bind, KeepsSame, ClassesPreserve, ops-Preserves, if-KeepsSame,
  enqueue_task-Same,
}

module _ ⦃K : ListHead⦄ ⦃E : Kernel⦄ where
  pub if-Same : {s a b : Sys} (c : Bool) → Same s a → Same s b → Same s (if c then a else b)
  if-Same true h k = h
  if-Same false h k = k

  pub resched-Same : (s : Sys) (p : ℕ) → Same s (resched s p)
  unfolding resched resched_task
  resched-Same s p = record {
    params = λ q. refl;
    prio = λ q. ground arith;
    on_rq = λ q. ground arith;
    curr = refl;
    idle = refl;
    stop = refl;
  }

  pub preempt_from-Same : (cs : List SchedClass) (s : Sys) (p : ℕ) → Same s (preempt_from cs s p)
  unfolding preempt_from
  preempt_from-Same [] s p = Same-refl s
  preempt_from-Same (c ∷ cs) s p =
      if-Same _ (Same-refl s) (if-Same _ (resched-Same s s.rq.curr) (preempt_from-Same cs s p))

  -- The fields that no class reads.
  pub Same-counters :
      (s : Sys) (n : ℕ) (b : Bool)
      → Same s (record s { nr_uninterruptible = n; skip_clock_update = b })
  Same-counters s n b = record {
    params = λ q. refl;
    prio = λ q. refl;
    on_rq = λ q. refl;
    curr = refl;
    idle = refl;
    stop = refl;
  }

  pub skip_update-Same : (s : Sys) → Same s (skip_update s)
  unfolding skip_update
  skip_update-Same s =
      if-Same (on_rq s s.rq.curr && (task s.rq s.rq.curr).need_resched)
        (Same-counters s s.nr_uninterruptible true) (Same-refl s)

  module _ (keep : ClassesPreserve) where
    pub check_preempt_curr-Same :
        (s : Sys) (p flags : ℕ) → KeepsSame s (check_preempt_curr s p flags)
    unfolding check_preempt_curr
    check_preempt_curr-Same s p flags =
        Post-bind (Same s) (Same s) _ _
          (if-KeepsSame s (class_eq (class_of_task s p) (class_of_task s s.rq.curr)) _ _
            ((ops-Preserves keep (class_of_task s s.rq.curr)).preempts s p flags)
            (preempt_from-Same each_class s p))
          (λ t h. Same-then (some (skip_update t)) h (skip_update-Same t))

    pub activate_task-Same : (s : Sys) (p flags : ℕ) → KeepsSame s (activate_task s p flags)
    unfolding activate_task
    activate_task-Same s p flags =
        let c = task_contributes_to_load (s.params p) in
        let t = record s { nr_uninterruptible = sub64 s.nr_uninterruptible 1 } in
        Same-then _
          (if-Same c (Same-counters s (sub64 s.nr_uninterruptible 1) s.skip_clock_update)
            (Same-refl s))
          (enqueue_task-Same keep (if c then t else s) p flags)
