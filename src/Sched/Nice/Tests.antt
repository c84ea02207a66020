-- ===== src/Sched/Nice/Tests.antt =====
-- The theorems on `set_user_nice` of core.c at a concrete processor.
use epfl_ba6_os.Prelude.{◌≡◌, refl, none, some, arith}
use epfl_ba6_os.Prelude.Int.{pos}
use epfl_ba6_os.Sched.ListHead.Arrays.{arrays}
use epfl_ba6_os.Sched.Prio.{
  nice_to_prio, task_nice, task_has_rt_policy, prio_to_nice, rt_prio, effective_prio,
  compute_normal_prio, __normal_prio, dummy_prio, set_load_weight,
}
use epfl_ba6_os.Sched.Core.{Sys, enqueue_task, dequeue_task}
use epfl_ba6_os.Sched.Core.Quiet.{quiet, desk, quiet_class-Preserves}
use epfl_ba6_os.Sched.Nice.{set_user_nice, set_static_prio, update_prio, requeue_reniced}
use epfl_ba6_os.Sched.Nice.Renice.{IsReniced, set_user_nice-class}
use epfl_ba6_os.Sched.Nice.Fault.{set_user_nice_faults}

-- Task 3 of the dummy class gets the nice value 0.
set_user_nice_faults_example : set_user_nice desk 3 (pos 0) ≡ none
unfolding rt_prio task_has_rt_policy task_nice prio_to_nice nice_to_prio
set_user_nice_faults_example =
    set_user_nice_faults desk 3 (pos 0) refl refl refl refl refl (omega arith)

-- Task 7 of the fair class gets the nice value 3.
abbrev reniced : Sys
reniced = update_prio (set_static_prio desk 7 (pos 3)) 7

reniced_lem : set_user_nice desk 7 (pos 3) ≡ some reniced
unfolding set_user_nice enqueue_task dequeue_task update_prio set_static_prio requeue_reniced
    effective_prio compute_normal_prio __normal_prio dummy_prio set_load_weight rt_prio
    task_has_rt_policy task_nice prio_to_nice nice_to_prio
reniced_lem = refl

set_user_nice-class_example : IsReniced desk 7 123 reniced
unfolding task_has_rt_policy task_nice prio_to_nice nice_to_prio
set_user_nice-class_example =
    set_user_nice-class quiet_class-Preserves desk reniced 7 (pos 3) refl refl reniced_lem
