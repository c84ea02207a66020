-- ===== src/Sched/SetScheduler/Tests.antt =====
-- The theorems on changes of policy and priority at a concrete processor.
use epfl_ba6_os.Prelude.{ℕ, ◌≡◌, ◌≢◌, ◌≤◌, refl, ◌⊎◌, none, some, true, false, arith}
use epfl_ba6_os.Prelude.Int.{pos}
use epfl_ba6_os.Sched.ListHead.Arrays.{arrays}
use epfl_ba6_os.Sched.Prio.{
  rt_sched_class, sched_fifo, rt_policy, rt_prio, compute_normal_prio, task_has_rt_policy,
  set_load_weight,
}
use epfl_ba6_os.Sched.Machine.{prio, set_prio, set_class, write_params}
use epfl_ba6_os.Sched.Core.{
  Sys, class_of_task, enqueue_task, dequeue_task, put_prev_task, check_class_changed,
}
use epfl_ba6_os.Sched.Core.Quiet.{quiet, desk, quiet_class-Preserves}
use epfl_ba6_os.Sched.Nice.{Security, einval}
use epfl_ba6_os.Sched.SetScheduler.{
  class_of_prio, __setscheduler, set_policy, rt_mutex_setprio, __sched_setscheduler, asked_policy,
  asked_reset, unknown_policy, invalid_param, not_permitted, change_scheduler, is_stop_task,
  security_check, set_unless_same, check_same_owner,
}
use epfl_ba6_os.Sched.SetScheduler.Classes.{IsClassFor, IsClassed, rt_mutex_setprio-Moved}
use epfl_ba6_os.Sched.SetScheduler.Granted.{IsKept}
use epfl_ba6_os.Sched.Sound.{Boosts, done}
use epfl_ba6_os.Sched.SetScheduler.Errors.{
  plain, sched_setscheduler-error, sched_setscheduler-granted, sched_setscheduler-permitted,
}

-- Task 7 of the fair class inherits the priority 50.
abbrev boosted : Sys
boosted = set_prio (set_class desk 7 rt_sched_class) 7 50

boosted_lem : rt_mutex_setprio desk 7 50 ≡ some boosted
unfolding rt_mutex_setprio class_of_prio rt_prio enqueue_task dequeue_task put_prev_task
    check_class_changed
boosted_lem = refl

rt_mutex_setprio-Moved_example :
    (7 ≢ desk.idle
      → (prio boosted 7 ≡ 50)
        × IsClassFor (class_of_task boosted 7) 50
        × ((boosted.params 7).policy ≡ (desk.params 7).policy)
        × ((boosted.params 7).rt_priority ≡ (desk.params 7).rt_priority)
        × ((boosted.params 7).static_prio ≡ (desk.params 7).static_prio)
        × ((boosted.params 7).normal_prio ≡ (desk.params 7).normal_prio)
        × ((q : ℕ) → 7 ≢ q → (boosted.params q ≡ desk.params q) × (prio boosted q ≡ prio desk q)))
    × (7 ≡ desk.idle → boosted ≡ desk)
rt_mutex_setprio-Moved_example =
    rt_mutex_setprio-Moved quiet_class-Preserves desk boosted 7 50 boosted_lem

-- A user without CAP_SYS_NICE, who owns all tasks and may set priorities up to 60.
abbrev user : Security
user = record {
  capable_sys_nice = false;
  rlimit_nice = λ p. 0;
  rlimit_rtprio = λ p. 60;
  euid = λ p. 1000;
  uid = λ p. 1000;
  security_task_setnice = λ p n. none;
  security_task_setscheduler = λ p. none;
  security_task_getscheduler = λ p. none;
  find_task_by_vpid = λ n. some n;
}

quiet_adjusts : (s : Sys) (p : ℕ) → Boosts s s
quiet_adjusts s p = done

-- Policy 4 does not exist.
policy_4_lem : __sched_setscheduler user desk 7 (pos 4) (pos 0) true ≡ some (some einval, desk)
unfolding __sched_setscheduler asked_policy unknown_policy
policy_4_lem = refl

sched_setscheduler-error_example : desk ≡ desk
sched_setscheduler-error_example =
    sched_setscheduler-error user desk desk 7 (pos 4) (pos 0) true einval policy_4_lem

-- Task 7 becomes one of SCHED_FIFO with priority 50.
abbrev fifo : Sys
fifo =
    __setscheduler (write_params desk 7 (record (desk.params 7) { sched_reset_on_fork = false })) 7
      sched_fifo 50

fifo_lem : __sched_setscheduler user desk 7 (pos sched_fifo) (pos 50) true ≡ some (none, fifo)
unfolding __sched_setscheduler asked_policy asked_reset unknown_policy invalid_param not_permitted
    change_scheduler is_stop_task security_check set_unless_same check_same_owner class_of_prio
    enqueue_task dequeue_task put_prev_task check_class_changed __setscheduler set_policy rt_policy
    rt_prio compute_normal_prio task_has_rt_policy set_load_weight
fifo_lem = refl

sched_setscheduler-granted_example :
    ((fifo.params 7).policy ≡ 1)
    × (rt_policy 1 ≡ true → (fifo.params 7).rt_priority ≡ 50)
    × (IsClassed desk 7 → IsClassed fifo 7)
    × ((q : ℕ) → 7 ≢ q → IsKept desk q fifo)
sched_setscheduler-granted_example =
    sched_setscheduler-granted quiet_class-Preserves quiet_adjusts user desk fifo 7 sched_fifo
      (pos sched_fifo) (pos 50) true (plain (omega arith)) fifo_lem

sched_setscheduler-permitted_example :
    ((user.euid 1 ≡ user.euid 7) ⊎ (user.euid 1 ≡ user.uid 7)) × ((50 ≤ 0) ⊎ (50 ≤ 60))
unfolding rt_policy
sched_setscheduler-permitted_example =
    sched_setscheduler-permitted user desk fifo 7 sched_fifo (pos sched_fifo) (pos 50)
      (plain (omega arith)) refl refl fifo_lem
