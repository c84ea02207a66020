-- ===== src/Sched/Wakeup/Tests.antt =====
-- The theorems on waking tasks up and starting them at a concrete processor.
use Prim.Native.Nat.{bit_and}
use epfl_ba6_os.Prelude.{◌≡◌, refl, some, true, false, not, ◌==◌}
use epfl_ba6_os.Sched.ListHead.Arrays.{arrays}
use epfl_ba6_os.Sched.Prio.{
  rt_prio, dummy_prio, sched_fifo, set_load_weight, task_has_rt_policy, __normal_prio, nice_to_prio,
  prio_to_nice,
}
use epfl_ba6_os.Sched.Machine.{
  write_params, set_state, set_on_rq, task_contributes_to_load, task_running_state,
}
use epfl_ba6_os.Sched.Core.{
  Sys, activate_task, check_preempt_curr, enqueue_task, preempt_from, skip_update,
}
use epfl_ba6_os.Sched.Core.Quiet.{quiet, desk, quiet_class-Preserves}
use epfl_ba6_os.Sched.Wakeup.{
  ttwu_activate, ttwu_do_wakeup, ttwu_do_activate, ttwu_remote, queue_unless, try_to_wake_up,
  task_normal, sched_fork, start_child, reset_on_fork, reset_params, choose_class,
}
use epfl_ba6_os.Sched.Wakeup.Fork.{IsForked, HasOwnClass, sched_fork-child}
use epfl_ba6_os.Sched.Wakeup.Woken.{IsWoken, try_to_wake_up-wakes}

-- Task 8 sleeps, and task 7 of the same class runs.
abbrev asleep : Sys
asleep = set_on_rq (set_state (record desk { rq = record desk.rq { curr = 7 } }) 8 1) 8 false

abbrev awake : Sys
awake = set_state (set_on_rq asleep 8 true) 8 task_running_state

awake_lem : try_to_wake_up asleep 8 task_normal 0 ≡ some (true, awake)
unfolding try_to_wake_up ttwu_remote queue_unless ttwu_do_activate ttwu_activate ttwu_do_wakeup
    activate_task check_preempt_curr enqueue_task task_contributes_to_load preempt_from skip_update
awake_lem = refl

try_to_wake_up-wakes_example :
    (true ≡ not (bit_and 1 3 == 0))
    × (true ≡ false → awake ≡ asleep)
    × (true ≡ true → IsWoken asleep 8 awake)
try_to_wake_up-wakes_example =
    try_to_wake_up-wakes quiet_class-Preserves asleep awake 8 task_normal 0 true awake_lem

-- Task 9 is a copy of a task of SCHED_FIFO with the flag of the reset.
abbrev copied : Sys
copied =
    write_params desk 9 (record (desk.params 9) { policy = sched_fifo; sched_reset_on_fork = true })

abbrev forked : Sys
forked = choose_class (reset_on_fork (start_child copied 9) 9) 9

forked_lem : sched_fork copied 9 ≡ some forked
unfolding sched_fork start_child reset_on_fork reset_params choose_class rt_prio dummy_prio
    set_load_weight task_has_rt_policy __normal_prio nice_to_prio prio_to_nice
forked_lem = refl

sched_fork-child_example : IsForked copied 9 forked × HasOwnClass forked 9
sched_fork-child_example = sched_fork-child quiet_class-Preserves copied forked 9 forked_lem
