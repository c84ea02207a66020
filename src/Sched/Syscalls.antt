-- ===== src/Sched/Syscalls.antt =====
-- The system calls of core.c that read: policies, priorities and time slices.
mod Ranges
use epfl_ba6_os.Prelude.{
  ℕ, ◌+◌, ◌-◌, ◌||◌, Bool, true, false, Option, none, some, ◌==◌, if◌then◌else◌,
}
use epfl_ba6_os.Prelude.Int.{ℤ, pos, negsuc, eq_ℤ}
use epfl_ba6_os.Sched.ListHead.{ListHead}
use epfl_ba6_os.Sched.Prio.{
  TaskParams, max_rt_prio, sched_normal, sched_fifo, sched_rr, sched_batch, sched_idle,
  sched_reset_on_fork_flag,
}
use epfl_ba6_os.Sched.Machine.{Kernel}
use epfl_ba6_os.Sched.Core.{Sys, task_ops}
use epfl_ba6_os.Sched.Nice.{Errno, esrch, einval, efault, Security}
use epfl_ba6_os.Sched.SetScheduler.{find_process_by_pid}

-- An error number, or a result.
pub data Result (A : Type 0) : Type 0 where
  err : Errno → Result A
  ok : A → Result A

-- A pointer into user space, and what `copy_to_user` writes there.
pub data UserBuffer : Type 0 where
  null_buffer bad_buffer good_buffer : UserBuffer

abbrev pub copy_to_user : UserBuffer → ℕ → Result ℕ
copy_to_user null_buffer v = err efault
copy_to_user bad_buffer v = err efault
copy_to_user good_buffer v = ok v

is_policy : ℤ → ℕ → Bool
is_policy policy n = eq_ℤ policy (pos n)

unfoldable pub sys_sched_get_priority_max : ℤ → Result ℕ
unfolding is_policy
sys_sched_get_priority_max policy =
    if is_policy policy sched_fifo || is_policy policy sched_rr
    then ok (max_rt_prio - 1)
    else if is_policy policy sched_normal
        || is_policy policy sched_batch
        || is_policy policy sched_idle
    then ok 0
    else err einval

unfoldable pub sys_sched_get_priority_min : ℤ → Result ℕ
unfolding is_policy
sys_sched_get_priority_min policy =
    if is_policy policy sched_fifo || is_policy policy sched_rr
    then ok 1
    else if is_policy policy sched_normal
        || is_policy policy sched_batch
        || is_policy policy sched_idle
    then ok 0
    else err einval

module _ ⦃K : ListHead⦄ ⦃E : Kernel⦄ where
  -- `security_task_getscheduler` of the task that was found, and then the rest of the call.
  with_permission : {A : Type 0} → Security → Option ℕ → (ℕ → Result A) → Result A
  with_permission sec none f = err esrch
  with_permission sec (some p) f = elim (sec.security_task_getscheduler p) [
    | some e ↦ err e
    | none ↦ f p
  ]

  unfoldable pub sys_sched_getscheduler : Security → Sys → ℤ → Result ℕ
  unfolding with_permission
  sys_sched_getscheduler sec s (negsuc n) = err einval
  sys_sched_getscheduler sec s (pos pid) = with_permission sec (find_process_by_pid sec s pid) (λ p.
      ok (
        (s.params p).policy
        + (if (s.params p).sched_reset_on_fork then sched_reset_on_fork_flag else 0)))

  unfoldable pub sys_sched_getparam : Security → Sys → ℤ → UserBuffer → Result ℕ
  unfolding with_permission
  sys_sched_getparam sec s pid null_buffer = err einval
  sys_sched_getparam sec s (negsuc n) buffer = err einval
  sys_sched_getparam sec s (pos pid) buffer =
      with_permission sec (find_process_by_pid sec s pid)
        (λ p. copy_to_user buffer (s.params p).rt_priority)

  -- The time slice in ticks.
  unfoldable pub sys_sched_rr_get_interval : Security → Sys → ℤ → UserBuffer → Result ℕ
  unfolding with_permission
  sys_sched_rr_get_interval sec s (negsuc n) buffer = err einval
  sys_sched_rr_get_interval sec s (pos pid) buffer =
      with_permission sec (find_process_by_pid sec s pid)
        (λ p. copy_to_user buffer ((task_ops s p).get_rr_interval s p))
