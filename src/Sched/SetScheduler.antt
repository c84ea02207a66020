-- ===== src/Sched/SetScheduler.antt =====
-- Changes of policy and priority in core.c: `__setscheduler`, `rt_mutex_setprio`, `normalize_task`,
-- `__sched_setscheduler`, and the system calls above it.
pub mod Classes
pub mod Granted
pub mod Errors
pub mod Ways
mod Tests
use epfl_ba6_os.Prelude.{
  ℕ, ◌-◌, ◌*◌, ◌/◌, ◌%◌, Bool, true, false, not, ◌&&◌, ◌||◌, Option, none, some, ◌==◌, ltb, leb,
  if◌then◌else◌, ◌>>=◌,
}
use epfl_ba6_os.Prelude.Int.{ℤ, pos, negsuc, pos_part, ltb_ℤ, eq_ℤ}
use epfl_ba6_os.Sched.ListHead.{ListHead}
use epfl_ba6_os.Sched.Prio.{
  SchedClass, rt_sched_class, fair_sched_class, dummy_sched_class, stop_sched_class, TaskParams,
  max_rt_prio, max_prio, rt_prio, dummy_prio, rt_policy, sched_normal, sched_fifo, sched_rr,
  sched_batch, sched_idle, sched_reset_on_fork_flag, task_nice, compute_normal_prio,
  set_load_weight,
}
use epfl_ba6_os.Sched.Machine.{
  Cpu, Kernel, prio, on_rq, write_params, set_prio, set_class, resched, task_current, when,
  enqueue_head,
}
use epfl_ba6_os.Sched.Core.{
  Sys, task_ops, class_of_task, enqueue_task, dequeue_task, put_prev_task, check_class_changed,
}
use epfl_ba6_os.Sched.Nice.{Errno, eperm, esrch, einval, efault, Security, can_nice}

-- A pointer to a `struct sched_param` in user space.
pub data UserParam : Type 0 where
  null bad_address : UserParam
  at : ℤ → UserParam

-- The class of a priority, as `__setscheduler` and `rt_mutex_setprio` choose it.
unfoldable pub class_of_prio : ℕ → SchedClass
unfolding rt_prio dummy_prio
class_of_prio n =
    if rt_prio n
    then rt_sched_class
    else if dummy_prio n
    then dummy_sched_class
    else fair_sched_class

-- `cred->euid`, and the two of the task.
unfoldable pub check_same_owner : Security → ℕ → ℕ → Bool
check_same_owner sec current p = sec.euid current == sec.euid p || sec.euid current == sec.uid p

-- The check of the policy's number.
unknown_policy : ℤ → ℕ → Bool
unknown_policy (negsuc n) policy = false
unknown_policy (pos n) policy = not (
    policy == sched_fifo
    || policy == sched_rr
    || policy == sched_normal
    || policy == sched_batch
    || policy == sched_idle)

-- The checks for the ranges of the priority.
unfoldable pub invalid_param : TaskParams → ℕ → ℤ → Bool
invalid_param t policy sched_priority =
    ltb_ℤ sched_priority (pos 0)
    || t.user && ltb_ℤ (pos (max_rt_prio - 1)) sched_priority
    || not t.user && ltb_ℤ (pos (max_rt_prio - 1)) sched_priority
    || (if rt_policy policy then eq_ℤ sched_priority (pos 0) else not (eq_ℤ sched_priority (pos 0)))

-- Whether a task is the one that `rq->stop` points to.
is_stop_task : Option ℕ → ℕ → Bool
is_stop_task none p = false
is_stop_task (some q) p = q == p

security_check : Bool → Option Errno → Option Errno
security_check user hook = if user then hook else none

module _ ⦃K : ListHead⦄ ⦃E : Kernel⦄ where
  open E use {rt_mutex_getprio, rt_mutex_adjust_pi}

  -- The policy and the real-time priority, and `normal_prio` by them.
  unfoldable pub set_policy : Sys → ℕ → ℕ → ℕ → Sys
  set_policy s p policy rt_priority =
      let t = record (s.params p) { policy = policy; rt_priority = rt_priority } in
      write_params s p (record t { normal_prio = compute_normal_prio t })

  unfoldable pub __setscheduler : Sys → ℕ → ℕ → ℕ → Sys
  unfolding set_policy class_of_prio
  __setscheduler s p policy rt_priority =
      let s1 = set_policy s p policy rt_priority in
      let s2 = set_prio s1 p (rt_mutex_getprio s1 p) in
      let s3 = set_class s2 p (class_of_prio (prio s2 p)) in
      write_params s3 p (set_load_weight (s3.params p))

  -- `rt_mutex_setprio` after BUG_ON: `none` is a fault.
  unfoldable pub rt_mutex_setprio : Sys → ℕ → ℕ → Option Sys
  unfolding class_of_prio
  rt_mutex_setprio s p n = if ltb max_prio n then none else if p == s.idle then some s else (do
    s1 ← when (on_rq s p) (λ t. dequeue_task t p 0) s
    s2 ← when (task_current s p) (λ t. put_prev_task t p) s1
    let s3 = set_prio (set_class s2 p (class_of_prio n)) p n
    s4 ← when (task_current s p) (λ t. (task_ops t p).set_curr_task t) s3
    s5 ← when (on_rq s p) (λ t. enqueue_task t p (if ltb (prio s p) n then enqueue_head else 0)) s4
    check_class_changed s5 p (class_of_task s p) (prio s p))

  unfoldable pub normalize_task : Sys → ℕ → Option Sys
  normalize_task s p = do
    s1 ← when (on_rq s p) (λ t. dequeue_task t p 0) s
    let s2 = __setscheduler s1 p sched_normal 0
    s3 ← when (on_rq s p) (λ t. enqueue_task t p 0 >>= λ u. some (resched u u.rq.curr)) s2
    check_class_changed s3 p (class_of_task s p) (prio s p)

  -- The policy that a call asks for, without the flag; a negative one keeps the task's.
  pub asked_policy : Sys → ℕ → ℤ → ℕ
  asked_policy s p (pos n) =
      if n / sched_reset_on_fork_flag % 2 == 1 then n - sched_reset_on_fork_flag else n
  asked_policy s p (negsuc n) = (s.params p).policy

  pub asked_reset : Sys → ℕ → ℤ → Bool
  asked_reset s p (pos n) = n / sched_reset_on_fork_flag % 2 == 1
  asked_reset s p (negsuc n) = (s.params p).sched_reset_on_fork

  -- The checks of a caller without CAP_SYS_NICE.
  not_permitted : Security → Sys → ℕ → ℕ → ℕ → Bool → Bool
  not_permitted sec s p policy sched_priority reset_on_fork =
      let t = s.params p in
      rt_policy policy
        && (not (policy == t.policy) && sec.rlimit_rtprio p == 0
            || ltb t.rt_priority sched_priority && ltb (sec.rlimit_rtprio p) sched_priority)
      || t.policy == sched_idle && not (policy == sched_idle) && not (can_nice sec p (task_nice t))
      || not (check_same_owner sec s.rq.curr p)
      || t.sched_reset_on_fork && not reset_on_fork

  -- What follows the checks: the change itself.
  unfoldable pub change_scheduler : Sys → ℕ → ℕ → ℕ → Bool → Option Sys
  change_scheduler s p policy sched_priority reset_on_fork = do
    s1 ← when (on_rq s p) (λ t. dequeue_task t p 0) s
    s2 ← when (task_current s p) (λ t. put_prev_task t p) s1
    let s3 = write_params s2 p (record (s2.params p) { sched_reset_on_fork = reset_on_fork })
    let s4 = __setscheduler s3 p policy sched_priority
    s5 ← when (task_current s p) (λ t. (task_ops t p).set_curr_task t) s4
    s6 ← when (on_rq s p) (λ t. enqueue_task t p 0) s5
    check_class_changed s6 p (class_of_task s3 p) (prio s3 p)

  -- From the checks under the lock on. Nothing changes between the checks and the lock here, so
  -- the check of `oldpolicy` passes.
  set_unless_same : Sys → ℕ → ℕ → ℕ → Bool → Option (Option Errno × Sys)
  set_unless_same s p policy sched_priority reset_on_fork =
      if is_stop_task s.stop p
      then some (some einval, s)
      else if policy == (s.params p).policy
          && (not (rt_policy policy) || sched_priority == (s.params p).rt_priority)
      then some (none, s)
      else (do
        s1 ← change_scheduler s p policy sched_priority reset_on_fork
        s2 ← rt_mutex_adjust_pi s1 p
        some (none, s2))

  unfoldable pub __sched_setscheduler :
      Security → Sys → ℕ → ℤ → ℤ → Bool → Option (Option Errno × Sys)
  unfolding asked_policy asked_reset unknown_policy invalid_param not_permitted change_scheduler
      is_stop_task security_check set_unless_same
  __sched_setscheduler sec s p policy sched_priority user =
      let policy' = asked_policy s p policy in
      let reset = asked_reset s p policy in
      if unknown_policy policy policy'
      then some (some einval, s)
      else if invalid_param (s.params p) policy' sched_priority
      then some (some einval, s)
      else if user
          && not sec.capable_sys_nice
          && not_permitted sec s p policy' (pos_part sched_priority) reset
      then some (some eperm, s)
      else elim (security_check user (sec.security_task_setscheduler p)) [
        | some e ↦ some (some e, s)
        | none ↦ set_unless_same s p policy' (pos_part sched_priority) reset
      ]

  -- `sched_setscheduler` and `sched_setscheduler_nocheck`
  unfoldable pub sched_setscheduler : Security → Sys → ℕ → ℤ → ℤ → Option (Option Errno × Sys)
  sched_setscheduler sec s p policy sched_priority =
      __sched_setscheduler sec s p policy sched_priority true

  unfoldable pub sched_setscheduler_nocheck :
      Security → Sys → ℕ → ℤ → ℤ → Option (Option Errno × Sys)
  sched_setscheduler_nocheck sec s p policy sched_priority =
      __sched_setscheduler sec s p policy sched_priority false

  -- `find_process_by_pid`
  unfoldable pub find_process_by_pid : Security → Sys → ℕ → Option ℕ
  find_process_by_pid sec s pid = if pid == 0 then some s.rq.curr else sec.find_task_by_vpid pid

  set_found : Security → Sys → Option ℕ → ℤ → ℤ → Option (Option Errno × Sys)
  set_found sec s none policy sched_priority = some (some esrch, s)
  set_found sec s (some p) policy sched_priority = sched_setscheduler sec s p policy sched_priority

  -- `do_sched_setscheduler`
  unfoldable pub do_sched_setscheduler :
      Security → Sys → ℤ → ℤ → UserParam → Option (Option Errno × Sys)
  unfolding set_found find_process_by_pid
  do_sched_setscheduler sec s pid policy null = some (some einval, s)
  do_sched_setscheduler sec s (negsuc n) policy param = some (some einval, s)
  do_sched_setscheduler sec s (pos pid) policy bad_address = some (some efault, s)
  do_sched_setscheduler sec s (pos pid) policy (at sched_priority) =
      set_found sec s (find_process_by_pid sec s pid) policy sched_priority

  unfoldable pub sys_sched_setscheduler :
      Security → Sys → ℤ → ℤ → UserParam → Option (Option Errno × Sys)
  sys_sched_setscheduler sec s pid policy param =
      if ltb_ℤ policy (pos 0)
      then some (some einval, s)
      else do_sched_setscheduler sec s pid policy param

  unfoldable pub sys_sched_setparam : Security → Sys → ℤ → UserParam → Option (Option Errno × Sys)
  sys_sched_setparam sec s pid param = do_sched_setscheduler sec s pid (negsuc 0) param

  set_stop : Sys → Option ℕ → Sys
  set_stop s stop = record s { stop = stop }

  reset_old_stop : Option ℕ → Sys → Sys
  reset_old_stop none s = s
  reset_old_stop (some old) s = set_class s old rt_sched_class

  -- `sched_set_stop_task`; the result of `sched_setscheduler_nocheck` is not looked at.
  unfoldable pub sched_set_stop_task : Security → Sys → Option ℕ → Option Sys
  unfolding set_stop reset_old_stop
  sched_set_stop_task sec s none = some (reset_old_stop s.stop (set_stop s none))
  sched_set_stop_task sec s (some p) = do
    (ret, s1) ← sched_setscheduler_nocheck sec s p (pos sched_fifo) (pos (max_rt_prio - 1))
    some (reset_old_stop s.stop (set_stop (set_class s1 p stop_sched_class) (some p)))
