-- ===== src/Sched/Nice.antt =====
-- The nice values of core.c: `set_user_nice`, `can_nice` and the system call `nice`.
pub mod Renice
pub mod Fault
pub mod Writes
mod Tests
use epfl_ba6_os.Prelude.{
  ℕ, suc, ◌+◌, ◌-◌, ◌^◌, Bool, not, ◌&&◌, ◌||◌, Option, none, some, ◌==◌, ltb, leb, if◌then◌else◌,
  ◌>>=◌,
}
use epfl_ba6_os.Prelude.Int.{ℤ, pos, negsuc, pos_part, neg_part, sub_ℕ, ◌+ℤ◌, ltb_ℤ, eq_ℤ}
use epfl_ba6_os.Sched.ListHead.{ListHead}
use epfl_ba6_os.Sched.Prio.{
  dummy_sched_class, TaskParams, max_rt_prio, dummy_prio, nice_to_prio, task_nice,
  task_has_rt_policy, set_load_weight, effective_prio,
}
use epfl_ba6_os.Sched.Machine.{
  Cpu, Kernel, prio, on_rq, write_params, set_prio, set_class, resched, task_current, when,
}
use epfl_ba6_os.Sched.Core.{Sys, enqueue_task, dequeue_task}

-- The error numbers of the system calls.
pub data Errno : Type 0 where
  eperm esrch einval efault : Errno

-- What the calls ask of the rest of the kernel about a task and about the caller; `none` of a hook
-- is its result 0.
pub record Security : Type 0 where
  pub capable_sys_nice : Bool
  pub rlimit_nice : ℕ → ℕ
  pub rlimit_rtprio : ℕ → ℕ
  pub euid : ℕ → ℕ
  pub uid : ℕ → ℕ
  pub security_task_setnice : ℕ → ℤ → Option Errno
  pub security_task_setscheduler : ℕ → Option Errno
  pub security_task_getscheduler : ℕ → Option Errno
  pub find_task_by_vpid : ℕ → Option ℕ

-- An `int` as an `unsigned long`.
abbrev pub to_unsigned_long : ℤ → ℕ
to_unsigned_long (pos n) = n
to_unsigned_long (negsuc n) = 2 ^ 64 - suc n

unfoldable pub can_nice : Security → ℕ → ℤ → Bool
can_nice sec p nice =
    let nice_rlim = sub_ℕ (20 + neg_part nice) (pos_part nice) in
    leb (to_unsigned_long nice_rlim) (sec.rlimit_nice p) || sec.capable_sys_nice

unfoldable pub task_prio : ℕ → ℤ
task_prio prio = sub_ℕ prio max_rt_prio

-- The lowest and the highest nice value.
abbrev pub min_nice : ℤ
min_nice = negsuc 19

abbrev pub max_nice : ℤ
max_nice = pos 19

-- The bounds that `nice` puts on its increment and its result.
clamp_nice : ℤ → ℤ
clamp_nice n = if ltb_ℤ n min_nice then min_nice else if ltb_ℤ max_nice n then max_nice else n

clamp_increment : ℤ → ℤ
clamp_increment n =
    if ltb_ℤ n (negsuc 39) then negsuc 39 else if ltb_ℤ (pos 40) n then pos 40 else n

module _ ⦃K : ListHead⦄ ⦃E : Kernel⦄ where
  -- The new static priority, with its weight.
  pub set_static_prio : Sys → ℕ → ℤ → Sys
  set_static_prio s p nice =
      write_params s p (set_load_weight (record (s.params p) { static_prio = nice_to_prio nice }))

  -- `p->prio = effective_prio(p)`, and the choice of the class.
  pub update_prio : Sys → ℕ → Sys
  update_prio s p =
      let (n, t) = effective_prio (prio s p) (s.params p) in
      let s' = set_prio (write_params s p t) p n in
      if dummy_prio n then set_class s' p dummy_sched_class else s'

  -- What follows the change: the task goes back on the run queue.
  unfoldable pub requeue_reniced : ℕ → Sys → ℕ → Option Sys
  requeue_reniced old_prio s p = do
    s' ← enqueue_task s p 0
    some (
        if ltb (prio s p) old_prio || ltb old_prio (prio s p) && task_current s' p
        then resched s' s'.rq.curr
        else s')

  unfoldable pub set_user_nice : Sys → ℕ → ℤ → Option Sys
  unfolding set_static_prio update_prio requeue_reniced
  set_user_nice s p nice =
      if eq_ℤ (task_nice (s.params p)) nice || ltb_ℤ nice min_nice || ltb_ℤ max_nice nice
      then some s
      else if task_has_rt_policy (s.params p)
      then some (write_params s p (record (s.params p) { static_prio = nice_to_prio nice }))
      else (do
        s1 ← when (on_rq s p) (λ t. dequeue_task t p 0) s
        let s2 = update_prio (set_static_prio s1 p nice) p
        when (on_rq s p) (λ t. requeue_reniced (prio s1 p) t p) s2)

  -- `nice`, by the running task: the result 0 is `none`.
  unfoldable pub sys_nice : Security → Sys → ℤ → Option (Option Errno × Sys)
  unfolding clamp_nice clamp_increment
  sys_nice sec s increment =
      let current = s.rq.curr in
      let inc = clamp_increment increment in
      let nice = clamp_nice (task_nice (s.params current) +ℤ inc) in
      if ltb_ℤ inc (pos 0) && not (can_nice sec current nice)
      then some (some eperm, s)
      else elim (sec.security_task_setnice current nice) [
        | some e ↦ some (some e, s)
        | none ↦ set_user_nice s current nice >>= λ s'. some (none, s')
      ]
