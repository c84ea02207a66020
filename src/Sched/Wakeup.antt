-- ===== src/Sched/Wakeup.antt =====
-- Waking tasks up and starting new ones in core.c: `try_to_wake_up`, `try_to_wake_up_local`,
-- `sched_fork` and `wake_up_new_task`, on a single processor. The notice that a worker of a work
-- queue wakes up is left out.
pub mod Fork
pub mod Woken
mod Tests
use Prim.Native.Nat.{bit_and}
use epfl_ba6_os.Prelude.{
  ℕ, Bool, true, false, not, ◌&&◌, Option, none, some, ◌==◌, if◌then◌else◌, ◌>>=◌,
}
use epfl_ba6_os.Prelude.Int.{pos, ltb_ℤ}
use epfl_ba6_os.Sched.ListHead.{ListHead}
use epfl_ba6_os.Sched.Prio.{
  dummy_sched_class, fair_sched_class, TaskParams, rt_prio, dummy_prio, sched_normal, nice_to_prio,
  prio_to_nice, task_has_rt_policy, __normal_prio, set_load_weight,
}
use epfl_ba6_os.Sched.Machine.{
  Kernel, prio, on_rq, set_prio, set_on_rq, set_state, set_class, write_params, call_if_set,
  enqueue_wakeup, enqueue_waking, task_running_state,
}
use epfl_ba6_os.Sched.Core.{Sys, task_ops, activate_task, check_preempt_curr}

-- TASK_INTERRUPTIBLE | TASK_UNINTERRUPTIBLE
abbrev pub task_normal : ℕ
task_normal = 3

abbrev pub wf_fork : ℕ
wf_fork = 2

-- The fields of a child that asks to be reset.
unfoldable pub reset_static : TaskParams → TaskParams
reset_static t =
    if task_has_rt_policy t
    then record t { policy = sched_normal; static_prio = nice_to_prio (pos 0); rt_priority = 0 }
    else if ltb_ℤ (prio_to_nice t.static_prio) (pos 0)
    then record t { static_prio = nice_to_prio (pos 0) }
    else t

unfoldable pub reset_params : TaskParams → TaskParams
unfolding reset_static
reset_params t =
    let u = reset_static t in
    record (set_load_weight (record u { normal_prio = __normal_prio u })) {
      sched_reset_on_fork = false;
    }

module _ ⦃K : ListHead⦄ ⦃E : Kernel⦄ where
  unfoldable pub ttwu_activate : Sys → ℕ → ℕ → Option Sys
  ttwu_activate s p en_flags = activate_task s p en_flags >>= λ s'. some (set_on_rq s' p true)

  unfoldable pub ttwu_do_wakeup : Sys → ℕ → ℕ → Option Sys
  ttwu_do_wakeup s p wake_flags =
      check_preempt_curr s p wake_flags >>= λ s'. some (set_state s' p task_running_state)

  unfoldable pub ttwu_do_activate : Sys → ℕ → ℕ → Option Sys
  unfolding ttwu_activate ttwu_do_wakeup
  ttwu_do_activate s p wake_flags = do
    s' ← ttwu_activate s p enqueue_wakeup
    ttwu_do_wakeup s' p wake_flags

  -- The result says whether it is 1.
  unfoldable pub ttwu_remote : Sys → ℕ → ℕ → Option (Bool × Sys)
  unfolding ttwu_do_wakeup
  ttwu_remote s p wake_flags =
      if on_rq s p
      then (ttwu_do_wakeup s p wake_flags >>= λ s'. some (true, s'))
      else some (false, s)

  -- What follows `ttwu_remote`.
  unfoldable pub queue_unless : ℕ → ℕ → Bool × Sys → Option (Bool × Sys)
  queue_unless p wake_flags (true, s) = some (true, s)
  queue_unless p wake_flags (false, s) = ttwu_do_activate s p wake_flags >>= λ s'. some (true, s')

  unfoldable pub try_to_wake_up : Sys → ℕ → ℕ → ℕ → Option (Bool × Sys)
  unfolding ttwu_remote ttwu_do_activate queue_unless
  try_to_wake_up s p state wake_flags =
      if bit_and (s.params p).state state == 0
      then some (false, s)
      else (ttwu_remote s p wake_flags >>= queue_unless p wake_flags)

  unfoldable pub wake_up_process : Sys → ℕ → Option (Bool × Sys)
  wake_up_process s p = try_to_wake_up s p task_normal 0

  unfoldable pub wake_up_state : Sys → ℕ → ℕ → Option (Bool × Sys)
  wake_up_state s p state = try_to_wake_up s p state 0

  unfoldable pub try_to_wake_up_local : Sys → ℕ → Option Sys
  unfolding ttwu_activate ttwu_do_wakeup
  try_to_wake_up_local s p =
      if p == s.rq.curr
      then none
      else if bit_and (s.params p).state task_normal == 0
      then some s
      else (do
        s' ← if on_rq s p then some s else ttwu_activate s p enqueue_wakeup
        ttwu_do_wakeup s' p 0)

  -- `p->prio = p->normal_prio = …` under the flag.
  unfoldable pub reset_on_fork : Sys → ℕ → Sys
  unfolding reset_params
  reset_on_fork s p =
      if (s.params p).sched_reset_on_fork
      then set_prio (write_params s p (reset_params (s.params p))) p
          (reset_params (s.params p)).normal_prio
      else s

  unfoldable pub choose_class : Sys → ℕ → Sys
  choose_class s p =
      if rt_prio (prio s p)
      then s
      else if dummy_prio (prio s p)
      then set_class s p dummy_sched_class
      else set_class s p fair_sched_class

  -- The first lines of `sched_fork`.
  unfoldable pub start_child : Sys → ℕ → Sys
  start_child s p =
      let s1 = set_state (set_on_rq s p false) p task_running_state in
      set_prio s1 p (s1.params s1.rq.curr).normal_prio

  -- `sched_fork` of the task `p`, a copy of the running one.
  unfoldable pub sched_fork : Sys → ℕ → Option Sys
  unfolding start_child reset_on_fork choose_class
  sched_fork s p =
      let s1 = choose_class (reset_on_fork (start_child s p) p) p in
      call_if_set (task_ops s1 p).task_fork s1 p

  unfoldable pub wake_up_new_task : Sys → ℕ → Option Sys
  wake_up_new_task s p = do
    s' ← activate_task s p 0
    check_preempt_curr (set_on_rq s' p true) p wf_fork
