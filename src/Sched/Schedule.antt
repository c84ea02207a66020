-- ===== src/Sched/Schedule.antt =====
-- The main function of core.c, `__schedule`, on a single processor, and the calls that lead to it:
-- `sched_yield`, `schedule`, `_cond_resched`. The switch of the address space and of the stack
-- leaves the run queue alone.
pub mod Rounds
mod Tests
use epfl_ba6_os.Prelude.{
  ℕ, zero, suc, ◌+◌, Bool, true, false, not, ◌&&◌, ◌||◌, Option, none, some, ◌==◌, if◌then◌else◌,
  ◌>>=◌, add64,
}
use epfl_ba6_os.Sched.ListHead.{ListHead}
use epfl_ba6_os.Sched.Dummy.{Task, task}
use epfl_ba6_os.Sched.Machine.{
  Kernel, set_on_rq, set_state, write_task, dequeue_sleep, task_running_state,
}
use epfl_ba6_os.Sched.Core.{Sys, task_ops, deactivate_task, put_prev_task, pick_next_task}
use epfl_ba6_os.Sched.Wakeup.{try_to_wake_up_local}

module _ ⦃K : ListHead⦄ ⦃E : Kernel⦄ where
  open E use {signal_pending, wq_worker_sleeping}

  -- `test_tsk_need_resched` and `clear_tsk_need_resched`
  abbrev pub need_resched_of : Sys → ℕ → Bool
  need_resched_of s p = (task s.rq p).need_resched

  abbrev pub clear_need_resched : Sys → ℕ → Sys
  clear_need_resched s p = write_task s p (record (task s.rq p) { need_resched = false })

  unfoldable pub wake_worker : Option ℕ → Sys → Option Sys
  wake_worker none s = some s
  wake_worker (some p) s = try_to_wake_up_local s p

  -- What happens to the running task if it is not runnable any more.
  unfoldable pub block_prev : Bool → Sys → ℕ → Option Sys
  unfolding wake_worker
  block_prev preempt_active s prev =
      if (s.params prev).state == task_running_state || preempt_active
      then some s
      else if signal_pending s prev
      then some (set_state s prev task_running_state)
      else (do
        s' ← deactivate_task s prev dequeue_sleep
        let s'' = set_on_rq s' prev false
        wake_worker (wq_worker_sleeping s'' prev) s'')

  -- The choice of the next task and the switch to it.
  unfoldable pub switch_to_next : Sys → ℕ → Option Sys
  switch_to_next s prev = do
    s1 ← put_prev_task s prev
    (next, s2) ← pick_next_task s1
    let s3 = record (clear_need_resched s2 prev) { skip_clock_update = false }
    some (
        if prev == next
        then s3
        else record s3 { nr_switches = add64 s3.nr_switches 1; rq = record s3.rq { curr = next } })

  -- One round of `__schedule`, up to the test of `need_resched()`. PREEMPT_ACTIVE is a bit of the
  -- count that each task has of its own.
  unfoldable pub schedule_round : (ℕ → Bool) → Sys → Option Sys
  unfolding block_prev switch_to_next
  schedule_round preempt_active s = do
    s' ← block_prev (preempt_active s.rq.curr) s s.rq.curr
    switch_to_next s' s.rq.curr

  -- `__schedule` with the rounds that it may take; `none` also means that they are used up. A round
  -- after a switch is one of the task that runs now, in the call where it had stopped.
  unfoldable pub __schedule : ℕ → (ℕ → Bool) → Sys → Option Sys
  __schedule zero preempt_active s = none
  __schedule (suc rounds) preempt_active s = do
    s' ← schedule_round preempt_active s
    let rest = __schedule rounds preempt_active s'
    if need_resched_of s' s'.rq.curr then rest else some s'

  unfoldable pub sched_yield : ℕ → (ℕ → Bool) → Sys → Option Sys
  sched_yield rounds preempt_active s =
      (task_ops s s.rq.curr).yield_task s >>= __schedule rounds preempt_active

  -- `_cond_resched`, with `should_resched` and `__cond_resched`; the result says whether it is 1.
  unfoldable pub _cond_resched : ℕ → (ℕ → Bool) → Sys → Option (Bool × Sys)
  _cond_resched rounds preempt_active s =
      if need_resched_of s s.rq.curr && not (preempt_active s.rq.curr)
      then (__schedule rounds (λ q. s.rq.curr == q || preempt_active q) s >>= λ s'. some (true, s'))
      else some (false, s)
