-- ===== src/Sched/Core/Tests.antt =====
-- The theorems on `check_preempt_curr` of core.c at a concrete processor.
use epfl_ba6_os.Prelude.{ℕ, ◌≡◌, ◌≢◌, some, true, arith}
use epfl_ba6_os.Sched.ListHead.Arrays.{arrays}
use epfl_ba6_os.Sched.Dummy.{task}
use epfl_ba6_os.Sched.Core.{Sys, check_preempt_curr}
use epfl_ba6_os.Sched.Core.Quiet.{quiet, desk}
use epfl_ba6_os.Sched.Core.Preempt.{check_preempt_curr-marks}

-- Task 7 of the fair class wakes up while task 1 of the dummy class runs.
check_preempt_curr-marks_example :
    (s' : Sys) × (check_preempt_curr desk 7 0 ≡ some s')
    × ((task s'.rq 1).need_resched ≡ true)
    × ((q : ℕ) → 1 ≢ q → task s'.rq q ≡ task desk.rq q)
check_preempt_curr-marks_example = check_preempt_curr-marks desk 7 0 (omega arith)
