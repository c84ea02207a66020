-- ===== src/Sched/Sound/Tests.antt =====
-- The theorems on sound processors at a concrete one.
use epfl_ba6_os.Prelude.Int.{pos}
use epfl_ba6_os.Prelude.{false, none, List, [], ◌∷◌, some, true, arith}
use epfl_ba6_os.Sched.ListHead.Arrays.{arrays}
use epfl_ba6_os.Sched.Prio.{sched_fifo, nice_to_prio}
use epfl_ba6_os.Sched.Machine.{set_state}
use epfl_ba6_os.Sched.Core.{Sys}
use epfl_ba6_os.Sched.Core.Quiet.{quiet, desk}
use epfl_ba6_os.Sched.Sound.{Sure, IsSound}
use epfl_ba6_os.Sched.Nice.{Security, set_user_nice}
use epfl_ba6_os.Sched.SetScheduler.{__sched_setscheduler}
use epfl_ba6_os.Sched.Schedule.{schedule_round}
use epfl_ba6_os.Sched.Sound.Touched.{IsSound-Touched, Touched-state}
use epfl_ba6_os.Sched.Sound.Requests.{__sched_setscheduler-IsSound}
use epfl_ba6_os.Sched.Sound.Renice.{set_user_nice-IsSound}
use epfl_ba6_os.Sched.Sound.Rounds.{schedule_round-IsSound}
use epfl_ba6_os.Sched.Sound.Desk.{quiet-Keeps, desk-IsSound}
use epfl_ba6_os.Sched.Sound.Histories.{
  Call, ticks, yields, schedules, boosts, AllAllowed, run_all, run_all-IsSound,
}

-- Task 2 gets the priority 120 and the class of it; then the clock ticks, and task 1 yields and is
-- preempted.
abbrev history : List Call
history = boosts 2 120 ∷ ticks ∷ yields ∷ schedules (λ q. true) ∷ []

history-AllAllowed : AllAllowed history desk
history-AllAllowed = (omega arith, λ t e. (tt, λ u f. (tt, λ x g. (tt, λ y h. tt))))

run_all-IsSound_example : Sure IsSound (run_all history desk)
run_all-IsSound_example = run_all-IsSound quiet-Keeps history desk history-AllAllowed desk-IsSound

-- Task 1 goes to sleep.
abbrev asleep : Sys
asleep = set_state desk 1 1

asleep-IsSound : IsSound asleep
asleep-IsSound = IsSound-Touched desk asleep (Touched-state desk 1 1) desk-IsSound

schedule_round-IsSound_example : Sure IsSound (schedule_round (λ q. false) asleep)
schedule_round-IsSound_example =
    schedule_round-IsSound quiet-Keeps (λ q. false) asleep asleep-IsSound

-- A caller who may do everything.
abbrev root : Security
root = record {
  capable_sys_nice = true;
  rlimit_nice = λ p. 0;
  rlimit_rtprio = λ p. 0;
  euid = λ p. 0;
  uid = λ p. 0;
  security_task_setnice = λ p n. none;
  security_task_setscheduler = λ p. none;
  security_task_getscheduler = λ p. none;
  find_task_by_vpid = λ n. some n;
}

-- Task 3, which waits in the dummy class, gets the policy SCHED_FIFO.
__sched_setscheduler-IsSound_example :
    Sure (λ r. IsSound r.1) (__sched_setscheduler root desk 3 (pos sched_fifo) (pos 50) true)
__sched_setscheduler-IsSound_example =
    __sched_setscheduler-IsSound quiet-Keeps root desk 3 (pos sched_fifo) (pos 50) true desk-IsSound
      (λ e. absurd (omega (arith, e)))

-- It gets the lowest nice value.
set_user_nice-IsSound_example : Sure IsSound (set_user_nice desk 3 (pos 19))
unfolding nice_to_prio
set_user_nice-IsSound_example =
    set_user_nice-IsSound quiet-Keeps desk 3 (pos 19) desk-IsSound (λ e. absurd (omega (arith, e)))
      (λ c. omega arith)
