-- ===== src/Sched/Schedule/Tests.antt =====
-- The theorem on `__schedule` of core.c at a concrete processor.
use epfl_ba6_os.Prelude.{◌≡◌, refl, some, true, false}
use epfl_ba6_os.Sched.ListHead.Arrays.{arrays}
use epfl_ba6_os.Sched.Core.{Sys}
use epfl_ba6_os.Sched.Core.Quiet.{quiet, desk}
use epfl_ba6_os.Sched.Schedule.{need_resched_of, __schedule}
use epfl_ba6_os.Sched.Schedule.Rounds.{switched, __schedule-rounds}

-- Task 2 runs; task 1 waits at a better priority.
abbrev behind : Sys
behind = record desk { rq = record desk.rq { curr = 2 } }

__schedule-rounds_example :
    (s' : Sys) × (__schedule 2 (λ q. true) behind ≡ some s')
    × (s'.rq.curr ≡ 1)
    × (need_resched_of s' 1 ≡ false)
    × (s'.rq.queues ≡ behind.rq.queues)
    × (s'.params ≡ behind.params)
unfolding switched
__schedule-rounds_example =
    __schedule-rounds 0 (λ q. true) behind 1 refl refl
      (record { no_stop = refl; no_rt = refl; no_fair = refl })
      (record { no_stop = refl; no_rt = refl; no_fair = refl }) refl refl refl
