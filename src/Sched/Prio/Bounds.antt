-- ===== src/Sched/Prio/Bounds.antt =====
-- The ranges of the priorities of linux/sched.h and core.c.
use epfl_ba6_os.Prelude.{◌≤◌, ◌<◌, ◌≡◌, arith}
use epfl_ba6_os.Prelude.Int.{ℤ, pos_part, neg_part}
use epfl_ba6_os.Sched.Prio.{
  TaskParams, IsParams, max_rt_prio, max_prio, rt_prio, rt_policy, nice_to_prio, prio_to_nice,
  compute_normal_prio,
}

-- `normal_prio` of a task whose parameters are in range: it is a priority, and one of real time
-- exactly if the policy is.
pub normal_prio_range :
    (t : TaskParams)
    → IsParams t
    → (compute_normal_prio t < max_prio) × (rt_prio (compute_normal_prio t) ≡ rt_policy t.policy)
unfolding compute_normal_prio rt_prio rt_policy
normal_prio_range t h = ground arith

-- NICE_TO_PRIO and PRIO_TO_NICE are inverse to one another on the nice values.
pub prio_to_nice-nice_to_prio :
    (n : ℤ)
    → neg_part n ≤ 20
    → pos_part n ≤ 19
    → (prio_to_nice (nice_to_prio n) ≡ n)
      × (max_rt_prio ≤ nice_to_prio n)
      × (nice_to_prio n < max_prio)
unfolding prio_to_nice nice_to_prio
prio_to_nice-nice_to_prio n h k = ground arith
