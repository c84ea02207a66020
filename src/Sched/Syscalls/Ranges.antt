-- ===== src/Sched/Syscalls/Ranges.antt =====
-- `sched_get_priority_min` and `sched_get_priority_max` of core.c against the checks of
-- `__sched_setscheduler`.
use epfl_ba6_os.Prelude.{ℕ, ◌≤◌, ◌≡◌, ◌↔◌, ◌⊎◌, inl, inr, true, false, arith}
use epfl_ba6_os.Prelude.Int.{pos}
use epfl_ba6_os.Sched.Prio.{TaskParams, rt_policy}
use epfl_ba6_os.Sched.SetScheduler.{invalid_param}
use epfl_ba6_os.Sched.Syscalls.{ok, sys_sched_get_priority_max, sys_sched_get_priority_min}

range_of_policy :
    (n lo hi : ℕ)
    → sys_sched_get_priority_min (pos n) ≡ ok lo
    → sys_sched_get_priority_max (pos n) ≡ ok hi
    → ((rt_policy n ≡ true) × (lo ≡ 1) × (hi ≡ 99)) ⊎ ((rt_policy n ≡ false) × (lo ≡ 0) × (hi ≡ 0))
unfolding sys_sched_get_priority_min sys_sched_get_priority_max rt_policy
range_of_policy n lo hi h k = ground arith

-- A policy has a lowest and a highest priority by the two calls, and these are its bounds: a
-- priority passes the checks of `__sched_setscheduler` exactly if it lies between them.
invalid_param_iff :
    (t : TaskParams) (n lo hi k : ℕ)
    → sys_sched_get_priority_min (pos n) ≡ ok lo
    → sys_sched_get_priority_max (pos n) ≡ ok hi
    → (invalid_param t n (pos k) ≡ false) ↔ ((lo ≤ k) × (k ≤ hi))
unfolding invalid_param
invalid_param_iff t n lo hi k h h' = elim (range_of_policy n lo hi h h') [
  | inl r ↦ rw (r.0, r.1, r.2) (ground arith)
  | inr r ↦ rw (r.0, r.1, r.2) (ground arith)
]
