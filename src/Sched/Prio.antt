-- ===== src/Sched/Prio.antt =====
-- Priorities, policies and weights: the macros and inline functions of linux/sched.h and
-- kernel/sched/sched.h, and `set_load_weight`, `normal_prio` and `effective_prio` of core.c.
pub mod Bounds
pub mod Weights
use epfl_ba6_os.Prelude.{
  ℕ, ◌+◌, ◌-◌, ◌*◌, ◌<◌, ◌≤◌, List, [], ◌∷◌, Bool, ◌||◌, ◌==◌, ltb, leb, if◌then◌else◌, get_or, ◌⊎◌,
  ◌≡◌, true, false,
}
use epfl_ba6_os.Prelude.Int.{ℤ, pos, pos_part, sub_ℕ, ◌+ℤ◌}

-- The scheduling classes, as the addresses `&stop_sched_class`, …
pub data SchedClass : Type 0 where
  stop_sched_class rt_sched_class fair_sched_class dummy_sched_class idle_sched_class : SchedClass

-- Policies.
abbrev pub sched_normal : ℕ
sched_normal = 0

abbrev pub sched_fifo : ℕ
sched_fifo = 1

abbrev pub sched_rr : ℕ
sched_rr = 2

abbrev pub sched_batch : ℕ
sched_batch = 3

abbrev pub sched_idle : ℕ
sched_idle = 5

-- SCHED_RESET_ON_FORK, the bit 30.
abbrev pub sched_reset_on_fork_flag : ℕ
sched_reset_on_fork_flag = 0x4000_0000

-- MAX_RT_PRIO and MAX_USER_RT_PRIO
abbrev pub max_rt_prio : ℕ
max_rt_prio = 100

abbrev pub max_prio : ℕ
max_prio = max_rt_prio + 40

abbrev pub default_prio : ℕ
default_prio = max_rt_prio + 20

abbrev pub min_dummy_prio : ℕ
min_dummy_prio = max_rt_prio + 35

unfoldable pub rt_prio : ℕ → Bool
rt_prio prio = ltb prio max_rt_prio

unfoldable pub dummy_prio : ℕ → Bool
dummy_prio prio = leb min_dummy_prio prio

unfoldable pub rt_policy : ℕ → Bool
rt_policy policy = policy == sched_fifo || policy == sched_rr

-- NICE_TO_PRIO and PRIO_TO_NICE
unfoldable pub nice_to_prio : ℤ → ℕ
nice_to_prio nice = pos_part (pos (max_rt_prio + 20) +ℤ nice)

unfoldable pub prio_to_nice : ℕ → ℤ
prio_to_nice prio = sub_ℕ prio (max_rt_prio + 20)

-- The fields of `struct task_struct` that core.c uses beside those of `Task`. `frozen` is the flag
-- PF_FROZEN, `user` says that `mm` is not NULL.
pub record TaskParams : Type 0 where
  pub policy : ℕ
  pub static_prio : ℕ
  pub normal_prio : ℕ
  pub rt_priority : ℕ
  pub sched_class : SchedClass
  pub sched_reset_on_fork : Bool
  pub state : ℕ
  pub frozen : Bool
  pub user : Bool
  pub weight : ℕ
  pub inv_weight : ℕ

unfoldable pub task_has_rt_policy : TaskParams → Bool
unfolding rt_policy
task_has_rt_policy t = rt_policy t.policy

-- TASK_NICE
unfoldable pub task_nice : TaskParams → ℤ
unfolding prio_to_nice
task_nice t = prio_to_nice t.static_prio

pub prio_to_weight : List ℕ
prio_to_weight =
    88761 ∷ 71755 ∷ 56483 ∷ 46273 ∷ 36291 ∷ 29154 ∷ 23254 ∷ 18705 ∷ 14949 ∷ 11916 ∷ 9548 ∷ 7620
    ∷ 6100 ∷ 4904 ∷ 3906 ∷ 3121 ∷ 2501 ∷ 1991 ∷ 1586 ∷ 1277 ∷ 1024 ∷ 820 ∷ 655 ∷ 526 ∷ 423 ∷ 335
    ∷ 272 ∷ 215 ∷ 172 ∷ 137 ∷ 110 ∷ 87 ∷ 70 ∷ 56 ∷ 45 ∷ 36 ∷ 29 ∷ 23 ∷ 18 ∷ 15 ∷ []

pub prio_to_wmult : List ℕ
prio_to_wmult =
    48388 ∷ 59856 ∷ 76040 ∷ 92818 ∷ 118348 ∷ 147320 ∷ 184698 ∷ 229616 ∷ 287308 ∷ 360437 ∷ 449829
    ∷ 563644 ∷ 704093 ∷ 875809 ∷ 1099582 ∷ 1376151 ∷ 1717300 ∷ 2157191 ∷ 2708050 ∷ 3363326 ∷ 4194304
    ∷ 5237765 ∷ 6557202 ∷ 8165337 ∷ 10153587 ∷ 12820798 ∷ 15790321 ∷ 19976592 ∷ 24970740 ∷ 31350126
    ∷ 39045157 ∷ 49367440 ∷ 61356676 ∷ 76695844 ∷ 95443717 ∷ 119304647 ∷ 148102320 ∷ 186737708
    ∷ 238609294 ∷ 286331153 ∷ []

-- WEIGHT_IDLEPRIO and WMULT_IDLEPRIO; `scale_load` changes nothing.
abbrev pub weight_idleprio : ℕ
weight_idleprio = 3

abbrev pub wmult_idleprio : ℕ
wmult_idleprio = 1431655765

unfoldable pub set_load_weight : TaskParams → TaskParams
unfolding prio_to_weight prio_to_wmult
set_load_weight t =
    let prio = t.static_prio - max_rt_prio in
    if t.policy == sched_idle
    then record t { weight = weight_idleprio; inv_weight = wmult_idleprio }
    else record t {
      weight = get_or prio_to_weight prio 0;
      inv_weight = get_or prio_to_wmult prio 0;
    }

unfoldable pub __normal_prio : TaskParams → ℕ
__normal_prio t = t.static_prio

-- The function `normal_prio`, which the field is set from.
unfoldable pub compute_normal_prio : TaskParams → ℕ
unfolding task_has_rt_policy __normal_prio
compute_normal_prio t =
    if task_has_rt_policy t then max_rt_prio - 1 - t.rt_priority else __normal_prio t

-- `effective_prio`, with `p->prio`: the result, and the task with its `normal_prio` set.
unfoldable pub effective_prio : ℕ → TaskParams → ℕ × TaskParams
unfolding compute_normal_prio rt_prio
effective_prio prio t =
    let t' = record t { normal_prio = compute_normal_prio t } in
    if rt_prio prio then (prio, t') else (t'.normal_prio, t')

-- The parameters of a task that the system calls let through.
pub record IsParams (t : TaskParams) : Type 0 where
  pub static_low : max_rt_prio ≤ t.static_prio
  pub static_high : t.static_prio < max_prio
  pub rt_range : rt_policy t.policy ≡ true → (1 ≤ t.rt_priority) × (t.rt_priority < max_rt_prio)
  pub rt_zero : rt_policy t.policy ≡ false → t.rt_priority ≡ 0
