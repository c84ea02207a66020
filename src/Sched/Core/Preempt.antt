-- ===== src/Sched/Core/Preempt.antt =====
-- `check_preempt_curr` of core.c between tasks of two classes.
use epfl_ba6_os.Prelude.{
  ℕ, ◌≤◌, ◌≡◌, ◌≢◌, refl, ap, ◌∙◌, some, Bool, true, false, ◌||◌, ◌==◌, ltb, if◌then◌else◌, arith,
}
use epfl_ba6_os.Sched.ListHead.{ListHead}
use epfl_ba6_os.Sched.Prio.{
  SchedClass, stop_sched_class, rt_sched_class, fair_sched_class, dummy_sched_class,
  idle_sched_class,
}
use epfl_ba6_os.Sched.Dummy.{task, resched_task}
use epfl_ba6_os.Sched.Machine.{Kernel, class_index, class_eq, each_class, resched}
use epfl_ba6_os.Sched.Core.{Sys, class_of_task, preempt_from, skip_update, check_preempt_curr}

class_index_bound : (c : SchedClass) → class_index c ≤ 4
class_index_bound stop_sched_class = omega arith
class_index_bound rt_sched_class = omega arith
class_index_bound fair_sched_class = omega arith
class_index_bound dummy_sched_class = omega arith
class_index_bound idle_sched_class = omega arith

-- The class of `i` is found before that of `j`, by a walk along the classes.
search_index :
    {A : Type 0} (i j : ℕ) (a b : A)
    → i ≤ 4
    → j ≤ 4
    → i ≢ j
    → (if 0 == j
        then a
        else if 0 == i
        then b
        else if 1 == j
        then a
        else if 1 == i
        then b
        else if 2 == j
        then a
        else if 2 == i
        then b
        else if 3 == j
        then a
        else if 3 == i
        then b
        else if 4 == j
        then a
        else if 4 == i
        then b
        else a)
      ≡ (if ltb i j then b else a)
search_index i j a b h k d = ground arith

module _ ⦃K : ListHead⦄ ⦃E : Kernel⦄ where
  preempt_from_lem :
      (s : Sys) (p : ℕ)
      → class_index (class_of_task s p) ≢ class_index (class_of_task s s.rq.curr)
      → preempt_from each_class s p ≡ (
          if ltb (class_index (class_of_task s p)) (class_index (class_of_task s s.rq.curr))
          then resched s s.rq.curr
          else s)
  unfolding preempt_from
  preempt_from_lem s p d =
      search_index (class_index (class_of_task s p)) (class_index (class_of_task s s.rq.curr)) _ _
        (class_index_bound _) (class_index_bound _) d

  skip_update-rq : (s : Sys) → (skip_update s).rq ≡ s.rq
  unfolding skip_update
  skip_update-rq s = ground arith

  need_resched-if :
      (b : Bool) (s : Sys) (p : ℕ)
      → (task (if b then resched s p else s).rq p).need_resched ≡ (b || (task s.rq p).need_resched)
  unfolding resched resched_task
  need_resched-if true s p = ground arith
  need_resched-if false s p = refl

  task-if :
      (b : Bool) (s : Sys) (p q : ℕ)
      → p ≢ q
      → task (if b then resched s p else s).rq q ≡ task s.rq q
  unfolding resched resched_task
  task-if true s p q n = ground arith
  task-if false s p q n = refl

  check_preempt_curr_lem :
      (s : Sys) (p flags : ℕ)
      → class_index (class_of_task s p) ≢ class_index (class_of_task s s.rq.curr)
      → check_preempt_curr s p flags ≡ some (skip_update (preempt_from each_class s p))
  unfolding check_preempt_curr
  check_preempt_curr_lem s p flags d =
      let e : class_eq (class_of_task s p) (class_of_task s s.rq.curr) ≡ false = ground arith in
      rw e refl

  -- A task of another class than the running one takes the processor from it exactly if its class
  -- comes earlier: `check_preempt_curr` returns, and then the running task is marked, or it was
  -- before; the mark of any other task stays.
  pub check_preempt_curr-marks :
      (s : Sys) (p flags : ℕ)
      → class_index (class_of_task s p) ≢ class_index (class_of_task s s.rq.curr)
      → (s' : Sys) × (check_preempt_curr s p flags ≡ some s')
        × ((task s'.rq s.rq.curr).need_resched ≡ (
            ltb (class_index (class_of_task s p)) (class_index (class_of_task s s.rq.curr))
            || (task s.rq s.rq.curr).need_resched))
        × ((q : ℕ) → s.rq.curr ≢ q → task s'.rq q ≡ task s.rq q)
  check_preempt_curr-marks s p flags d =
      let t = preempt_from each_class s p in
      let e = skip_update-rq t ∙ ap (λ (x : Sys). x.rq) (preempt_from_lem s p d) in
      (
        skip_update t,
        check_preempt_curr_lem s p flags d,
        rw e (need_resched-if _ s s.rq.curr),
        λ q n. rw e (task-if _ s s.rq.curr q n),
      )
