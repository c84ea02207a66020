-- ===== src/Sched/Dummy/Tests.antt =====
-- Runs of the functions of dummy.c over lists of numbers, and the theorems at concrete states.
use epfl_ba6_os.Prelude.{
  ℕ, ◌≡◌, refl, inl, inr, List, [], ◌∷◌, some, true, false, ◌||◌, ◌==◌, if◌then◌else◌, Bool-cases,
  arith,
}
use epfl_ba6_os.Sched.ListHead.Arrays.{arrays}
use epfl_ba6_os.Sched.Dummy.{
  Task, Rq, init_dummy_rq, check_preempt_curr_dummy, pick_next_task_dummy, task_tick_dummy,
}
use epfl_ba6_os.Sched.Dummy.Place.{total, IsQueued}
use epfl_ba6_os.Sched.Dummy.Enqueue.{enqueue_lem, enqueued}
use epfl_ba6_os.Sched.Dummy.Pick.{picked, pick_next_task_lem}
use epfl_ba6_os.Sched.Dummy.Steps.{
  here, next, enqueues, picks, init_dummy_rq-IsAbsent, Reach-init-IsQueued,
}
use epfl_ba6_os.Sched.Dummy.Starvation.{Waits, task_tick-Waits, climb_to_first}
use epfl_ba6_os.Sched.Dummy.Starvation
use epfl_ba6_os.Sched.Dummy.Slice.{total-task_tick}
use epfl_ba6_os.Sched.Dummy.Preempt.{marked, check_preempt-marks}

abbrev at_prio : ℕ → Task
at_prio n = record { prio = n; on_rq = true; dummy_age_tick = 0; need_resched = false }

-- Task 1 runs at priority 137, task 2 waits at 139, task 3 waits at 137.
abbrev three_queues : ℕ → List ℕ
three_queues q = if q == 2 then 1 ∷ 3 ∷ [] else if q == 4 then 2 ∷ [] else []

abbrev three : Rq
three = record {
  queues = three_queues;
  dummy_timeslice = 10;
  nr_running = 3;
  curr = 1;
  tasks = λ p. if p == 2 then at_prio 139 else at_prio 137;
  sysctl_timeslice = 10;
  sysctl_age_threshold = 30;
}

three-IsQueued : IsQueued three
three-IsQueued p = elim (Bool-cases (p == 2)) [
  | inl e ↦ inr (4, omega arith, (λ r b. ground arith), ground arith)
  | inr e ↦ elim (Bool-cases (p == 1 || p == 3)) [
    | inl f ↦ inr (2, omega arith, (λ r b. ground arith), ground arith)
    | inr f ↦ inl (λ r b. ground arith)
  ]
]

two-Waits : Waits three 2 4 0
two-Waits = record {
  at = λ r b. ground arith;
  age = refl;
  other = omega arith;
  level = omega arith;
}

climb_to_first_example : (rq' : Rq) × (Starvation.ticks 128 three ≡ some rq') × Waits rq' 2 0 0
climb_to_first_example = climb_to_first 4 128 three 2 refl (omega arith) (omega arith) two-Waits

Reach-init-IsQueued_example : IsQueued (pick_next_task_dummy (enqueued (init_dummy_rq three) 2)).1
unfolding init_dummy_rq
Reach-init-IsQueued_example = Reach-init-IsQueued three (
    next
      (next here (
        enqueues 2 (init_dummy_rq-IsAbsent three 2)
          (enqueue_lem (init_dummy_rq three) 2 (omega arith))))
      picks)

pick_next_task_lem_example : pick_next_task_dummy three ≡ (some 1, picked three (some 1))
pick_next_task_lem_example = pick_next_task_lem three

-- Priority 120 has no queue in the class.
abbrev normal : Rq
normal = record three { tasks = λ p. at_prio 120 }

total-task_tick_example :
    (rq' : Rq) × (task_tick_dummy three 1 ≡ some rq') × ((q : ℕ) → total rq' q ≡ total three q)
total-task_tick_example = total-task_tick three 1 three-IsQueued (omega arith) refl

-- Task 9 would have priority 135, better than that of the running task: nobody is marked.
abbrev urgent : Rq
urgent = record three { tasks = λ p. if p == 9 then at_prio 135 else at_prio 137 }

check_preempt-marks_example :
    (marked (check_preempt_curr_dummy urgent 9) 9 ≡ false)
    × (marked (check_preempt_curr_dummy urgent 9) 1 ≡ false)
check_preempt-marks_example = check_preempt-marks urgent 9 9
