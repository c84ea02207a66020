-- ===== src/Sched/Core/Quiet.antt =====
-- A processor for the tests: the classes but the dummy one keep no record of their tasks.
use epfl_ba6_os.Prelude.{ℕ, [], ◌∷◌, Option, none, some, true, false, ◌==◌, if◌then◌else◌}
use epfl_ba6_os.Sched.ListHead.Arrays.{arrays}
use epfl_ba6_os.Sched.Prio.{
  SchedClass, TaskParams, stop_sched_class, rt_sched_class, fair_sched_class, dummy_sched_class,
  idle_sched_class,
}
use epfl_ba6_os.Sched.Dummy.{Task}
use epfl_ba6_os.Sched.Machine.{ClassOps, Cpu, Kernel}
use epfl_ba6_os.Sched.Core.{Sys}
use epfl_ba6_os.Sched.Core.Keeps.{Same-refl, ClassesPreserve}

-- The idle class runs the idle task, and the others have no task to run.
abbrev pub quiet_task : SchedClass → Cpu Unit → Option ℕ
quiet_task stop_sched_class s = none
quiet_task rt_sched_class s = none
quiet_task fair_sched_class s = none
quiet_task dummy_sched_class s = none
quiet_task idle_sched_class s = some s.idle

-- A class that does nothing else.
abbrev pub quiet_class : SchedClass → ClassOps (Cpu Unit)
quiet_class c = record {
  enqueue_task = λ s p flags. some s;
  dequeue_task = λ s p flags. some s;
  yield_task = λ s. some s;
  check_preempt_curr = λ s p flags. some s;
  pick_next_task = λ s. some (quiet_task c s, s);
  put_prev_task = λ s p. some s;
  set_curr_task = λ s. some s;
  task_tick = λ s p queued. some s;
  task_fork = none;
  switched_from = none;
  switched_to = λ s p. some s;
  prio_changed = λ s p old. some s;
  get_rr_interval = λ s p. 0;
}

instance abbrev pub quiet : Kernel
quiet = record {
  Others = Unit;
  other_class = quiet_class;
  rt_mutex_getprio = λ s p. (s.params p).normal_prio;
  rt_mutex_adjust_pi = λ s p. some s;
  signal_pending = λ s p. false;
  wq_worker_sleeping = λ s p. none;
}

pub quiet_class-Preserves : ClassesPreserve
quiet_class-Preserves c = record {
  enqueues = λ s p flags. Same-refl s;
  dequeues = λ s p flags. Same-refl s;
  yields = λ s. Same-refl s;
  preempts = λ s p flags. Same-refl s;
  picks = λ s. Same-refl s;
  puts = λ s p. Same-refl s;
  sets = λ s. Same-refl s;
  ticks = λ s p queued. Same-refl s;
  forks = λ s p. Same-refl s;
  from = λ s p. Same-refl s;
  to = λ s p. Same-refl s;
  changes = λ s p old. Same-refl s;
}

-- A task of SCHED_NORMAL in a class, with a static priority.
abbrev normal_task : SchedClass → ℕ → TaskParams
normal_task c n = record {
  policy = 0;
  static_prio = n;
  normal_prio = n;
  rt_priority = 0;
  sched_class = c;
  sched_reset_on_fork = false;
  state = 0;
  frozen = false;
  user = true;
  weight = 0;
  inv_weight = 0;
}

abbrev pub queued_at : ℕ → Task
queued_at n = record { prio = n; on_rq = true; dummy_age_tick = 0; need_resched = false }

-- Task 1 of the dummy class runs, tasks 2 and 3 of this class wait; the others are of the fair
-- class. Task 0 is the idle one.
abbrev pub desk : Sys
desk = record {
  rq = record {
    queues = λ q. if q == 2 then 1 ∷ 3 ∷ [] else if q == 4 then 2 ∷ [] else [];
    dummy_timeslice = 0;
    nr_running = 3;
    curr = 1;
    tasks = λ p.
        if p == 2
        then queued_at 139
        else if p == 1
        then queued_at 137
        else if p == 3
        then queued_at 137
        else queued_at 120;
    sysctl_timeslice = 10;
    sysctl_age_threshold = 30;
  };
  params = λ p.
      if p == 2
      then normal_task dummy_sched_class 139
      else if p == 1
      then normal_task dummy_sched_class 137
      else if p == 3
      then normal_task dummy_sched_class 137
      else normal_task fair_sched_class 120;
  idle = 0;
  stop = none;
  nr_uninterruptible = 0;
  nr_switches = 0;
  skip_clock_update = false;
  others = tt;
}
