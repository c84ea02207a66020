-- ===== src/Sched/Core/Next.antt =====
-- `pick_next_task` of core.c where only the dummy class has tasks.
use mathlib.Core.List.{head?}
use epfl_ba6_os.Prelude.{ℕ, ◌≡◌, refl, some, none}
use epfl_ba6_os.Sched.ListHead.{ListHead, dummy_queue_size}
use epfl_ba6_os.Sched.Prio.{stop_sched_class, rt_sched_class, fair_sched_class}
use epfl_ba6_os.Sched.Dummy.Pick.{run_order, picked, pick_next_task_lem}
use epfl_ba6_os.Sched.Machine.{Kernel}
use epfl_ba6_os.Sched.Core.{Sys, pick_from_classes, pick_next_task}

module _ ⦃K : ListHead⦄ ⦃E : Kernel⦄ where
  open E use {other_class}

  -- The classes before the dummy one have no task.
  pub record IsOnlyDummy (s : Sys) : Type 0 where
    pub no_stop : (other_class stop_sched_class).pick_next_task s ≡ some (none, s)
    pub no_rt : (other_class rt_sched_class).pick_next_task s ≡ some (none, s)
    pub no_fair : (other_class fair_sched_class).pick_next_task s ≡ some (none, s)

  -- Where no class before it has a task to run, core.c runs the first task of the queues of the
  -- dummy class.
  pub pick_next_task-run_order :
      (s : Sys) (p : ℕ)
      → IsOnlyDummy s
      → head? (run_order dummy_queue_size 0 s.rq.queues) ≡ some p
      → pick_next_task s ≡ some (p, record s { rq = picked s.rq (some p) })
  unfolding pick_next_task pick_from_classes
  pick_next_task-run_order s p h e =
      rw (h.no_stop, h.no_rt, h.no_fair, pick_next_task_lem s.rq, e) refl
