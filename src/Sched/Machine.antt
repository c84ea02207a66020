-- ===== src/Sched/Machine.antt =====
-- The run queue of kernel/sched/core.c on a single processor with all the classes: `struct rq`, the
-- fields of the tasks, `struct sched_class`, and dummy.c's instance of it.
use epfl_ba6_os.Prelude.{
  ℕ, ◌/◌, ◌%◌, List, [], ◌∷◌, Bool, true, false, not, ◌&&◌, Option, none, some, ◌==◌, if◌then◌else◌,
}
use epfl_ba6_os.Sched.ListHead.{ListHead}
use epfl_ba6_os.Sched.Prio.{
  SchedClass, stop_sched_class, rt_sched_class, fair_sched_class, dummy_sched_class,
  idle_sched_class, TaskParams,
}
use epfl_ba6_os.Sched.Dummy.{
  Task, Rq, task, set_task, resched_task, enqueue_task_dummy, dequeue_task_dummy, yield_task_dummy,
  check_preempt_curr_dummy, pick_next_task_dummy, put_prev_task_dummy, set_curr_task_dummy,
  task_tick_dummy, switched_from_dummy, switched_to_dummy, prio_changed_dummy,
  get_rr_interval_dummy,
}

-- `struct sched_class` over a state: a call returns the new state, or `none` for a fault. A member
-- that may be NULL is an `Option`.
pub record ClassOps (S : Type 0) : Type 0 where
  pub enqueue_task : S → ℕ → ℕ → Option S
  pub dequeue_task : S → ℕ → ℕ → Option S
  pub yield_task : S → Option S
  pub check_preempt_curr : S → ℕ → ℕ → Option S
  pub pick_next_task : S → Option (Option ℕ × S)
  pub put_prev_task : S → ℕ → Option S
  pub set_curr_task : S → Option S
  pub task_tick : S → ℕ → ℕ → Option S
  pub task_fork : Option (S → ℕ → Option S)
  pub switched_from : Option (S → ℕ → Option S)
  pub switched_to : S → ℕ → Option S
  pub prio_changed : S → ℕ → ℕ → Option S
  pub get_rr_interval : S → ℕ → ℕ

-- The order in which the classes are numbered, and compared.
abbrev pub class_index : SchedClass → ℕ
class_index stop_sched_class = 0
class_index rt_sched_class = 1
class_index fair_sched_class = 2
class_index dummy_sched_class = 3
class_index idle_sched_class = 4

abbrev pub class_eq : SchedClass → SchedClass → Bool
class_eq c d = class_index c == class_index d

-- `for_each_class`: from `sched_class_highest` along `next`.
abbrev pub each_class : List SchedClass
each_class =
    stop_sched_class ∷ rt_sched_class ∷ fair_sched_class ∷ dummy_sched_class ∷ idle_sched_class ∷ []

-- Flags.
abbrev pub enqueue_wakeup : ℕ
enqueue_wakeup = 1

abbrev pub enqueue_head : ℕ
enqueue_head = 2

abbrev pub enqueue_waking : ℕ
enqueue_waking = 0

abbrev pub dequeue_sleep : ℕ
dequeue_sleep = 1

abbrev pub task_running_state : ℕ
task_running_state = 0

-- `task_contributes_to_load`: TASK_UNINTERRUPTIBLE is the second bit of the state.
unfoldable pub task_contributes_to_load : TaskParams → Bool
task_contributes_to_load t = t.state / 2 % 2 == 1 && not t.frozen

module _ ⦃K : ListHead⦄ where
  -- The processor's run queue: what the dummy class uses of it, the other fields of the tasks, and
  -- `W`, the state of the other classes.
  pub record Cpu (W : Type 0) : Type 0 where
    pub rq : Rq
    pub params : ℕ → TaskParams
    pub idle : ℕ
    pub stop : Option ℕ
    pub nr_uninterruptible : ℕ
    pub nr_switches : ℕ
    pub skip_clock_update : Bool
    pub others : W

  -- The rest of the kernel: the classes but the dummy one, which is not asked for, and functions of
  -- other files.
  pub record Kernel : Type 1 where
    pub Others : Type 0
    pub other_class : SchedClass → ClassOps (Cpu Others)
    -- rtmutex.c: the priority that a task has from its own and from those that wait for it.
    pub rt_mutex_getprio : Cpu Others → ℕ → ℕ
    -- rtmutex.c: passes a changed priority on along the locks that the task waits for.
    pub rt_mutex_adjust_pi : Cpu Others → ℕ → Option (Cpu Others)
    -- `signal_pending_state` of a task.
    pub signal_pending : Cpu Others → ℕ → Bool
    -- workqueue.c: for a worker that goes to sleep, another one to wake up.
    pub wq_worker_sleeping : Cpu Others → ℕ → Option ℕ

module _ {W : Type 0} ⦃K : ListHead⦄ where
  abbrev pub prio : Cpu W → ℕ → ℕ
  prio s p = (task s.rq p).prio

  abbrev pub on_rq : Cpu W → ℕ → Bool
  on_rq s p = (task s.rq p).on_rq

  -- Writes to the fields of `*p`.
  abbrev pub write_task : Cpu W → ℕ → Task → Cpu W
  write_task s p t = record s { rq = set_task s.rq p t }

  abbrev pub write_params : Cpu W → ℕ → TaskParams → Cpu W
  write_params s p t = record s { params = λ q. if p == q then t else s.params q }

  abbrev pub set_prio : Cpu W → ℕ → ℕ → Cpu W
  set_prio s p n = write_task s p (record (task s.rq p) { prio = n })

  abbrev pub set_on_rq : Cpu W → ℕ → Bool → Cpu W
  set_on_rq s p b = write_task s p (record (task s.rq p) { on_rq = b })

  abbrev pub set_class : Cpu W → ℕ → SchedClass → Cpu W
  set_class s p c = write_params s p (record (s.params p) { sched_class = c })

  abbrev pub set_state : Cpu W → ℕ → ℕ → Cpu W
  set_state s p n = write_params s p (record (s.params p) { state = n })

  unfoldable pub resched : Cpu W → ℕ → Cpu W
  unfolding resched_task
  resched s p = record s { rq = resched_task s.rq p }

  abbrev pub task_current : Cpu W → ℕ → Bool
  task_current s p = s.rq.curr == p

  -- A call under a condition, and one through a pointer that may be NULL.
  abbrev pub when : Bool → (Cpu W → Option (Cpu W)) → Cpu W → Option (Cpu W)
  when true f s = f s
  when false f s = some s

  abbrev pub call_if_set : Option (Cpu W → ℕ → Option (Cpu W)) → Cpu W → ℕ → Option (Cpu W)
  call_if_set none s p = some s
  call_if_set (some f) s p = f s p

  -- dummy.c's functions on the whole state.
  abbrev pub with_rq : Cpu W → Option Rq → Option (Cpu W)
  with_rq s none = none
  with_rq s (some rq) = some (record s { rq = rq })

  abbrev pub with_picked : Cpu W → Option ℕ × Rq → Option (Option ℕ × Cpu W)
  with_picked s (p, rq) = some (p, record s { rq = rq })

  -- `dummy_sched_class`
  abbrev pub dummy_class : ClassOps (Cpu W)
  dummy_class = record {
    enqueue_task = λ s p flags. with_rq s (enqueue_task_dummy s.rq p);
    dequeue_task = λ s p flags. some (record s { rq = dequeue_task_dummy s.rq p });
    yield_task = λ s. with_rq s (yield_task_dummy s.rq);
    check_preempt_curr = λ s p flags. some (record s { rq = check_preempt_curr_dummy s.rq p });
    pick_next_task = λ s. with_picked s (pick_next_task_dummy s.rq);
    put_prev_task = λ s p. some (record s { rq = put_prev_task_dummy s.rq p });
    set_curr_task = λ s. some (record s { rq = set_curr_task_dummy s.rq });
    task_tick = λ s p queued. with_rq s (task_tick_dummy s.rq p);
    task_fork = none;
    switched_from = some (λ s p. some (record s { rq = switched_from_dummy s.rq p }));
    switched_to = λ s p. some (record s { rq = switched_to_dummy s.rq p });
    prio_changed = λ s p old. some (record s { rq = prio_changed_dummy s.rq p old });
    get_rr_interval = λ s p. get_rr_interval_dummy s.rq p;
  }
