-- ===== src/Sched/Dummy.antt =====
-- kernel/sched/dummy.c: the functions of `dummy_sched_class`, over a run queue and the task
-- structures that it refers to. A function that changes them returns the new state; `none` is an
-- access out of the bounds of `queues`. A task is named by a number.
pub mod Place
pub mod Enqueue
pub mod Invariant
pub mod Pick
pub mod Steps
pub mod Aging
pub mod Starvation
pub mod Slice
pub mod Preempt
pub mod Frame
mod Tests
use epfl_ba6_os.Prelude.{
  ℕ, zero, suc, ◌+◌, ◌-◌, ◌*◌, ◌/◌, List, [], ◌∷◌, Bool, true, not, ◌&&◌, Option, none, some, ltb,
  leb, ◌==◌, if◌then◌else◌, ◌>>=◌, add32, sub32,
}
use epfl_ba6_os.Sched.ListHead.{ListHead, dummy_queue_size}

-- The fields of `struct task_struct` that the class uses. `need_resched` is its TIF_NEED_RESCHED.
pub record Task : Type 0 where
  pub prio : ℕ
  pub on_rq : Bool
  pub dummy_age_tick : ℕ
  pub need_resched : Bool

abbrev pub dummy_priority_min : ℕ
dummy_priority_min = 135

abbrev pub dummy_priority_max : ℕ
dummy_priority_max = 139

-- HZ is chosen by the kernel's configuration.
pub dummy_timeslice_default : ℕ → ℕ
dummy_timeslice_default hz = 100 * hz / 1000

pub dummy_age_threshold_default : ℕ → ℕ
unfolding dummy_timeslice_default
dummy_age_threshold_default hz = 3 * dummy_timeslice_default hz

-- `update f p t` is the store after `*p = t`.
abbrev pub update : (ℕ → Task) → ℕ → Task → ℕ → Task
update f p t q = if p == q then t else f q

module _ ⦃K : ListHead⦄ where
  open K use {
    Links, entries, init_list_head, list_add_tail, list_del_init, list_move_tail, list_empty,
    list_first_entry,
  }

  -- `struct rq` with its `struct dummy_rq`, the task structures, and the two tunables.
  pub record Rq : Type 0 where
    pub queues : Links
    pub dummy_timeslice : ℕ
    pub nr_running : ℕ
    pub curr : ℕ
    pub tasks : ℕ → Task
    pub sysctl_timeslice : ℕ
    pub sysctl_age_threshold : ℕ

  abbrev pub task : Rq → ℕ → Task
  task rq p = rq.tasks p

  -- A write to `*p`.
  abbrev pub set_task : Rq → ℕ → Task → Rq
  set_task rq p t = record rq { tasks = update rq.tasks p t }

  pub get_timeslice : Rq → ℕ
  get_timeslice rq = rq.sysctl_timeslice

  pub get_age_threshold : Rq → ℕ
  get_age_threshold rq = rq.sysctl_age_threshold

  -- The loop of `init_dummy_rq`, with the rounds left and `i`.
  init_queues : ℕ → ℕ → Links → Links
  init_queues zero i l = l
  init_queues (suc n) i l = init_queues n (i + 1) (init_list_head l i)

  pub init_dummy_rq : Rq → Rq
  unfolding init_queues
  init_dummy_rq rq = record rq {
    queues = init_queues dummy_queue_size 0 rq.queues;
    dummy_timeslice = 0;
  }

  -- core.c: `resched_task`; here its effect on a single processor.
  unfoldable pub resched_task : Rq → ℕ → Rq
  resched_task rq p = set_task rq p (record (task rq p) { need_resched = true })

  pub inc_nr_running : Rq → Rq
  inc_nr_running rq = record rq { nr_running = add32 rq.nr_running 1 }

  pub dec_nr_running : Rq → Rq
  dec_nr_running rq = record rq { nr_running = sub32 rq.nr_running 1 }

  -- `&dummy_rq->queues[p->prio - DUMMY_PRIORITY_MIN]`, if that index is in the array.
  pub queue_index : Task → Option ℕ
  queue_index t =
      if leb dummy_priority_min t.prio && ltb (t.prio - dummy_priority_min) dummy_queue_size
      then some (t.prio - dummy_priority_min)
      else none

  pub _enqueue_task_dummy : Rq → ℕ → Option Rq
  unfolding queue_index
  _enqueue_task_dummy rq p = do
    q ← queue_index (task rq p)
    some (record rq { queues = list_add_tail rq.queues p q })

  pub _dequeue_task_dummy : Rq → ℕ → Rq
  _dequeue_task_dummy rq p = record rq { queues = list_del_init rq.queues p }

  pub enqueue_task_dummy : Rq → ℕ → Option Rq
  unfolding _enqueue_task_dummy inc_nr_running
  enqueue_task_dummy rq p = do
    rq' ← _enqueue_task_dummy (set_task rq p (record (task rq p) { dummy_age_tick = 0 })) p
    some (inc_nr_running rq')

  pub dequeue_task_dummy : Rq → ℕ → Rq
  unfolding _dequeue_task_dummy dec_nr_running
  dequeue_task_dummy rq p = dec_nr_running (_dequeue_task_dummy rq p)

  pub requeue_task_dummy : Rq → ℕ → Option Rq
  unfolding resched_task
  requeue_task_dummy rq p = do
    rq' ← enqueue_task_dummy (dequeue_task_dummy rq p) p
    some (resched_task rq' p)

  pub yield_task_dummy : Rq → Option Rq
  yield_task_dummy rq = requeue_task_dummy rq rq.curr

  pub check_preempt_curr_dummy : Rq → ℕ → Rq
  unfolding resched_task
  check_preempt_curr_dummy rq p =
      if ltb (task rq rq.curr).prio (task rq p).prio then resched_task rq p else rq

  -- The loop of `pick_next_task_dummy`, with the rounds left and `i`; `none` is NULL.
  pub pick_from : ℕ → ℕ → Rq → Option ℕ × Rq
  pick_from zero i rq = (none, rq)
  pick_from (suc n) i rq =
      let p = list_first_entry rq.queues i in
      let rest = pick_from n (i + 1) rq in
      if list_empty rq.queues i
      then rest
      else (some p, set_task rq p (record (task rq p) { dummy_age_tick = 0 }))

  pub pick_next_task_dummy : Rq → Option ℕ × Rq
  pick_next_task_dummy rq = pick_from dummy_queue_size 0 rq

  unfoldable pub put_prev_task_dummy : Rq → ℕ → Rq
  put_prev_task_dummy rq prev = rq

  unfoldable pub set_curr_task_dummy : Rq → Rq
  set_curr_task_dummy rq = rq

  -- The body of `list_for_each_safe` in `task_tick_dummy`, at the entry of `p` in queue `i`.
  pub age_task : ℕ → ℕ → Rq → Rq
  unfolding resched_task get_age_threshold
  age_task i p rq =
      let aged =
        set_task rq p
          (record (task rq p) { dummy_age_tick = add32 (task rq p).dummy_age_tick 1 }) in
      if ltb (get_age_threshold rq) (task rq p).dummy_age_tick
      then resched_task
          (record (set_task aged p (record (task aged p) { dummy_age_tick = 0 })) {
            queues = list_move_tail aged.queues p (i - 1);
          })
          p
      else aged

  -- `list_for_each_safe` over the entries of queue `i`: the body takes no entry but its own off
  -- the list, and adds none to it.
  pub age_tasks : ℕ → List ℕ → Rq → Rq
  age_tasks i [] rq = rq
  age_tasks i (p ∷ ps) rq = age_tasks i ps (age_task i p rq)

  -- The outer loop, with the rounds left and `i`.
  pub age_queues : ℕ → ℕ → Rq → Rq
  age_queues zero i rq = rq
  age_queues (suc n) i rq = age_queues n (i + 1) (age_tasks i (entries rq.queues i) rq)

  -- The rest of `task_tick_dummy`: the time slice of the current task.
  pub tick_timeslice : Rq → ℕ → Option Rq
  unfolding get_timeslice
  tick_timeslice rq curr =
      let ticked = record rq { dummy_timeslice = add32 rq.dummy_timeslice 1 } in
      if leb (get_timeslice rq) rq.dummy_timeslice
      then (requeue_task_dummy ticked curr >>= λ rq'. some (record rq' { dummy_timeslice = 0 }))
      else some ticked

  pub task_tick_dummy : Rq → ℕ → Option Rq
  task_tick_dummy rq curr = tick_timeslice (age_queues (dummy_queue_size - 1) 1 rq) curr

  unfoldable pub switched_from_dummy : Rq → ℕ → Rq
  switched_from_dummy rq p = rq

  pub switched_to_dummy : Rq → ℕ → Rq
  unfolding check_preempt_curr_dummy
  switched_to_dummy rq p =
      if not (task rq p).on_rq
      then rq
      else if rq.curr == p
      then resched_task rq rq.curr
      else check_preempt_curr_dummy rq p

  pub prio_changed_dummy : Rq → ℕ → ℕ → Rq
  unfolding check_preempt_curr_dummy
  prio_changed_dummy rq p oldprio =
      if not (task rq p).on_rq
      then rq
      else if rq.curr == p
      then (if ltb oldprio (task rq p).prio then resched_task rq p else rq)
      else check_preempt_curr_dummy rq p

  pub get_rr_interval_dummy : Rq → ℕ → ℕ
  get_rr_interval_dummy rq p = get_timeslice rq
