-- ===== src/Sched/Sound.antt =====
-- What holds of the processor of core.c between two calls: each runnable task of the dummy class
-- stands on one queue of dummy.c, once, and no other task stands on any.
pub mod Frames
pub mod Alike
pub mod Moves
pub mod Policy
pub mod Requests
pub mod Renice
pub mod Touched
pub mod Later
pub mod Wake
pub mod Fork
pub mod Ticks
pub mod Choice
pub mod Rounds
pub mod Histories
pub mod Desk
mod Tests
use epfl_ba6_os.Prelude.{ℕ, ◌≤◌, ◌<◌, ◌≡◌, ◌≢◌, ◌⊎◌, Option, some, none, true, false, ◌>>=◌}
use epfl_ba6_os.Sched.ListHead.{ListHead, dummy_queue_size}
use epfl_ba6_os.Sched.Prio.{
  SchedClass, dummy_sched_class, idle_sched_class, TaskParams, max_prio, min_dummy_prio,
}
use epfl_ba6_os.Sched.Dummy.{Rq, task}
use epfl_ba6_os.Sched.Dummy.Place.{on_queue, IsLevel, IsAbsent, IsAt}
use epfl_ba6_os.Sched.Machine.{ClassOps, Cpu, Kernel, call_if_set, prio, on_rq}
use epfl_ba6_os.Sched.Core.{Sys}
use epfl_ba6_os.Sched.Core.Keeps.{Same}
use epfl_ba6_os.Sched.SetScheduler.{rt_mutex_setprio}

-- A call returns, and what it returns has a property.
abbrev pub Sure : {A : Type 0} → (A → Type 0) → Option A → Type 0
Sure {A} P m = (t : A) × (m ≡ some t) × P t

pub Sure-bind :
    {A B : Type 0} {P : A → Type 0} {Q : B → Type 0} (m : Option A) (f : A → Option B)
    → Sure P m
    → ((t : A) → P t → Sure Q (f t))
    → Sure Q (m >>= f)
Sure-bind {Q} m f (t, e, h) k = rw e (k t h)

pub Sure-mono :
    {A : Type 0} {P Q : A → Type 0} (m : Option A) → ((t : A) → P t → Q t) → Sure P m → Sure Q m
Sure-mono m f (t, e, h) = (t, e, f t h)

-- The bounds on the priorities of a task, whose effective one is `n`. A task is boosted, never
-- slowed down, by those that wait for it.
pub record IsLimited (t : TaskParams) (n : ℕ) : Type 0 where
  pub level : t.sched_class ≡ dummy_sched_class → min_dummy_prio ≤ n
  pub boosted : n ≤ t.normal_prio
  pub normal : t.normal_prio < max_prio
  pub static : t.static_prio < max_prio

module _ ⦃K : ListHead⦄ where
  -- On one queue, once, at or above its level.
  abbrev pub HasPlace : Rq → ℕ → Type 0
  HasPlace rq p = (i : ℕ) × (i < dummy_queue_size) × IsAt rq p i × IsLevel (task rq p) i

module _ {W : Type 0} ⦃K : ListHead⦄ where
  pub record IsFit (s : Cpu W) (p : ℕ) : Type 0 where
    pub limited : IsLimited (s.params p) (prio s p)
    pub placed : (s.params p).sched_class ≡ dummy_sched_class → on_rq s p ≡ true → HasPlace s.rq p
    pub absent :
        (s.params p).sched_class ≢ dummy_sched_class ⊎ (on_rq s p ≡ false) → IsAbsent s.rq p

  -- The idle task is not of the dummy class, and any other task that runs is runnable.
  pub record IsSteady (s : Cpu W) : Type 0 where
    pub idle_class : (s.params s.idle).sched_class ≢ dummy_sched_class
    pub curr_ready : (s.rq.curr ≡ s.idle) ⊎ (on_rq s s.rq.curr ≡ true)

  pub record IsSound (s : Cpu W) : Type 0 where
    pub fits : (p : ℕ) → IsFit s p
    pub steady : IsSteady s

  -- A call that leaves the queues of dummy.c alone, and what `Same` lists.
  pub record Frame (a b : Cpu W) : Type 0 where
    pub same : Same a b
    pub places : (q r : ℕ) → r < dummy_queue_size → on_queue b.rq q r ≡ on_queue a.rq q r

  -- What a class other than the dummy one chooses: a runnable task of its own, or the idle task.
  abbrev pub IsChoice : SchedClass → Cpu W → Option ℕ → Type 0
  IsChoice c s none = Unit
  IsChoice c s (some p) = (p ≡ s.idle) ⊎ (((s.params p).sched_class ≡ c) × (on_rq s p ≡ true))

  -- What core.c relies on in such a class: each function returns, and leaves the dummy class's part
  -- of the run queue alone.
  pub record Leaves (c : SchedClass) (o : ClassOps (Cpu W)) : Type 0 where
    pub enqueues : (s : Cpu W) (p flags : ℕ) → Sure (Frame s) (o.enqueue_task s p flags)
    pub dequeues : (s : Cpu W) (p flags : ℕ) → Sure (Frame s) (o.dequeue_task s p flags)
    pub yields : (s : Cpu W) → Sure (Frame s) (o.yield_task s)
    pub preempts : (s : Cpu W) (p flags : ℕ) → Sure (Frame s) (o.check_preempt_curr s p flags)
    pub picks : (s : Cpu W) → Sure (λ r. IsChoice c s r.0 × Frame s r.1) (o.pick_next_task s)
    pub puts : (s : Cpu W) (p : ℕ) → Sure (Frame s) (o.put_prev_task s p)
    pub sets : (s : Cpu W) → Sure (Frame s) (o.set_curr_task s)
    pub ticks : (s : Cpu W) (p queued : ℕ) → Sure (Frame s) (o.task_tick s p queued)
    pub forks : (s : Cpu W) (p : ℕ) → Sure (Frame s) (call_if_set o.task_fork s p)
    pub from : (s : Cpu W) (p : ℕ) → Sure (Frame s) (call_if_set o.switched_from s p)
    pub to : (s : Cpu W) (p : ℕ) → Sure (Frame s) (o.switched_to s p)
    pub changes : (s : Cpu W) (p old : ℕ) → Sure (Frame s) (o.prio_changed s p old)

module _ ⦃K : ListHead⦄ ⦃E : Kernel⦄ where
  open E use {other_class, rt_mutex_getprio, rt_mutex_adjust_pi, signal_pending, wq_worker_sleeping}

  -- What rtmutex.c does to tasks: it sets priorities at or above the normal ones.
  pub data Boosts (s : Sys) : Sys → Type 0 where
    done : Boosts s s
    boost :
        {t u : Sys} (p n : ℕ)
        → Boosts s t
        → n ≤ (t.params p).normal_prio
        → rt_mutex_setprio t p n ≡ some u
        → Boosts s u

  -- What core.c relies on in the rest of the kernel.
  pub record KernelKeeps : Type 0 where
    pub classes : (c : SchedClass) → Leaves c (other_class c)
    pub idles :
        (s : Sys)
        → (t : Sys) × ((other_class idle_sched_class).pick_next_task s ≡ some (some s.idle, t))
    pub boosted : (s : Sys) (p : ℕ) → rt_mutex_getprio s p ≤ (s.params p).normal_prio
    pub adjusts : (s : Sys) (p : ℕ) → Sure (Boosts s) (rt_mutex_adjust_pi s p)
    pub wakes_other : (s : Sys) (p q : ℕ) → wq_worker_sleeping s p ≡ some q → q ≢ p
