-- ===== src/Sched/Core/Keeps.antt =====
-- What a scheduling class leaves alone: the parameters and priorities of the tasks, who is runnable
-- and who is running. The dummy class does, by its code; of the others it is what core.c relies on.
use epfl_ba6_os.Prelude.{
  ℕ, ◌≡◌, refl, ◌∙◌, subst, Option, none, some, Bool, true, false, ◌>>=◌, not, ◌==◌, if◌then◌else◌,
}
use epfl_ba6_os.Sched.ListHead.{ListHead}
use epfl_ba6_os.Sched.Prio.{
  SchedClass, stop_sched_class, rt_sched_class, fair_sched_class, dummy_sched_class,
  idle_sched_class,
}
use epfl_ba6_os.Sched.Dummy.{Rq, switched_from_dummy, put_prev_task_dummy, set_curr_task_dummy}
use epfl_ba6_os.Sched.Dummy.Frame.{
  SameRq, SameRq-enqueue, SameRq-dequeue, SameRq-yield, SameRq-preempt, SameRq-pick, SameRq-tick,
  SameRq-switched_to, SameRq-prio_changed,
}
use epfl_ba6_os.Sched.Machine.{
  ClassOps, Cpu, Kernel, with_rq, dummy_class, call_if_set, when, prio, on_rq, class_eq,
}
use epfl_ba6_os.Sched.Core.{
  Sys, ops, enqueue_task, dequeue_task, put_prev_task, check_class_changed, task_ops, class_of_task,
}

module _ {W : Type 0} ⦃K : ListHead⦄ where
  pub record Same (a b : Cpu W) : Type 0 where
    pub params : (q : ℕ) → b.params q ≡ a.params q
    pub prio : (q : ℕ) → prio b q ≡ prio a q
    pub on_rq : (q : ℕ) → on_rq b q ≡ on_rq a q
    pub curr : b.rq.curr ≡ a.rq.curr
    pub idle : b.idle ≡ a.idle
    pub stop : b.stop ≡ a.stop

  pub Same-refl : (a : Cpu W) → Same a a
  Same-refl a = record {
    params = λ q. refl;
    prio = λ q. refl;
    on_rq = λ q. refl;
    curr = refl;
    idle = refl;
    stop = refl;
  }

  pub Same-trans : {a b c : Cpu W} → Same a b → Same b c → Same a c
  Same-trans h k = record {
    params = λ q. k.params q ∙ h.params q;
    prio = λ q. k.prio q ∙ h.prio q;
    on_rq = λ q. k.on_rq q ∙ h.on_rq q;
    curr = k.curr ∙ h.curr;
    idle = k.idle ∙ h.idle;
    stop = k.stop ∙ h.stop;
  }

  -- What holds of the state that a call returns, if it returns one.
  abbrev pub Post : (Cpu W → Type 0) → Option (Cpu W) → Type 0
  Post P none = Unit
  Post P (some s) = P s

  pub Post-bind :
      (P Q : Cpu W → Type 0) (m : Option (Cpu W)) (f : Cpu W → Option (Cpu W))
      → Post P m
      → ((t : Cpu W) → P t → Post Q (f t))
      → Post Q (m >>= f)
  Post-bind P Q none f h k = tt
  Post-bind P Q (some t) f h k = k t h

  pub Post-mono :
      (P Q : Cpu W → Type 0) (m : Option (Cpu W)) → ((t : Cpu W) → P t → Q t) → Post P m → Post Q m
  Post-mono P Q none h k = tt
  Post-mono P Q (some t) h k = h t k

  pub Post-some :
      (P : Cpu W → Type 0) (m : Option (Cpu W)) (t : Cpu W) → Post P m → m ≡ some t → P t
  Post-some P m t h e = subst (Post P) e h

  -- Such a state is the same in these things.
  abbrev pub KeepsSame : Cpu W → Option (Cpu W) → Type 0
  KeepsSame s m = Post (Same s) m

  abbrev pub KeepsSamePicked : Cpu W → Option (Option ℕ × Cpu W) → Type 0
  KeepsSamePicked s none = Unit
  KeepsSamePicked s (some (p, s')) = Same s s'

  pub record Preserves (o : ClassOps (Cpu W)) : Type 0 where
    pub enqueues : (s : Cpu W) (p flags : ℕ) → KeepsSame s (o.enqueue_task s p flags)
    pub dequeues : (s : Cpu W) (p flags : ℕ) → KeepsSame s (o.dequeue_task s p flags)
    pub yields : (s : Cpu W) → KeepsSame s (o.yield_task s)
    pub preempts : (s : Cpu W) (p flags : ℕ) → KeepsSame s (o.check_preempt_curr s p flags)
    pub picks : (s : Cpu W) → KeepsSamePicked s (o.pick_next_task s)
    pub puts : (s : Cpu W) (p : ℕ) → KeepsSame s (o.put_prev_task s p)
    pub sets : (s : Cpu W) → KeepsSame s (o.set_curr_task s)
    pub ticks : (s : Cpu W) (p queued : ℕ) → KeepsSame s (o.task_tick s p queued)
    pub forks : (s : Cpu W) (p : ℕ) → KeepsSame s (call_if_set o.task_fork s p)
    pub from : (s : Cpu W) (p : ℕ) → KeepsSame s (call_if_set o.switched_from s p)
    pub to : (s : Cpu W) (p : ℕ) → KeepsSame s (o.switched_to s p)
    pub changes : (s : Cpu W) (p old : ℕ) → KeepsSame s (o.prio_changed s p old)

  Same-rq : (s : Cpu W) (rq : Rq) → SameRq s.rq rq → Same s (record s { rq = rq })
  Same-rq s rq h = record {
    params = λ q. refl;
    prio = h.prio;
    on_rq = h.on_rq;
    curr = h.curr;
    idle = refl;
    stop = refl;
  }

  with_rq-KeepsSame :
      (s : Cpu W) (o : Option Rq)
      → ((rq : Rq) → o ≡ some rq → SameRq s.rq rq)
      → KeepsSame s (with_rq s o)
  with_rq-KeepsSame s none h = tt
  with_rq-KeepsSame s (some rq) h = Same-rq s rq (h rq refl)

  -- The dummy class does.
  pub dummy-Preserves : Preserves dummy_class
  unfolding switched_from_dummy put_prev_task_dummy set_curr_task_dummy
  dummy-Preserves = record {
    enqueues = λ s p flags. with_rq-KeepsSame s _ (λ rq h. SameRq-enqueue s.rq rq p h);
    dequeues = λ s p flags. Same-rq s _ (SameRq-dequeue s.rq p);
    yields = λ s. with_rq-KeepsSame s _ (λ rq h. SameRq-yield s.rq rq h);
    preempts = λ s p flags. Same-rq s _ (SameRq-preempt s.rq p);
    picks = λ s. Same-rq s _ (SameRq-pick s.rq);
    puts = λ s p. Same-refl s;
    sets = λ s. Same-refl s;
    ticks = λ s p queued. with_rq-KeepsSame s _ (λ rq h. SameRq-tick s.rq rq p h);
    forks = λ s p. Same-refl s;
    from = λ s p. Same-refl s;
    to = λ s p. Same-rq s _ (SameRq-switched_to s.rq p);
    changes = λ s p old. Same-rq s _ (SameRq-prio_changed s.rq p old);
  }

  pub Same-then : {s t : Cpu W} (m : Option (Cpu W)) → Same s t → KeepsSame t m → KeepsSame s m
  Same-then {s} {t} m h k = Post-mono (Same t) (Same s) m (λ u. Same-trans h) k

  pub if-KeepsSame :
      (s : Cpu W) (b : Bool) (m n : Option (Cpu W))
      → KeepsSame s m
      → KeepsSame s n
      → KeepsSame s (if b then m else n)
  if-KeepsSame s true m n h k = h
  if-KeepsSame s false m n h k = k

module _ ⦃K : ListHead⦄ ⦃E : Kernel⦄ where
  open E use {other_class}

  -- What core.c relies on.
  abbrev pub ClassesPreserve : Type 0
  ClassesPreserve = (c : SchedClass) → Preserves (other_class c)

  pub ops-Preserves : ClassesPreserve → (c : SchedClass) → Preserves (ops c)
  ops-Preserves h stop_sched_class = h stop_sched_class
  ops-Preserves h rt_sched_class = h rt_sched_class
  ops-Preserves h fair_sched_class = h fair_sched_class
  ops-Preserves h dummy_sched_class = dummy-Preserves
  ops-Preserves h idle_sched_class = h idle_sched_class

  module _ (keep : ClassesPreserve) where
    pub enqueue_task-Same : (s : Sys) (p flags : ℕ) → KeepsSame s (enqueue_task s p flags)
    unfolding enqueue_task
    enqueue_task-Same s p flags = (ops-Preserves keep (s.params p).sched_class).enqueues s p flags

    pub dequeue_task-Same : (s : Sys) (p flags : ℕ) → KeepsSame s (dequeue_task s p flags)
    unfolding dequeue_task
    dequeue_task-Same s p flags = (ops-Preserves keep (s.params p).sched_class).dequeues s p flags

    pub put_prev_task-Same : (s : Sys) (p : ℕ) → KeepsSame s (put_prev_task s p)
    unfolding put_prev_task
    put_prev_task-Same s p = (ops-Preserves keep (s.params p).sched_class).puts s p

    pub set_curr_task-Same : (s : Sys) (p : ℕ) → KeepsSame s ((task_ops s p).set_curr_task s)
    set_curr_task-Same s p = (ops-Preserves keep (s.params p).sched_class).sets s

    pub when-Same :
        (b : Bool) (f : Sys → Option Sys) (s : Sys) → KeepsSame s (f s) → KeepsSame s (when b f s)
    when-Same true f s h = h
    when-Same false f s h = Same-refl s

    pub check_class_changed-Same :
        (s : Sys) (p : ℕ) (c : SchedClass) (old : ℕ) → KeepsSame s (check_class_changed s p c old)
    unfolding check_class_changed
    check_class_changed-Same s p c old =
        if-KeepsSame s (not (class_eq c (class_of_task s p))) _ _
          (Post-bind (Same s) (Same s) _ _ ((ops-Preserves keep c).from s p)
            (λ t h. Same-then _ h ((ops-Preserves keep (t.params p).sched_class).to t p)))
          (if-KeepsSame s (not (old == prio s p)) _ _
            ((ops-Preserves keep (s.params p).sched_class).changes s p old) (Same-refl s))
