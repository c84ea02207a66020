-- ===== src/Sched/Sound/Choice.antt =====
-- The choice of the next task by `pick_next_task` of core.c on a sound processor.
use epfl_ba6_os.Prelude.{
  ℕ, ◌<◌, ◌≡◌, refl, sym, ap, subst, ◌∙◌, ◌⊎◌, inl, inr, List, [], ◌∷◌, true, Option, some, none,
  Bool-cases, arith,
}
use epfl_ba6_os.Sched.ListHead.{ListHead}
use epfl_ba6_os.Sched.Prio.{
  SchedClass, stop_sched_class, rt_sched_class, fair_sched_class, dummy_sched_class,
  idle_sched_class, TaskParams,
}
use epfl_ba6_os.Sched.Dummy.{pick_next_task_dummy}
use epfl_ba6_os.Sched.Dummy.Place.{on_queue}
use epfl_ba6_os.Sched.Dummy.Pick.{pick_next_task_first, pick_next_task-queues}
use epfl_ba6_os.Sched.Machine.{Cpu, Kernel, on_rq, dummy_class}
use epfl_ba6_os.Sched.Core.{Sys, ops, pick_from_classes, pick_next_task, picked_or}
use epfl_ba6_os.Sched.Core.Keeps.{Same, dummy-Preserves}
use epfl_ba6_os.Sched.Sound.{Sure, Sure-bind, Sure-mono, IsFit, Frame, KernelKeeps, IsChoice}
use epfl_ba6_os.Sched.Sound.Frames.{Frame-trans, Frame-queues, class-cases, ops-Leaves}
use epfl_ba6_os.Sched.Sound.Alike.{Alike-of_Frame, IsFit-of}

module _ {W : Type 0} ⦃K : ListHead⦄ where
  -- The same task runs, and all tasks are where they belong; the running one may have blocked.
  pub record Rest (s t : Cpu W) : Type 0 where
    pub curr : t.rq.curr ≡ s.rq.curr
    pub idle : t.idle ≡ s.idle
    pub class : (q : ℕ) → (t.params q).sched_class ≡ (s.params q).sched_class
    pub fits : (q : ℕ) → IsFit t q

  pub Rest-of_Frame : {s t u : Cpu W} → Rest s t → Frame t u → Rest s u
  Rest-of_Frame h f = record {
    curr = f.same.curr ∙ h.curr;
    idle = f.same.idle ∙ h.idle;
    class = λ q. ap (λ (a : TaskParams). a.sched_class) (f.same.params q) ∙ h.class q;
    fits = λ q. IsFit-of q (Alike-of_Frame q f) (h.fits q);
  }

  -- A task that may run.
  abbrev pub IsReady : Cpu W → ℕ → Type 0
  IsReady s p = (p ≡ s.idle) ⊎ (on_rq s p ≡ true)

  abbrev IsReadyChoice : Cpu W → Option ℕ → Type 0
  IsReadyChoice s none = Unit
  IsReadyChoice s (some p) = IsReady s p

  IsReady-of : {s t : Cpu W} (p : ℕ) → Same s t → IsReady t p → IsReady s p
  IsReady-of p h (inl e) = inl (e ∙ h.idle)
  IsReady-of p h (inr r) = inr (sym (h.on_rq p) ∙ r)

  pub IsReady-to : {s t : Cpu W} (p : ℕ) → Same s t → IsReady s p → IsReady t p
  IsReady-to p h (inl e) = inl (e ∙ sym h.idle)
  IsReady-to p h (inr r) = inr (h.on_rq p ∙ r)

  -- What stands on a queue of dummy.c is runnable.
  queued-on_rq :
      (s : Cpu W) (p i : ℕ) → i < 5 → IsFit s p → 0 < on_queue s.rq p i → on_rq s p ≡ true
  queued-on_rq s p i b v h = elim (Bool-cases (on_rq s p)) [
    | inl r ↦ r
    | inr r ↦ absurd (omega (arith, v.absent (inr r) i b))
  ]

  picks-dummy :
      (s : Cpu W)
      → ((q : ℕ) → IsFit s q)
      → Sure (λ r. IsReadyChoice s r.0 × Frame s r.1) (dummy_class.pick_next_task s)
  picks-dummy s v = (
    _,
    refl,
    (
      chosen (pick_next_task_dummy s.rq).0 refl,
      Frame-queues (dummy-Preserves.picks s) (pick_next_task-queues s.rq),
    ),
  )
    where
      chosen : (o : Option ℕ) → (pick_next_task_dummy s.rq).0 ≡ o → IsReadyChoice s o
      chosen none e = tt
      chosen (some p) e =
          let (i, b, h, first) = pick_next_task_first s.rq p e in inr (queued-on_rq s p i b (v p) h)

module _ ⦃K : ListHead⦄ ⦃E : Kernel⦄ (keep : KernelKeeps) where
  picks-Ready :
      (c : SchedClass) (s : Sys)
      → ((q : ℕ) → IsFit s q)
      → Sure (λ r. IsReadyChoice s r.0 × Frame s r.1) ((ops c).pick_next_task s)
  picks-Ready c s v = elim (class-cases c) [
    | inl e ↦ rw e (picks-dummy s v)
    | inr d ↦ Sure-mono _ (λ (o, t) h. (ready o h.0, h.1)) ((ops-Leaves keep c d).picks s)
  ]
    where
      ready : (o : Option ℕ) → IsChoice c s o → IsReadyChoice s o
      ready none h = tt
      ready (some p) (inl e) = inl e
      ready (some p) (inr h) = inr h.1

  -- A choice of core.c.
  abbrev pub Chosen : Sys → ℕ × Sys → Type 0
  Chosen s r = IsReady s r.0 × Frame s r.1

  Chosen-of : {s t : Sys} (r : ℕ × Sys) → Frame s t → Chosen t r → Chosen s r
  Chosen-of (p, u) f h = (IsReady-of p f.same h.0, Frame-trans f h.1)

  pick-cons :
      (c : SchedClass) (cs : List SchedClass) (s : Sys)
      → ((q : ℕ) → IsFit s q)
      → ((t : Sys) → Frame s t → Sure (Chosen t) (pick_from_classes cs t))
      → Sure (Chosen s) (pick_from_classes (c ∷ cs) s)
  unfolding pick_from_classes
  pick-cons c cs s v rest = Sure-bind _ _ (picks-Ready c s v) (λ (o, t) h. chosen o t h.0 h.1)
    where
      chosen :
          (o : Option ℕ) (t : Sys)
          → IsReadyChoice s o
          → Frame s t
          → Sure (Chosen s) (picked_or o t (pick_from_classes cs t))
      chosen none t h f = Sure-mono _ (λ r. Chosen-of r f) (rest t f)
      chosen (some p) t h f = ((p, t), refl, (h, f))

  pick-last : (s : Sys) → Sure (Chosen s) (pick_from_classes (idle_sched_class ∷ []) s)
  unfolding pick_from_classes
  pick-last s =
      let (t, e) = keep.idles s in
      let (r, e', h) = (keep.classes idle_sched_class).picks s in
      let same : r.1 ≡ t = cc in rw e ((s.idle, t), refl, (inl refl, subst (Frame s) same h.1))

  -- There is always a task to run: the idle one, at last.
  pub pick_next_task-Ready : (s : Sys) → ((q : ℕ) → IsFit s q) → Sure (Chosen s) (pick_next_task s)
  unfolding pick_next_task
  pick_next_task-Ready s v =
      step stop_sched_class (rt_sched_class ∷ fair_sched_class ∷ last) s v (λ t a.
        step rt_sched_class (fair_sched_class ∷ last) t a (λ u b.
          step fair_sched_class last u b
            (λ x c. step dummy_sched_class (idle_sched_class ∷ []) x c (λ y d. pick-last y))))
    where
      last : List SchedClass
      last = dummy_sched_class ∷ idle_sched_class ∷ []

      step :
          (c : SchedClass) (cs : List SchedClass) (s : Sys)
          → ((q : ℕ) → IsFit s q)
          → ((t : Sys) → ((q : ℕ) → IsFit t q) → Sure (Chosen t) (pick_from_classes cs t))
          → Sure (Chosen s) (pick_from_classes (c ∷ cs) s)
      step c cs s v h = pick-cons c cs s v (λ t f. h t (λ q. IsFit-of q (Alike-of_Frame q f) (v q)))
