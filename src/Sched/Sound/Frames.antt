-- ===== src/Sched/Sound/Frames.antt =====
-- The calls of a class, from core.c, that leave the queues of dummy.c as they are.
use epfl_ba6_os.Prelude.{
  List, [], ◌∷◌, ◌>>=◌, ℕ, ◌≡◌, ◌≢◌, refl, ◌∙◌, ◌⊎◌, inl, inr, Bool, true, false, not, ◌==◌, ◌&&◌,
  Option, if◌then◌else◌,
}
use epfl_ba6_os.Sched.ListHead.{ListHead}
use epfl_ba6_os.Sched.Prio.{
  SchedClass, stop_sched_class, rt_sched_class, fair_sched_class, dummy_sched_class,
  idle_sched_class,
}
use epfl_ba6_os.Sched.Dummy.{
  switched_from_dummy, put_prev_task_dummy, set_curr_task_dummy, resched_task, task,
}
use epfl_ba6_os.Sched.Dummy.Frame.{queues-preempt, queues-switched_to, queues-prio_changed}
use epfl_ba6_os.Sched.Machine.{
  Cpu, Kernel, dummy_class, call_if_set, when, prio, on_rq, class_eq, each_class, resched,
}
use epfl_ba6_os.Sched.Core.{
  Sys, ops, class_of_task, put_prev_task, check_class_changed, check_preempt_curr, preempt_from,
  skip_update,
}
use epfl_ba6_os.Sched.Core.Keeps.{Same, Same-refl, Same-trans, dummy-Preserves}
use epfl_ba6_os.Sched.Core.Activate.{preempt_from-Same, skip_update-Same}
use epfl_ba6_os.Sched.Sound.{Sure, Sure-bind, Sure-mono, Frame, Leaves, KernelKeeps}

pub class-cases : (c : SchedClass) → (c ≡ dummy_sched_class) ⊎ (c ≢ dummy_sched_class)
class-cases stop_sched_class = inr (λ h. cc)
class-cases rt_sched_class = inr (λ h. cc)
class-cases fair_sched_class = inr (λ h. cc)
class-cases dummy_sched_class = inl refl
class-cases idle_sched_class = inr (λ h. cc)

module _ {W : Type 0} ⦃K : ListHead⦄ where
  pub Frame-refl : (a : Cpu W) → Frame a a
  Frame-refl a = record { same = Same-refl a; places = λ q r b. refl }

  pub Frame-trans : {a b c : Cpu W} → Frame a b → Frame b c → Frame a c
  Frame-trans h k = record {
    same = Same-trans h.same k.same;
    places = λ q r b. k.places q r b ∙ h.places q r b;
  }

  pub Frame-queues : {a b : Cpu W} → Same a b → b.rq.queues ≡ a.rq.queues → Frame a b
  Frame-queues h e = record { same = h; places = λ q r b. rw e }

  -- A further call that leaves the queues alone.
  pub Sure-then :
      {s : Cpu W} (m : Option (Cpu W)) (f : Cpu W → Option (Cpu W))
      → Sure (Frame s) m
      → ((t : Cpu W) → Sure (Frame t) (f t))
      → Sure (Frame s) (m >>= f)
  Sure-then {s} m f h k = Sure-bind m f h (λ t a. Sure-mono (f t) (λ u b. Frame-trans a b) (k t))

  pub if-Frame :
      (s : Cpu W) (b : Bool) (m n : Option (Cpu W))
      → Sure (Frame s) m
      → Sure (Frame s) n
      → Sure (Frame s) (if b then m else n)
  if-Frame s true m n h k = h
  if-Frame s false m n h k = k

  pub when-Frame :
      (s : Cpu W) (b : Bool) (f : Cpu W → Option (Cpu W))
      → Sure (Frame s) (f s)
      → Sure (Frame s) (when b f s)
  when-Frame s true f h = h
  when-Frame s false f h = (s, refl, Frame-refl s)

  preempts-dummy :
      (s : Cpu W) (p flags : ℕ) → Sure (Frame s) (dummy_class.check_preempt_curr s p flags)
  preempts-dummy s p flags =
      (_, refl, Frame-queues (dummy-Preserves.preempts s p flags) (queues-preempt s.rq p))

  puts-dummy : (s : Cpu W) (p : ℕ) → Sure (Frame s) (dummy_class.put_prev_task s p)
  unfolding put_prev_task_dummy
  puts-dummy s p = (s, refl, Frame-refl s)

  sets-dummy : (s : Cpu W) → Sure (Frame s) (dummy_class.set_curr_task s)
  unfolding set_curr_task_dummy
  sets-dummy s = (s, refl, Frame-refl s)

  from-dummy : (s : Cpu W) (p : ℕ) → Sure (Frame s) (call_if_set dummy_class.switched_from s p)
  unfolding switched_from_dummy
  from-dummy s p = (s, refl, Frame-refl s)

  to-dummy : (s : Cpu W) (p : ℕ) → Sure (Frame s) (dummy_class.switched_to s p)
  to-dummy s p = (_, refl, Frame-queues (dummy-Preserves.to s p) (queues-switched_to s.rq p))

  changes-dummy : (s : Cpu W) (p old : ℕ) → Sure (Frame s) (dummy_class.prio_changed s p old)
  changes-dummy s p old =
      (_, refl, Frame-queues (dummy-Preserves.changes s p old) (queues-prio_changed s.rq p old))

module _ ⦃K : ListHead⦄ ⦃E : Kernel⦄ where
  if-queues :
      (s a b : Sys) (c : Bool)
      → a.rq.queues ≡ s.rq.queues
      → b.rq.queues ≡ s.rq.queues
      → (if c then a else b).rq.queues ≡ s.rq.queues
  if-queues s a b true h k = h
  if-queues s a b false h k = k

  pub queues-resched : (s : Sys) (p : ℕ) → (resched s p).rq.queues ≡ s.rq.queues
  unfolding resched resched_task
  queues-resched s p = refl

  module _ (keep : KernelKeeps) where
    -- The classes but the dummy one, by their addresses.
    pub ops-Leaves : (c : SchedClass) → c ≢ dummy_sched_class → Leaves c (ops c)
    ops-Leaves stop_sched_class d = keep.classes stop_sched_class
    ops-Leaves rt_sched_class d = keep.classes rt_sched_class
    ops-Leaves fair_sched_class d = keep.classes fair_sched_class
    ops-Leaves dummy_sched_class d = absurd (d refl)
    ops-Leaves idle_sched_class d = keep.classes idle_sched_class

    pub preempts-Frame :
        (c : SchedClass) (s : Sys) (p flags : ℕ)
        → Sure (Frame s) ((ops c).check_preempt_curr s p flags)
    preempts-Frame c s p flags = elim (class-cases c) [
      | inl e ↦ rw e (preempts-dummy s p flags)
      | inr d ↦ (ops-Leaves c d).preempts s p flags
    ]

    pub puts-Frame : (c : SchedClass) (s : Sys) (p : ℕ) → Sure (Frame s) ((ops c).put_prev_task s p)
    puts-Frame c s p = elim (class-cases c) [
      | inl e ↦ rw e (puts-dummy s p)
      | inr d ↦ (ops-Leaves c d).puts s p
    ]

    pub sets-Frame : (c : SchedClass) (s : Sys) → Sure (Frame s) ((ops c).set_curr_task s)
    sets-Frame c s = elim (class-cases c) [
      | inl e ↦ rw e (sets-dummy s)
      | inr d ↦ (ops-Leaves c d).sets s
    ]

    pub forks-Frame :
        (c : SchedClass) (s : Sys) (p : ℕ) → Sure (Frame s) (call_if_set (ops c).task_fork s p)
    forks-Frame c s p = elim (class-cases c) [
      | inl e ↦ rw e (s, refl, Frame-refl s)
      | inr d ↦ (ops-Leaves c d).forks s p
    ]

    from-Frame :
        (c : SchedClass) (s : Sys) (p : ℕ) → Sure (Frame s) (call_if_set (ops c).switched_from s p)
    from-Frame c s p = elim (class-cases c) [
      | inl e ↦ rw e (from-dummy s p)
      | inr d ↦ (ops-Leaves c d).from s p
    ]

    to-Frame : (c : SchedClass) (s : Sys) (p : ℕ) → Sure (Frame s) ((ops c).switched_to s p)
    to-Frame c s p = elim (class-cases c) [
      | inl e ↦ rw e (to-dummy s p)
      | inr d ↦ (ops-Leaves c d).to s p
    ]

    changes-Frame :
        (c : SchedClass) (s : Sys) (p old : ℕ) → Sure (Frame s) ((ops c).prio_changed s p old)
    changes-Frame c s p old = elim (class-cases c) [
      | inl e ↦ rw e (changes-dummy s p old)
      | inr d ↦ (ops-Leaves c d).changes s p old
    ]

    pub put_prev_task-Frame : (s : Sys) (p : ℕ) → Sure (Frame s) (put_prev_task s p)
    unfolding put_prev_task
    put_prev_task-Frame s p = puts-Frame (class_of_task s p) s p

    pub check_class_changed-Frame :
        (s : Sys) (p : ℕ) (c : SchedClass) (old : ℕ)
        → Sure (Frame s) (check_class_changed s p c old)
    unfolding check_class_changed
    check_class_changed-Frame s p c old =
        if-Frame s (not (class_eq c (class_of_task s p))) _ _
          (Sure-then _ _ (from-Frame c s p) (λ t. to-Frame (class_of_task t p) t p))
          (if-Frame s (not (old == prio s p)) _ _ (changes-Frame (class_of_task s p) s p old)
            (s, refl, Frame-refl s))

    queues-preempt_from :
        (cs : List SchedClass) (s : Sys) (p : ℕ) → (preempt_from cs s p).rq.queues ≡ s.rq.queues
    unfolding preempt_from
    queues-preempt_from [] s p = refl
    queues-preempt_from (c ∷ cs) s p =
        if-queues s _ _ (class_eq c (class_of_task s s.rq.curr)) refl (
          if-queues s _ _ (class_eq c (class_of_task s p)) (queues-resched s s.rq.curr)
            (queues-preempt_from cs s p))

    queues-skip_update : (s : Sys) → (skip_update s).rq.queues ≡ s.rq.queues
    unfolding skip_update
    queues-skip_update s =
        if-queues s _ _ (on_rq s s.rq.curr && (task s.rq s.rq.curr).need_resched) refl refl

    pub check_preempt_curr-Frame :
        (s : Sys) (p flags : ℕ) → Sure (Frame s) (check_preempt_curr s p flags)
    unfolding check_preempt_curr
    check_preempt_curr-Frame s p flags =
        Sure-then _ _
          (if-Frame s (class_eq (class_of_task s p) (class_of_task s s.rq.curr)) _ _
            (preempts-Frame (class_of_task s s.rq.curr) s p flags)
            (
              _,
              refl,
              Frame-queues (preempt_from-Same each_class s p) (queues-preempt_from each_class s p),
            ))
          (λ t. (_, refl, Frame-queues (skip_update-Same t) (queues-skip_update t)))
