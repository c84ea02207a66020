-- ===== src/Sched/Nice/Renice.antt =====
-- What `set_user_nice` of core.c does to a task of the dummy class, and to its class.
use epfl_ba6_os.Prelude.{
  ℕ, ◌≡◌, ◌≢◌, refl, sym, ap, ◌∙◌, some, Bool, true, false, not, ltb, ◌||◌, ◌&&◌, if◌then◌else◌,
  arith,
}
use epfl_ba6_os.Prelude.Int.{ℤ, eq_ℤ, ltb_ℤ}
use epfl_ba6_os.Sched.ListHead.{ListHead}
use epfl_ba6_os.Sched.Prio.{
  TaskParams, rt_prio, dummy_prio, rt_policy, nice_to_prio, task_nice, task_has_rt_policy,
  set_load_weight, effective_prio, dummy_sched_class, compute_normal_prio, __normal_prio,
}
use epfl_ba6_os.Sched.Machine.{Kernel, prio, on_rq, when, task_current}
use epfl_ba6_os.Sched.Core.{Sys, class_of_task}
use epfl_ba6_os.Sched.Core.Keeps.{
  Same, Same-refl, Same-trans, Post, Post-bind, Post-some, ClassesPreserve, enqueue_task-Same,
  dequeue_task-Same, when-Same,
}
use epfl_ba6_os.Sched.Core.Activate.{if-Same, resched-Same}
use epfl_ba6_os.Sched.Nice.{
  min_nice, max_nice, set_static_prio, update_prio, requeue_reniced, set_user_nice,
}

-- `effective_prio` of a task without a policy of real time.
effective_prio_lem :
    (n : ℕ) (t : TaskParams)
    → task_has_rt_policy t ≡ false
    → (effective_prio n t).0 ≡ (if rt_prio n then n else t.static_prio)
unfolding effective_prio compute_normal_prio __normal_prio
effective_prio_lem n t r = ground arith

effective_prio-kept :
    (n : ℕ) (t : TaskParams)
    → ((effective_prio n t).1.static_prio ≡ t.static_prio)
      × ((effective_prio n t).1.policy ≡ t.policy)
      × ((effective_prio n t).1.sched_class ≡ t.sched_class)
unfolding effective_prio
effective_prio-kept n t = ground arith

set_load_weight-kept :
    (t : TaskParams)
    → ((set_load_weight t).static_prio ≡ t.static_prio)
      × ((set_load_weight t).policy ≡ t.policy)
      × ((set_load_weight t).sched_class ≡ t.sched_class)
unfolding set_load_weight
set_load_weight-kept t = ground arith

-- The nice value is one, and not the task's.
abbrev pub is_new_nice : TaskParams → ℤ → Bool
is_new_nice t nice = not (eq_ℤ (task_nice t) nice || ltb_ℤ nice min_nice || ltb_ℤ max_nice nice)

module _ ⦃K : ListHead⦄ ⦃E : Kernel⦄ where
  -- Task `p`, whose priority was `old`, has got a static priority; its class is the dummy one if its
  -- priority is one of this class, and the old class otherwise.
  pub record IsReniced (s : Sys) (p static_prio : ℕ) (t : Sys) : Type 0 where
    pub static_set : (t.params p).static_prio ≡ static_prio
    pub prio_set : prio t p ≡ (if rt_prio (prio s p) then prio s p else static_prio)
    pub class_set :
        class_of_task t p ≡ (if dummy_prio (prio t p) then dummy_sched_class else class_of_task s p)
    pub same_policy : (t.params p).policy ≡ (s.params p).policy
    pub kept : (q : ℕ) → p ≢ q → (t.params q ≡ s.params q) × (prio t q ≡ prio s q)

  IsReniced-Same : (s t u : Sys) (p n : ℕ) → IsReniced s p n t → Same t u → IsReniced s p n u
  IsReniced-Same s t u p n h k =
      let e = k.params p in
      record {
        static_set = ap (λ (a : TaskParams). a.static_prio) e ∙ h.static_set;
        prio_set = k.prio p ∙ h.prio_set;
        class_set =
            ap (λ (a : TaskParams). a.sched_class) e
            ∙ h.class_set
            ∙ ap (λ x. if dummy_prio x then dummy_sched_class else class_of_task s p)
                (sym (k.prio p));
        same_policy = ap (λ (a : TaskParams). a.policy) e ∙ h.same_policy;
        kept = λ q d. (k.params q ∙ (h.kept q d).0, k.prio q ∙ (h.kept q d).1);
      }

  set_static_prio-kept :
      (t : Sys) (p : ℕ) (nice : ℤ)
      → (((set_static_prio t p nice).params p).static_prio ≡ nice_to_prio nice)
        × (((set_static_prio t p nice).params p).policy ≡ (t.params p).policy)
        × (class_of_task (set_static_prio t p nice) p ≡ class_of_task t p)
        × ((q : ℕ) → prio (set_static_prio t p nice) q ≡ prio t q)
        × ((q : ℕ) → p ≢ q → (set_static_prio t p nice).params q ≡ t.params q)
  unfolding set_static_prio
  set_static_prio-kept t p nice =
      let u = record (t.params p) { static_prio = nice_to_prio nice } in
      let k = set_load_weight-kept u in
      (
        ground (arith, k.0),
        ground (arith, k.1),
        ground (arith, k.2),
        (λ q. refl),
        λ q d. ground arith,
      )

  update_prio-set :
      (a : Sys) (p : ℕ)
      → (prio (update_prio a p) p ≡ (effective_prio (prio a p) (a.params p)).0)
        × (((update_prio a p).params p).static_prio
            ≡ (effective_prio (prio a p) (a.params p)).1.static_prio)
        × (((update_prio a p).params p).policy ≡ (effective_prio (prio a p) (a.params p)).1.policy)
        × (class_of_task (update_prio a p) p ≡ (
            if dummy_prio (effective_prio (prio a p) (a.params p)).0
            then dummy_sched_class
            else (effective_prio (prio a p) (a.params p)).1.sched_class))
        × ((q : ℕ)
            → p ≢ q
            → ((update_prio a p).params q ≡ a.params q) × (prio (update_prio a p) q ≡ prio a q))
  unfolding update_prio
  update_prio-set a p = ground arith

  -- The change itself.
  pub update_prio-IsReniced :
      (s t : Sys) (p : ℕ) (nice : ℤ)
      → task_has_rt_policy (s.params p) ≡ false
      → Same s t
      → IsReniced s p (nice_to_prio nice) (update_prio (set_static_prio t p nice) p)
  unfolding task_has_rt_policy
  update_prio-IsReniced s t p nice r h =
      let a = set_static_prio t p nice in
      let b = update_prio a p in
      let f = effective_prio (prio a p) (a.params p) in
      let k = set_static_prio-kept t p nice in
      let u = update_prio-set a p in
      let e = effective_prio-kept (prio a p) (a.params p) in
      let policy = k.1 ∙ ap (λ (x : TaskParams). x.policy) (h.params p) in
      let class = e.2 ∙ k.2 ∙ ap (λ (x : TaskParams). x.sched_class) (h.params p) in
      let n = effective_prio_lem (prio a p) (a.params p) (ap rt_policy policy ∙ r) in
      record {
        static_set = u.1 ∙ e.0 ∙ k.0;
        prio_set =
            u.0
            ∙ n
            ∙ ap (λ x. if rt_prio x then x else (a.params p).static_prio) (k.3 p ∙ h.prio p)
            ∙ ap (λ x. if rt_prio (prio s p) then prio s p else x) k.0;
        class_set =
            u.3
            ∙ ap (λ x. if dummy_prio x then dummy_sched_class else f.1.sched_class) (sym u.0)
            ∙ ap (λ x. if dummy_prio (prio b p) then dummy_sched_class else x) class;
        same_policy = u.2 ∙ e.1 ∙ policy;
        kept = λ q d. ((u.4 q d).0 ∙ k.4 q d ∙ h.params q, (u.4 q d).1 ∙ k.3 q ∙ h.prio q);
      }

  module _ (keep : ClassesPreserve) where
    requeue_reniced-Post :
        (s t : Sys) (p n old : ℕ)
        → IsReniced s p n t
        → Post (IsReniced s p n) (requeue_reniced old t p)
    unfolding requeue_reniced
    requeue_reniced-Post s t p n old h =
        Post-bind (Same t) (IsReniced s p n) _ _ (enqueue_task-Same keep t p 0) (λ u k.
          IsReniced-Same s t _ p n h (
            Same-trans k (
              if-Same (ltb (prio t p) old || ltb old (prio t p) && task_current u p)
                (resched-Same u u.rq.curr) (Same-refl u))))

    set_user_nice-Post :
        (s : Sys) (p : ℕ) (nice : ℤ)
        → task_has_rt_policy (s.params p) ≡ false
        → is_new_nice (s.params p) nice ≡ true
        → Post (IsReniced s p (nice_to_prio nice)) (set_user_nice s p nice)
    unfolding set_user_nice
    set_user_nice-Post s p nice r v =
        let v' : eq_ℤ (task_nice (s.params p)) nice || ltb_ℤ nice min_nice || ltb_ℤ max_nice nice
            ≡ false =
          ground arith in
        rw (v', r)
          (Post-bind (Same s) (IsReniced s p (nice_to_prio nice)) _ _
            (when-Same keep (on_rq s p) _ s (dequeue_task-Same keep s p 0))
            (λ t h. requeued (on_rq s p) (prio t p) _ (update_prio-IsReniced s t p nice r h)))
      where
        requeued :
            (b : Bool) (old : ℕ) (t : Sys)
            → IsReniced s p (nice_to_prio nice) t
            → Post (IsReniced s p (nice_to_prio nice)) (when b (λ u. requeue_reniced old u p) t)
        requeued true old t h = requeue_reniced-Post s t p (nice_to_prio nice) old h
        requeued false old t h = h

    -- Where the other classes keep to ClassesPreserve, and after a call of `set_user_nice` that
    -- returns, with a new nice value, of a task without a policy of real time: the static priority
    -- is that of the nice value, and so is the priority, unless this one is of real time. A task
    -- whose priority is one of the dummy class goes into this class; any other one stays in its
    -- class. The other tasks are as they were.
    pub set_user_nice-class :
        (s s' : Sys) (p : ℕ) (nice : ℤ)
        → task_has_rt_policy (s.params p) ≡ false
        → is_new_nice (s.params p) nice ≡ true
        → set_user_nice s p nice ≡ some s'
        → IsReniced s p (nice_to_prio nice) s'
    set_user_nice-class s s' p nice r v e =
        Post-some (IsReniced s p (nice_to_prio nice)) _ s' (set_user_nice-Post s p nice r v) e
