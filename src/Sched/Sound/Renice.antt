-- ===== src/Sched/Sound/Renice.antt =====
-- `set_user_nice` of core.c on a sound processor.
use epfl_ba6_os.Prelude.{
  ℕ, ◌≤◌, ◌<◌, ◌≡◌, ◌≢◌, refl, sym, ap, ◌∙◌, inl, inr, Bool, true, false, ltb, ◌||◌, ◌&&◌,
  Bool-cases, if◌then◌else◌, arith,
}
use epfl_ba6_os.Prelude.Int.{ℤ, eq_ℤ, ltb_ℤ}
use epfl_ba6_os.Sched.ListHead.{ListHead}
use epfl_ba6_os.Sched.Prio.{
  dummy_sched_class, TaskParams, rt_prio, dummy_prio, max_rt_prio, max_prio, min_dummy_prio,
  nice_to_prio, task_nice, task_has_rt_policy,
}
use epfl_ba6_os.Sched.Machine.{Kernel, when, prio, on_rq, task_current, resched}
use epfl_ba6_os.Sched.Core.{Sys, class_of_task}
use epfl_ba6_os.Sched.Core.Keeps.{Same, Same-trans}
use epfl_ba6_os.Sched.Core.Activate.{resched-Same}
use epfl_ba6_os.Sched.Nice.{
  min_nice, max_nice, set_static_prio, update_prio, requeue_reniced, set_user_nice,
}
use epfl_ba6_os.Sched.Nice.Renice.{IsReniced, update_prio-IsReniced}
use epfl_ba6_os.Sched.Nice.Writes.{
  nice_to_prio-range, set_static_prio-kept, update_prio-kept, reniced-normal,
}
use epfl_ba6_os.Sched.Sound.{
  Sure, Sure-bind, Sure-mono, IsLimited, IsFit, IsSound, Frame, KernelKeeps,
}
use epfl_ba6_os.Sched.Sound.Frames.{Frame-refl, Frame-queues, queues-resched}
use epfl_ba6_os.Sched.Sound.Alike.{Alike-of_Frame, IsFit-of, IsOff}
use epfl_ba6_os.Sched.Sound.Moves.{leave_queue, rejoin_queue}
use epfl_ba6_os.Sched.Sound.Touched.{IsSound-Touched, Touched-static}
use epfl_ba6_os.Sched.Sound.Policy.{
  Like-of_Same, Like-trans, IsSteady-of, Rewritten, IsOff-Rewritten,
}

-- The bounds after the change: `old` is the priority and `t` the task before, `u` the task after.
reniced-IsLimited :
    (t u : TaskParams) (old new nice : ℕ)
    → IsLimited t old
    → (max_rt_prio ≤ nice) × (nice < max_prio)
    → (t.sched_class ≡ dummy_sched_class → min_dummy_prio ≤ nice)
    → u.static_prio ≡ nice
    → u.normal_prio ≡ nice
    → new ≡ (if rt_prio old then old else nice)
    → u.sched_class ≡ (if dummy_prio new then dummy_sched_class else t.sched_class)
    → IsLimited u new
unfolding rt_prio dummy_prio
reniced-IsLimited t u old new nice l range stays es en e c = record {
  level = λ d. elim (Bool-cases (dummy_prio new)) [
    | inl y ↦ ground arith
    | inr n ↦
        let class : t.sched_class ≡ dummy_sched_class = sym (rw n at c) ∙ d in
        let high = l.level class in let low = stays class in ground arith
  ];
  boosted = ground arith;
  normal = ground arith;
  static = ground arith;
}

module _ ⦃K : ListHead⦄ ⦃E : Kernel⦄ where
  reniced-Rewritten :
      (s t : Sys) (p n : ℕ) (nice : ℤ)
      → IsReniced s p n (update_prio (set_static_prio t p nice) p)
      → Same s t
      → Rewritten t p (update_prio (set_static_prio t p nice) p)
  reniced-Rewritten s t p n nice r h =
      let a = set_static_prio t p nice in
      let k = set_static_prio-kept t p nice in
      let u = update_prio-kept a p in
      record {
        like = record {
          params = λ q d. (r.kept q d).0 ∙ sym (h.params q);
          on_rq = λ q. u.1 q ∙ ap (λ x. (x.tasks q).on_rq) k.0;
          curr = u.2 ∙ ap (λ x. x.curr) k.0;
          idle = u.3 ∙ k.1;
        };
        prio = λ q d. (r.kept q d).1 ∙ sym (h.prio q);
        queues = u.0 ∙ ap (λ x. x.queues) k.0;
      }

module _ ⦃K : ListHead⦄ ⦃E : Kernel⦄ (keep : KernelKeeps) where
  requeue_reniced-Sure :
      (s : Sys) (p old : ℕ) (b : Bool)
      → on_rq s p ≡ b
      → IsOff s p
      → IsLimited (s.params p) (prio s p)
      → Sure (λ t. Same s t × ((q : ℕ) → IsFit t q)) (when b (λ t. requeue_reniced old t p) s)
  unfolding requeue_reniced
  requeue_reniced-Sure s p old true e o l =
      Sure-bind _ _ (rejoin_queue keep s p 0 true e o l) (λ t h.
        let marked = ltb (prio s p) old || ltb old (prio s p) && task_current t p in
        let f =
          if-Frame marked t
            (Frame-queues (resched-Same t t.rq.curr) (queues-resched t t.rq.curr)) in
        (_, refl, (Same-trans h.0 f.same, λ q. IsFit-of q (Alike-of_Frame q f) (h.1 q))))
    where
      if-Frame :
          (b : Bool) (t : Sys)
          → Frame t (resched t t.rq.curr)
          → Frame t (if b then resched t t.rq.curr else t)
      if-Frame true t h = h
      if-Frame false t h = Frame-refl t
  requeue_reniced-Sure s p old false e o l = rejoin_queue keep s p 0 false e o l

  -- On a sound processor, and where the rest of the kernel keeps to KernelKeeps, a call of
  -- `set_user_nice` for a task other than the idle one returns and leaves the processor sound, if the
  -- task is not of the dummy class or the priority of the nice value is one of this class.
  pub set_user_nice-IsSound :
      (s : Sys) (p : ℕ) (nice : ℤ)
      → IsSound s
      → p ≢ s.idle
      → (class_of_task s p ≡ dummy_sched_class → min_dummy_prio ≤ nice_to_prio nice)
      → Sure IsSound (set_user_nice s p nice)
  unfolding set_user_nice
  set_user_nice-IsSound s p nice v d stays =
      elim (Bool-cases
        (eq_ℤ (task_nice (s.params p)) nice || ltb_ℤ nice min_nice || ltb_ℤ max_nice nice)) [
          | inl e ↦ rw e (s, refl, v)
          | inr e ↦
              let range = nice_to_prio-range nice (ground arith) in
              elim (Bool-cases (task_has_rt_policy (s.params p))) [
                | inl rt ↦
                    rw (e, rt)
                      (
                        _,
                        refl,
                        IsSound-Touched s _ (Touched-static s p (nice_to_prio nice) range.1) v,
                      )
                | inr rt ↦
                    rw (e, rt)
                      (Sure-bind _ _ (leave_queue keep s p v.fits) (λ t a.
                        let r = update_prio-IsReniced s t p nice rt a.0 in
                        let w = reniced-Rewritten s t p _ nice r a.0 in
                        let u = update_prio (set_static_prio t p nice) p in
                        let like = Like-trans p (Like-of_Same p a.0) w.like in
                        let normal =
                          reniced-normal t p nice (ap task_has_rt_policy (a.0.params p) ∙ rt) in
                        let l =
                          reniced-IsLimited (s.params p) (u.params p) (prio s p) (prio u p)
                            (nice_to_prio nice) (v.fits p).limited range stays r.static_set normal
                            r.prio_set r.class_set in
                        Sure-mono _
                          (λ x b. record {
                            fits = b.1;
                            steady =
                                IsSteady-of p d (Like-trans p like (Like-of_Same p b.0)) v.steady;
                          })
                          (requeue_reniced-Sure u p (prio t p) (on_rq s p) (like.on_rq p)
                            (IsOff-Rewritten p w a.1) l)))
              ]
        ]
