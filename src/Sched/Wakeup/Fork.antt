-- ===== src/Sched/Wakeup/Fork.antt =====
-- What `sched_fork` of core.c gives to a new task.
use epfl_ba6_os.Prelude.{
  ℕ, ◌≡◌, ◌≢◌, ◌≤◌, refl, sym, subst, ap, ◌∙◌, some, Bool, true, false, if◌then◌else◌, Bool-cases,
  inl, inr, arith,
}
use epfl_ba6_os.Sched.ListHead.{ListHead}
use epfl_ba6_os.Sched.Prio.{
  SchedClass, TaskParams, rt_prio, dummy_prio, rt_policy, dummy_sched_class, fair_sched_class,
  default_prio, task_has_rt_policy, nice_to_prio, prio_to_nice, __normal_prio, set_load_weight,
}
use epfl_ba6_os.Sched.Machine.{
  Kernel, prio, on_rq, set_class, set_prio, write_params, task_running_state,
}
use epfl_ba6_os.Sched.Core.{Sys, class_of_task}
use epfl_ba6_os.Sched.Core.Keeps.{Same, Post-mono, Post-some, ClassesPreserve, ops-Preserves}
use epfl_ba6_os.Sched.Wakeup.{
  sched_fork, start_child, reset_params, reset_static, reset_on_fork, choose_class,
}

-- The parameters of a child that does not take over those of its parent: the policy is not one of
-- real time, and the static priority is the default one or a lower one.
pub record IsReset (t : TaskParams) : Type 0 where
  pub not_rt : rt_policy t.policy ≡ false
  pub not_above : default_prio ≤ t.static_prio
  pub own_prio : t.normal_prio ≡ t.static_prio
  pub flag_cleared : t.sched_reset_on_fork ≡ false

pub reset_params-IsReset : (t : TaskParams) → IsReset (reset_params t)
unfolding reset_params reset_static task_has_rt_policy nice_to_prio prio_to_nice __normal_prio
    set_load_weight rt_policy
reset_params-IsReset t = record {
  not_rt = ground arith;
  not_above = ground arith;
  own_prio = ground arith;
  flag_cleared = ground arith;
}

module _ ⦃K : ListHead⦄ ⦃E : Kernel⦄ where
  -- What the fork of task `p` does to the state, but for the class.
  pub record IsForked (s : Sys) (p : ℕ) (t : Sys) : Type 0 where
    pub off_queue : on_rq t p ≡ false
    pub running_state : (t.params p).state ≡ task_running_state
    pub flag_cleared : (t.params p).sched_reset_on_fork ≡ false
    pub reset :
        (s.params p).sched_reset_on_fork ≡ true
        → IsReset (t.params p) × (prio t p ≡ (t.params p).static_prio)
    pub inherited :
        (s.params p).sched_reset_on_fork ≡ false
        → (prio t p ≡ (s.params s.rq.curr).normal_prio)
          × ((t.params p).policy ≡ (s.params p).policy)
    pub kept : (q : ℕ) → p ≢ q → (t.params q ≡ s.params q) × (prio t q ≡ prio s q)

  -- The class is that of the priority, unless this is one of real time.
  abbrev pub HasOwnClass : Sys → ℕ → Type 0
  HasOwnClass t p =
      rt_prio (prio t p) ≡ false
      → class_of_task t p ≡ (if dummy_prio (prio t p) then dummy_sched_class else fair_sched_class)

  -- The state after the first lines of it.
  record IsStarted (s : Sys) (p : ℕ) (t : Sys) : Type 0 where
    off_queue : on_rq t p ≡ false
    running_state : (t.params p).state ≡ task_running_state
    flag : (t.params p).sched_reset_on_fork ≡ (s.params p).sched_reset_on_fork
    same_policy : (t.params p).policy ≡ (s.params p).policy
    inherited : prio t p ≡ (s.params s.rq.curr).normal_prio
    kept : (q : ℕ) → p ≢ q → (t.params q ≡ s.params q) × (prio t q ≡ prio s q)

  start_child-IsStarted : (s : Sys) (p : ℕ) → IsStarted s p (start_child s p)
  unfolding start_child
  start_child-IsStarted s p = record {
    off_queue = ground arith;
    running_state = ground arith;
    flag = ground arith;
    same_policy = ground arith;
    inherited = ground arith;
    kept = λ q d. ground arith;
  }

  reset_params-state : (t : TaskParams) → (reset_params t).state ≡ t.state
  unfolding reset_params reset_static set_load_weight
  reset_params-state t = ground arith

  reset-IsForked :
      (s t : Sys) (p : ℕ)
      → (s.params p).sched_reset_on_fork ≡ true
      → IsStarted s p t
      → IsForked s p (
          set_prio
            (write_params t p (reset_params (t.params p)))
            p
            (reset_params (t.params p)).normal_prio)
  reset-IsForked s t p f h =
      let r = reset_params-IsReset (t.params p) in
      record {
        off_queue = ground (arith, h.off_queue);
        running_state = ground (arith, h.running_state, reset_params-state (t.params p));
        flag_cleared = ground (arith, r.flag_cleared);
        reset = λ g. (subst IsReset (ground arith) r, ground (arith, r.own_prio));
        inherited = λ g. cc;
        kept = λ q d. ground (arith, h.kept q d);
      }

  if-IsForked :
      (s a b : Sys) (p : ℕ) (c : Bool)
      → (c ≡ true → IsForked s p a)
      → (c ≡ false → IsForked s p b)
      → IsForked s p (if c then a else b)
  if-IsForked s a b p true ha hb = ha refl
  if-IsForked s a b p false ha hb = hb refl

  reset_on_fork-IsForked : (s t : Sys) (p : ℕ) → IsStarted s p t → IsForked s p (reset_on_fork t p)
  unfolding reset_on_fork
  reset_on_fork-IsForked s t p h =
      if-IsForked s _ _ p (t.params p).sched_reset_on_fork
        (λ f. reset-IsForked s t p (sym h.flag ∙ f) h)
        (λ f. record {
          off_queue = h.off_queue;
          running_state = h.running_state;
          flag_cleared = f;
          reset = λ g. cc;
          inherited = λ g. (h.inherited, h.same_policy);
          kept = h.kept;
        })

  IsReset-class :
      (t : TaskParams) (c : SchedClass) → IsReset t → IsReset (record t { sched_class = c })
  IsReset-class t c h = record {
    not_rt = h.not_rt;
    not_above = h.not_above;
    own_prio = h.own_prio;
    flag_cleared = h.flag_cleared;
  }

  IsForked-class :
      (s t : Sys) (p : ℕ) (c : SchedClass) → IsForked s p t → IsForked s p (set_class t p c)
  IsForked-class s t p c h = record {
    off_queue = h.off_queue;
    running_state = ground (arith, h.running_state);
    flag_cleared = ground (arith, h.flag_cleared);
    reset = λ f. (
      subst IsReset (ground arith) (IsReset-class (t.params p) c (h.reset f).0),
      ground (arith, (h.reset f).1),
    );
    inherited = λ f. ground (arith, h.inherited f);
    kept = λ q d. ground (arith, h.kept q d);
  }

  choose_class-IsForked : (s t : Sys) (p : ℕ) → IsForked s p t → IsForked s p (choose_class t p)
  unfolding choose_class
  choose_class-IsForked s t p h =
      if-IsForked s _ _ p (rt_prio (prio t p)) (λ e. h)
        (λ e.
          if-IsForked s _ _ p (dummy_prio (prio t p))
            (λ d. IsForked-class s t p dummy_sched_class h)
            (λ d. IsForked-class s t p fair_sched_class h))

  choose_class-HasOwnClass : (t : Sys) (p : ℕ) → HasOwnClass (choose_class t p) p
  unfolding choose_class
  choose_class-HasOwnClass t p = elim (Bool-cases (rt_prio (prio t p))) [
    | inl e ↦ rw e (λ h. cc)
    | inr e ↦ elim (Bool-cases (dummy_prio (prio t p))) [
      | inl d ↦ rw (e, d) (λ h. ground arith)
      | inr d ↦ rw (e, d) (λ h. ground arith)
    ]
  ]

  IsForked-Same : (s t u : Sys) (p : ℕ) → IsForked s p t → Same t u → IsForked s p u
  IsForked-Same s t u p h k =
      let e = k.params p in
      record {
        off_queue = k.on_rq p ∙ h.off_queue;
        running_state = ap (λ (a : TaskParams). a.state) e ∙ h.running_state;
        flag_cleared = ap (λ (a : TaskParams). a.sched_reset_on_fork) e ∙ h.flag_cleared;
        reset = λ f. (
          subst IsReset (sym e) (h.reset f).0,
          k.prio p ∙ (h.reset f).1 ∙ sym (ap (λ (a : TaskParams). a.static_prio) e),
        );
        inherited = λ f.
            (k.prio p ∙ (h.inherited f).0, ap (λ (a : TaskParams). a.policy) e ∙ (h.inherited f).1);
        kept = λ q d. (k.params q ∙ (h.kept q d).0, k.prio q ∙ (h.kept q d).1);
      }

  HasOwnClass-Same : (t u : Sys) (p : ℕ) → HasOwnClass t p → Same t u → HasOwnClass u p
  HasOwnClass-Same t u p h k f =
      ap (λ (a : TaskParams). a.sched_class) (k.params p)
      ∙ h (sym (ap rt_prio (k.prio p)) ∙ f)
      ∙ ap (λ n. if dummy_prio n then dummy_sched_class else fair_sched_class) (sym (k.prio p))

  -- Where the other classes keep to ClassesPreserve, `sched_fork`, if it returns, leaves the new
  -- task off the run queue, in the running state and with the class of its priority, unless this is
  -- one of real time. The flag of the reset is off in the child: where it was on, the child has a
  -- policy other than those of real time and a nice value of 0 or more; where it was off, the child
  -- has the parent's normal priority and the copied policy. The other tasks are as they were.
  pub sched_fork-child :
      (keep : ClassesPreserve) (s s' : Sys) (p : ℕ)
      → sched_fork s p ≡ some s'
      → IsForked s p s' × HasOwnClass s' p
  unfolding sched_fork
  sched_fork-child keep s s' p e =
      let forked = choose_class (reset_on_fork (start_child s p) p) p in
      let child =
        choose_class-IsForked s _ p
          (reset_on_fork-IsForked s (start_child s p) p (start_child-IsStarted s p)) in
      let own = choose_class-HasOwnClass (reset_on_fork (start_child s p) p) p in
      Post-some (λ u. IsForked s p u × HasOwnClass u p) _ s'
        (Post-mono (Same forked) (λ u. IsForked s p u × HasOwnClass u p) _
          (λ u k. (IsForked-Same s forked u p child k, HasOwnClass-Same forked u p own k))
          ((ops-Preserves keep (class_of_task forked p)).forks forked p))
        e
