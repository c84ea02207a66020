-- ===== src/Sched/SetScheduler/Classes.antt =====
-- The class of a task after its priority or policy has been changed by core.c.
use epfl_ba6_os.Prelude.{
  ℕ, ◌≤◌, ◌<◌, ◌≡◌, ◌≢◌, refl, ap, ◌∙◌, ◌⊎◌, ==_iff, subst, Option, some, Bool, true, false,
  Bool-cases, inl, inr, arith, ◌>>=◌, ◌==◌, ltb,
}
use epfl_ba6_os.Sched.ListHead.{ListHead}
use epfl_ba6_os.Sched.Prio.{
  SchedClass, rt_sched_class, fair_sched_class, dummy_sched_class, TaskParams, max_prio, rt_prio,
  dummy_prio,
}
use epfl_ba6_os.Sched.Machine.{Kernel, prio, on_rq, set_prio, set_class, task_current, when}
use epfl_ba6_os.Sched.Core.{
  Sys, class_of_task, task_ops, enqueue_task, dequeue_task, put_prev_task, check_class_changed,
}
use epfl_ba6_os.Sched.Core.Keeps.{
  Same, Same-then, Post, Post-bind, Post-mono, Post-some, KeepsSame, ClassesPreserve,
  enqueue_task-Same, dequeue_task-Same, put_prev_task-Same, set_curr_task-Same, when-Same,
  check_class_changed-Same,
}
use epfl_ba6_os.Sched.SetScheduler.{class_of_prio, rt_mutex_setprio}

same_or_not : (a b : ℕ) → (a ≡ b) ⊎ (a ≢ b)
same_or_not a b = elim (Bool-cases (a == b)) [
  | inl e ↦ inl ((==_iff a b).0 e)
  | inr e ↦ inr (λ k. absurd (ground arith))
]

-- The class that a priority stands for: below 100 that of real time, from 135 on the dummy one, and
-- the fair one between.
pub record IsClassFor (c : SchedClass) (n : ℕ) : Type 0 where
  pub real_time : n < 100 → c ≡ rt_sched_class
  pub fair : 100 ≤ n → n < 135 → c ≡ fair_sched_class
  pub dummy : 135 ≤ n → c ≡ dummy_sched_class

pub IsClassFor-same : {c d : SchedClass} {n m : ℕ} → d ≡ c → m ≡ n → IsClassFor c n → IsClassFor d m
IsClassFor-same e f h = record {
  real_time = λ l. e ∙ h.real_time (rw (← f) l);
  fair = λ l k. e ∙ h.fair (rw (← f) l) (rw (← f) k);
  dummy = λ l. e ∙ h.dummy (rw (← f) l);
}

pub class_of_prio-IsClassFor : (n : ℕ) → IsClassFor (class_of_prio n) n
unfolding class_of_prio rt_prio dummy_prio
class_of_prio-IsClassFor n = record {
  real_time = λ h. ground arith;
  fair = λ h k. ground arith;
  dummy = λ h. ground arith;
}

module _ ⦃K : ListHead⦄ ⦃E : Kernel⦄ where
  -- The class of a task is that of its priority.
  abbrev pub IsClassed : Sys → ℕ → Type 0
  IsClassed s p = IsClassFor (class_of_task s p) (prio s p)

  -- Task `p` has got the priority `n` and its class; the other tasks are as they were.
  pub record Moved (s : Sys) (p n : ℕ) (t : Sys) : Type 0 where
    pub new_prio : prio t p ≡ n
    pub new_params : t.params p ≡ record (s.params p) { sched_class = class_of_prio n }
    pub kept_params : (q : ℕ) → p ≢ q → t.params q ≡ s.params q
    pub kept_prio : (q : ℕ) → p ≢ q → prio t q ≡ prio s q

  pub Same-IsClassed : (s t : Sys) (p : ℕ) → Same s t → IsClassed s p → IsClassed t p
  Same-IsClassed s t p h c =
      IsClassFor-same (ap (λ (a : TaskParams). a.sched_class) (h.params p)) (h.prio p) c

  Moved-Same : {s : Sys} {p n : ℕ} {t u : Sys} → Moved s p n t → Same t u → Moved s p n u
  Moved-Same {s} {p} {n} {t} {u} h k = record {
    new_prio = k.prio p ∙ h.new_prio;
    new_params = k.params p ∙ h.new_params;
    kept_params = λ q d. k.params q ∙ h.kept_params q d;
    kept_prio = λ q d. k.prio q ∙ h.kept_prio q d;
  }

  Moved-set :
      (s t : Sys) (p n : ℕ)
      → Same s t
      → Moved s p n (set_prio (set_class t p (class_of_prio n)) p n)
  Moved-set s t p n h = record {
    new_prio = ground arith;
    new_params = ground (arith, h.params p);
    kept_params = λ q d. ground (arith, h.params q);
    kept_prio = λ q d. ground (arith, h.prio q);
  }

  -- The policies and the priorities but the effective ones are as they were, and a task whose class
  -- was that of its priority has such a class again.
  pub record Steady (s t : Sys) : Type 0 where
    pub policy : (q : ℕ) → (t.params q).policy ≡ (s.params q).policy
    pub rt_priority : (q : ℕ) → (t.params q).rt_priority ≡ (s.params q).rt_priority
    pub static_prio : (q : ℕ) → (t.params q).static_prio ≡ (s.params q).static_prio
    pub normal_prio : (q : ℕ) → (t.params q).normal_prio ≡ (s.params q).normal_prio
    pub classed : (q : ℕ) → IsClassed s q → IsClassed t q

  pub Steady-refl : (s : Sys) → Steady s s
  Steady-refl s = record {
    policy = λ q. refl;
    rt_priority = λ q. refl;
    static_prio = λ q. refl;
    normal_prio = λ q. refl;
    classed = λ q c. c;
  }

  pub Steady-trans : {s t u : Sys} → Steady s t → Steady t u → Steady s u
  Steady-trans h k = record {
    policy = λ q. k.policy q ∙ h.policy q;
    rt_priority = λ q. k.rt_priority q ∙ h.rt_priority q;
    static_prio = λ q. k.static_prio q ∙ h.static_prio q;
    normal_prio = λ q. k.normal_prio q ∙ h.normal_prio q;
    classed = λ q c. k.classed q (h.classed q c);
  }

  -- A field of the parameters that is not the class.
  same_field :
      {A : Type 0} (field : TaskParams → A) {s t : Sys} {p n : ℕ}
      → ((a : TaskParams) → field (record a { sched_class = class_of_prio n }) ≡ field a)
      → Moved s p n t
      → (q : ℕ) → field (t.params q) ≡ field (s.params q)
  same_field field {s} {t} {p} {n} k m q = elim (same_or_not p q) [
    | inl e ↦ (let own = ap field m.new_params ∙ k (s.params p) in rw (← e) own)
    | inr d ↦ ap field (m.kept_params q d)
  ]

  Moved-Steady : {s t : Sys} {p n : ℕ} → Moved s p n t → Steady s t
  Moved-Steady {s} {t} {p} {n} m = record {
    policy = same_field (λ a. a.policy) (λ a. refl) m;
    rt_priority = same_field (λ a. a.rt_priority) (λ a. refl) m;
    static_prio = same_field (λ a. a.static_prio) (λ a. refl) m;
    normal_prio = same_field (λ a. a.normal_prio) (λ a. refl) m;
    classed = λ q c. (elim (same_or_not p q) [
      | inl e ↦ subst (IsClassed t) e (
          IsClassFor-same (ap (λ (a : TaskParams). a.sched_class) m.new_params) m.new_prio
            (class_of_prio-IsClassFor n))
      | inr d ↦
          IsClassFor-same (ap (λ (a : TaskParams). a.sched_class) (m.kept_params q d))
            (m.kept_prio q d) c
    ]);
  }

  module _ (keep : ClassesPreserve) where
    -- The task is taken off the run queue, and the class is told that it does not run any more.
    pub off-Post :
        (Q : Sys → Type 0) (k : Sys → Option Sys) (queued running : Bool) (s : Sys) (p : ℕ)
        → ((t : Sys) → Same s t → Post Q (k t))
        → Post Q (
            when queued (λ t. dequeue_task t p 0) s >>= λ s1.
            when running (λ t. put_prev_task t p) s1 >>= k)
    off-Post Q k queued running s p h =
        Post-bind (Same s) Q _ _ (when-Same keep queued _ s (dequeue_task-Same keep s p 0)) (λ a ha.
          Post-bind (Same s) Q _ k
            (Same-then _ ha (when-Same keep running _ a (put_prev_task-Same keep a p))) h)

    -- The opposite, and the news for the classes.
    pub back-Post :
        (P : Sys → Type 0) (queued running : Bool) (t : Sys) (p flags : ℕ) (c : SchedClass)
        (old : ℕ)
        → ((a b : Sys) → Same a b → P a → P b)
        → P t
        → Post P (
            when running (λ u. (task_ops u p).set_curr_task u) t >>= λ s1.
            when queued (λ u. enqueue_task u p flags) s1 >>= λ s2. check_class_changed s2 p c old)
    back-Post P queued running t p flags c old stable h =
        Post-bind P P _ _
          (then_keep t h _ (when-Same keep running _ t (set_curr_task-Same keep t p)))
          (λ a ha.
            Post-bind P P _ _
              (then_keep a ha _ (when-Same keep queued _ a (enqueue_task-Same keep a p flags)))
              (λ b hb. then_keep b hb _ (check_class_changed-Same keep b p c old)))
      where
        then_keep : (a : Sys) → P a → (m : Option Sys) → KeepsSame a m → Post P m
        then_keep a ha m k = Post-mono (Same a) P m (λ b e. stable a b e ha) k

    rt_mutex_setprio-Post :
        (s : Sys) (p n : ℕ) → (p == s.idle) ≡ false → Post (Moved s p n) (rt_mutex_setprio s p n)
    unfolding rt_mutex_setprio
    rt_mutex_setprio-Post s p n d = elim (Bool-cases (ltb max_prio n)) [
      | inl e ↦ rw e tt
      | inr e ↦
          rw (e, d)
            (off-Post (Moved s p n) _ (on_rq s p) (task_current s p) s p (λ t h.
              back-Post (Moved s p n) (on_rq s p) (task_current s p) _ p _ _ _
                (λ a b k m. Moved-Same m k) (Moved-set s t p n h)))
    ]

    setprio_cases :
        (s s' : Sys) (p n : ℕ)
        → rt_mutex_setprio s p n ≡ some s'
        → (p ≢ s.idle → Moved s p n s') × (p ≡ s.idle → s' ≡ s)
    unfolding rt_mutex_setprio
    setprio_cases s s' p n e = (
      (λ d. Post-some (Moved s p n) _ s' (rt_mutex_setprio-Post s p n (ground arith)) e),
      (λ i. elim (Bool-cases (ltb max_prio n)) [
        | inl b ↦ absurd (cc (rw b at e))
        | inr b ↦
            (let same : (p == s.idle) ≡ true = ground arith in
              let k : some s ≡ some s' = rw (b, same) at e in cc)
      ]),
    )

    -- What the change of a priority leaves alone.
    pub rt_mutex_setprio-Steady :
        (s s' : Sys) (p n : ℕ) → rt_mutex_setprio s p n ≡ some s' → Steady s s'
    rt_mutex_setprio-Steady s s' p n e = elim (same_or_not p s.idle) [
      | inl i ↦ (let same = (setprio_cases s s' p n e).1 i in rw same (Steady-refl s))
      | inr d ↦ Moved-Steady ((setprio_cases s s' p n e).0 d)
    ]

    -- Where the other classes keep to ClassesPreserve, a call of `rt_mutex_setprio` that returns, for
    -- a task that is not the idle one, gives it the priority and the class that this priority stands
    -- for, whatever its class was, and leaves its policy, its other priorities and every other task
    -- as they were; for the idle task it changes nothing.
    pub rt_mutex_setprio-Moved :
        (s s' : Sys) (p n : ℕ)
        → rt_mutex_setprio s p n ≡ some s'
        → (p ≢ s.idle
            → (prio s' p ≡ n)
              × IsClassFor (class_of_task s' p) n
              × ((s'.params p).policy ≡ (s.params p).policy)
              × ((s'.params p).rt_priority ≡ (s.params p).rt_priority)
              × ((s'.params p).static_prio ≡ (s.params p).static_prio)
              × ((s'.params p).normal_prio ≡ (s.params p).normal_prio)
              × ((q : ℕ) → p ≢ q → (s'.params q ≡ s.params q) × (prio s' q ≡ prio s q)))
          × (p ≡ s.idle → s' ≡ s)
    rt_mutex_setprio-Moved s s' p n e =
        let h = setprio_cases s s' p n e in
        (
          λ d.
              (let m = h.0 d in
                (
                  m.new_prio,
                  IsClassFor-same (ap (λ (a : TaskParams). a.sched_class) m.new_params) refl
                      (class_of_prio-IsClassFor n),
                  ap (λ (a : TaskParams). a.policy) m.new_params,
                  ap (λ (a : TaskParams). a.rt_priority) m.new_params,
                  ap (λ (a : TaskParams). a.static_prio) m.new_params,
                  ap (λ (a : TaskParams). a.normal_prio) m.new_params,
                  (λ q k. (m.kept_params q k, m.kept_prio q k)),
                )),
          h.1,
        )
