-- ===== src/Sched/SetScheduler/Granted.antt =====
-- The state after a change by `__setscheduler`, and after a call of `__sched_setscheduler` that has
-- been granted.
use epfl_ba6_os.Prelude.{ℕ, ◌≡◌, ◌≢◌, refl, ap, ◌∙◌, Bool, true, not, ◌&&◌, ◌||◌, arith, ◌==◌}
use epfl_ba6_os.Sched.ListHead.{ListHead}
use epfl_ba6_os.Sched.Prio.{TaskParams, rt_policy, set_load_weight}
use epfl_ba6_os.Sched.Machine.{Kernel, prio, on_rq, write_params, task_current}
use epfl_ba6_os.Sched.Core.{Sys, class_of_task}
use epfl_ba6_os.Sched.Core.Keeps.{Same, Post, ClassesPreserve}
use epfl_ba6_os.Sched.SetScheduler.{class_of_prio, __setscheduler, change_scheduler}
use epfl_ba6_os.Sched.SetScheduler.Classes.{
  IsClassFor-same, class_of_prio-IsClassFor, IsClassed, Same-IsClassed, Steady, off-Post, back-Post,
}

module _ ⦃K : ListHead⦄ ⦃E : Kernel⦄ where
  -- Task `p` has got a policy and a real-time priority, and the class of its new priority; the other
  -- tasks are as they were.
  pub record IsChanged (s : Sys) (p policy rt_priority : ℕ) (t : Sys) : Type 0 where
    pub policy_set : (t.params p).policy ≡ policy
    pub rt_set : (t.params p).rt_priority ≡ rt_priority
    pub classed : IsClassed t p
    pub kept_params : (q : ℕ) → p ≢ q → t.params q ≡ s.params q
    pub kept_prio : (q : ℕ) → p ≢ q → prio t q ≡ prio s q

  pub IsChanged-Same :
      {s : Sys} {p policy rtp : ℕ} {t u : Sys}
      → Same t u
      → IsChanged s p policy rtp t
      → IsChanged s p policy rtp u
  IsChanged-Same {s} {p} {policy} {rtp} {t} {u} k h = record {
    policy_set = ap (λ (a : TaskParams). a.policy) (k.params p) ∙ h.policy_set;
    rt_set = ap (λ (a : TaskParams). a.rt_priority) (k.params p) ∙ h.rt_set;
    classed = Same-IsClassed t u p k h.classed;
    kept_params = λ q d. k.params q ∙ h.kept_params q d;
    kept_prio = λ q d. k.prio q ∙ h.kept_prio q d;
  }

  setscheduler-IsChanged :
      (s t : Sys) (p policy rtp : ℕ) (reset : Bool)
      → Same s t
      → IsChanged s p policy rtp (
          __setscheduler
            (write_params t p (record (t.params p) { sched_reset_on_fork = reset }))
            p
            policy
            rtp)
  unfolding __setscheduler set_load_weight
  setscheduler-IsChanged s t p policy rtp reset h = record {
    policy_set = ground arith;
    rt_set = ground arith;
    classed = IsClassFor-same own refl (class_of_prio-IsClassFor (prio changed p));
    kept_params = λ q d. ground (arith, h.params q);
    kept_prio = λ q d. ground (arith, h.prio q);
  }
    where
      changed : Sys
      changed =
          __setscheduler (write_params t p (record (t.params p) { sched_reset_on_fork = reset })) p
            policy rtp

      own : class_of_task changed p ≡ class_of_prio (prio changed p)
      own = ground arith

  module _ (keep : ClassesPreserve) where
    pub change_scheduler-Post :
        (s : Sys) (p policy rtp : ℕ) (reset : Bool)
        → Post (IsChanged s p policy rtp) (change_scheduler s p policy rtp reset)
    unfolding change_scheduler
    change_scheduler-Post s p policy rtp reset =
        off-Post keep (IsChanged s p policy rtp) _ (on_rq s p) (task_current s p) s p (λ t h.
          back-Post keep (IsChanged s p policy rtp) (on_rq s p) (task_current s p) _ p _ _ _
            (λ a b k m. IsChanged-Same k m) (setscheduler-IsChanged s t p policy rtp reset h))

  -- The task has its policy and its priorities but the effective one, which it may inherit, and has
  -- still the class of its priority.
  pub record IsKept (s : Sys) (q : ℕ) (t : Sys) : Type 0 where
    pub policy : (t.params q).policy ≡ (s.params q).policy
    pub rt_priority : (t.params q).rt_priority ≡ (s.params q).rt_priority
    pub static_prio : (t.params q).static_prio ≡ (s.params q).static_prio
    pub normal_prio : (t.params q).normal_prio ≡ (s.params q).normal_prio
    pub classed : IsClassed s q → IsClassed t q

  -- The call has been granted: the task has the policy, and for a policy of real time also the
  -- priority, and keeps a class that fits its priority.
  pub record IsGranted (s : Sys) (p policy rt_priority : ℕ) (t : Sys) : Type 0 where
    pub policy_set : (t.params p).policy ≡ policy
    pub rt_set : rt_policy policy ≡ true → (t.params p).rt_priority ≡ rt_priority
    pub classed : IsClassed s p → IsClassed t p
    pub kept : (q : ℕ) → p ≢ q → IsKept s q t

  -- Where the lock's side has boosted tasks after the change.
  pub IsGranted-changed :
      (s : Sys) (p policy rtp : ℕ) (t u : Sys)
      → IsChanged s p policy rtp t
      → Steady t u
      → IsGranted s p policy rtp u
  IsGranted-changed s p policy rtp t u h k = record {
    policy_set = k.policy p ∙ h.policy_set;
    rt_set = λ r. k.rt_priority p ∙ h.rt_set;
    classed = λ c. k.classed p h.classed;
    kept = λ q d. record {
      policy = k.policy q ∙ ap (λ (a : TaskParams). a.policy) (h.kept_params q d);
      rt_priority = k.rt_priority q ∙ ap (λ (a : TaskParams). a.rt_priority) (h.kept_params q d);
      static_prio = k.static_prio q ∙ ap (λ (a : TaskParams). a.static_prio) (h.kept_params q d);
      normal_prio = k.normal_prio q ∙ ap (λ (a : TaskParams). a.normal_prio) (h.kept_params q d);
      classed = λ c. k.classed q (
          IsClassFor-same (ap (λ (a : TaskParams). a.sched_class) (h.kept_params q d))
            (h.kept_prio q d) c);
    };
  }

  pub IsGranted-same :
      (s : Sys) (p policy rtp : ℕ)
      → policy == (s.params p).policy && (not (rt_policy policy) || rtp == (s.params p).rt_priority)
        ≡ true
      → IsGranted s p policy rtp s
  IsGranted-same s p policy rtp h = record {
    policy_set = ground arith;
    rt_set = λ r. ground arith;
    classed = λ c. c;
    kept = λ q d. record {
      policy = refl;
      rt_priority = refl;
      static_prio = refl;
      normal_prio = refl;
      classed = λ c. c;
    };
  }
