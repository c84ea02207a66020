-- ===== src/Sched/Wakeup/Woken.antt =====
-- What `try_to_wake_up` of core.c does to a task.
use Prim.Native.Nat.{bit_and}
use epfl_ba6_os.Prelude.{
  ℕ, ◌≡◌, ◌≢◌, refl, sym, ◌∙◌, subst, Option, none, some, Bool, true, false, not, ◌==◌, ◌>>=◌,
  Bool-cases, inl, inr, arith,
}
use epfl_ba6_os.Sched.ListHead.{ListHead}
use epfl_ba6_os.Sched.Machine.{
  Kernel, prio, on_rq, set_on_rq, set_state, enqueue_wakeup, task_running_state,
}
use epfl_ba6_os.Sched.Core.{Sys}
use epfl_ba6_os.Sched.Core.Keeps.{Same, Post, Post-bind, ClassesPreserve}
use epfl_ba6_os.Sched.Core.Activate.{check_preempt_curr-Same, activate_task-Same}
use epfl_ba6_os.Sched.Wakeup.{
  ttwu_activate, ttwu_do_wakeup, ttwu_do_activate, ttwu_remote, queue_unless, try_to_wake_up,
}

module _ ⦃K : ListHead⦄ ⦃E : Kernel⦄ where
  -- Task `p` is runnable and in the running state; nothing else has changed in the tasks' fields.
  pub record IsWoken (s : Sys) (p : ℕ) (t : Sys) : Type 0 where
    pub runnable : on_rq t p ≡ true
    pub running_state : (t.params p).state ≡ task_running_state
    pub kept_params : (q : ℕ) → p ≢ q → t.params q ≡ s.params q
    pub kept_on_rq : (q : ℕ) → p ≢ q → on_rq t q ≡ on_rq s q
    pub kept_prio : (q : ℕ) → prio t q ≡ prio s q
    pub kept_curr : t.rq.curr ≡ s.rq.curr

  -- The same, but for the state of the task.
  record IsQueuedUp (s : Sys) (p : ℕ) (t : Sys) : Type 0 where
    runnable : on_rq t p ≡ true
    kept_params : (q : ℕ) → t.params q ≡ s.params q
    kept_on_rq : (q : ℕ) → p ≢ q → on_rq t q ≡ on_rq s q
    kept_prio : (q : ℕ) → prio t q ≡ prio s q
    kept_curr : t.rq.curr ≡ s.rq.curr

  set_on_rq-IsQueuedUp : (s t : Sys) (p : ℕ) → Same s t → IsQueuedUp s p (set_on_rq t p true)
  set_on_rq-IsQueuedUp s t p h = record {
    runnable = ground arith;
    kept_params = h.params;
    kept_on_rq = λ q d. ground (arith, h.on_rq q);
    kept_prio = λ q. ground (arith, h.prio q);
    kept_curr = h.curr;
  }

  set_state-IsWoken :
      (s t u : Sys) (p : ℕ)
      → IsQueuedUp s p t
      → Same t u
      → IsWoken s p (set_state u p task_running_state)
  set_state-IsWoken s t u p h k = record {
    runnable = k.on_rq p ∙ h.runnable;
    running_state = ground arith;
    kept_params = λ q d. ground (arith, h.kept_params q, k.params q);
    kept_on_rq = λ q d. k.on_rq q ∙ h.kept_on_rq q d;
    kept_prio = λ q. k.prio q ∙ h.kept_prio q;
    kept_curr = k.curr ∙ h.kept_curr;
  }

  module _ (keep : ClassesPreserve) where
    do_wakeup-IsWoken :
        (s t : Sys) (p flags : ℕ) → IsQueuedUp s p t → Post (IsWoken s p) (ttwu_do_wakeup t p flags)
    unfolding ttwu_do_wakeup
    do_wakeup-IsWoken s t p flags h =
        Post-bind (Same t) (IsWoken s p) _ _ (check_preempt_curr-Same keep t p flags)
          (λ u k. set_state-IsWoken s t u p h k)

    do_activate-IsWoken : (s : Sys) (p flags : ℕ) → Post (IsWoken s p) (ttwu_do_activate s p flags)
    unfolding ttwu_do_activate ttwu_activate
    do_activate-IsWoken s p flags =
        Post-bind (IsQueuedUp s p) (IsWoken s p) _ _
          (Post-bind (Same s) (IsQueuedUp s p) _ _ (activate_task-Same keep s p enqueue_wakeup)
            (λ t h. set_on_rq-IsQueuedUp s t p h))
          (λ t h. do_wakeup-IsWoken s t p flags h)

    -- What holds of the result of `try_to_wake_up`.
    abbrev pub Woken : Sys → ℕ → Bool → Option (Bool × Sys) → Type 0
    Woken s p match none = Unit
    Woken s p match (some (true, t)) = (match ≡ true) × IsWoken s p t
    Woken s p match (some (false, t)) = (match ≡ false) × (t ≡ s)

    queued_up : (s : Sys) (p : ℕ) → on_rq s p ≡ true → IsQueuedUp s p s
    queued_up s p h = record {
      runnable = h;
      kept_params = λ q. refl;
      kept_on_rq = λ q d. refl;
      kept_prio = λ q. refl;
      kept_curr = refl;
    }

    Woken-activated :
        (s : Sys) (p : ℕ) (m : Option Sys)
        → Post (IsWoken s p) m
        → Woken s p true (m >>= λ t. some (true, t))
    Woken-activated s p none h = tt
    Woken-activated s p (some t) h = (refl, h)

    Woken-remote :
        (s : Sys) (p flags : ℕ) (m : Option Sys)
        → Post (IsWoken s p) m
        → Woken s p true (m >>= (λ t. some (true, t)) >>= queue_unless p flags)
    unfolding queue_unless
    Woken-remote s p flags none h = tt
    Woken-remote s p flags (some t) h = (refl, h)

    try_to_wake_up-Woken :
        (s : Sys) (p state flags : ℕ)
        → Woken s p (not (bit_and (s.params p).state state == 0)) (try_to_wake_up s p state flags)
    unfolding try_to_wake_up ttwu_remote queue_unless
    try_to_wake_up-Woken s p state flags =
        elim (Bool-cases (bit_and (s.params p).state state == 0)) [
          | inl e ↦ rw e (refl, refl)
          | inr e ↦ rw e (elim (Bool-cases (on_rq s p)) [
            | inl r ↦
                rw r (Woken-remote s p flags _ (do_wakeup-IsWoken s s p flags (queued_up s p r)))
            | inr r ↦ rw r (Woken-activated s p _ (do_activate-IsWoken s p flags))
          ])
        ]

    -- Where the other classes keep to ClassesPreserve, `try_to_wake_up`, if it returns, returns 1
    -- exactly if the task is in one of the states asked for, and then the task is runnable and in
    -- the running state, with every other task's fields, all priorities and the running task as
    -- they were; otherwise nothing changes.
    pub try_to_wake_up-wakes :
        (s s' : Sys) (p state flags : ℕ) (woken : Bool)
        → try_to_wake_up s p state flags ≡ some (woken, s')
        → (woken ≡ not (bit_and (s.params p).state state == 0))
          × (woken ≡ false → s' ≡ s)
          × (woken ≡ true → IsWoken s p s')
    try_to_wake_up-wakes s s' p state flags woken e = of_Woken woken _ (
        subst (Woken s p (not (bit_and (s.params p).state state == 0))) e
          (try_to_wake_up-Woken s p state flags))
      where
        of_Woken :
            (woken match : Bool)
            → Woken s p match (some (woken, s'))
            → (woken ≡ match) × (woken ≡ false → s' ≡ s) × (woken ≡ true → IsWoken s p s')
        of_Woken true match h = (sym h.0, (λ x. cc), (λ x. h.1))
        of_Woken false match h = (sym h.0, (λ x. h.1), (λ x. cc))
