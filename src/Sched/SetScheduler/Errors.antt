-- ===== src/Sched/SetScheduler/Errors.antt =====
-- What `__sched_setscheduler` of core.c does on each of its ways out.
use epfl_ba6_os.Prelude.{
  ℕ, ◌+◌, ◌==◌, ◌≤◌, ◌<◌, ◌≡◌, ◌≢◌, refl, subst, ◌∙◌, ◌⊎◌, Option, none, some, Bool, true, false,
  not, ◌&&◌, ◌||◌, ◌/◌, ◌%◌, Bool-cases, inl, inr, arith, ◌>>=◌, ltb, if◌then◌else◌,
}
use epfl_ba6_os.Prelude.Int.{ℤ, pos, negsuc, pos_part}
use epfl_ba6_os.Sched.ListHead.{ListHead}
use epfl_ba6_os.Sched.Prio.{sched_reset_on_fork_flag, rt_policy}
use epfl_ba6_os.Sched.Machine.{Kernel}
use epfl_ba6_os.Sched.Core.{Sys}
use epfl_ba6_os.Sched.Core.Keeps.{Post, ClassesPreserve}
use epfl_ba6_os.Sched.Nice.{Errno, Security}
use epfl_ba6_os.Sched.Sound.{Boosts, done, boost}
use epfl_ba6_os.Sched.SetScheduler.{
  set_unless_same, change_scheduler, __sched_setscheduler, asked_policy, asked_reset,
  unknown_policy, invalid_param, not_permitted, security_check, is_stop_task, check_same_owner,
}
use epfl_ba6_os.Sched.SetScheduler.Classes.{
  IsClassed, Steady, Steady-refl, Steady-trans, rt_mutex_setprio-Steady,
}
use epfl_ba6_os.Sched.SetScheduler.Granted.{
  IsChanged, IsKept, IsGranted, IsGranted-changed, IsGranted-same, change_scheduler-Post,
}

module _ ⦃K : ListHead⦄ ⦃E : Kernel⦄ where
  open E use {rt_mutex_adjust_pi}

  -- What holds of the way out of a call: of the error and the state, or of the state alone.
  abbrev Outcome : (Errno → Sys → Type 0) → (Sys → Type 0) → Option (Option Errno × Sys) → Type 0
  Outcome P Q none = Unit
  Outcome P Q (some (none, s)) = Q s
  Outcome P Q (some (some e, s)) = P e s

  if-Outcome :
      (P : Errno → Sys → Type 0) (Q : Sys → Type 0) (b : Bool) (m n : Option (Option Errno × Sys))
      → (b ≡ true → Outcome P Q m)
      → (b ≡ false → Outcome P Q n)
      → Outcome P Q (if b then m else n)
  if-Outcome P Q true m n h k = h refl
  if-Outcome P Q false m n h k = k refl

  Outcome-and :
      (P : Errno → Sys → Type 0) (Q : Sys → Type 0) (R : Type 0) (m : Option (Option Errno × Sys))
      → R
      → Outcome P Q m
      → Outcome P (λ t. Q t × R) m
  Outcome-and P Q R none r h = tt
  Outcome-and P Q R (some (none, t)) r h = (h, r)
  Outcome-and P Q R (some (some e, t)) r h = h

  -- The state is as it was.
  abbrev IsUnchanged : Sys → Errno → Sys → Type 0
  IsUnchanged s e t = t ≡ s

  -- What the caller without CAP_SYS_NICE is refused.
  abbrev is_refused : Security → Sys → ℕ → ℤ → ℤ → Bool → Bool
  is_refused sec s p policy sched_priority user =
      user
      && not sec.capable_sys_nice
      && not_permitted sec s p (asked_policy s p policy) (pos_part sched_priority)
          (asked_reset s p policy)

  -- The ways out, by what holds after the change itself.
  sched_setscheduler-Outcome :
      (Q : Sys → Type 0) (sec : Security) (s : Sys) (p : ℕ) (policy sched_priority : ℤ)
      (user : Bool)
      → Outcome (IsUnchanged s) Q (
          set_unless_same s p
            (asked_policy s p policy)
            (pos_part sched_priority)
            (asked_reset s p policy))
      → Outcome
          (IsUnchanged s)
          (λ t. Q t × (is_refused sec s p policy sched_priority user ≡ false))
          (__sched_setscheduler sec s p policy sched_priority user)
  unfolding __sched_setscheduler
  sched_setscheduler-Outcome Q sec s p policy sched_priority user change =
      if-Outcome (IsUnchanged s) granted (unknown_policy policy asked) _ _ (λ e. refl)
        (λ e.
          if-Outcome (IsUnchanged s) granted (invalid_param (s.params p) asked sched_priority) _ _
            (λ e. refl)
            (λ e.
              if-Outcome (IsUnchanged s) granted (is_refused sec s p policy sched_priority user) _ _
                (λ e. refl)
                (λ e.
                  Outcome-and (IsUnchanged s) Q _ _ e
                    (after_hook (security_check user (sec.security_task_setscheduler p))))))
    where
      asked : ℕ
      asked = asked_policy s p policy

      granted : Sys → Type 0
      granted t = Q t × (is_refused sec s p policy sched_priority user ≡ false)

      after_hook :
          (hook : Option Errno)
          → Outcome (IsUnchanged s) Q (elim hook [
            | some e ↦ some (some e, s)
            | none ↦
                set_unless_same s p
                  (asked_policy s p policy)
                  (pos_part sched_priority)
                  (asked_reset s p policy)
          ])
      after_hook none = change
      after_hook (some e) = refl

  -- A change that returns has no error.
  no_error :
      (s : Sys) (m : Option Sys) → Outcome (IsUnchanged s) (λ t. Unit) (m >>= λ t. some (none, t))
  no_error s none = tt
  no_error s (some t) = tt

  adjusted :
      (s : Sys) (p : ℕ) (m : Option Sys)
      → Outcome
          (IsUnchanged s)
          (λ t. Unit)
          (m >>= λ a. rt_mutex_adjust_pi a p >>= λ b. some (none, b))
  adjusted s p none = tt
  adjusted s p (some a) = no_error s (rt_mutex_adjust_pi a p)

  set_unless_same-error :
      (s : Sys) (p policy rtp : ℕ) (reset : Bool)
      → Outcome (IsUnchanged s) (λ t. Unit) (set_unless_same s p policy rtp reset)
  unfolding set_unless_same
  set_unless_same-error s p policy rtp reset =
      if-Outcome (IsUnchanged s) (λ t. Unit) (is_stop_task s.stop p) _ _ (λ e. refl)
        (λ e.
          if-Outcome (IsUnchanged s) (λ t. Unit)
            (policy == (s.params p).policy
              && (not (rt_policy policy) || rtp == (s.params p).rt_priority))
            (some (none, s))
            (change_scheduler s p policy rtp reset >>= λ a.
              rt_mutex_adjust_pi a p >>= λ b. some (none, b))
            (λ h. tt) (λ h. adjusted s p (change_scheduler s p policy rtp reset)))

  -- A call of `__sched_setscheduler` that returns an error has changed nothing, whatever the other
  -- classes and the locks of real time do.
  pub sched_setscheduler-error :
      (sec : Security) (s s' : Sys) (p : ℕ) (policy sched_priority : ℤ) (user : Bool) (e : Errno)
      → __sched_setscheduler sec s p policy sched_priority user ≡ some (some e, s')
      → s' ≡ s
  sched_setscheduler-error sec s s' p policy sched_priority user e h =
      subst (Outcome (IsUnchanged s) _) h (
        sched_setscheduler-Outcome (λ t. Unit) sec s p policy sched_priority user
          (set_unless_same-error s p _ _ _))

  -- The policy that a call asks for by its number: that number, with the flag of the reset or
  -- without it; a negative number asks for the policy that the task has.
  pub data Asks (s : Sys) (p : ℕ) : ℤ → ℕ → Type 0 where
    plain : {n : ℕ} → n < sched_reset_on_fork_flag → Asks s p (pos n) n
    with_reset :
        {n : ℕ} → n < sched_reset_on_fork_flag → Asks s p (pos (n + sched_reset_on_fork_flag)) n
    same_policy : {n : ℕ} → Asks s p (negsuc n) (s.params p).policy

  asked_lem :
      (s : Sys) (p : ℕ) {policy : ℤ} {n : ℕ} → Asks s p policy n → asked_policy s p policy ≡ n
  unfolding asked_policy
  asked_lem s p (plain h) = ground arith
  asked_lem s p (with_reset {n = n} h) =
      let odd : (n + sched_reset_on_fork_flag) / sched_reset_on_fork_flag % 2 ≡ 1 =
        omega (arith, h) in
      ground (arith, odd)
  asked_lem s p (same_policy) = refl

  of_incapable : (c x : Bool) → c ≡ false → true && not c && x ≡ false → x ≡ false
  of_incapable true x h k = cc
  of_incapable false x h k = k

  -- What the checks of such a caller let through.
  not_permitted-false :
      (sec : Security) (s : Sys) (p n sched_priority : ℕ) (reset : Bool)
      → rt_policy n ≡ true
      → not_permitted sec s p n sched_priority reset ≡ false
      → ((sec.euid s.rq.curr ≡ sec.euid p) ⊎ (sec.euid s.rq.curr ≡ sec.uid p))
        × ((sched_priority ≤ (s.params p).rt_priority) ⊎ (sched_priority ≤ sec.rlimit_rtprio p))
  unfolding not_permitted check_same_owner
  not_permitted-false sec s p n sched_priority reset r h =
      let h' = rw r at h in
      (
        elim (Bool-cases (sec.euid s.rq.curr == sec.euid p)) [
          | inl a ↦ inl (ground arith)
          | inr b ↦ inr (ground arith)
        ],
        elim (Bool-cases (ltb (s.params p).rt_priority sched_priority)) [
          | inl a ↦ inr (ground arith)
          | inr b ↦ inl (ground arith)
        ],
      )

  -- A user without CAP_SYS_NICE who gets a policy of real time for a task has its effective user id
  -- in common with the task's effective or real one, and the priority is no higher than the task's
  -- own one or its limit.
  pub sched_setscheduler-permitted :
      (sec : Security) (s s' : Sys) (p n : ℕ) (policy sched_priority : ℤ)
      → Asks s p policy n
      → rt_policy n ≡ true
      → sec.capable_sys_nice ≡ false
      → __sched_setscheduler sec s p policy sched_priority true ≡ some (none, s')
      → ((sec.euid s.rq.curr ≡ sec.euid p) ⊎ (sec.euid s.rq.curr ≡ sec.uid p))
        × ((pos_part sched_priority ≤ (s.params p).rt_priority)
            ⊎ (pos_part sched_priority ≤ sec.rlimit_rtprio p))
  sched_setscheduler-permitted sec s s' p n policy sched_priority a r c h =
      let (tt', g) = subst (Outcome (IsUnchanged s) _) h (
        sched_setscheduler-Outcome (λ t. Unit) sec s p policy sched_priority true
          (set_unless_same-error s p _ _ _)) in
      let e = asked_lem s p a in
      let h' = of_incapable sec.capable_sys_nice _ c g in
      not_permitted-false sec s p n (pos_part sched_priority) (asked_reset s p policy) r
        (rw e at h')

  -- What rtmutex.c does to tasks leaves their policies alone, and the classes in step.
  Boosts-Steady : (keep : ClassesPreserve) {s t : Sys} → Boosts s t → Steady s t
  Boosts-Steady keep {s} done = Steady-refl s
  Boosts-Steady keep (boost p n b le e) =
      Steady-trans (Boosts-Steady keep b) (rt_mutex_setprio-Steady keep _ _ p n e)

  module _ (keep : ClassesPreserve)
      (adjusts : (s : Sys) (p : ℕ) → Post (Boosts s) (rt_mutex_adjust_pi s p)) where
    IsGranted-after :
        (s : Sys) (p policy rtp : ℕ) (m : Option Sys)
        → Post (IsChanged s p policy rtp) m
        → Outcome
            (IsUnchanged s)
            (IsGranted s p policy rtp)
            (m >>= λ a. rt_mutex_adjust_pi a p >>= λ b. some (none, b))
    IsGranted-after s p policy rtp none h = tt
    IsGranted-after s p policy rtp (some a) h = boosted (rt_mutex_adjust_pi a p) (adjusts a p)
      where
        boosted :
            (m : Option Sys)
            → Post (Boosts a) m
            → Outcome (IsUnchanged s) (IsGranted s p policy rtp) (m >>= λ b. some (none, b))
        boosted none k = tt
        boosted (some b) k = IsGranted-changed s p policy rtp a b h (Boosts-Steady keep k)

    set_unless_same-Outcome :
        (s : Sys) (p policy rtp : ℕ) (reset : Bool)
        → Outcome (IsUnchanged s) (IsGranted s p policy rtp) (set_unless_same s p policy rtp reset)
    unfolding set_unless_same
    set_unless_same-Outcome s p policy rtp reset =
        if-Outcome (IsUnchanged s) (IsGranted s p policy rtp) (is_stop_task s.stop p) _ _
          (λ e. refl)
          (λ e.
            if-Outcome (IsUnchanged s) (IsGranted s p policy rtp) _ _ _
              (λ h. IsGranted-same s p policy rtp h)
              (λ h.
                IsGranted-after s p policy rtp _ (change_scheduler-Post keep s p policy rtp reset)))

    -- A call that returns 0 has given the task the policy that it asks for, and for a policy of real
    -- time the priority; a task whose class was that of its priority has such a class again; every
    -- other task keeps its policy and its priorities but the effective one, and its class stays in
    -- step with that. The other classes keep to ClassesPreserve, and `rt_mutex_adjust_pi` acts on
    -- tasks by calls of `rt_mutex_setprio` with priorities at or above the normal ones.
    pub sched_setscheduler-granted :
        (sec : Security) (s s' : Sys) (p n : ℕ) (policy sched_priority : ℤ) (user : Bool)
        → Asks s p policy n
        → __sched_setscheduler sec s p policy sched_priority user ≡ some (none, s')
        → ((s'.params p).policy ≡ n)
          × (rt_policy n ≡ true → (s'.params p).rt_priority ≡ pos_part sched_priority)
          × (IsClassed s p → IsClassed s' p)
          × ((q : ℕ) → p ≢ q → IsKept s q s')
    sched_setscheduler-granted sec s s' p n policy sched_priority user a h =
        let (g, r) = subst (Outcome (IsUnchanged s) _) h (
          sched_setscheduler-Outcome
            (IsGranted s p (asked_policy s p policy) (pos_part sched_priority)) sec s p policy
            sched_priority user (set_unless_same-Outcome s p _ _ _)) in
        let e = asked_lem s p a in (g.policy_set ∙ e, (λ r. g.rt_set (rw e r)), g.classed, g.kept)
