-- ===== src/Sched/SetScheduler/Ways.antt =====
-- The two kinds of ways out of `__sched_setscheduler` of core.c: nothing changes, or the change is
-- made.
use epfl_ba6_os.Prelude.{
  ℕ, ◌≡◌, refl, Option, none, some, Bool, true, false, not, ◌==◌, ◌&&◌, ◌||◌, inl, inr, ◌⊎◌, ◌>>=◌,
  if◌then◌else◌,
}
use epfl_ba6_os.Prelude.Int.{ℤ, pos_part}
use epfl_ba6_os.Sched.ListHead.{ListHead}
use epfl_ba6_os.Sched.Prio.{rt_policy}
use epfl_ba6_os.Sched.Machine.{Kernel}
use epfl_ba6_os.Sched.Core.{Sys}
use epfl_ba6_os.Sched.Nice.{Errno, Security}
use epfl_ba6_os.Sched.SetScheduler.{
  set_unless_same, __sched_setscheduler, asked_policy, asked_reset, unknown_policy, invalid_param,
  not_permitted, security_check, is_stop_task, change_scheduler,
}

module _ ⦃K : ListHead⦄ ⦃E : Kernel⦄ where
  open E use {rt_mutex_adjust_pi}

  -- The change, and what rtmutex.c makes of it.
  abbrev pub changed : Sys → ℕ → ℕ → ℕ → Bool → Option (Option Errno × Sys)
  changed s p policy sched_priority reset =
      change_scheduler s p policy sched_priority reset >>= λ a.
      rt_mutex_adjust_pi a p >>= λ b. some (none, b)

  -- A result that leaves the state, or that of a call `m`.
  abbrev pub Way : Sys → Option (Option Errno × Sys) → Option (Option Errno × Sys) → Type 0
  Way s m result = ((r : Option Errno) × (result ≡ some (r, s))) ⊎ (result ≡ m)

  if-Way :
      (s : Sys) (m : Option (Option Errno × Sys)) (b : Bool) (x y : Option (Option Errno × Sys))
      → Way s m x
      → Way s m y
      → Way s m (if b then x else y)
  if-Way s m true x y h k = h
  if-Way s m false x y h k = k

  set_unless_same-Way :
      (s : Sys) (p policy rtp : ℕ) (reset : Bool)
      → Way s (changed s p policy rtp reset) (set_unless_same s p policy rtp reset)
  unfolding set_unless_same
  set_unless_same-Way s p policy rtp reset =
      if-Way s (changed s p policy rtp reset) (is_stop_task s.stop p) _ _ (inl (_, refl)) (
        if-Way s (changed s p policy rtp reset)
          (policy == (s.params p).policy
            && (not (rt_policy policy) || rtp == (s.params p).rt_priority))
          _ _ (inl (_, refl)) (inr refl))

  hook-Way :
      (s : Sys) (m x : Option (Option Errno × Sys)) (hook : Option Errno)
      → Way s m x
      → Way s m (elim hook [ some e ↦ some (some e, s) | none ↦ x ])
  hook-Way s m x none h = h
  hook-Way s m x (some e) h = inl (some e, refl)

  pub sched_setscheduler-Way :
      (sec : Security) (s : Sys) (p : ℕ) (policy sched_priority : ℤ) (user : Bool)
      → Way s
          (changed s p (asked_policy s p policy) (pos_part sched_priority) (asked_reset s p policy))
          (__sched_setscheduler sec s p policy sched_priority user)
  unfolding __sched_setscheduler
  sched_setscheduler-Way sec s p policy sched_priority user =
      if-Way s m (unknown_policy policy asked) _ _ (inl (_, refl)) (
        if-Way s m (invalid_param (s.params p) asked sched_priority) _ _ (inl (_, refl)) (
          if-Way s m
            (user
              && not sec.capable_sys_nice
              && not_permitted sec s p asked (pos_part sched_priority) (asked_reset s p policy))
            _ _ (inl (_, refl))
            (hook-Way s m _ (security_check user (sec.security_task_setscheduler p))
              (set_unless_same-Way s p asked (pos_part sched_priority) (asked_reset s p policy)))))
    where
      asked : ℕ
      asked = asked_policy s p policy

      m : Option (Option Errno × Sys)
      m = changed s p (asked_policy s p policy) (pos_part sched_priority) (asked_reset s p policy)
