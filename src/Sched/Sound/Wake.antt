-- ===== src/Sched/Sound/Wake.antt =====
-- Waking tasks up in core.c on a sound processor: `try_to_wake_up`, `try_to_wake_up_local` and
-- `wake_up_new_task`.
use Prim.Native.Nat.{bit_and}
use epfl_ba6_os.Prelude.{
  ℕ, ◌≡◌, ◌≢◌, refl, inl, inr, Bool, true, false, ◌==◌, some, ◌>>=◌, Bool-cases, if◌then◌else◌,
  sub64, add64, arith,
}
use epfl_ba6_os.Sched.ListHead.{ListHead}
use epfl_ba6_os.Sched.Machine.{
  Kernel, prio, on_rq, set_on_rq, task_contributes_to_load, enqueue_wakeup, task_running_state,
}
use epfl_ba6_os.Sched.Core.{Sys, activate_task, deactivate_task, check_preempt_curr}
use epfl_ba6_os.Sched.Core.Keeps.{Same, Same-refl, Same-trans}
use epfl_ba6_os.Sched.Core.Activate.{Same-counters}
use epfl_ba6_os.Sched.Wakeup.{
  ttwu_activate, ttwu_do_wakeup, ttwu_do_activate, ttwu_remote, queue_unless, try_to_wake_up,
  try_to_wake_up_local, wake_up_new_task, task_normal, wf_fork,
}
use epfl_ba6_os.Sched.Sound.{
  Sure, Sure-bind, Sure-mono, IsLimited, IsFit, IsSound, Frame, KernelKeeps,
}
use epfl_ba6_os.Sched.Sound.Frames.{Frame-queues, check_preempt_curr-Frame}
use epfl_ba6_os.Sched.Sound.Alike.{
  Alike-of_Frame, IsFit-of, IsLimited-of, IsOff, IsOff-of, IsOff-of_fits, IsSeated,
}
use epfl_ba6_os.Sched.Sound.Moves.{dequeue_task-Sure, enqueue_task-Sure}
use epfl_ba6_os.Sched.Sound.Touched.{IsFit-Touched, Touched-state}
use epfl_ba6_os.Sched.Sound.Later.{
  Later, Later-trans, Later-of_Same, IsSteady-Later, set_state-Later, set_runnable-Later,
  fits-set_runnable,
}

module _ ⦃K : ListHead⦄ ⦃E : Kernel⦄ (keep : KernelKeeps) where
  counted-Frame :
      (s : Sys) (n : ℕ) (c : Bool) → Frame s (if c then record s { nr_uninterruptible = n } else s)
  counted-Frame s n true = Frame-queues (Same-counters s n s.skip_clock_update) refl
  counted-Frame s n false = Frame-queues (Same-refl s) refl

  activate_task-Sure :
      (s : Sys) (p flags : ℕ)
      → IsOff s p
      → IsLimited (s.params p) (prio s p)
      → Sure (λ t. Same s t × IsSeated t p) (activate_task s p flags)
  unfolding activate_task
  activate_task-Sure s p flags v l =
      let c = task_contributes_to_load (s.params p) in
      let t = if c then record s { nr_uninterruptible = sub64 s.nr_uninterruptible 1 } else s in
      let f = counted-Frame s (sub64 s.nr_uninterruptible 1) c in
      Sure-mono _ (λ t h. (Same-trans f.same h.0, h.1))
        (enqueue_task-Sure keep t p flags (IsOff-of p f v)
          (IsLimited-of s t p (f.same.params p) (f.same.prio p) l))

  pub deactivate_task-Sure :
      (s : Sys) (p flags : ℕ)
      → ((q : ℕ) → IsFit s q)
      → Sure (λ t. Same s t × IsOff t p) (deactivate_task s p flags)
  unfolding deactivate_task
  deactivate_task-Sure s p flags v =
      let c = task_contributes_to_load (s.params p) in
      let f = counted-Frame s (add64 s.nr_uninterruptible 1) c in
      Sure-mono _ (λ t h. (Same-trans f.same h.0, h.1))
        (dequeue_task-Sure keep _ p flags (λ q. IsFit-of q (Alike-of_Frame q f) (v q)))

  -- The states after a task has been woken up.
  abbrev pub Woken : Sys → Sys → Type 0
  Woken s t = Later s t × ((q : ℕ) → IsFit t q)

  Woken-trans : {s t u : Sys} → Later s t → Woken t u → Woken s u
  Woken-trans h w = (Later-trans h w.0, w.1)

  activated :
      (s : Sys) (p flags : ℕ)
      → on_rq s p ≡ false
      → ((q : ℕ) → IsFit s q)
      → Sure (Woken s) (activate_task s p flags >>= λ t. some (set_on_rq t p true))
  activated s p flags r v =
      let l = (v p).limited in
      Sure-bind _ _ (activate_task-Sure s p flags (IsOff-of_fits s p r v) l) (λ t h. (
        _,
        refl,
        (
          Later-trans (Later-of_Same h.0) (set_runnable-Later t p),
          fits-set_runnable t p h.1 (IsLimited-of s t p (h.0.params p) (h.0.prio p) l),
        ),
      ))

  preempted :
      (s : Sys) (p flags : ℕ)
      → ((q : ℕ) → IsFit s q)
      → Sure (Woken s) (check_preempt_curr s p flags)
  preempted s p flags v =
      Sure-mono _ (λ t f. (Later-of_Same f.same, λ q. IsFit-of q (Alike-of_Frame q f) (v q)))
        (check_preempt_curr-Frame keep s p flags)

  do_wakeup :
      (s : Sys) (p flags : ℕ) → ((q : ℕ) → IsFit s q) → Sure (Woken s) (ttwu_do_wakeup s p flags)
  unfolding ttwu_do_wakeup
  do_wakeup s p flags v = Sure-bind _ _ (preempted s p flags v) (λ t w. (
    _,
    refl,
    (
      Later-trans w.0 (set_state-Later t p task_running_state),
      λ q. IsFit-Touched t _ q (Touched-state t p task_running_state) (w.1 q),
    ),
  ))

  do_activate :
      (s : Sys) (p flags : ℕ)
      → on_rq s p ≡ false
      → ((q : ℕ) → IsFit s q)
      → Sure (Woken s) (ttwu_do_activate s p flags)
  unfolding ttwu_do_activate ttwu_activate
  do_activate s p flags r v =
      Sure-bind _ _ (activated s p enqueue_wakeup r v)
        (λ t w. Sure-mono _ (λ u. Woken-trans w.0) (do_wakeup t p flags w.1))

  try_to_wake_up-Sure :
      (s : Sys) (p state flags : ℕ)
      → ((q : ℕ) → IsFit s q)
      → Sure (λ r. Woken s r.1) (try_to_wake_up s p state flags)
  unfolding try_to_wake_up ttwu_remote queue_unless
  try_to_wake_up-Sure s p state flags v =
      elim (Bool-cases (bit_and (s.params p).state state == 0)) [
        | inl e ↦ rw e ((false, s), refl, (Later-of_Same (Same-refl s), v))
        | inr e ↦ rw e (elim (Bool-cases (on_rq s p)) [
          | inl r ↦ rw r (let (t, f, w) = do_wakeup s p flags v in rw f ((true, t), refl, w))
          | inr r ↦ rw r (let (t, f, w) = do_activate s p flags r v in rw f ((true, t), refl, w))
        ])
      ]

  -- On a sound processor, and where the rest of the kernel keeps to KernelKeeps, `try_to_wake_up`
  -- returns, for any task, and leaves the processor sound.
  pub try_to_wake_up-IsSound :
      (s : Sys) (p state flags : ℕ)
      → IsSound s
      → Sure (λ r. IsSound r.1) (try_to_wake_up s p state flags)
  try_to_wake_up-IsSound s p state flags v =
      Sure-mono _ (λ r w. record { fits = w.1; steady = IsSteady-Later w.0 v.steady })
        (try_to_wake_up-Sure s p state flags v.fits)

  -- For a task that does not run.
  pub try_to_wake_up_local-Sure :
      (s : Sys) (p : ℕ)
      → p ≢ s.rq.curr
      → ((q : ℕ) → IsFit s q)
      → Sure (Woken s) (try_to_wake_up_local s p)
  unfolding try_to_wake_up_local ttwu_activate
  try_to_wake_up_local-Sure s p d v =
      let e : (p == s.rq.curr) ≡ false = ground arith in
      rw e (elim (Bool-cases (bit_and (s.params p).state task_normal == 0)) [
        | inl f ↦ rw f (s, refl, (Later-of_Same (Same-refl s), v))
        | inr f ↦ rw f (elim (Bool-cases (on_rq s p)) [
          | inl r ↦ rw r (do_wakeup s p 0 v)
          | inr r ↦ rw r (
              Sure-bind _ _ (activated s p enqueue_wakeup r v)
                (λ t w. Sure-mono _ (λ u. Woken-trans w.0) (do_wakeup t p 0 w.1)))
        ])
      ])

  -- On a sound processor, `wake_up_new_task` of a task that is not runnable yet returns, and leaves
  -- the processor sound.
  pub wake_up_new_task-IsSound :
      (s : Sys) (p : ℕ) → on_rq s p ≡ false → IsSound s → Sure IsSound (wake_up_new_task s p)
  unfolding wake_up_new_task
  wake_up_new_task-IsSound s p r v =
      let l = (v.fits p).limited in
      Sure-bind _ _ (activate_task-Sure s p 0 (IsOff-of_fits s p r v.fits) l) (λ t h.
        let u = set_on_rq t p true in
        let later = Later-trans (Later-of_Same h.0) (set_runnable-Later t p) in
        let fits = fits-set_runnable t p h.1 (IsLimited-of s t p (h.0.params p) (h.0.prio p) l) in
        Sure-mono _
          (λ x w. record { fits = w.1; steady = IsSteady-Later (Later-trans later w.0) v.steady })
          (preempted u p wf_fork fits))
