-- ===== src/Sched/Sound/Requests.antt =====
-- Requests for a policy in core.c on a sound processor: `__setscheduler`, `normalize_task` and
-- `__sched_setscheduler`.
use epfl_ba6_os.Prelude.{
  ℕ, ◌≤◌, ◌<◌, ◌≡◌, ◌≢◌, refl, sym, subst, ◌∙◌, inl, inr, Bool, true, false, some, none, ◌>>=◌,
  arith,
}
use epfl_ba6_os.Sched.ListHead.{ListHead}
use epfl_ba6_os.Sched.Prio.{
  TaskParams, max_prio, compute_normal_prio, __normal_prio, set_load_weight, sched_normal,
}
use epfl_ba6_os.Sched.Machine.{
  Kernel, when, prio, on_rq, task_current, set_prio, set_class, write_params,
}
use epfl_ba6_os.Sched.Core.{Sys, class_of_task, enqueue_task}
use epfl_ba6_os.Sched.Core.Keeps.{Same, Same-trans}
use epfl_ba6_os.Sched.SetScheduler.{class_of_prio, set_policy, __setscheduler, change_scheduler}
use epfl_ba6_os.Sched.Sound.{
  Sure, Sure-bind, Sure-mono, IsLimited, IsFit, IsSound, Boosts, done, boost, KernelKeeps,
}
use epfl_ba6_os.Sched.Sound.Frames.{check_class_changed-Frame}
use epfl_ba6_os.Sched.Sound.Alike.{Alike-of_Frame, IsFit-of, IsOff}
use epfl_ba6_os.Sched.Sound.Moves.{leave_queue, rejoin_queue}
use epfl_ba6_os.Prelude.Int.{ℤ, pos_part}
use epfl_ba6_os.Sched.Nice.{Security}
use epfl_ba6_os.Sched.SetScheduler.{normalize_task, __sched_setscheduler, asked_policy, asked_reset}
use epfl_ba6_os.Sched.SetScheduler.Ways.{changed, sched_setscheduler-Way}
use epfl_ba6_os.Sched.Sound.Policy.{
  Like-of_Same, Like-trans, IsSteady-of, IsSound-of_Frame, Rewritten, IsOff-Rewritten,
  class_of_prio-level, leave, come_back, rt_mutex_setprio-IsSound,
}
use epfl_ba6_os.Sched.Sound.Frames.{Frame-queues, queues-resched}
use epfl_ba6_os.Sched.Core.Activate.{resched-Same}
use epfl_ba6_os.Sched.Machine.{resched}

set_load_weight-limits :
    (t : TaskParams)
    → ((set_load_weight t).static_prio ≡ t.static_prio)
      × ((set_load_weight t).normal_prio ≡ t.normal_prio)
      × ((set_load_weight t).sched_class ≡ t.sched_class)
unfolding set_load_weight
set_load_weight-limits t = ground arith

compute_normal_prio-small :
    (t : TaskParams) → t.static_prio < max_prio → compute_normal_prio t < max_prio
unfolding compute_normal_prio __normal_prio
compute_normal_prio-small t h = ground arith

weighted-IsLimited : (t : TaskParams) (n : ℕ) → IsLimited t n → IsLimited (set_load_weight t) n
weighted-IsLimited t n l =
    let k = set_load_weight-limits t in
    record {
      level = λ c. l.level (sym k.2 ∙ c);
      boosted = rw k.1 l.boosted;
      normal = rw k.1 l.normal;
      static = rw k.0 l.static;
    }

module _ ⦃K : ListHead⦄ ⦃E : Kernel⦄ (keep : KernelKeeps) where
  open E use {rt_mutex_getprio, rt_mutex_adjust_pi}

  -- The four writes of `__setscheduler`, with the priority that rtmutex.c gives.
  scheduled : Sys → ℕ → ℕ → ℕ → ℕ → Sys
  unfolding set_policy
  scheduled s p policy rt_priority n =
      let s2 = set_prio (set_policy s p policy rt_priority) p n in
      let s3 = set_class s2 p (class_of_prio (prio s2 p)) in
      write_params s3 p (set_load_weight (s3.params p))

  scheduled-Rewritten :
      (s : Sys) (p policy rt_priority n : ℕ) → Rewritten s p (scheduled s p policy rt_priority n)
  unfolding scheduled
  scheduled-Rewritten s p policy rt_priority n = record {
    like = record {
      params = λ q d. ground arith;
      on_rq = λ q. ground arith;
      curr = refl;
      idle = refl;
    };
    prio = λ q d. ground arith;
    queues = refl;
  }

  scheduled-IsLimited :
      (s : Sys) (p policy rt_priority n : ℕ)
      → n ≤ ((set_policy s p policy rt_priority).params p).normal_prio
      → (s.params p).static_prio < max_prio
      → let t = scheduled s p policy rt_priority n in IsLimited (t.params p) (prio t p)
  unfolding scheduled set_policy
  scheduled-IsLimited s p policy rt_priority n b small =
      let t = record (s.params p) { policy = policy; rt_priority = rt_priority } in
      let m = prio (set_prio (set_policy s p policy rt_priority) p n) p in
      let e : m ≡ n = ground arith in
      let u = record t { normal_prio = compute_normal_prio t; sched_class = class_of_prio m } in
      let l = weighted-IsLimited u n (record {
        level = λ c. rw (← e) (class_of_prio-level m c);
        boosted = ground arith;
        normal = compute_normal_prio-small t small;
        static = small;
      }) in
      ground (arith, l)

  scheduled_lem :
      (s : Sys) (p policy rt_priority : ℕ)
      → __setscheduler s p policy rt_priority
        ≡ scheduled s p policy rt_priority (rt_mutex_getprio (set_policy s p policy rt_priority) p)
  unfolding __setscheduler scheduled
  scheduled_lem s p policy rt_priority = refl

  __setscheduler-Rewritten :
      (s : Sys) (p policy rt_priority : ℕ) → Rewritten s p (__setscheduler s p policy rt_priority)
  __setscheduler-Rewritten s p policy rt_priority =
      rw (scheduled_lem s p policy rt_priority) (scheduled-Rewritten s p policy rt_priority _)

  __setscheduler-IsLimited :
      (s : Sys) (p policy rt_priority : ℕ)
      → (s.params p).static_prio < max_prio
      → let t = __setscheduler s p policy rt_priority in IsLimited (t.params p) (prio t p)
  __setscheduler-IsLimited s p policy rt_priority small =
      rw (scheduled_lem s p policy rt_priority) (
        scheduled-IsLimited s p policy rt_priority _
          (keep.boosted (set_policy s p policy rt_priority) p) small)

  reset_flag-Rewritten :
      (s : Sys) (p : ℕ) (b : Bool)
      → Rewritten s p (write_params s p (record (s.params p) { sched_reset_on_fork = b }))
  reset_flag-Rewritten s p b = record {
    like = record { params = λ q d. ground arith; on_rq = λ q. refl; curr = refl; idle = refl };
    prio = λ q d. refl;
    queues = refl;
  }

  change_scheduler-IsSound :
      (s : Sys) (p policy sched_priority : ℕ) (reset : Bool)
      → IsSound s
      → p ≢ s.idle
      → Sure IsSound (change_scheduler s p policy sched_priority reset)
  unfolding change_scheduler
  change_scheduler-IsSound s p policy sched_priority reset v d =
      leave keep IsSound s p (task_current s p) _ v.fits (λ t h o.
        let u = write_params t p (record (t.params p) { sched_reset_on_fork = reset }) in
        let r = reset_flag-Rewritten t p reset in
        let w = __setscheduler-Rewritten u p policy sched_priority in
        come_back keep s (__setscheduler u p policy sched_priority) p 0 (task_current s p)
          (λ x. class_of_task u p) (λ x. prio u p) v d
          (Like-trans p (Like-of_Same p h) (Like-trans p r.like w.like))
          (IsOff-Rewritten p w (IsOff-Rewritten p r o))
          (__setscheduler-IsLimited u p policy sched_priority
            (ground (arith, h.params p, (v.fits p).limited.static))))

  some_inj : {x y : Sys} → some x ≡ some y → x ≡ y
  some_inj h = cc

  -- rtmutex.c changes priorities by `rt_mutex_setprio` alone.
  Boosts-IsSound : {s t : Sys} → Boosts s t → IsSound s → IsSound t
  Boosts-IsSound done v = v
  Boosts-IsSound (boost {t} {u} p n h b e) v =
      let r = rt_mutex_setprio-IsSound keep t p n (Boosts-IsSound h v) b in
      subst IsSound (some_inj (sym r.1 ∙ e)) r.2

  changed-IsSound :
      (s : Sys) (p policy sched_priority : ℕ) (reset : Bool)
      → IsSound s
      → p ≢ s.idle
      → Sure (λ r. IsSound r.1) (changed s p policy sched_priority reset)
  changed-IsSound s p policy sched_priority reset v d =
      Sure-bind (change_scheduler s p policy sched_priority reset)
        (λ a. rt_mutex_adjust_pi a p >>= λ b. some (none, b))
        (change_scheduler-IsSound s p policy sched_priority reset v d)
        (λ t h.
          Sure-bind (rt_mutex_adjust_pi t p) (λ b. some (none, b)) (keep.adjusts t p)
            (λ u b. ((none, u), refl, Boosts-IsSound b h)))

  -- On a sound processor, and where the rest of the kernel keeps to KernelKeeps, a call of
  -- `__sched_setscheduler` for a task other than the idle one returns, whatever the request and the
  -- caller, and leaves the processor sound.
  pub __sched_setscheduler-IsSound :
      (sec : Security) (s : Sys) (p : ℕ) (policy sched_priority : ℤ) (user : Bool)
      → IsSound s
      → p ≢ s.idle
      → Sure (λ r. IsSound r.1) (__sched_setscheduler sec s p policy sched_priority user)
  __sched_setscheduler-IsSound sec s p policy sched_priority user v d =
      elim (sched_setscheduler-Way sec s p policy sched_priority user) [
        | inl (r, e) ↦ ((r, s), e, v)
        | inr e ↦ rw e (
            changed-IsSound s p (asked_policy s p policy) (pos_part sched_priority)
              (asked_reset s p policy) v d)
      ]

  -- `normalize_task` of a task other than the idle one returns, and keeps the processor sound.
  pub normalize_task-IsSound :
      (s : Sys) (p : ℕ) → IsSound s → p ≢ s.idle → Sure IsSound (normalize_task s p)
  unfolding normalize_task
  normalize_task-IsSound s p v d = Sure-bind _ _ (leave_queue keep s p v.fits) (λ t a.
      let u = __setscheduler t p sched_normal 0 in
      let w = __setscheduler-Rewritten t p sched_normal 0 in
      let like = Like-trans p (Like-of_Same p a.0) w.like in
      let l =
        __setscheduler-IsLimited t p sched_normal 0
          (ground (arith, a.0.params p, (v.fits p).limited.static)) in
      Sure-bind _ _ (back u (on_rq s p) (like.on_rq p) (IsOff-Rewritten p w a.1) l) (λ x b.
        Sure-mono _
          (λ y g. IsSound-of_Frame g (record {
            fits = b.1;
            steady = IsSteady-of p d (Like-trans p like (Like-of_Same p b.0)) v.steady;
          }))
          (check_class_changed-Frame keep x p (class_of_task s p) (prio s p))))
    where
      back :
          (u : Sys) (b : Bool)
          → on_rq u p ≡ b
          → IsOff u p
          → IsLimited (u.params p) (prio u p)
          → Sure
              (λ t. Same u t × ((q : ℕ) → IsFit t q))
              (when b (λ t. enqueue_task t p 0 >>= λ x. some (resched x x.rq.curr)) u)
      back u true e o l = Sure-bind _ _ (rejoin_queue keep u p 0 true e o l) (λ x h.
          let r = resched-Same x x.rq.curr in
          (
            _,
            refl,
            (
              Same-trans h.0 r,
              λ q.
                  IsFit-of q (Alike-of_Frame q (Frame-queues r (queues-resched x x.rq.curr)))
                    (h.1 q),
            ),
          ))
      back u false e o l = rejoin_queue keep u p 0 false e o l
