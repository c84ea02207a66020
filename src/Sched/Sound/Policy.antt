-- ===== src/Sched/Sound/Policy.antt =====
-- Changes of policy and priority in core.c on a sound processor: `rt_mutex_setprio`,
-- and what the other changes share with it.
use epfl_ba6_os.Prelude.{
  ℕ, ◌≤◌, ◌≡◌, ◌≢◌, refl, sym, ap, ◌∙◌, inl, inr, Bool, false, ◌==◌, ltb, Option, ◌>>=◌, Bool-cases,
  if◌then◌else◌, arith,
}
use epfl_ba6_os.Sched.ListHead.{ListHead}
use epfl_ba6_os.Sched.Prio.{
  SchedClass, dummy_sched_class, TaskParams, rt_prio, dummy_prio, max_prio, min_dummy_prio,
}
use epfl_ba6_os.Sched.Machine.{
  Cpu, Kernel, when, prio, on_rq, task_current, set_prio, set_class, enqueue_head,
}
use epfl_ba6_os.Sched.Core.{
  Sys, class_of_task, task_ops, enqueue_task, dequeue_task, put_prev_task, check_class_changed,
}
use epfl_ba6_os.Sched.Core.Keeps.{Same, Same-trans}
use epfl_ba6_os.Sched.SetScheduler.{class_of_prio, rt_mutex_setprio}
use epfl_ba6_os.Sched.Sound.{
  Sure, Sure-bind, Sure-mono, IsLimited, IsFit, IsSteady, IsSound, Frame, KernelKeeps,
}
use epfl_ba6_os.Sched.Sound.Frames.{
  when-Frame, sets-Frame, put_prev_task-Frame, check_class_changed-Frame,
}
use epfl_ba6_os.Sched.Sound.Alike.{Alike-of_Frame, IsFit-of, IsOff, IsOff-of, IsLimited-of}
use epfl_ba6_os.Sched.Sound.Moves.{leave_queue, rejoin_queue}

module _ {W : Type 0} ⦃K : ListHead⦄ where
  -- Only the parameters and the priority of `p` may differ, and where tasks are queued.
  pub record Like (s : Cpu W) (p : ℕ) (t : Cpu W) : Type 0 where
    pub params : (q : ℕ) → p ≢ q → t.params q ≡ s.params q
    pub on_rq : (q : ℕ) → on_rq t q ≡ on_rq s q
    pub curr : t.rq.curr ≡ s.rq.curr
    pub idle : t.idle ≡ s.idle

  pub Like-of_Same : {s t : Cpu W} (p : ℕ) → Same s t → Like s p t
  Like-of_Same p h = record {
    params = λ q d. h.params q;
    on_rq = h.on_rq;
    curr = h.curr;
    idle = h.idle;
  }

  pub Like-trans : {s t u : Cpu W} (p : ℕ) → Like s p t → Like t p u → Like s p u
  Like-trans p h k = record {
    params = λ q d. k.params q d ∙ h.params q d;
    on_rq = λ q. k.on_rq q ∙ h.on_rq q;
    curr = k.curr ∙ h.curr;
    idle = k.idle ∙ h.idle;
  }

  pub IsSteady-of : {s t : Cpu W} (p : ℕ) → p ≢ s.idle → Like s p t → IsSteady s → IsSteady t
  IsSteady-of {s} {t} p d h v = record {
    idle_class = λ e. v.idle_class (
        ap (λ (a : TaskParams). a.sched_class) (sym (h.params s.idle d))
        ∙ ap (λ q. (t.params q).sched_class) (sym h.idle)
        ∙ e);
    curr_ready = elim v.curr_ready [
      | inl e ↦ inl (h.curr ∙ e ∙ sym h.idle)
      | inr e ↦ inr (ap (on_rq t) h.curr ∙ h.on_rq s.rq.curr ∙ e)
    ];
  }

  IsSteady-of_Same : {s t : Cpu W} → Same s t → IsSteady s → IsSteady t
  IsSteady-of_Same {s} {t} h v = record {
    idle_class = λ e. v.idle_class (
        ap (λ (a : TaskParams). a.sched_class) (sym (h.params s.idle))
        ∙ ap (λ q. (t.params q).sched_class) (sym h.idle)
        ∙ e);
    curr_ready = elim v.curr_ready [
      | inl e ↦ inl (h.curr ∙ e ∙ sym h.idle)
      | inr e ↦ inr (ap (on_rq t) h.curr ∙ h.on_rq s.rq.curr ∙ e)
    ];
  }

  pub IsSound-of_Frame : {s t : Cpu W} → Frame s t → IsSound s → IsSound t
  IsSound-of_Frame h v = record {
    fits = λ q. IsFit-of q (Alike-of_Frame q h) (v.fits q);
    steady = IsSteady-of_Same h.same v.steady;
  }

  -- Writes to the parameters and the priority of `p`.
  pub record Rewritten (s : Cpu W) (p : ℕ) (t : Cpu W) : Type 0 where
    pub like : Like s p t
    pub prio : (q : ℕ) → p ≢ q → prio t q ≡ prio s q
    pub queues : t.rq.queues ≡ s.rq.queues

  pub IsOff-Rewritten : {s t : Cpu W} (p : ℕ) → Rewritten s p t → IsOff s p → IsOff t p
  IsOff-Rewritten p h v = record {
    others = λ q d.
        IsFit-of q
          (record {
            params = h.like.params q d;
            prio = h.prio q d;
            on_rq = h.like.on_rq q;
            places = λ r b. rw h.queues;
          })
          (v.others q d);
    off = λ r b. rw h.queues (v.off r b);
  }

pub class_of_prio-level : (n : ℕ) → class_of_prio n ≡ dummy_sched_class → min_dummy_prio ≤ n
unfolding class_of_prio dummy_prio rt_prio
class_of_prio-level n h = ground arith

module _ ⦃K : ListHead⦄ ⦃E : Kernel⦄ (keep : KernelKeeps) where
  -- The first lines that the two changes share.
  pub leave :
      (Q : Sys → Type 0) (s : Sys) (p : ℕ) (b : Bool) (k : Sys → Option Sys)
      → ((q : ℕ) → IsFit s q)
      → ((t : Sys) → Same s t → IsOff t p → Sure Q (k t))
      → Sure Q (
          when (on_rq s p) (λ t. dequeue_task t p 0) s >>= λ s1.
          when b (λ t. put_prev_task t p) s1 >>= k)
  leave Q s p b k v h = Sure-bind _ _ (leave_queue keep s p v) (λ s1 a.
      Sure-bind _ k (when-Frame s1 b _ (put_prev_task-Frame keep s1 p))
        (λ s2 f. h s2 (Same-trans a.0 f.same) (IsOff-of p f a.1)))

  -- The last ones.
  pub come_back :
      (s t : Sys) (p flags : ℕ) (b : Bool) (c : Sys → SchedClass) (old : Sys → ℕ)
      → IsSound s
      → p ≢ s.idle
      → Like s p t
      → IsOff t p
      → IsLimited (t.params p) (prio t p)
      → Sure IsSound (
          when b (λ t. (task_ops t p).set_curr_task t) t >>= λ s4.
          when (on_rq s p) (λ t. enqueue_task t p flags) s4 >>= λ s5.
          check_class_changed s5 p (c s5) (old s5))
  come_back s t p flags b c old v d h o l =
      Sure-bind _ _ (when-Frame t b _ (sets-Frame keep (class_of_task t p) t)) (λ s4 f.
        Sure-bind _ _
          (rejoin_queue keep s4 p flags (on_rq s p) (f.same.on_rq p ∙ h.on_rq p) (IsOff-of p f o)
            (IsLimited-of t s4 p (f.same.params p) (f.same.prio p) l))
          (λ s5 a.
            Sure-mono _
              (λ u g. IsSound-of_Frame g (record {
                fits = a.1;
                steady =
                    IsSteady-of p d (Like-trans p h (Like-of_Same p (Same-trans f.same a.0)))
                      v.steady;
              }))
              (check_class_changed-Frame keep s5 p (c s5) (old s5))))

  set_prio-Rewritten :
      (s : Sys) (p n : ℕ) (c : SchedClass) → Rewritten s p (set_prio (set_class s p c) p n)
  set_prio-Rewritten s p n c = record {
    like = record {
      params = λ q d. ground arith;
      on_rq = λ q. ground arith;
      curr = refl;
      idle = refl;
    };
    prio = λ q d. ground arith;
    queues = refl;
  }

  set_prio-IsLimited :
      (s : Sys) (p n : ℕ)
      → n ≤ (s.params p).normal_prio
      → IsLimited (s.params p) (prio s p)
      → let t = set_prio (set_class s p (class_of_prio n)) p n in IsLimited (t.params p) (prio t p)
  set_prio-IsLimited s p n b l = record {
    level = λ c. ground (arith, class_of_prio-level n (ground arith));
    boosted = ground arith;
    normal = ground (arith, l.normal);
    static = ground (arith, l.static);
  }

  -- On a sound processor, and where the rest of the kernel keeps to KernelKeeps, `rt_mutex_setprio`
  -- to a priority whose number is at most that of the task's normal one returns, whatever the class
  -- of the new priority, and leaves the processor sound.
  pub rt_mutex_setprio-IsSound :
      (s : Sys) (p n : ℕ)
      → IsSound s
      → n ≤ (s.params p).normal_prio
      → Sure IsSound (rt_mutex_setprio s p n)
  unfolding rt_mutex_setprio
  rt_mutex_setprio-IsSound s p n v b =
      let l = (v.fits p).limited in
      let small : ltb max_prio n ≡ false = ground (arith, l.normal) in
      elim (Bool-cases (p == s.idle)) [
        | inl e ↦ rw (small, e) (s, refl, v)
        | inr e ↦
            rw (small, e)
              (leave IsSound s p (task_current s p) _ v.fits (λ t h o.
                come_back s _ p (if ltb (prio s p) n then enqueue_head else 0) (task_current s p)
                  (λ x. class_of_task s p) (λ x. prio s p) v (λ f. absurd (ground arith))
                  (Like-trans p (Like-of_Same p h)
                    (set_prio-Rewritten t p n (class_of_prio n)).like)
                  (IsOff-Rewritten p (set_prio-Rewritten t p n (class_of_prio n)) o)
                  (set_prio-IsLimited t p n (ground (arith, h.params p))
                    (IsLimited-of s t p (h.params p) (h.prio p) l))))
      ]
