-- ===== src/Sched/Sound/Fork.antt =====
-- `sched_fork` of core.c on a sound processor.
use epfl_ba6_os.Prelude.{
  ℕ, ◌≤◌, ◌<◌, ◌≡◌, ◌≢◌, refl, sym, ap, ◌∙◌, inl, inr, false, Bool-cases, arith,
}
use epfl_ba6_os.Sched.ListHead.{ListHead}
use epfl_ba6_os.Sched.Prio.{
  SchedClass, dummy_sched_class, fair_sched_class, TaskParams, rt_prio, dummy_prio, max_rt_prio,
  max_prio, nice_to_prio, set_load_weight,
}
use epfl_ba6_os.Sched.Machine.{Kernel, prio, on_rq, set_class}
use epfl_ba6_os.Sched.Core.{Sys, class_of_task}
use epfl_ba6_os.Sched.Wakeup.{
  start_child, reset_on_fork, reset_static, reset_params, choose_class, sched_fork,
}
use epfl_ba6_os.Sched.Wakeup.Fork.{reset_params-IsReset}
use epfl_ba6_os.Sched.Sound.{Sure, Sure-mono, IsLimited, IsFit, IsSteady, IsSound, KernelKeeps}
use epfl_ba6_os.Sched.Sound.Frames.{forks-Frame}
use epfl_ba6_os.Sched.Sound.Alike.{Alike, IsFit-of, IsOff, IsFit-of_IsOff}
use epfl_ba6_os.Sched.Sound.Policy.{Rewritten, IsSound-of_Frame}

-- The bounds on a task before it gets its class.
record IsNear (t : TaskParams) (n : ℕ) : Type 0 where
  not_rt : t.sched_class ≡ dummy_sched_class → max_rt_prio ≤ n
  boosted : n ≤ t.normal_prio
  normal : t.normal_prio < max_prio
  static : t.static_prio < max_prio

reset_params-static :
    (t : TaskParams) → t.static_prio < max_prio → (reset_params t).static_prio < max_prio
unfolding reset_params reset_static set_load_weight nice_to_prio
reset_params-static t h = ground arith

reset-IsNear :
    (t : TaskParams)
    → t.static_prio < max_prio
    → IsNear (reset_params t) (reset_params t).normal_prio
reset-IsNear t h =
    let r = reset_params-IsReset t in
    let b = reset_params-static t h in
    record {
      not_rt = λ c. rw r.own_prio (omega (arith, r.not_above));
      boosted = omega arith;
      normal = rw r.own_prio b;
      static = b;
    }

module _ ⦃K : ListHead⦄ ⦃E : Kernel⦄ where
  -- The states of the fork of task `p`, which is not runnable.
  record Forking (s : Sys) (p : ℕ) (t : Sys) : Type 0 where
    alike : (q : ℕ) → p ≢ q → Alike s t q
    queues : t.rq.queues ≡ s.rq.queues
    off : on_rq t p ≡ false
    curr : t.rq.curr ≡ s.rq.curr
    idle : t.idle ≡ s.idle

  Forking-Rewritten : (s t u : Sys) (p : ℕ) → Forking s p t → Rewritten t p u → Forking s p u
  Forking-Rewritten s t u p h w = record {
    alike = λ q d.
        let a = h.alike q d in
        record {
          params = w.like.params q d ∙ a.params;
          prio = w.prio q d ∙ a.prio;
          on_rq = w.like.on_rq q ∙ a.on_rq;
          places = λ r b. rw w.queues (a.places r b);
        };
    queues = w.queues ∙ h.queues;
    off = w.like.on_rq p ∙ h.off;
    curr = w.like.curr ∙ h.curr;
    idle = w.like.idle ∙ h.idle;
  }

  start_child-Forking : (s : Sys) (p : ℕ) → Forking s p (start_child s p)
  unfolding start_child
  start_child-Forking s p = record {
    alike = λ q d. record {
      params = ground arith;
      prio = ground arith;
      on_rq = ground arith;
      places = λ r b. refl;
    };
    queues = refl;
    off = ground arith;
    curr = refl;
    idle = refl;
  }

  -- The child starts as a copy of the running task.
  start_child-IsNear :
      (s : Sys) (p : ℕ)
      → s.params p ≡ s.params s.rq.curr
      → IsLimited (s.params s.rq.curr) (prio s s.rq.curr)
      → IsNear ((start_child s p).params p) (prio (start_child s p) p)
  unfolding start_child
  start_child-IsNear s p e l = record {
    not_rt = λ c. ground (arith, l.level (ground arith), l.boosted);
    boosted = ground arith;
    normal = ground (arith, l.normal);
    static = ground (arith, l.static);
  }

  Rewritten-refl : (s : Sys) (p : ℕ) → Rewritten s p s
  Rewritten-refl s p = record {
    like = record { params = λ q d. refl; on_rq = λ q. refl; curr = refl; idle = refl };
    prio = λ q d. refl;
    queues = refl;
  }

  reset_on_fork-Rewritten : (s : Sys) (p : ℕ) → Rewritten s p (reset_on_fork s p)
  unfolding reset_on_fork
  reset_on_fork-Rewritten s p = elim (Bool-cases (s.params p).sched_reset_on_fork) [
    | inl e ↦ rw e (record {
      like = record {
        params = λ q d. ground arith;
        on_rq = λ q. ground arith;
        curr = refl;
        idle = refl;
      };
      prio = λ q d. ground arith;
      queues = refl;
    })
    | inr e ↦ rw e (Rewritten-refl s p)
  ]

  reset_on_fork-IsNear :
      (s : Sys) (p : ℕ)
      → IsNear (s.params p) (prio s p)
      → IsNear ((reset_on_fork s p).params p) (prio (reset_on_fork s p) p)
  unfolding reset_on_fork
  reset_on_fork-IsNear s p h = elim (Bool-cases (s.params p).sched_reset_on_fork) [
    | inl e ↦ rw e (ground (arith, reset-IsNear (s.params p) h.static))
    | inr e ↦ rw e h
  ]

  set_class-Rewritten : (s : Sys) (p : ℕ) (c : SchedClass) → Rewritten s p (set_class s p c)
  set_class-Rewritten s p c = record {
    like = record { params = λ q d. ground arith; on_rq = λ q. refl; curr = refl; idle = refl };
    prio = λ q d. refl;
    queues = refl;
  }

  choose_class-Rewritten : (s : Sys) (p : ℕ) → Rewritten s p (choose_class s p)
  unfolding choose_class
  choose_class-Rewritten s p = elim (Bool-cases (rt_prio (prio s p))) [
    | inl e ↦ rw e (Rewritten-refl s p)
    | inr e ↦ rw e (elim (Bool-cases (dummy_prio (prio s p))) [
      | inl d ↦ rw d (set_class-Rewritten s p dummy_sched_class)
      | inr d ↦ rw d (set_class-Rewritten s p fair_sched_class)
    ])
  ]

  choose_class-IsLimited :
      (s : Sys) (p : ℕ)
      → IsNear (s.params p) (prio s p)
      → IsLimited ((choose_class s p).params p) (prio (choose_class s p) p)
  unfolding choose_class rt_prio dummy_prio
  choose_class-IsLimited s p h = record {
    level = λ c. ground (arith, h.not_rt);
    boosted = ground (arith, h.boosted);
    normal = ground (arith, h.normal);
    static = ground (arith, h.static);
  }

module _ ⦃K : ListHead⦄ ⦃E : Kernel⦄ (keep : KernelKeeps) where
  -- Where the rest of the kernel keeps to KernelKeeps, all but task `p` is sound, and `p`, neither the running task nor the idle one, is a copy
  -- of the running task that stands on no queue: `sched_fork` returns and leaves the processor
  -- sound, with `p` not runnable.
  pub sched_fork-IsSound :
      (s : Sys) (p : ℕ)
      → IsOff s p
      → IsFit s s.rq.curr
      → IsSteady s
      → p ≢ s.rq.curr
      → p ≢ s.idle
      → s.params p ≡ s.params s.rq.curr
      → Sure (λ t. IsSound t × (on_rq t p ≡ false)) (sched_fork s p)
  unfolding sched_fork
  sched_fork-IsSound s p v cur steady d i e =
      Sure-mono _ (λ u f. (IsSound-of_Frame f sound, f.same.on_rq p ∙ forking.off))
        (forks-Frame keep (class_of_task t p) t p)
    where
      a : Sys
      a = start_child s p

      b : Sys
      b = reset_on_fork a p

      t : Sys
      t = choose_class b p

      forking : Forking s p t
      forking =
          Forking-Rewritten s b t p
            (Forking-Rewritten s a b p (start_child-Forking s p) (reset_on_fork-Rewritten a p))
            (choose_class-Rewritten b p)

      limited : IsLimited (t.params p) (prio t p)
      limited =
          choose_class-IsLimited b p
            (reset_on_fork-IsNear a p (start_child-IsNear s p e cur.limited))

      off : IsOff t p
      off = record {
        others = λ q n. IsFit-of q (forking.alike q n) (v.others q n);
        off = λ r c. rw forking.queues (v.off r c);
      }

      sound : IsSound t
      sound = record {
        fits = IsFit-of_IsOff t p off limited forking.off;
        steady = record {
          idle_class = λ c. steady.idle_class (
              ap (λ (x : TaskParams). x.sched_class) (sym (forking.alike s.idle i).params)
              ∙ ap (λ q. (t.params q).sched_class) (sym forking.idle)
              ∙ c);
          curr_ready = elim steady.curr_ready [
            | inl c ↦ inl (forking.curr ∙ c ∙ sym forking.idle)
            | inr c ↦ inr (ap (on_rq t) forking.curr ∙ (forking.alike s.rq.curr d).on_rq ∙ c)
          ];
        };
      }
