-- ===== src/Sched/Sound/Rounds.antt =====
-- `__schedule` of core.c on a sound processor: the running task may block, and another one runs.
use epfl_ba6_os.Prelude.{
  ℕ, ◌≡◌, ◌≢◌, refl, sym, ap, ◌∙◌, inl, inr, Bool, false, ◌==◌, ◌||◌, Option, some, none,
  Bool-cases, ==_iff, if◌then◌else◌, add64, arith,
}
use epfl_ba6_os.Sched.ListHead.{ListHead}
use epfl_ba6_os.Sched.Prio.{dummy_sched_class, TaskParams}
use epfl_ba6_os.Sched.Machine.{
  Kernel, prio, set_on_rq, set_state, dequeue_sleep, task_running_state,
}
use epfl_ba6_os.Sched.Core.{Sys}
use epfl_ba6_os.Sched.Core.Keeps.{Same}
use epfl_ba6_os.Sched.Schedule.{
  clear_need_resched, wake_worker, block_prev, switch_to_next, schedule_round,
}
use epfl_ba6_os.Sched.Sound.{
  Sure, Sure-bind, Sure-mono, IsLimited, IsFit, IsSteady, IsSound, Frame, KernelKeeps,
}
use epfl_ba6_os.Sched.Sound.Frames.{Frame-trans, Frame-queues, put_prev_task-Frame}
use epfl_ba6_os.Sched.Sound.Alike.{IsFit-of, IsLimited-of, IsOff, IsFit-of_IsOff}
use epfl_ba6_os.Sched.Sound.Touched.{IsFit-Touched, Touched-state}
use epfl_ba6_os.Sched.Sound.Wake.{deactivate_task-Sure, try_to_wake_up_local-Sure}
use epfl_ba6_os.Sched.Sound.Later.{set_on_rq-Alike, set_on_rq-prio}
use epfl_ba6_os.Sched.Sound.Choice.{Rest, Rest-of_Frame, IsReady, IsReady-to, pick_next_task-Ready}

module _ ⦃K : ListHead⦄ ⦃E : Kernel⦄ (keep : KernelKeeps) where
  open E use {wq_worker_sleeping, signal_pending}

  blocked-Rest :
      (s t : Sys) (p : ℕ)
      → Same s t
      → IsOff t p
      → IsLimited (s.params p) (prio s p)
      → Rest s (set_on_rq t p false)
  blocked-Rest s t p h v l = record {
    curr = h.curr;
    idle = h.idle;
    class = λ q. ap (λ (a : TaskParams). a.sched_class) (h.params q);
    fits =
        IsFit-of_IsOff (set_on_rq t p false) p
          (record {
            others = λ q d. IsFit-of q (set_on_rq-Alike t p q false d) (v.others q d);
            off = v.off;
          })
          (rw (set_on_rq-prio t p p false) (IsLimited-of s t p (h.params p) (h.prio p) l))
          (ground arith);
  }

  wake_worker-Rest :
      (s t : Sys) (o : Option ℕ)
      → ((q : ℕ) → o ≡ some q → q ≢ s.rq.curr)
      → Rest s t
      → Sure (Rest s) (wake_worker o t)
  unfolding wake_worker
  wake_worker-Rest s t none d h = (t, refl, h)
  wake_worker-Rest s t (some q) d h =
      Sure-mono _
        (λ u w. record {
          curr = w.0.curr ∙ h.curr;
          idle = w.0.idle ∙ h.idle;
          class = λ r. w.0.class r ∙ h.class r;
          fits = w.1;
        })
        (try_to_wake_up_local-Sure keep t q (λ e. d q refl (e ∙ h.curr)) h.fits)

  block_prev-Rest :
      (b : Bool) (s : Sys) → ((q : ℕ) → IsFit s q) → Sure (Rest s) (block_prev b s s.rq.curr)
  unfolding block_prev
  block_prev-Rest b s v =
      elim (Bool-cases ((s.params s.rq.curr).state == task_running_state || b)) [
        | inl e ↦ rw e (s, refl, record { curr = refl; idle = refl; class = λ q. refl; fits = v })
        | inr e ↦ rw e (elim (Bool-cases (signal_pending s s.rq.curr)) [
          | inl f ↦ rw f (
            set_state s s.rq.curr task_running_state,
            refl,
            (let k = Touched-state s s.rq.curr task_running_state in
                record {
                  curr = refl;
                  idle = refl;
                  class = k.class;
                  fits = λ q. IsFit-Touched s _ q k (v q);
                }),
          )
          | inr f ↦ rw f (
              Sure-bind _ _ (deactivate_task-Sure keep s s.rq.curr dequeue_sleep v) (λ t h.
                let u = set_on_rq t s.rq.curr false in
                wake_worker-Rest s u (wq_worker_sleeping u s.rq.curr)
                  (λ q k. keep.wakes_other u s.rq.curr q k)
                  (blocked-Rest s t s.rq.curr h.0 h.1 (v s.rq.curr).limited)))
        ])
      ]

  cleared-Frame :
      (s : Sys) (p : ℕ) → Frame s (record (clear_need_resched s p) { skip_clock_update = false })
  cleared-Frame s p =
      Frame-queues
        (record {
          params = λ q. refl;
          prio = λ q. ground arith;
          on_rq = λ q. ground arith;
          curr = refl;
          idle = refl;
          stop = refl;
        })
        refl

  -- The switch: from a task that may have blocked to one that may run.
  switched-IsSound :
      (s t : Sys) (next : ℕ)
      → IsSteady s
      → Rest s t
      → IsReady t next
      → IsSound (
          if s.rq.curr == next
          then t
          else record t { nr_switches = add64 t.nr_switches 1; rq = record t.rq { curr = next } })
  switched-IsSound s t next v h r = elim (Bool-cases (s.rq.curr == next)) [
    | inl e ↦ rw e (record {
      fits = h.fits;
      steady = record {
        idle_class = calm;
        curr_ready = rw (h.curr ∙ (==_iff s.rq.curr next).0 e) r;
      };
    })
    | inr e ↦ rw e (record {
      fits = λ q.
          IsFit-of q (record { params = refl; prio = refl; on_rq = refl; places = λ i b. refl })
            (h.fits q);
      steady = record { idle_class = calm; curr_ready = r };
    })
  ]
    where
      calm : (t.params t.idle).sched_class ≢ dummy_sched_class
      calm e =
          v.idle_class (sym (h.class s.idle) ∙ ap (λ q. (t.params q).sched_class) (sym h.idle) ∙ e)

  switch_to_next-IsSound :
      (s t : Sys) → IsSteady s → Rest s t → Sure IsSound (switch_to_next t s.rq.curr)
  unfolding switch_to_next
  switch_to_next-IsSound s t v h = Sure-bind _ _ (put_prev_task-Frame keep t s.rq.curr) (λ t1 f.
      let h1 = Rest-of_Frame h f in
      Sure-bind _ _ (pick_next_task-Ready keep t1 h1.fits) (λ (next, t2) g.
        let c = cleared-Frame t2 s.rq.curr in
        let k = Frame-trans g.1 c in
        (_, refl, switched-IsSound s _ next v (Rest-of_Frame h1 k) (IsReady-to next k.same g.0))))

  -- On a sound processor, and where the rest of the kernel keeps to KernelKeeps, a round of
  -- `__schedule` returns, whether the running task blocks or not: there is always a task to run, and
  -- the worker that is woken up is not the running one. It leaves the processor sound.
  pub schedule_round-IsSound :
      (active : ℕ → Bool) (s : Sys) → IsSound s → Sure IsSound (schedule_round active s)
  unfolding schedule_round
  schedule_round-IsSound active s v =
      Sure-bind _ _ (block_prev-Rest (active s.rq.curr) s v.fits)
        (λ t h. switch_to_next-IsSound s t v.steady h)
