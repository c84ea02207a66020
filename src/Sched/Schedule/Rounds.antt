-- ===== src/Sched/Schedule/Rounds.antt =====
-- How often `__schedule` of core.c goes round where only the dummy class has tasks.
use mathlib.Core.List.{head?}
use epfl_ba6_os.Prelude.{
  ℕ, suc, ◌≡◌, refl, sym, ap, ◌∙◌, some, Bool, true, false, ◌==◌, if◌then◌else◌, arith, Bool-cases,
  inl, inr, add64,
}
use epfl_ba6_os.Sched.ListHead.{ListHead, dummy_queue_size}
use epfl_ba6_os.Sched.Prio.{dummy_sched_class}
use epfl_ba6_os.Sched.Dummy.{put_prev_task_dummy}
use epfl_ba6_os.Sched.Dummy.Pick.{run_order, picked}
use epfl_ba6_os.Sched.Machine.{Kernel}
use epfl_ba6_os.Sched.Core.{Sys, class_of_task, put_prev_task}
use epfl_ba6_os.Sched.Core.Next.{IsOnlyDummy, pick_next_task-run_order}
use epfl_ba6_os.Sched.Schedule.{
  need_resched_of, clear_need_resched, block_prev, switch_to_next, schedule_round, __schedule,
}

module _ ⦃K : ListHead⦄ ⦃E : Kernel⦄ where
  put_prev-dummy :
      (s : Sys) (p : ℕ) → class_of_task s p ≡ dummy_sched_class → put_prev_task s p ≡ some s
  unfolding put_prev_task put_prev_task_dummy
  put_prev-dummy s p h = rw (put_prev_task, h) refl

  -- The state after a round that goes from the running task to `p`.
  unfoldable pub switched : Sys → ℕ → Sys
  switched s p =
      let t = record s { rq = picked s.rq (some p) } in
      let u = record (clear_need_resched t s.rq.curr) { skip_clock_update = false } in
      if s.rq.curr == p
      then u
      else record u { nr_switches = add64 u.nr_switches 1; rq = record u.rq { curr = p } }

  block_prev-preempted : (s : Sys) (p : ℕ) → block_prev true s p ≡ some s
  unfolding block_prev
  block_prev-preempted s p = ground arith

  switch_to_next_lem :
      (s : Sys) (p : ℕ)
      → IsOnlyDummy s
      → class_of_task s s.rq.curr ≡ dummy_sched_class
      → head? (run_order dummy_queue_size 0 s.rq.queues) ≡ some p
      → switch_to_next s s.rq.curr ≡ some (switched s p)
  unfolding switch_to_next switched
  switch_to_next_lem s p o c h =
      rw (put_prev-dummy s s.rq.curr c, pick_next_task-run_order s p o h) refl

  round_lem :
      (active : ℕ → Bool) (s : Sys) (p : ℕ)
      → active s.rq.curr ≡ true
      → IsOnlyDummy s
      → class_of_task s s.rq.curr ≡ dummy_sched_class
      → head? (run_order dummy_queue_size 0 s.rq.queues) ≡ some p
      → schedule_round active s ≡ some (switched s p)
  unfolding schedule_round
  round_lem active s p b o c h =
      rw (b, block_prev-preempted s s.rq.curr) (switch_to_next_lem s p o c h)

  curr-switched : (s : Sys) (p : ℕ) → (switched s p).rq.curr ≡ p
  unfolding switched
  curr-switched s p = ground arith

  need_resched-switched :
      (s : Sys) (p : ℕ) → p ≡ s.rq.curr → need_resched_of (switched s p) p ≡ false
  unfolding switched
  need_resched-switched s p e = ground arith

  kept-switched :
      (s : Sys) (p : ℕ)
      → ((switched s p).rq.queues ≡ s.rq.queues) × ((switched s p).params ≡ s.params)
  unfolding switched
  kept-switched s p = (ground arith, ground arith)

  schedule-next :
      (active : ℕ → Bool) (rounds : ℕ) (s t : Sys)
      → schedule_round active s ≡ some t
      → __schedule (suc rounds) active s
        ≡ (if need_resched_of t t.rq.curr then __schedule rounds active t else some t)
  unfolding __schedule
  schedule-next active rounds s t h = rw h refl

  -- Where, before and after the switch, no class before the dummy one has a task to run, a
  -- preemption of a task of this class for the first one of its queues ends after two rounds at
  -- most, however many there may be: then that task runs, and it is not marked. The queues, and the
  -- classes of the tasks, are as they were. Both tasks have PREEMPT_ACTIVE set.
  pub __schedule-rounds :
      (rounds : ℕ) (active : ℕ → Bool) (s : Sys) (p : ℕ)
      → active s.rq.curr ≡ true
      → active p ≡ true
      → IsOnlyDummy s
      → IsOnlyDummy (switched s p)
      → class_of_task s s.rq.curr ≡ dummy_sched_class
      → class_of_task s p ≡ dummy_sched_class
      → head? (run_order dummy_queue_size 0 s.rq.queues) ≡ some p
      → (s' : Sys) × (__schedule (suc (suc rounds)) active s ≡ some s')
        × (s'.rq.curr ≡ p)
        × (need_resched_of s' p ≡ false)
        × (s'.rq.queues ≡ s.rq.queues)
        × (s'.params ≡ s.params)
  __schedule-rounds rounds active s p b b' o o' c d h =
      let t = switched s p in
      let k = kept-switched s p in
      let at_p = curr-switched s p in
      let first = schedule-next active (suc rounds) s t (round_lem active s p b o c h) in
      elim (Bool-cases (need_resched_of t t.rq.curr)) [
        | inl m ↦
            let u = switched t p in
            let k' = kept-switched t p in
            let off = need_resched-switched t p (sym at_p) in
            let second =
              schedule-next active rounds t u
                (round_lem active t p (ap active at_p ∙ b') o' (rw (k.1, at_p) d) (rw k.0 h)) in
            (
              u,
              rw m at first ∙ (rw (ap (need_resched_of u) (curr-switched t p) ∙ off) at second),
              curr-switched t p,
              off,
              k'.0 ∙ k.0,
              k'.1 ∙ k.1,
            )
        | inr m ↦ (t, rw m at first, at_p, sym (ap (need_resched_of t) at_p) ∙ m, k.0, k.1)
      ]
