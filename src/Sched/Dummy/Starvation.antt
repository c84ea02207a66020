-- ===== src/Sched/Dummy/Starvation.antt =====
-- Aging in dummy.c prevents starvation: however long another task runs, a waiting task climbs to
-- the first queue within a number of ticks that the tunables fix.
use epfl_ba6_os.Prelude.{
  ℕ, zero, suc, ◌+◌, ◌-◌, ◌*◌, ◌^◌, ◌≤◌, ◌<◌, ◌≡◌, ◌≢◌, refl, sym, ◌∙◌, ap, inl, inr, Option, some,
  true, false, lt→ltb, Bool-cases, Option-cases, leb, ltb, if◌then◌else◌, add32, ◌>>=◌, arith,
}
use epfl_ba6_os.Sched.ListHead.{ListHead, dummy_queue_size}
use epfl_ba6_os.Sched.Dummy.{Rq, task, age_queues, tick_timeslice, task_tick_dummy}
use epfl_ba6_os.Sched.Dummy.Place.{IsAt, IsLevel, Kept, Kept-age_queues}
use epfl_ba6_os.Sched.Dummy.Enqueue.{requeued, requeue_lem, on_queue-requeued}
use epfl_ba6_os.Sched.Dummy.Aging.{Aged, Aged-age_queues}

module _ ⦃K : ListHead⦄ where
  -- Task `p` waits on queue `k` with age `a`, while another task of the class runs.
  pub record Waits (rq : Rq) (p k a : ℕ) : Type 0 where
    pub at : IsAt rq p k
    pub age : (task rq p).dummy_age_tick ≡ a
    pub other : p ≢ rq.curr
    pub level : IsLevel (task rq rq.curr) 0

  -- The end of a time slice sends the current task to the end of its queue, and no other.
  slice-Waits :
      (rq : Rq) (p k a : ℕ)
      → Waits rq p k a
      → (rq' : Rq) × (tick_timeslice rq rq.curr ≡ some rq')
        × (rq'.sysctl_age_threshold ≡ rq.sysctl_age_threshold)
        × Waits rq' p k a
  unfolding tick_timeslice
  slice-Waits rq p k a w = elim (Bool-cases (leb rq.sysctl_timeslice rq.dummy_timeslice)) [
    | inl e ↦ (
      record (requeued ticked rq.curr) { dummy_timeslice = 0 },
      rw (e, requeue_lem ticked rq.curr w.level),
      refl,
      record {
        at = λ r b. on_queue-requeued ticked rq.curr p r b ∙ ground (arith, w.at r b);
        age = ground arith;
        other = w.other;
        level = ground arith;
      },
    )
    | inr e ↦
        (ticked, rw e, refl, record { at = w.at; age = w.age; other = w.other; level = w.level })
  ]
    where
      ticked : Rq
      ticked = record rq { dummy_timeslice = add32 rq.dummy_timeslice 1 }

  loops-Waits :
      (rq : Rq) (p k a : ℕ)
      → 1 ≤ k
      → k < dummy_queue_size
      → a < 2 ^ 32 - 1
      → Waits rq p k a
      → Waits
          (age_queues 4 1 rq)
          p
          (if ltb rq.sysctl_age_threshold a then k - 1 else k)
          (if ltb rq.sysctl_age_threshold a then 0 else a + 1)
  loops-Waits rq p k a lo hi small w = record {
    at = λ r b. aged.place r ∙ ground (arith, w.at r b);
    age = aged.age ∙ ground arith;
    other = rw kept.curr w.other;
    level = rw (kept.curr, kept.prio rq.curr) w.level;
  }
    where
      kept : Kept rq (age_queues 4 1 rq)
      kept = Kept-age_queues 4 1 rq

      aged : Aged k p rq (age_queues 4 1 rq)
      aged = Aged-age_queues 4 1 k p rq lo (omega arith) (omega arith) w.at

  -- A tick makes a waiting task of the queues 1 to 4 one tick older or, once its age is over the
  -- threshold, moves it to the queue above with age 0. (The age does not wrap around.)
  pub task_tick-Waits :
      (rq : Rq) (p k a : ℕ)
      → 1 ≤ k
      → k < dummy_queue_size
      → a < 2 ^ 32 - 1
      → Waits rq p k a
      → (rq' : Rq) × (task_tick_dummy rq rq.curr ≡ some rq')
        × (rq'.sysctl_age_threshold ≡ rq.sysctl_age_threshold)
        × Waits rq' p
            (if ltb rq.sysctl_age_threshold a then k - 1 else k)
            (if ltb rq.sysctl_age_threshold a then 0 else a + 1)
  unfolding task_tick_dummy
  task_tick-Waits rq p k a lo hi small w =
      let kept = Kept-age_queues 4 1 rq in
      let done = slice-Waits (age_queues 4 1 rq) p _ _ (loops-Waits rq p k a lo hi small w) in
      (
        done.0,
        ap (tick_timeslice (age_queues 4 1 rq)) (sym kept.curr) ∙ done.1,
        done.2 ∙ kept.sysctl_age_threshold,
        done.3,
      )

  -- `n` ticks in a row.
  abbrev pub ticks : ℕ → Rq → Option Rq
  ticks zero rq = some rq
  ticks (suc n) rq = task_tick_dummy rq rq.curr >>= ticks n

  -- From age `a`, `n` ticks are left until the age is over the threshold and the task moves.
  climb_one :
      (n : ℕ) (rq : Rq) (p k a : ℕ)
      → a + n ≡ rq.sysctl_age_threshold + 1
      → rq.sysctl_age_threshold < 2 ^ 32 - 2
      → 1 ≤ k
      → k < dummy_queue_size
      → Waits rq p k a
      → (rq' : Rq) × (ticks (suc n) rq ≡ some rq')
        × (rq'.sysctl_age_threshold ≡ rq.sysctl_age_threshold)
        × Waits rq' p (k - 1) 0
  climb_one zero rq p k a e small lo hi w =
      let (rq', run, thr, w') = task_tick-Waits rq p k a lo hi (omega arith) w in
      let old : ltb rq.sysctl_age_threshold a ≡ true = lt→ltb _ _ (omega arith) in
      (rq', rw run, thr, rw old at w')
  climb_one (suc n) rq p k a e small lo hi w =
      let (rq', run, thr, w') = task_tick-Waits rq p k a lo hi (omega arith) w in
      let young : ltb rq.sysctl_age_threshold a ≡ false = ground arith in
      let (rq'', run', thr', w'') =
        climb_one n rq' p k (a + 1) (omega arith) (omega arith) lo hi (rw young at w') in
      (rq'', rw run run', thr' ∙ thr, w'')

  ticks_add :
      (m n s : ℕ) (a b c : Rq)
      → m + n ≡ s
      → ticks m a ≡ some b
      → ticks n b ≡ some c
      → ticks s a ≡ some c
  ticks_add zero n s a b c e h k =
      let len : n ≡ s = omega arith in let same : a ≡ b = cc in rw (← len, same) k
  ticks_add (suc m) n zero a b c e h k = absurd (omega arith)
  ticks_add (suc m) n (suc s) a b c e h k = elim (Option-cases (task_tick_dummy a a.curr)) [
    | inl fault ↦ cc (rw fault at h)
    | inr (r, run) ↦ rw run (ticks_add m n s r b c (omega arith) (rw run at h) k)
  ]

  -- No starvation by a task that never yields: a task that waits on queue `k` with age 0 is on
  -- queue 0, the first that the class looks at, after `k` times the threshold plus 2 ticks. No tick
  -- faults on the way. (The threshold is below its largest two values, at which an age would wrap.)
  pub climb_to_first :
      (k n : ℕ) (rq : Rq) (p : ℕ)
      → n ≡ k * (rq.sysctl_age_threshold + 2)
      → rq.sysctl_age_threshold < 2 ^ 32 - 2
      → k < dummy_queue_size
      → Waits rq p k 0
      → (rq' : Rq) × (ticks n rq ≡ some rq') × Waits rq' p 0 0
  climb_to_first zero n rq p e small hi w =
      let none_left : n ≡ 0 = omega arith in (rq, rw none_left, w)
  climb_to_first (suc k) n rq p e small hi w =
      let (rq', run, thr, w') =
        climb_one (rq.sysctl_age_threshold + 1) rq p (suc k) 0 (omega arith) small (omega arith) hi
          w in
      let level : suc k - 1 ≡ k = omega arith in
      let (rq'', run', w'') =
        climb_to_first k (n - (rq.sysctl_age_threshold + 2)) rq' p (rw thr (grind arith))
          (rw thr small) (omega arith) (rw level at w') in
      (
        rq'',
        ticks_add (suc (rq.sysctl_age_threshold + 1)) (n - (rq.sysctl_age_threshold + 2)) n rq rq'
            rq'' (grind arith) run run',
        w'',
      )
