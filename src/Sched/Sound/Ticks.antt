-- ===== src/Sched/Sound/Ticks.antt =====
-- The clock's tick and a yield in core.c on a sound processor.
use epfl_ba6_os.Prelude.{ℕ, ◌≡◌, refl, sym, ap, ◌∙◌, inl, inr, true, some, Bool-cases, arith}
use epfl_ba6_os.Sched.ListHead.{ListHead}
use epfl_ba6_os.Sched.Prio.{dummy_sched_class, TaskParams}
use epfl_ba6_os.Sched.Dummy.{Rq, task}
use epfl_ba6_os.Sched.Dummy.Place.{total, IsAbsent, IsLevel, IsPlaced, IsQueued}
use epfl_ba6_os.Sched.Dummy.Enqueue.{requeued, yield_lem, own_queue, on_queue-requeued}
use epfl_ba6_os.Sched.Dummy.Invariant.{task_tick-IsQueued}
use epfl_ba6_os.Sched.Dummy.Slice.{total-task_tick}
use epfl_ba6_os.Sched.Machine.{Cpu, Kernel, on_rq, dummy_class}
use epfl_ba6_os.Sched.Core.{Sys, class_of_task, task_ops, scheduler_tick}
use epfl_ba6_os.Sched.Core.Keeps.{Same, Post-some, dummy-Preserves}
use epfl_ba6_os.Sched.Sound.{Sure, Sure-mono, HasPlace, IsFit, IsSteady, IsSound, KernelKeeps}
use epfl_ba6_os.Sched.Sound.Frames.{class-cases, ops-Leaves}
use epfl_ba6_os.Sched.Sound.Alike.{IsFit-of, IsSeated, IsFit-of_IsSeated, IsLimited-of}
use epfl_ba6_os.Sched.Sound.Moves.{IsLimited-IsLevel}
use epfl_ba6_os.Sched.Sound.Policy.{IsSound-of_Frame}
use epfl_ba6_os.Sched.Sound.Later.{IsSteady-Later, Later-of_Same}

module _ ⦃K : ListHead⦄ where
  pub total-absent : (rq : Rq) (p : ℕ) → IsAbsent rq p → total rq p ≡ 0
  total-absent rq p a = rw (
    a 0 (omega arith),
    a 1 (omega arith),
    a 2 (omega arith),
    a 3 (omega arith),
    a 4 (omega arith),
  )

  pub total-placed : (rq : Rq) (p : ℕ) → HasPlace rq p → total rq p ≡ 1
  total-placed rq p (i, b, a, l) = ground (
    arith,
    a 0 (omega arith),
    a 1 (omega arith),
    a 2 (omega arith),
    a 3 (omega arith),
    a 4 (omega arith),
  )

module _ {W : Type 0} ⦃K : ListHead⦄ where
  IsFit-IsPlaced : (s : Cpu W) (p : ℕ) → IsFit s p → IsPlaced s.rq p
  IsFit-IsPlaced s p v = elim (class-cases (s.params p).sched_class) [
    | inl c ↦ elim (Bool-cases (on_rq s p)) [
      | inl r ↦ inr (v.placed c r)
      | inr r ↦ inl (v.absent (inr r))
    ]
    | inr d ↦ inl (v.absent (inl d))
  ]

  -- A call of dummy.c that leaves each task on as many queues as before.
  IsFit-counted :
      (s t : Cpu W) (q : ℕ)
      → Same s t
      → total t.rq q ≡ total s.rq q
      → IsPlaced t.rq q
      → IsFit s q
      → IsFit t q
  IsFit-counted s t q h e w v =
      let c = ap (λ (a : TaskParams). a.sched_class) (h.params q) in
      record {
        limited = IsLimited-of s t q (h.params q) (h.prio q) v.limited;
        placed = λ d r. elim w [
          | inl a ↦
              let one = total-placed s.rq q (v.placed (sym c ∙ d) (sym (h.on_rq q) ∙ r)) in
              let none = total-absent t.rq q a in absurd (omega arith)
          | inr x ↦ x
        ];
        absent = λ d. elim w [
          | inl a ↦ a
          | inr x ↦
              let none = total-absent s.rq q (
                v.absent
                  (elim d [ inl n ↦ inl (λ f. n (c ∙ f)) | inr r ↦ inr (sym (h.on_rq q) ∙ r) ])) in
              let one = total-placed t.rq q x in absurd (omega arith)
        ];
      }

  -- The running task is runnable if it is of the dummy class.
  curr-on_rq :
      (s : Cpu W)
      → IsSteady s
      → (s.params s.rq.curr).sched_class ≡ dummy_sched_class
      → on_rq s s.rq.curr ≡ true
  curr-on_rq s v c = elim v.curr_ready [
    | inl e ↦ absurd (v.idle_class (ap (λ q. (s.params q).sched_class) (sym e) ∙ c))
    | inr r ↦ r
  ]

  requeued-IsSeated :
      (s : Cpu W) (p : ℕ)
      → ((q : ℕ) → IsFit s q)
      → IsLevel (task s.rq p) 0
      → (s.params p).sched_class ≡ dummy_sched_class
      → IsSeated (record s { rq = requeued s.rq p }) p
  requeued-IsSeated s p v l c = record {
    others = λ q d.
        IsFit-of q
          (record {
            params = refl;
            prio = ground arith;
            on_rq = ground arith;
            places = λ r b. on_queue-requeued s.rq p q r b ∙ ground arith;
          })
          (v q);
    placed = λ c'. (
      own_queue (task s.rq p),
      omega arith,
      (λ r b. on_queue-requeued s.rq p p r b ∙ ground arith),
      ground arith,
    );
    absent = λ d. absurd (d c);
  }

  yields-dummy :
      (s : Cpu W)
      → IsSound s
      → (s.params s.rq.curr).sched_class ≡ dummy_sched_class
      → Sure IsSound (dummy_class.yield_task s)
  yields-dummy s v c =
      let p = s.rq.curr in
      let level = IsLimited-IsLevel s p (v.fits p).limited c in
      let t = record s { rq = requeued s.rq p } in
      let e : dummy_class.yield_task s ≡ some t = rw (yield_lem s.rq level) refl in
      let h = Post-some (Same s) _ t (dummy-Preserves.yields s) e in
      (
        t,
        e,
        record {
          fits =
              IsFit-of_IsSeated t p (requeued-IsSeated s p v.fits level c)
                (IsLimited-of s t p (h.params p) (h.prio p) (v.fits p).limited)
                (h.on_rq p ∙ curr-on_rq s v.steady c);
          steady = IsSteady-Later (Later-of_Same h) v.steady;
        },
      )

  ticks-dummy :
      (s : Cpu W) (queued : ℕ)
      → IsSound s
      → (s.params s.rq.curr).sched_class ≡ dummy_sched_class
      → Sure IsSound (dummy_class.task_tick s s.rq.curr queued)
  ticks-dummy s queued v c =
      let p = s.rq.curr in
      let level = IsLimited-IsLevel s p (v.fits p).limited c in
      let place : IsQueued s.rq = λ q. IsFit-IsPlaced s q (v.fits q) in
      let one = total-placed s.rq p ((v.fits p).placed c (curr-on_rq s v.steady c)) in
      let (rq, e, w) = task_tick-IsQueued s.rq p level place in
      let (rq', e', same) = total-task_tick s.rq p place level one in
      let eq : rq ≡ rq' = cc in
      let t = record s { rq = rq } in
      let f : dummy_class.task_tick s p queued ≡ some t = rw e refl in
      let h = Post-some (Same s) _ t (dummy-Preserves.ticks s p queued) f in
      (
        t,
        f,
        record {
          fits = λ q. IsFit-counted s t q h (rw eq (same q)) (w q) (v.fits q);
          steady = IsSteady-Later (Later-of_Same h) v.steady;
        },
      )

module _ ⦃K : ListHead⦄ ⦃E : Kernel⦄ (keep : KernelKeeps) where
  -- On a sound processor, the tick of the clock returns, and leaves the processor sound.
  pub scheduler_tick-IsSound : (s : Sys) → IsSound s → Sure IsSound (scheduler_tick s)
  unfolding scheduler_tick
  scheduler_tick-IsSound s v = elim (class-cases (class_of_task s s.rq.curr)) [
    | inl c ↦ rw (scheduler_tick, c) (ticks-dummy s 0 v c)
    | inr d ↦
        Sure-mono _ (λ t f. IsSound-of_Frame f v)
          ((ops-Leaves keep (class_of_task s s.rq.curr) d).ticks s s.rq.curr 0)
  ]

  -- So does the running task's `yield_task`.
  pub yield_task-IsSound :
      (s : Sys) → IsSound s → Sure IsSound ((task_ops s s.rq.curr).yield_task s)
  yield_task-IsSound s v = elim (class-cases (class_of_task s s.rq.curr)) [
    | inl c ↦ rw c (yields-dummy s v c)
    | inr d ↦
        Sure-mono _ (λ t f. IsSound-of_Frame f v)
          ((ops-Leaves keep (class_of_task s s.rq.curr) d).yields s)
  ]
