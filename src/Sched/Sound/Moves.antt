-- ===== src/Sched/Sound/Moves.antt =====
-- A task leaves its run queue and comes back, in core.c: between the two it stands on no queue, and
-- the other tasks are as they should be.
use epfl_ba6_os.Prelude.{
  ℕ, ◌≡◌, ◌≢◌, refl, sym, ap, ◌∙◌, inl, inr, Bool, true, false, some, Bool-cases, arith,
}
use epfl_ba6_os.Sched.ListHead.{ListHead}
use epfl_ba6_os.Sched.Prio.{dummy_sched_class, TaskParams}
use epfl_ba6_os.Sched.Dummy.{task}
use epfl_ba6_os.Sched.Dummy.Place.{IsAbsent, IsLevel, count-del}
use epfl_ba6_os.Sched.Dummy.Enqueue.{
  enqueued, dequeued, own_queue, enqueue_lem, dequeue_lem, dequeued-IsAbsent, on_queue-enqueued,
}
use epfl_ba6_os.Sched.Machine.{Cpu, Kernel, when, prio, on_rq, dummy_class}
use epfl_ba6_os.Sched.Core.{Sys, class_of_task, enqueue_task, dequeue_task}
use epfl_ba6_os.Sched.Core.Keeps.{Same, Same-refl, Post-some, dummy-Preserves}
use epfl_ba6_os.Sched.Sound.{Sure, Sure-mono, IsLimited, HasPlace, IsFit, KernelKeeps}
use epfl_ba6_os.Sched.Sound.Frames.{class-cases, ops-Leaves}
use epfl_ba6_os.Sched.Sound.Alike.{
  Alike, IsLimited-of, IsFit-of, IsOff, IsSeated, IsOff-of, IsOff-of_fits, IsFit-of_IsOff,
  IsFit-of_IsSeated,
}

module _ {W : Type 0} ⦃K : ListHead⦄ where
  -- dummy.c: the task goes off its queue, and the others stay.
  dequeued-Alike : (s : Cpu W) (p q : ℕ) → p ≢ q → Alike s (record s { rq = dequeued s.rq p }) q
  dequeued-Alike s p q d = record {
    params = refl;
    prio = refl;
    on_rq = refl;
    places = λ r b. count-del s.rq.queues p q r ∙ ground arith;
  }

  enqueued-Alike :
      (s : Cpu W) (p q : ℕ)
      → IsAbsent s.rq p
      → p ≢ q
      → Alike s (record s { rq = enqueued s.rq p }) q
  enqueued-Alike s p q a d = record {
    params = refl;
    prio = ground arith;
    on_rq = ground arith;
    places = λ r b. on_queue-enqueued s.rq p q r a b ∙ ground arith;
  }

  enqueued-HasPlace :
      (s : Cpu W) (p : ℕ) → IsAbsent s.rq p → IsLevel (task s.rq p) 0 → HasPlace (enqueued s.rq p) p
  enqueued-HasPlace s p a l = (
    own_queue (task s.rq p),
    omega arith,
    (λ r b. on_queue-enqueued s.rq p p r a b ∙ ground arith),
    ground arith,
  )

  pub IsLimited-IsLevel :
      (s : Cpu W) (p : ℕ)
      → IsLimited (s.params p) (prio s p)
      → (s.params p).sched_class ≡ dummy_sched_class
      → IsLevel (task s.rq p) 0
  IsLimited-IsLevel s p l c = (l.level c, omega (arith, l.boosted, l.normal))

module _ ⦃K : ListHead⦄ ⦃E : Kernel⦄ (keep : KernelKeeps) where
  -- `dequeue_task` of core.c.
  pub dequeue_task-Sure :
      (s : Sys) (p flags : ℕ)
      → ((q : ℕ) → IsFit s q)
      → Sure (λ t. Same s t × IsOff t p) (dequeue_task s p flags)
  unfolding dequeue_task
  dequeue_task-Sure s p flags v = elim (class-cases (class_of_task s p)) [
    | inl c ↦
        rw (dequeue_task, c)
          (
            record s { rq = dequeued s.rq p },
            rw (dequeue_lem s.rq p) refl,
            (
              rw (← dequeue_lem s.rq p) (dummy-Preserves.dequeues s p flags),
              record {
                others = λ q d. IsFit-of q (dequeued-Alike s p q d) (v q);
                off = dequeued-IsAbsent s.rq p;
              },
            ),
          )
    | inr d ↦
        Sure-mono _
          (λ t h.
            (h.same, IsOff-of p h (record { others = λ q e. v q; off = (v p).absent (inl d) })))
          ((ops-Leaves keep (class_of_task s p) d).dequeues s p flags)
  ]

  -- The same, if the task is runnable.
  pub leave_queue :
      (s : Sys) (p : ℕ)
      → ((q : ℕ) → IsFit s q)
      → Sure (λ t. Same s t × IsOff t p) (when (on_rq s p) (λ t. dequeue_task t p 0) s)
  leave_queue s p v = elim (Bool-cases (on_rq s p)) [
    | inl e ↦ rw e (dequeue_task-Sure s p 0 v)
    | inr e ↦ rw e (s, refl, (Same-refl s, IsOff-of_fits s p e v))
  ]

  -- `enqueue_task` of core.c, of a task that stands on no queue.
  pub enqueue_task-Sure :
      (s : Sys) (p flags : ℕ)
      → IsOff s p
      → IsLimited (s.params p) (prio s p)
      → Sure (λ t. Same s t × IsSeated t p) (enqueue_task s p flags)
  unfolding enqueue_task
  enqueue_task-Sure s p flags v l = elim (class-cases (class_of_task s p)) [
    | inl c ↦
        let level = IsLimited-IsLevel s p l c in
        let e : dummy_class.enqueue_task s p flags ≡ some (record s { rq = enqueued s.rq p }) =
          rw (enqueue_lem s.rq p level) refl in
        rw (enqueue_task, c)
          (
            record s { rq = enqueued s.rq p },
            e,
            (
              Post-some (Same s) _ _ (dummy-Preserves.enqueues s p flags) e,
              record {
                others = λ q d. IsFit-of q (enqueued-Alike s p q v.off d) (v.others q d);
                placed = λ c'. enqueued-HasPlace s p v.off level;
                absent = λ d. absurd (d c);
              },
            ),
          )
    | inr d ↦
        Sure-mono _
          (λ t h.
            let w = IsOff-of p h v in
            (
              h.same,
              record {
                others = w.others;
                placed = λ c.
                    absurd (d (ap (λ (a : TaskParams). a.sched_class) (sym (h.same.params p)) ∙ c));
                absent = λ c. w.off;
              },
            ))
          ((ops-Leaves keep (class_of_task s p) d).enqueues s p flags)
  ]

  -- The same, if the task is runnable: then all is as it should be.
  pub rejoin_queue :
      (s : Sys) (p flags : ℕ) (b : Bool)
      → on_rq s p ≡ b
      → IsOff s p
      → IsLimited (s.params p) (prio s p)
      → Sure (λ t. Same s t × ((q : ℕ) → IsFit t q)) (when b (λ t. enqueue_task t p flags) s)
  rejoin_queue s p flags true e v l =
      Sure-mono _
        (λ t h. (
          h.0,
          IsFit-of_IsSeated t p h.1 (IsLimited-of s t p (h.0.params p) (h.0.prio p) l)
              (h.0.on_rq p ∙ e),
        ))
        (enqueue_task-Sure s p flags v l)
  rejoin_queue s p flags false e v l = (s, refl, (Same-refl s, IsFit-of_IsOff s p v l e))
