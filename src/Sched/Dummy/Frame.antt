-- ===== src/Sched/Dummy/Frame.antt =====
-- What no function of dummy.c changes: the priorities, who is runnable, and who is running.
use epfl_ba6_os.Prelude.{ℕ, ◌≡◌, refl, ◌∙◌, Option, none, some, arith}
use epfl_ba6_os.Sched.ListHead.{ListHead}
use epfl_ba6_os.Sched.Dummy.{
  Rq, task, enqueue_task_dummy, dequeue_task_dummy, yield_task_dummy, requeue_task_dummy,
  check_preempt_curr_dummy, pick_next_task_dummy, task_tick_dummy, tick_timeslice, age_queues,
  switched_to_dummy, prio_changed_dummy,
}
use epfl_ba6_os.Sched.Dummy.Place.{Kept-age_queues}
use epfl_ba6_os.Sched.Dummy.Pick.{picked, pick_next_task_lem}

module _ ⦃K : ListHead⦄ where
  pub record SameRq (a b : Rq) : Type 0 where
    pub prio : (q : ℕ) → (task b q).prio ≡ (task a q).prio
    pub on_rq : (q : ℕ) → (task b q).on_rq ≡ (task a q).on_rq
    pub curr : b.curr ≡ a.curr

  pub SameRq-trans : {a b c : Rq} → SameRq a b → SameRq b c → SameRq a c
  SameRq-trans h k = record {
    prio = λ q. k.prio q ∙ h.prio q;
    on_rq = λ q. k.on_rq q ∙ h.on_rq q;
    curr = k.curr ∙ h.curr;
  }

  pub SameRq-enqueue : (a b : Rq) (p : ℕ) → enqueue_task_dummy a p ≡ some b → SameRq a b
  unfolding enqueue_task_dummy
  SameRq-enqueue a b p h = record {
    prio = λ q. ground arith;
    on_rq = λ q. ground arith;
    curr = ground arith;
  }

  pub SameRq-dequeue : (a : Rq) (p : ℕ) → SameRq a (dequeue_task_dummy a p)
  unfolding dequeue_task_dummy
  SameRq-dequeue a p = record { prio = λ q. refl; on_rq = λ q. refl; curr = refl }

  pub SameRq-requeue : (a b : Rq) (p : ℕ) → requeue_task_dummy a p ≡ some b → SameRq a b
  unfolding requeue_task_dummy enqueue_task_dummy dequeue_task_dummy
  SameRq-requeue a b p h = record {
    prio = λ q. ground arith;
    on_rq = λ q. ground arith;
    curr = ground arith;
  }

  pub SameRq-preempt : (a : Rq) (p : ℕ) → SameRq a (check_preempt_curr_dummy a p)
  unfolding check_preempt_curr_dummy
  SameRq-preempt a p = record {
    prio = λ q. ground arith;
    on_rq = λ q. ground arith;
    curr = ground arith;
  }

  pub SameRq-picked : (a : Rq) (o : Option ℕ) → SameRq a (picked a o)
  SameRq-picked a none = record { prio = λ q. refl; on_rq = λ q. refl; curr = refl }
  SameRq-picked a (some p) = record {
    prio = λ q. ground arith;
    on_rq = λ q. ground arith;
    curr = refl;
  }

  pub SameRq-pick : (a : Rq) → SameRq a (pick_next_task_dummy a).1
  SameRq-pick a = rw (pick_next_task_lem a) (SameRq-picked a _)

  pub SameRq-switched_to : (a : Rq) (p : ℕ) → SameRq a (switched_to_dummy a p)
  unfolding switched_to_dummy
  SameRq-switched_to a p = record {
    prio = λ q. ground arith;
    on_rq = λ q. ground arith;
    curr = ground arith;
  }

  pub SameRq-prio_changed : (a : Rq) (p old : ℕ) → SameRq a (prio_changed_dummy a p old)
  unfolding prio_changed_dummy
  SameRq-prio_changed a p old = record {
    prio = λ q. ground arith;
    on_rq = λ q. ground arith;
    curr = ground arith;
  }

  pub SameRq-timeslice : (a b : Rq) (p : ℕ) → tick_timeslice a p ≡ some b → SameRq a b
  unfolding tick_timeslice requeue_task_dummy enqueue_task_dummy dequeue_task_dummy
  SameRq-timeslice a b p h = record {
    prio = λ q. ground arith;
    on_rq = λ q. ground arith;
    curr = ground arith;
  }

  pub SameRq-age_queues : (n i : ℕ) (a : Rq) → SameRq a (age_queues n i a)
  SameRq-age_queues n i a =
      let k = Kept-age_queues n i a in record { prio = k.prio; on_rq = k.on_rq; curr = k.curr }

  pub SameRq-tick : (a b : Rq) (p : ℕ) → task_tick_dummy a p ≡ some b → SameRq a b
  unfolding task_tick_dummy
  SameRq-tick a b p h =
      SameRq-trans (SameRq-age_queues 4 1 a) (SameRq-timeslice (age_queues 4 1 a) b p h)

  pub SameRq-yield : (a b : Rq) → yield_task_dummy a ≡ some b → SameRq a b
  unfolding yield_task_dummy
  SameRq-yield a b h = SameRq-requeue a b a.curr h

  -- The functions that only mark tasks leave the queues alone.
  pub queues-preempt : (rq : Rq) (p : ℕ) → (check_preempt_curr_dummy rq p).queues ≡ rq.queues
  unfolding check_preempt_curr_dummy
  queues-preempt rq p = ground arith

  pub queues-switched_to : (rq : Rq) (p : ℕ) → (switched_to_dummy rq p).queues ≡ rq.queues
  unfolding switched_to_dummy
  queues-switched_to rq p = ground arith

  pub queues-prio_changed : (rq : Rq) (p old : ℕ) → (prio_changed_dummy rq p old).queues ≡ rq.queues
  unfolding prio_changed_dummy
  queues-prio_changed rq p old = ground arith
