-- ===== src/Sched/Dummy/Aging.antt =====
-- What a timer tick of dummy.c does to one waiting task: the aging loops of `task_tick_dummy`, and
-- the end of a time slice.
use epfl_ba6_os.Prelude.{
  ℕ, zero, suc, ◌+◌, ◌-◌, ◌≤◌, ◌<◌, ◌≡◌, ◌≢◌, refl, ◌∙◌, ap, inl, inr, List, [], ◌∷◌, Bool,
  Bool-cases, ==_iff, ◌==◌, ltb, if◌then◌else◌, count, add32, arith,
}
use epfl_ba6_os.Sched.ListHead.{ListHead, dummy_queue_size}
use epfl_ba6_os.Sched.Dummy.{Task, Rq, task, age_task, age_tasks, age_queues}
use epfl_ba6_os.Sched.Dummy.Place.{
  on_queue, IsAt, Kept-age_task, Kept-age_tasks, on_queue-age_task, task-age_task,
}

module _ ⦃K : ListHead⦄ where
  open K use {entries}

  -- Has the task waited for longer than the threshold?
  abbrev pub is_old : Rq → ℕ → Bool
  is_old rq p = ltb rq.sysctl_age_threshold (task rq p).dummy_age_tick

  -- Nothing happened to task `p`.
  pub record Same (p : ℕ) (rq rq' : Rq) : Type 0 where
    pub place : (r : ℕ) → on_queue rq' p r ≡ on_queue rq p r
    pub age : (task rq' p).dummy_age_tick ≡ (task rq p).dummy_age_tick

  -- Task `p`, on queue `i`, was aged: it moved one queue up, or it is one tick older.
  pub record Aged (i p : ℕ) (rq rq' : Rq) : Type 0 where
    pub place :
        (r : ℕ)
        → on_queue rq' p r
          ≡ (if is_old rq p then (if i - 1 == r then 1 else 0) else on_queue rq p r)
    pub age :
        (task rq' p).dummy_age_tick
        ≡ (if is_old rq p then 0 else add32 (task rq p).dummy_age_tick 1)

  Same-trans : {p : ℕ} {a b c : Rq} → Same p a b → Same p b c → Same p a c
  Same-trans h k = record { place = λ r. k.place r ∙ h.place r; age = k.age ∙ h.age }

  Same-Aged :
      {i p : ℕ} {a b c : Rq}
      → b.sysctl_age_threshold ≡ a.sysctl_age_threshold
      → Same p a b
      → Aged i p b c
      → Aged i p a c
  Same-Aged {i} {p} {a} {b} {c} e h k = record {
    place = λ r. k.place r ∙ rw (e, h.age, h.place r);
    age = k.age ∙ rw (e, h.age);
  }

  Aged-Same : {i p : ℕ} {a b c : Rq} → Aged i p a b → Same p b c → Aged i p a c
  Aged-Same h k = record { place = λ r. k.place r ∙ h.place r; age = k.age ∙ h.age }

  Same-age_task : (i p : ℕ) (rq : Rq) (q : ℕ) → p ≢ q → Same q rq (age_task i p rq)
  Same-age_task i p rq q h = record {
    place = λ r. on_queue-age_task i p rq q r ∙ ground arith;
    age = ap (λ (t : Task). t.dummy_age_tick) (task-age_task i p rq q h);
  }

  Aged-age_task : (i p : ℕ) (rq : Rq) → Aged i p rq (age_task i p rq)
  Aged-age_task i p rq = record {
    place = λ r. on_queue-age_task i p rq p r ∙ ground arith;
    age = unfold age_task in ground arith;
  }

  Same-age_tasks :
      (i p : ℕ) (qs : List ℕ) (rq : Rq) → count p qs ≡ 0 → Same p rq (age_tasks i qs rq)
  unfolding age_tasks
  Same-age_tasks i p [] rq h = record { place = λ r. refl; age = refl }
  Same-age_tasks i p (q ∷ qs) rq h =
      Same-trans (Same-age_task i q rq p (ground arith))
        (Same-age_tasks i p qs (age_task i q rq) (ground arith))

  Aged-age_tasks :
      (i p : ℕ) (qs : List ℕ) (rq : Rq) → count p qs ≡ 1 → Aged i p rq (age_tasks i qs rq)
  unfolding age_tasks
  Aged-age_tasks i p [] rq h = absurd (omega arith)
  Aged-age_tasks i p (q ∷ qs) rq h = elim (Bool-cases (q == p)) [
    | inl e ↦
        let same = (==_iff q p).0 e in
        Aged-Same (rw same (Aged-age_task i p rq))
          (Same-age_tasks i p qs (age_task i q rq) (ground arith))
    | inr e ↦
        Same-Aged (Kept-age_task i q rq).sysctl_age_threshold
          (Same-age_task i q rq p (ground arith))
          (Aged-age_tasks i p qs (age_task i q rq) (ground arith))
  ]

  pub Same-age_queues :
      (n i p : ℕ) (rq : Rq)
      → ((j : ℕ) → i ≤ j → j < i + n → on_queue rq p j ≡ 0)
      → Same p rq (age_queues n i rq)
  unfolding age_queues
  Same-age_queues zero i p rq h = record { place = λ r. refl; age = refl }
  Same-age_queues (suc n) i p rq h =
      let s = Same-age_tasks i p (entries rq.queues i) rq (h i (omega arith) (omega arith)) in
      Same-trans s (
        Same-age_queues n (i + 1) p (age_tasks i (entries rq.queues i) rq)
          (λ j lo hi. s.place j ∙ h j (omega arith) (omega arith)))

  -- The loops over the queues age the task of each queue that they run over once, even if it
  -- moves to another queue on the way.
  pub Aged-age_queues :
      (n i k p : ℕ) (rq : Rq)
      → i ≤ k
      → k < i + n
      → i + n ≤ dummy_queue_size
      → IsAt rq p k
      → Aged k p rq (age_queues n i rq)
  unfolding age_queues
  Aged-age_queues zero i k p rq lo hi m a = absurd (omega arith)
  Aged-age_queues (suc n) i k p rq lo hi m a = elim (Bool-cases (i == k)) [
    | inl e ↦
        let same = (==_iff i k).0 e in
        let hit = Aged-age_tasks i p (entries rq.queues i) rq (a i (omega arith) ∙ ground arith) in
        let after = age_tasks i (entries rq.queues i) rq in
        let hit' : Aged k p rq after = rw (← same) hit in
        Aged-Same hit' (
          Same-age_queues n (i + 1) p after
            (λ j l h. hit'.place j ∙ ground (arith, a j (omega arith))))
    | inr e ↦
        let s = Same-age_tasks i p (entries rq.queues i) rq (a i (omega arith) ∙ ground arith) in
        Same-Aged (Kept-age_tasks i (entries rq.queues i) rq).sysctl_age_threshold s (
          Aged-age_queues n (i + 1) k p (age_tasks i (entries rq.queues i) rq) (ground arith)
            (omega arith) (omega arith) (λ r b. s.place r ∙ a r b))
  ]
