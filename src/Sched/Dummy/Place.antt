-- ===== src/Sched/Dummy/Place.antt =====
-- Where dummy.c keeps a task: how often it stands on each queue, and what each function changes.
use epfl_ba6_os.Prelude.{
  ℕ, zero, suc, ◌+◌, ◌-◌, ◌≤◌, ◌<◌, ◌≡◌, ◌≢◌, refl, ◌⊎◌, inl, inr, ◌∙◌, ◌&&◌, List, [], ◌∷◌, ltb,
  ◌==◌, if◌then◌else◌, count, remove, count-append, count-remove, arith,
}
use epfl_ba6_os.Sched.ListHead.{ListHead, dummy_queue_size}
use epfl_ba6_os.Sched.Dummy.{
  Task, Rq, task, dummy_priority_min, dummy_priority_max, age_task, age_tasks, age_queues,
}

-- The priority of a task allows for queue `i`: its own queue, or one above it.
abbrev pub IsLevel : Task → ℕ → Type 0
IsLevel t i = (dummy_priority_min + i ≤ t.prio) × (t.prio ≤ dummy_priority_max)

module _ ⦃K : ListHead⦄ where
  open K use {
    Links, entries, list_add_tail, list_del_init, list_move_tail, entries-add, entries-del,
    entries-move,
  }

  -- How often task `p` stands on queue `i`.
  abbrev pub on_queue : Rq → ℕ → ℕ → ℕ
  on_queue rq p i = count p (entries rq.queues i)

  -- How often it stands on the queues together.
  abbrev pub total : Rq → ℕ → ℕ
  total rq p =
      on_queue rq p 0 + on_queue rq p 1 + on_queue rq p 2 + on_queue rq p 3 + on_queue rq p 4

  -- On no queue.
  abbrev pub IsAbsent : Rq → ℕ → Type 0
  IsAbsent rq p = (r : ℕ) → r < dummy_queue_size → on_queue rq p r ≡ 0

  -- On queue `i`, once, and on no other.
  abbrev pub IsAt : Rq → ℕ → ℕ → Type 0
  IsAt rq p i = (r : ℕ) → r < dummy_queue_size → on_queue rq p r ≡ (if i == r then 1 else 0)

  abbrev pub IsPlaced : Rq → ℕ → Type 0
  IsPlaced rq p =
      IsAbsent rq p ⊎ ((i : ℕ) × (i < dummy_queue_size) × IsAt rq p i × IsLevel (task rq p) i)

  -- The invariant of the run queue: each task is on no queue, or on one, once, at or above the
  -- queue of its priority.
  abbrev pub IsQueued : Rq → Type 0
  IsQueued rq = (p : ℕ) → IsPlaced rq p

  pub count-del :
      (l : Links) (p q r : ℕ)
      → count q (entries (list_del_init l p) r) ≡ (if p == q then 0 else count q (entries l r))
  count-del l p q r = rw (entries-del l p r) (count-remove q p (entries l r))

  pub count-move :
      (l : Links) (p s q r : ℕ)
      → count q (entries (list_move_tail l p s) r)
        ≡ (if p == q then (if s == r then 1 else 0) else count q (entries l r))
  count-move l p s q r = rw (entries-move l p s r) (
      ground
        (arith, count-append q (remove p (entries l r)) (p ∷ []), count-remove q p (entries l r)))

  pub count-add :
      (l : Links) (p s q r : ℕ)
      → ((i : ℕ) → i < dummy_queue_size → count p (entries l i) ≡ 0)
      → r < dummy_queue_size
      → count q (entries (list_add_tail l p s) r)
        ≡ (if p == q then (if s == r then 1 else 0) else count q (entries l r))
  count-add l p s q r h b =
      rw (entries-add l p s r h) (ground (arith, h r b, count-append q (entries l r) (p ∷ [])))

  -- One round of the aging loop moves its own task, if that has waited long enough.
  pub on_queue-age_task :
      (i p : ℕ) (rq : Rq) (q r : ℕ)
      → on_queue (age_task i p rq) q r ≡ (
          if ltb rq.sysctl_age_threshold (task rq p).dummy_age_tick && p == q
          then (if i - 1 == r then 1 else 0)
          else on_queue rq q r)
  unfolding age_task
  on_queue-age_task i p rq q r = ground (arith, count-move rq.queues p (i - 1) q r)

  -- It leaves the tasks that `q` is not one of alone.
  pub task-age_task : (i p : ℕ) (rq : Rq) (q : ℕ) → p ≢ q → task (age_task i p rq) q ≡ task rq q
  unfolding age_task
  task-age_task i p rq q h = ground arith

  pub record Kept (rq rq' : Rq) : Type 0 where
    pub prio : (q : ℕ) → (task rq' q).prio ≡ (task rq q).prio
    pub on_rq : (q : ℕ) → (task rq' q).on_rq ≡ (task rq q).on_rq
    pub curr : rq'.curr ≡ rq.curr
    pub dummy_timeslice : rq'.dummy_timeslice ≡ rq.dummy_timeslice
    pub nr_running : rq'.nr_running ≡ rq.nr_running
    pub sysctl_timeslice : rq'.sysctl_timeslice ≡ rq.sysctl_timeslice
    pub sysctl_age_threshold : rq'.sysctl_age_threshold ≡ rq.sysctl_age_threshold

  pub Kept-trans : {a b c : Rq} → Kept a b → Kept b c → Kept a c
  Kept-trans h k = record {
    prio = λ q. k.prio q ∙ h.prio q;
    on_rq = λ q. k.on_rq q ∙ h.on_rq q;
    curr = k.curr ∙ h.curr;
    dummy_timeslice = k.dummy_timeslice ∙ h.dummy_timeslice;
    nr_running = k.nr_running ∙ h.nr_running;
    sysctl_timeslice = k.sysctl_timeslice ∙ h.sysctl_timeslice;
    sysctl_age_threshold = k.sysctl_age_threshold ∙ h.sysctl_age_threshold;
  }

  pub Kept-age_task : (i p : ℕ) (rq : Rq) → Kept rq (age_task i p rq)
  unfolding age_task
  Kept-age_task i p rq = record {
    prio = λ q. ground arith;
    on_rq = λ q. ground arith;
    curr = ground arith;
    dummy_timeslice = ground arith;
    nr_running = ground arith;
    sysctl_timeslice = ground arith;
    sysctl_age_threshold = ground arith;
  }

  pub Kept-age_tasks : (i : ℕ) (ps : List ℕ) (rq : Rq) → Kept rq (age_tasks i ps rq)
  unfolding age_tasks
  Kept-age_tasks i [] rq = record {
    prio = λ q. refl;
    on_rq = λ q. refl;
    curr = refl;
    dummy_timeslice = refl;
    nr_running = refl;
    sysctl_timeslice = refl;
    sysctl_age_threshold = refl;
  }
  Kept-age_tasks i (p ∷ ps) rq =
      Kept-trans (Kept-age_task i p rq) (Kept-age_tasks i ps (age_task i p rq))

  pub Kept-age_queues : (n i : ℕ) (rq : Rq) → Kept rq (age_queues n i rq)
  unfolding age_queues age_tasks
  Kept-age_queues zero i rq = Kept-age_tasks i [] rq
  Kept-age_queues (suc n) i rq =
      Kept-trans (Kept-age_tasks i (entries rq.queues i) rq) (Kept-age_queues n (i + 1) _)

  -- A task whose place and priority stay is placed as before.
  pub IsPlaced-of_kept :
      (rq rq' : Rq) (p : ℕ)
      → ((r : ℕ) → r < dummy_queue_size → on_queue rq' p r ≡ on_queue rq p r)
      → (task rq' p).prio ≡ (task rq p).prio
      → IsPlaced rq p
      → IsPlaced rq' p
  IsPlaced-of_kept rq rq' p h e (inl a) = inl (λ r b. h r b ∙ a r b)
  IsPlaced-of_kept rq rq' p h e (inr (i, b, a, l)) = inr (i, b, (λ r c. h r c ∙ a r c), omega arith)
