-- ===== src/Sched/Nice/Fault.antt =====
-- A task that `set_user_nice` of core.c leaves in the dummy class with a priority that has no queue
-- there.
use epfl_ba6_os.Prelude.{
  ℕ, ◌≡◌, ◌<◌, refl, ap, ◌∙◌, none, some, Bool, true, false, ◌||◌, if◌then◌else◌, inl, arith,
}
use epfl_ba6_os.Prelude.Int.{ℤ, ltb_ℤ, eq_ℤ}
use epfl_ba6_os.Sched.ListHead.{ListHead}
use epfl_ba6_os.Sched.Prio.{
  dummy_sched_class, min_dummy_prio, rt_prio, dummy_prio, nice_to_prio, task_nice,
  task_has_rt_policy,
}
use epfl_ba6_os.Sched.Dummy.{dequeue_task_dummy}
use epfl_ba6_os.Sched.Dummy.Enqueue.{enqueue_out_of_bounds}
use epfl_ba6_os.Sched.Machine.{Kernel, prio, on_rq}
use epfl_ba6_os.Sched.Core.{Sys, class_of_task, enqueue_task, dequeue_task}
use epfl_ba6_os.Sched.Core.Keeps.{dummy-Preserves}
use epfl_ba6_os.Sched.Nice.{
  min_nice, max_nice, set_static_prio, update_prio, requeue_reniced, set_user_nice,
}
use epfl_ba6_os.Sched.Nice.Renice.{IsReniced, is_new_nice, update_prio-IsReniced}

if_same : {A : Type 0} {x : A} (b : Bool) → (if b then x else x) ≡ x
if_same true = refl
if_same false = refl

module _ ⦃K : ListHead⦄ ⦃E : Kernel⦄ where
  dequeue_task-dummy :
      (s : Sys) (p : ℕ)
      → class_of_task s p ≡ dummy_sched_class
      → dequeue_task s p 0 ≡ some (record s { rq = dequeue_task_dummy s.rq p })
  unfolding dequeue_task
  dequeue_task-dummy s p c = rw (dequeue_task, c) refl

  enqueue_task-faults :
      (s : Sys) (p : ℕ)
      → class_of_task s p ≡ dummy_sched_class
      → prio s p < min_dummy_prio
      → enqueue_task s p 0 ≡ none
  unfolding enqueue_task
  enqueue_task-faults s p c l =
      rw (enqueue_task, c) (rw (enqueue_out_of_bounds s.rq p (inl l)) refl)

  requeue_faults :
      (s t : Sys) (p n old : ℕ)
      → class_of_task s p ≡ dummy_sched_class
      → rt_prio (prio s p) ≡ false
      → n < min_dummy_prio
      → IsReniced s p n t
      → requeue_reniced old t p ≡ none
  unfolding requeue_reniced
  requeue_faults s t p n old c r l h =
      let at_n : prio t p ≡ n = h.prio_set ∙ rw r refl in
      let class =
        h.class_set
        ∙ ap (λ x. if dummy_prio (prio t p) then dummy_sched_class else x) c
        ∙ if_same (dummy_prio (prio t p)) in
      rw (enqueue_task-faults t p class (rw at_n l)) refl

  -- A runnable task of the dummy class without a policy of real time, whose priority is not one of
  -- real time, gets a new nice value below 15: `set_user_nice` leaves it in the dummy class, with a
  -- priority below 135, and the class accesses `queues` out of its bounds.
  pub set_user_nice_faults :
      (s : Sys) (p : ℕ) (nice : ℤ)
      → class_of_task s p ≡ dummy_sched_class
      → on_rq s p ≡ true
      → rt_prio (prio s p) ≡ false
      → task_has_rt_policy (s.params p) ≡ false
      → is_new_nice (s.params p) nice ≡ true
      → nice_to_prio nice < min_dummy_prio
      → set_user_nice s p nice ≡ none
  unfolding set_user_nice
  set_user_nice_faults s p nice c q r rt v l =
      let v' : eq_ℤ (task_nice (s.params p)) nice || ltb_ℤ nice min_nice || ltb_ℤ max_nice nice
          ≡ false =
        ground arith in
      let t = record s { rq = dequeue_task_dummy s.rq p } in
      let u = update_prio (set_static_prio t p nice) p in
      rw (v', rt, q, dequeue_task-dummy s p c)
        (requeue_faults s u p (nice_to_prio nice) (prio t p) c r l
          (update_prio-IsReniced s t p nice rt (dummy-Preserves.dequeues s p 0)))
