-- ===== src/Sched/Nice/Writes.antt =====
-- What the writes of `set_user_nice` in core.c leave alone, and the normal priority that they set.
use epfl_ba6_os.Prelude.{ℕ, ◌≡◌, ◌≤◌, ◌<◌, refl, ◌∙◌, false, ◌||◌, arith}
use epfl_ba6_os.Prelude.Int.{ℤ, pos, negsuc, ltb_ℤ}
use epfl_ba6_os.Sched.ListHead.{ListHead}
use epfl_ba6_os.Sched.Prio.{
  TaskParams, task_has_rt_policy, nice_to_prio, effective_prio, compute_normal_prio, __normal_prio,
  set_load_weight, max_rt_prio, max_prio,
}
use epfl_ba6_os.Sched.Machine.{Kernel, on_rq, prio}
use epfl_ba6_os.Sched.Core.{Sys}
use epfl_ba6_os.Sched.Nice.{min_nice, max_nice, set_static_prio, update_prio}

effective-normal :
    (n : ℕ) (t : TaskParams) → (effective_prio n t).1.normal_prio ≡ compute_normal_prio t
unfolding effective_prio
effective-normal n t = ground arith

compute_normal_prio-static :
    (t : TaskParams) → task_has_rt_policy t ≡ false → compute_normal_prio t ≡ t.static_prio
unfolding compute_normal_prio __normal_prio
compute_normal_prio-static t h = rw h refl

-- The priority of a nice value from -20 to 19.
pub nice_to_prio-range :
    (nice : ℤ)
    → ltb_ℤ nice min_nice || ltb_ℤ max_nice nice ≡ false
    → (max_rt_prio ≤ nice_to_prio nice) × (nice_to_prio nice < max_prio)
unfolding nice_to_prio
nice_to_prio-range (pos n) h = ground arith
nice_to_prio-range (negsuc n) h = ground arith

module _ ⦃K : ListHead⦄ ⦃E : Kernel⦄ where
  pub update_prio-kept :
      (s : Sys) (p : ℕ)
      → ((update_prio s p).rq.queues ≡ s.rq.queues)
        × ((q : ℕ) → on_rq (update_prio s p) q ≡ on_rq s q)
        × ((update_prio s p).rq.curr ≡ s.rq.curr)
        × ((update_prio s p).idle ≡ s.idle)
        × (((update_prio s p).params p).normal_prio
            ≡ (effective_prio (prio s p) (s.params p)).1.normal_prio)
  unfolding update_prio
  update_prio-kept s p =
      (ground arith, (λ q. ground arith), ground arith, ground arith, ground arith)

  pub set_static_prio-kept :
      (s : Sys) (p : ℕ) (nice : ℤ)
      → ((set_static_prio s p nice).rq ≡ s.rq)
        × ((set_static_prio s p nice).idle ≡ s.idle)
        × (task_has_rt_policy ((set_static_prio s p nice).params p)
            ≡ task_has_rt_policy (s.params p))
        × (((set_static_prio s p nice).params p).static_prio ≡ nice_to_prio nice)
  unfolding set_static_prio task_has_rt_policy set_load_weight
  set_static_prio-kept s p nice = (refl, refl, ground arith, ground arith)

  -- The normal priority of a task without a policy of real time becomes that of the nice value.
  pub reniced-normal :
      (s : Sys) (p : ℕ) (nice : ℤ)
      → task_has_rt_policy (s.params p) ≡ false
      → ((update_prio (set_static_prio s p nice) p).params p).normal_prio ≡ nice_to_prio nice
  reniced-normal s p nice h =
      let t = set_static_prio s p nice in
      let k = set_static_prio-kept s p nice in
      (update_prio-kept t p).4
      ∙ effective-normal (prio t p) (t.params p)
      ∙ compute_normal_prio-static (t.params p) (k.2 ∙ h)
      ∙ k.3
