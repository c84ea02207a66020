-- ===== src/Sched/Sound/Histories.antt =====
-- Histories of the processor of core.c: its calls, in any order, from a sound one.
use epfl_ba6_os.Prelude.{
  ℕ, ◌≤◌, ◌≡◌, ◌≢◌, refl, inl, inr, List, [], ◌∷◌, Bool, false, Option, some, ◌>>=◌, arith,
}
use epfl_ba6_os.Prelude.Int.{ℤ}
use epfl_ba6_os.Sched.ListHead.{ListHead}
use epfl_ba6_os.Sched.Prio.{
  SchedClass, stop_sched_class, rt_sched_class, fair_sched_class, idle_sched_class,
  dummy_sched_class, min_dummy_prio, nice_to_prio,
}
use epfl_ba6_os.Sched.Dummy.{Task}
use epfl_ba6_os.Sched.Machine.{Kernel, on_rq, write_task, write_params, class_eq}
use epfl_ba6_os.Sched.Core.{Sys, class_of_task, task_ops, scheduler_tick}
use epfl_ba6_os.Sched.Nice.{Security, set_user_nice}
use epfl_ba6_os.Sched.SetScheduler.{__sched_setscheduler, normalize_task, rt_mutex_setprio}
use epfl_ba6_os.Sched.Wakeup.{try_to_wake_up, sched_fork, wake_up_new_task}
use epfl_ba6_os.Sched.Schedule.{schedule_round}
use epfl_ba6_os.Sched.Sound.{Sure, Sure-bind, Sure-mono, IsSteady, IsSound, KernelKeeps}
use epfl_ba6_os.Sched.Sound.Alike.{Alike, IsFit-of}
use epfl_ba6_os.Sched.Sound.Policy.{rt_mutex_setprio-IsSound}
use epfl_ba6_os.Sched.Sound.Requests.{__sched_setscheduler-IsSound, normalize_task-IsSound}
use epfl_ba6_os.Sched.Sound.Renice.{set_user_nice-IsSound}
use epfl_ba6_os.Sched.Sound.Wake.{try_to_wake_up-IsSound, wake_up_new_task-IsSound}
use epfl_ba6_os.Sched.Sound.Fork.{sched_fork-IsSound}
use epfl_ba6_os.Sched.Sound.Ticks.{scheduler_tick-IsSound, yield_task-IsSound}
use epfl_ba6_os.Sched.Sound.Rounds.{schedule_round-IsSound}

-- A call of core.c.
pub data Call : Type 0 where
  ticks yields : Call
  schedules : (ℕ → Bool) → Call
  wakes : ℕ → ℕ → ℕ → Call
  forks : ℕ → Task → Call
  starts : ℕ → Call
  renices : ℕ → ℤ → Call
  requests : Security → ℕ → ℤ → ℤ → Bool → Call
  boosts : ℕ → ℕ → Call
  normalizes : ℕ → Call

class-not_dummy : (c : SchedClass) → c ≢ dummy_sched_class → class_eq c dummy_sched_class ≡ false
class-not_dummy stop_sched_class d = refl
class-not_dummy rt_sched_class d = refl
class-not_dummy fair_sched_class d = refl
class-not_dummy dummy_sched_class d = absurd (d refl)
class-not_dummy idle_sched_class d = refl

module _ ⦃K : ListHead⦄ ⦃E : Kernel⦄ where
  -- The child of the running task, with a copy of its parameters, as kernel/fork.c hands it over.
  unfoldable pub copied : Sys → ℕ → Task → Sys
  copied s p t = write_task (write_params s p (s.params s.rq.curr)) p t

  unfoldable pub run : Call → Sys → Option Sys
  unfolding copied
  run ticks s = scheduler_tick s
  run yields s = (task_ops s s.rq.curr).yield_task s
  run (schedules active) s = schedule_round active s
  run (wakes p state flags) s = try_to_wake_up s p state flags >>= λ r. some r.1
  run (forks p t) s = sched_fork (copied s p t) p
  run (starts p) s = wake_up_new_task s p
  run (renices p nice) s = set_user_nice s p nice
  run (requests sec p policy sched_priority user) s =
      __sched_setscheduler sec s p policy sched_priority user >>= λ r. some r.1
  run (boosts p n) s = rt_mutex_setprio s p n
  run (normalizes p) s = normalize_task s p

  -- What the callers see to. A forked task is a new one; a nice value takes no task of the dummy
  -- class out of its priorities; rtmutex.c does not go below the normal priority.
  abbrev pub Allowed : Call → Sys → Type 0
  Allowed ticks s = Unit
  Allowed yields s = Unit
  Allowed (schedules active) s = Unit
  Allowed (wakes p state flags) s = Unit
  Allowed (forks p t) s = (p ≢ s.rq.curr) × (p ≢ s.idle) × (on_rq s p ≡ false)
  Allowed (starts p) s = on_rq s p ≡ false
  Allowed (renices p nice) s =
      (p ≢ s.idle) × (class_of_task s p ≡ dummy_sched_class → min_dummy_prio ≤ nice_to_prio nice)
  Allowed (requests sec p policy sched_priority user) s = p ≢ s.idle
  Allowed (boosts p n) s = n ≤ (s.params p).normal_prio
  Allowed (normalizes p) s = p ≢ s.idle

  unfoldable pub run_all : List Call → Sys → Option Sys
  run_all [] s = some s
  run_all (c ∷ cs) s = run c s >>= run_all cs

  -- Each call is allowed in the state where it is made.
  abbrev pub AllAllowed : List Call → Sys → Type 0
  AllAllowed [] s = Unit
  AllAllowed (c ∷ cs) s = Allowed c s × ((t : Sys) → run c s ≡ some t → AllAllowed cs t)

  module _ (keep : KernelKeeps) where
    copied-Alike : (s : Sys) (p : ℕ) (t : Task) (q : ℕ) → p ≢ q → Alike s (copied s p t) q
    unfolding copied
    copied-Alike s p t q d = record {
      params = ground arith;
      prio = ground arith;
      on_rq = ground arith;
      places = λ r b. refl;
    }

    copied-IsSteady :
        (s : Sys) (p : ℕ) (t : Task)
        → p ≢ s.rq.curr
        → p ≢ s.idle
        → IsSteady s
        → IsSteady (copied s p t)
    unfolding copied
    copied-IsSteady s p t d i v = record {
      idle_class = λ e. v.idle_class (ground arith);
      curr_ready = elim v.curr_ready [ inl e ↦ inl e | inr e ↦ inr (ground arith) ];
    }

    fork-IsSound :
        (s : Sys) (p : ℕ) (t : Task)
        → Allowed (forks p t) s
        → IsSound s
        → Sure IsSound (sched_fork (copied s p t) p)
    unfolding copied
    fork-IsSound s p t (d, i, r) v =
        let c = copied s p t in
        Sure-mono _ (λ u h. h.0)
          (sched_fork-IsSound keep c p
            (record {
              others = λ q n. IsFit-of q (copied-Alike s p t q n) (v.fits q);
              off = (v.fits p).absent (inr r);
            })
            (IsFit-of s.rq.curr (copied-Alike s p t s.rq.curr d) (v.fits s.rq.curr))
            (copied-IsSteady s p t d i v.steady) d i (ground arith))

    -- An allowed call on a sound processor returns, and leaves the processor sound.
    run-IsSound : (c : Call) (s : Sys) → Allowed c s → IsSound s → Sure IsSound (run c s)
    unfolding run
    run-IsSound ticks s a v = scheduler_tick-IsSound keep s v
    run-IsSound yields s a v = yield_task-IsSound keep s v
    run-IsSound (schedules active) s a v = schedule_round-IsSound keep active s v
    run-IsSound (wakes p state flags) s a v =
        Sure-bind _ _ (try_to_wake_up-IsSound keep s p state flags v) (λ r h. (r.1, refl, h))
    run-IsSound (forks p t) s a v = fork-IsSound s p t a v
    run-IsSound (starts p) s a v = wake_up_new_task-IsSound keep s p a v
    run-IsSound (renices p nice) s a v = set_user_nice-IsSound keep s p nice v a.0 a.1
    run-IsSound (requests sec p policy sched_priority user) s a v =
        Sure-bind _ _ (__sched_setscheduler-IsSound keep sec s p policy sched_priority user v a)
          (λ r h. (r.1, refl, h))
    run-IsSound (boosts p n) s a v = rt_mutex_setprio-IsSound keep s p n v a
    run-IsSound (normalizes p) s a v = normalize_task-IsSound keep s p v a

    -- On a sound processor, where the rest of the kernel keeps to KernelKeeps and each call is
    -- allowed in the state where it is made, a sequence of calls of core.c ends without a fault and
    -- leaves the processor sound: each runnable task of the dummy class stands on one queue, once,
    -- at or above the queue of its priority, which is from 135 to 139; no other task stands on a
    -- queue; and the running task is runnable or the idle one.
    pub run_all-IsSound :
        (cs : List Call) (s : Sys) → AllAllowed cs s → IsSound s → Sure IsSound (run_all cs s)
    unfolding run_all
    run_all-IsSound [] s a v = (s, refl, v)
    run_all-IsSound (c ∷ cs) s a v =
        let (t, e, w) = run-IsSound c s a.0 v in rw e (run_all-IsSound cs t (a.1 t e) w)
