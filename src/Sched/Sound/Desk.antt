-- ===== src/Sched/Sound/Desk.antt =====
-- The quiet kernel keeps to what the theorems on sound processors ask, and its desk is sound.
use epfl_ba6_os.Prelude.{ℕ, refl, inl, inr, ◌==◌, if◌then◌else◌, arith}
use epfl_ba6_os.Sched.ListHead.Arrays.{arrays}
use epfl_ba6_os.Sched.Prio.{
  SchedClass, stop_sched_class, rt_sched_class, fair_sched_class, dummy_sched_class,
  idle_sched_class,
}
use epfl_ba6_os.Sched.Core.{Sys}
use epfl_ba6_os.Sched.Core.Quiet.{quiet, quiet_class, quiet_task, desk}
use epfl_ba6_os.Sched.Sound.{IsFit, IsSound, Leaves, KernelKeeps, IsChoice, done}
use epfl_ba6_os.Sched.Sound.Frames.{Frame-refl}

quiet-Leaves : (c : SchedClass) → Leaves c (quiet_class c)
quiet-Leaves c = record {
  enqueues = λ s p flags. (s, refl, Frame-refl s);
  dequeues = λ s p flags. (s, refl, Frame-refl s);
  yields = λ s. (s, refl, Frame-refl s);
  preempts = λ s p flags. (s, refl, Frame-refl s);
  picks = λ s. (_, refl, (choice c s, Frame-refl s));
  puts = λ s p. (s, refl, Frame-refl s);
  sets = λ s. (s, refl, Frame-refl s);
  ticks = λ s p queued. (s, refl, Frame-refl s);
  forks = λ s p. (s, refl, Frame-refl s);
  from = λ s p. (s, refl, Frame-refl s);
  to = λ s p. (s, refl, Frame-refl s);
  changes = λ s p old. (s, refl, Frame-refl s);
}
  where
    choice : (c : SchedClass) (s : Sys) → IsChoice c s (quiet_task c s)
    choice stop_sched_class s = tt
    choice rt_sched_class s = tt
    choice fair_sched_class s = tt
    choice dummy_sched_class s = tt
    choice idle_sched_class s = inl refl

pub quiet-Keeps : KernelKeeps
quiet-Keeps = record {
  classes = quiet-Leaves;
  idles = λ s. (s, refl);
  boosted = λ s p. omega arith;
  adjusts = λ s p. (s, refl, done);
  wakes_other = λ s p q e. cc;
}

desk-IsFit : (p : ℕ) → IsFit desk p
desk-IsFit p = record {
  limited = record {
    level = λ c. ground arith;
    boosted = ground arith;
    normal = ground arith;
    static = ground arith;
  };
  placed = λ c r. ((if p == 2 then 4 else 2), ground arith, (λ q b. ground arith), ground arith);
  absent = λ c r b. ground arith;
}

pub desk-IsSound : IsSound desk
desk-IsSound = record {
  fits = desk-IsFit;
  steady = record { idle_class = λ e. cc; curr_ready = inr refl };
}
