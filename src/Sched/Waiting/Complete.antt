-- ===== src/Sched/Waiting/Complete.antt =====
-- Whom `complete` and `complete_all` of core.c wake up.
use Prim.Native.Nat.{bit_and}
use epfl_ba6_os.Prelude.{
  ℕ, suc, ◌^◌, ◌/◌, ◌≡◌, ◌<◌, refl, ap, subst, ◌∙◌, ◌⊎◌, inl, inr, List, [], ◌∷◌, ◌++◌, Bool, true,
  false, not, ◌&&◌, Option, some, ◌==◌, Bool-cases, ==_iff, length, All, add32, sub32, arith,
}
use epfl_ba6_os.Sched.ListHead.{ListHead}
use epfl_ba6_os.Sched.Machine.{Cpu, Kernel}
use epfl_ba6_os.Sched.Core.{Sys}
use epfl_ba6_os.Sched.Core.Keeps.{KeepsSame, ClassesPreserve}
use epfl_ba6_os.Sched.Wakeup.{task_normal, try_to_wake_up}
use epfl_ba6_os.Sched.Wakeup.Woken.{IsWoken, try_to_wake_up-wakes}
use epfl_ba6_os.Sched.Sound.{Sure, Sure-bind, IsSound, Frame, KernelKeeps}
use epfl_ba6_os.Sched.Sound.Wake.{try_to_wake_up-IsSound}
use epfl_ba6_os.Sched.Waiting.{
  Waiter, Completion, uint_max, default_wake_function, __wake_up_common, complete, complete_all,
}

-- One less than a count that is 0 or more than `n + 1`.
sub32-above :
    (nr n : ℕ)
    → (nr ≡ 0) ⊎ (suc n < nr)
    → suc n < uint_max
    → nr < 2 ^ 32
    → (n < sub32 nr 1) × (sub32 nr 1 < 2 ^ 32)
sub32-above nr n (inl z) small b = rw z (omega arith, omega arith)
sub32-above nr n (inr l) small b = (omega arith, omega arith)

unawake : (b : Bool) → ¬ (b ≡ true) → b ≡ false
unawake true h = absurd (h refl)
unawake false h = refl

positive : (a n : ℕ) → n < a → a == 0 ≡ false
positive a n h = ground (arith, h)

module _ {W : Type 0} ⦃K : ListHead⦄ where
  Frame-KeepsSame : (s : Cpu W) (m : Option (Cpu W)) → Sure (Frame s) m → KeepsSame s m
  Frame-KeepsSame s m (t, e, h) = rw e h.same

module _ ⦃K : ListHead⦄ ⦃E : Kernel⦄ where
  -- A task that no call of `wake_up_process` would wake up.
  abbrev pub IsAwake : Sys → ℕ → Type 0
  IsAwake s p = bit_and (s.params p).state task_normal == 0 ≡ true

  KernelKeeps-ClassesPreserve : KernelKeeps → ClassesPreserve
  KernelKeeps-ClassesPreserve keep c =
      let l = keep.classes c in
      record {
        enqueues = λ s p flags. Frame-KeepsSame s _ (l.enqueues s p flags);
        dequeues = λ s p flags. Frame-KeepsSame s _ (l.dequeues s p flags);
        yields = λ s. Frame-KeepsSame s _ (l.yields s);
        preempts = λ s p flags. Frame-KeepsSame s _ (l.preempts s p flags);
        picks = λ s. (let (r, e, h) = l.picks s in rw e h.1.same);
        puts = λ s p. Frame-KeepsSame s _ (l.puts s p);
        sets = λ s. Frame-KeepsSame s _ (l.sets s);
        ticks = λ s p queued. Frame-KeepsSame s _ (l.ticks s p queued);
        forks = λ s p. Frame-KeepsSame s _ (l.forks s p);
        from = λ s p. Frame-KeepsSame s _ (l.from s p);
        to = λ s p. Frame-KeepsSame s _ (l.to s p);
        changes = λ s p old. Frame-KeepsSame s _ (l.changes s p old);
      }

  -- What a wake-up leaves: its own task awake, and every other one as it was.
  record Wakes (s : Sys) (p : ℕ) (t : Sys) : Type 0 where
    sound : IsSound t
    own : IsAwake t p
    others : (q : ℕ) → IsAwake s q → IsAwake t q

  woken-IsAwake : (s t : Sys) (p : ℕ) → IsWoken s p t → IsAwake t p
  woken-IsAwake s t p h = rw h.running_state refl

  try_to_wake_up-Wakes :
      (keep : KernelKeeps) (s : Sys) (p flags : ℕ)
      → IsSound s
      → Sure (λ r. Wakes s p r.1) (try_to_wake_up s p task_normal flags)
  try_to_wake_up-Wakes keep s p flags v =
      let ((woken, t), e, sound) = try_to_wake_up-IsSound keep s p task_normal flags v in
      let w =
        try_to_wake_up-wakes (KernelKeeps-ClassesPreserve keep) s t p task_normal flags woken e in
      ((woken, t), e, wakes woken t sound w)
    where
      wakes :
          (woken : Bool) (t : Sys)
          → IsSound t
          → (woken ≡ not (bit_and (s.params p).state task_normal == 0))
            × (woken ≡ false → t ≡ s)
            × (woken ≡ true → IsWoken s p t)
          → Wakes s p t
      wakes true t sound w =
          let h = w.2 refl in
          let own = woken-IsAwake s t p h in
          record {
            sound = sound;
            own = own;
            others = λ q a. elim (Bool-cases (p == q)) [
              | inl e ↦ subst (IsAwake t) ((==_iff p q).0 e) own
              | inr e ↦ rw (h.kept_params q (λ f. absurd (ground arith))) a
            ];
          }
      wakes false t sound w =
          let same = w.1 refl in
          record { sound = sound; own = rw same (ground arith); others = λ q a. rw same a }

  -- From a sound processor, a run that ends with every task of `ws` awake and sends none to sleep.
  abbrev WakesAll : Sys → List Waiter → Option Sys → Type 0
  WakesAll s ws m =
      Sure (λ t. IsSound t × All (λ w. IsAwake t w.task) ws × ((q : ℕ) → IsAwake s q → IsAwake t q))
        m

  WakesAll-∷ :
      (s t : Sys) (w : Waiter) (ws : List Waiter) (m : Option Sys)
      → Wakes s w.task t
      → WakesAll t ws m
      → WakesAll s (w ∷ ws) m
  WakesAll-∷ s t w ws m k (x, e, (v, a, h)) =
      (x, e, (v, (h w.task k.own, a), λ q b. h q (k.others q b)))

  -- Behind one entry, with the count as it was or one less.
  WakesAll-after :
      (t : Sys) (ws : List Waiter) (nr : ℕ) (last : Bool)
      → sub32 nr 1 == 0 ≡ false
      → WakesAll t ws (__wake_up_common default_wake_function t ws task_normal nr 0)
      → WakesAll t ws (__wake_up_common default_wake_function t ws task_normal (sub32 nr 1) 0)
      → WakesAll t ws (elim last [
        | false ↦ __wake_up_common default_wake_function t ws task_normal nr 0
        | true ↦ elim (sub32 nr 1 == 0) [
          | true ↦ some t
          | false ↦ __wake_up_common default_wake_function t ws task_normal (sub32 nr 1) 0
        ]
      ])
  WakesAll-after t ws nr false z same less = same
  WakesAll-after t ws nr true z same less = rw z less

  -- The loop with a count that does not come down to 0 wakes everyone.
  wake_all :
      (keep : KernelKeeps) (ws : List Waiter) (s : Sys) (nr : ℕ)
      → IsSound s
      → (nr ≡ 0) ⊎ (length ws < nr)
      → length ws < uint_max
      → nr < 2 ^ 32
      → WakesAll s ws (__wake_up_common default_wake_function s ws task_normal nr 0)
  unfolding __wake_up_common default_wake_function
  wake_all keep [] s nr v h small b = (s, refl, (v, tt, λ q a. a))
  wake_all keep (w ∷ ws) s nr v h small b =
      let ((woken, t), e, k) = try_to_wake_up-Wakes keep s w.task 0 v in
      let (more, bound) = sub32-above nr (length ws) h small b in
      rw e (
        WakesAll-∷ s t w ws _ k (
          WakesAll-after t ws nr (woken && w.exclusive) (positive (sub32 nr 1) (length ws) more)
            (wake_all keep ws t nr k.sound
              (elim h [ inl z ↦ inl z | inr l ↦ inr (omega (arith, l)) ]) (omega (arith, small)) b)
            (wake_all keep ws t (sub32 nr 1) k.sound (inr more) (omega (arith, small)) bound)))

  -- On a sound processor, with fewer than 2^32 - 1 tasks on the completion's queue and kernel code that behaves, `complete_all` returns with the processor sound and every waiting task awake, and adds UINT_MAX / 2 to `done`.
  pub complete_all-wakes :
      (keep : KernelKeeps) (s : Sys) (x : Completion)
      → IsSound s
      → length x.wait < uint_max
      → Sure
          (λ (y, t).
            IsSound t
            × All (λ w. IsAwake t w.task) y.wait
            × (y.wait ≡ x.wait)
            × (y.done ≡ add32 x.done (uint_max / 2)))
          (complete_all s x)
  unfolding complete_all
  complete_all-wakes keep s x v small =
      let (t, e, (u, a, h)) = wake_all keep x.wait s 0 v (inl refl) small (omega arith) in
      rw e ((record x { done = add32 x.done (uint_max / 2) }, t), refl, (u, a, refl, refl))

  try_to_wake_up-awake :
      (keep : KernelKeeps) (s : Sys) (p flags : ℕ)
      → IsSound s
      → IsAwake s p
      → try_to_wake_up s p task_normal flags ≡ some (false, s)
  try_to_wake_up-awake keep s p flags v a =
      let ((woken, t), e, sound) = try_to_wake_up-IsSound keep s p task_normal flags v in
      let k =
        try_to_wake_up-wakes (KernelKeeps-ClassesPreserve keep) s t p task_normal flags woken e in
      let off = k.0 ∙ ap not a in e ∙ pair woken t off (k.1 off)
    where
      pair :
          (woken : Bool) (t : Sys)
          → woken ≡ false
          → t ≡ s
          → ◌≡◌ {A = Option (Bool × Sys)} (some (woken, t)) (some (false, s))
      pair woken t d q = rw (d, q) refl

  try_to_wake_up-asleep :
      (keep : KernelKeeps) (s : Sys) (p flags : ℕ)
      → IsSound s
      → ¬ IsAwake s p
      → Sure
          (λ (woken, t). IsSound t × (woken ≡ true) × IsWoken s p t)
          (try_to_wake_up s p task_normal flags)
  try_to_wake_up-asleep keep s p flags v z =
      let ((woken, t), e, sound) = try_to_wake_up-IsSound keep s p task_normal flags v in
      let k =
        try_to_wake_up-wakes (KernelKeeps-ClassesPreserve keep) s t p task_normal flags woken e in
      let on = k.0 ∙ ap not (unawake _ z) in ((woken, t), e, (sound, on, k.2 on))

  -- The first exclusive entry whose task sleeps is the last one that the loop with the count 1 looks at.
  wake_first :
      (keep : KernelKeeps) (before : List Waiter) (w : Waiter) (after : List Waiter) (s : Sys)
      → IsSound s
      → All (λ a. IsAwake s a.task) before
      → w.exclusive ≡ true
      → ¬ IsAwake s w.task
      → Sure
          (λ t. IsSound t × IsWoken s w.task t)
          (__wake_up_common default_wake_function s (before ++ w ∷ after) task_normal 1 0)
  unfolding __wake_up_common default_wake_function
  wake_first keep [] w after s v h x z =
      Sure-bind _ _ (try_to_wake_up-asleep keep s w.task 0 v z)
        (λ (woken, t) (sound, on, k). rw (on, x) (t, refl, (sound, k)))
  wake_first keep (a ∷ before) w after s v h x z =
      rw (try_to_wake_up-awake keep s a.task 0 v h.0) (wake_first keep before w after s v h.1 x z)

  -- On a sound processor with kernel code that behaves, where the first sleeping task of the completion's queue waits exclusively and those in front of it are awake, `complete` returns with the processor sound, has woken that task and no other, and adds 1 to `done`.
  pub complete-wakes_first :
      (keep : KernelKeeps) (s : Sys) (x : Completion) (before : List Waiter) (w : Waiter)
      (after : List Waiter)
      → IsSound s
      → x.wait ≡ before ++ w ∷ after
      → All (λ a. IsAwake s a.task) before
      → w.exclusive ≡ true
      → ¬ IsAwake s w.task
      → Sure
          (λ (y, t). IsSound t × IsWoken s w.task t × (y.wait ≡ x.wait) × (y.done ≡ add32 x.done 1))
          (complete s x)
  unfolding complete
  complete-wakes_first keep s x before w after v q h e z =
      let (t, r, (sound, k)) = wake_first keep before w after s v h e z in
      let m = ap (λ l. __wake_up_common default_wake_function s l task_normal 1 0) q ∙ r in
      rw m ((record x { done = add32 x.done 1 }, t), refl, (sound, k, refl, refl))
