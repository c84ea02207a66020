-- ===== src/Sched/Prio/Weights.antt =====
-- The two tables of weights of kernel/sched/sched.h.
use epfl_ba6_os.Prelude.{
  ℕ, zero, suc, ◌+◌, ◌-◌, ◌*◌, ◌^◌, ◌≤◌, ◌<◌, ◌≡◌, refl, Bool, true, false, ◌&&◌, ◌==◌, ltb, leb,
  get_or, arith, Bool-cases, inl, inr, ==_iff,
}
use epfl_ba6_os.Sched.Prio.{
  TaskParams, prio_to_weight, prio_to_wmult, set_load_weight, max_rt_prio, max_prio, sched_idle,
}

-- A test at each index of a table.
each_index : (ℕ → Bool) → ℕ → Bool
each_index test zero = true
each_index test (suc last) = test last && each_index test last

test_at :
    (test : ℕ → Bool) (i entries : ℕ) → i < entries → each_index test entries ≡ true → test i ≡ true
unfolding each_index
test_at test i zero b h = absurd (omega arith)
test_at test i (suc last) b h = elim (Bool-cases (i == last)) [
  | inl e ↦ rw ((==_iff i last).0 e) (ground arith)
  | inr n ↦ test_at test i last (ground arith) (ground arith)
]

-- `b` is 2^32 / a, up to a difference below 1.
abbrev is_inverse : ℕ → ℕ → Bool
is_inverse a b = ltb (a * b) (2 ^ 32 + a) && ltb (2 ^ 32) (a * b + a)

-- `a` is between 1.2 and 1.28 times `b`.
abbrev is_step : ℕ → ℕ → Bool
is_step a b = leb (120 * b) (100 * a) && leb (100 * a) (128 * b)

inverse_table :
    each_index (λ i. is_inverse (get_or prio_to_weight i 0) (get_or prio_to_wmult i 0)) 40 ≡ true
unfolding each_index prio_to_weight prio_to_wmult
inverse_table = refl

step_table :
    each_index (λ i. is_step (get_or prio_to_weight i 0) (get_or prio_to_weight (i + 1) 0)) 39
    ≡ true
unfolding each_index prio_to_weight
step_table = refl

inverse_facts : (a b : ℕ) → is_inverse a b ≡ true → (a * b < 2 ^ 32 + a) × (2 ^ 32 < a * b + a)
inverse_facts a b h = ground arith

step_facts : (a b : ℕ) → is_step a b ≡ true → (120 * b ≤ 100 * a) × (100 * a ≤ 128 * b)
step_facts a b h = ground arith

-- `set_load_weight` at a task that is not idle, with a static priority from 100 to 139: the product
-- of the two numbers is 2^32 up to less than the weight.
pub set_load_weight-inverse :
    (t : TaskParams)
    → (t.policy == sched_idle) ≡ false
    → max_rt_prio ≤ t.static_prio
    → t.static_prio < max_prio
    → ((set_load_weight t).weight * (set_load_weight t).inv_weight
        < 2 ^ 32 + (set_load_weight t).weight)
      × (2 ^ 32
          < (set_load_weight t).weight * (set_load_weight t).inv_weight
            + (set_load_weight t).weight)
unfolding set_load_weight
set_load_weight-inverse t e l h = rw e (
    inverse_facts _ _ (
      test_at (λ i. is_inverse (get_or prio_to_weight i 0) (get_or prio_to_wmult i 0))
        (t.static_prio - max_rt_prio) 40 (omega arith) inverse_table))

-- One nice value less is between 1.2 and 1.28 times the weight.
pub set_load_weight-step :
    (t u : TaskParams)
    → (t.policy == sched_idle) ≡ false
    → (u.policy == sched_idle) ≡ false
    → max_rt_prio ≤ t.static_prio
    → u.static_prio ≡ t.static_prio + 1
    → u.static_prio < max_prio
    → (120 * (set_load_weight u).weight ≤ 100 * (set_load_weight t).weight)
      × (100 * (set_load_weight t).weight ≤ 128 * (set_load_weight u).weight)
unfolding set_load_weight
set_load_weight-step t u e f l n h =
    let next : u.static_prio - max_rt_prio ≡ t.static_prio - max_rt_prio + 1 = omega arith in
    rw (e, f, next)
      (step_facts _ _ (
        test_at (λ i. is_step (get_or prio_to_weight i 0) (get_or prio_to_weight (i + 1) 0))
          (t.static_prio - max_rt_prio) 39 (omega arith) step_table))
