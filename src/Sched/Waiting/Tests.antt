-- ===== src/Sched/Waiting/Tests.antt =====
-- The theorems on completions at three waiting tasks.
use epfl_ba6_os.Prelude.{
  ℕ, ◌≡◌, refl, [], ◌∷◌, Bool, true, false, Option, some, ◌/◌, ◌>>=◌, All, add32, arith,
}
use epfl_ba6_os.Sched.ListHead.Arrays.{arrays}
use epfl_ba6_os.Sched.Machine.{set_state}
use epfl_ba6_os.Sched.Core.{Sys}
use epfl_ba6_os.Sched.Core.Quiet.{quiet, desk}
use epfl_ba6_os.Sched.Wakeup.Woken.{IsWoken}
use epfl_ba6_os.Sched.Sound.{Sure, IsSound}
use epfl_ba6_os.Sched.Sound.Desk.{quiet-Keeps, desk-IsSound}
use epfl_ba6_os.Sched.Sound.Touched.{IsSound-Touched, Touched-state}
use epfl_ba6_os.Sched.Waiting.{
  Waiter, Completion, uint_max, __wake_up_common, __wake_up, __wake_up_sync_key, __wake_up_sync,
  complete, complete_all, try_wait_for_completion,
}
use epfl_ba6_os.Sched.Waiting.Complete.{IsAwake, complete_all-wakes, complete-wakes_first}

-- Task 1 sleeps so that a signal may wake it up, task 3 so that none may.
abbrev sleepers : Sys
sleepers = set_state (set_state desk 1 1) 3 2

sleepers-IsSound : IsSound sleepers
sleepers-IsSound =
    let first = IsSound-Touched desk (set_state desk 1 1) (Touched-state desk 1 1) desk-IsSound in
    IsSound-Touched (set_state desk 1 1) sleepers (Touched-state (set_state desk 1 1) 3 2) first

abbrev waits_of : ℕ → Waiter
waits_of p = record { task = p; exclusive = true }

abbrev signal : Completion
signal = record { done = 0; wait = waits_of 2 ∷ waits_of 1 ∷ waits_of 3 ∷ [] }

complete_all-wakes_example :
    Sure
      (λ (y, t).
        IsSound t
        × All (λ w. IsAwake t w.task) y.wait
        × (y.wait ≡ signal.wait)
        × (y.done ≡ add32 0 (uint_max / 2)))
      (complete_all sleepers signal)
complete_all-wakes_example =
    complete_all-wakes quiet-Keeps sleepers signal sleepers-IsSound (omega arith)

complete-wakes_first_example :
    Sure
      (λ (y, t). IsSound t × IsWoken sleepers 1 t × (y.wait ≡ signal.wait) × (y.done ≡ add32 0 1))
      (complete sleepers signal)
complete-wakes_first_example =
    complete-wakes_first quiet-Keeps sleepers signal (waits_of 2 ∷ []) (waits_of 1)
      (waits_of 3 ∷ []) sleepers-IsSound refl (refl, tt) refl (λ e. absurd (cc e))

-- A function of an entry that sends its task to the running state and says yes.
abbrev wakes : Sys → Waiter → ℕ → ℕ → Option (Bool × Sys)
wakes s w mode wake_flags = some (true, set_state s w.task 0)

abbrev states : Option Sys → Option (ℕ × ℕ)
states m = m >>= λ t. some ((t.params 1).state, (t.params 3).state)

-- The count lets two exclusive entries through, or all of them if it is 0.
two_through : states (__wake_up wakes sleepers signal.wait 3 2) ≡ some (0, 2)
unfolding __wake_up __wake_up_common
two_through = refl

all_through : states (__wake_up_sync wakes sleepers signal.wait 3 0) ≡ some (0, 0)
unfolding __wake_up_sync __wake_up_sync_key __wake_up_common
all_through = refl

nothing_to_take : (try_wait_for_completion signal).0 ≡ false
unfolding try_wait_for_completion
nothing_to_take = refl
