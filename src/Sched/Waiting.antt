-- ===== src/Sched/Waiting.antt =====
-- Wait queues and completions in core.c: `__wake_up_common`, the calls above it, `complete` and
-- `complete_all`. The wait itself, which sleeps in a timer, is left out.
pub mod Complete
mod Tests
use epfl_ba6_os.Prelude.{
  ℕ, ◌/◌, List, [], ◌∷◌, Bool, true, false, not, ◌&&◌, Option, some, ◌==◌, if◌then◌else◌, ◌>>=◌,
  add32, sub32,
}
use epfl_ba6_os.Sched.ListHead.{ListHead}
use epfl_ba6_os.Sched.Machine.{Kernel}
use epfl_ba6_os.Sched.Core.{Sys}
use epfl_ba6_os.Sched.Wakeup.{task_normal, try_to_wake_up}

-- An entry of a wait queue: `private` and the flag WQ_FLAG_EXCLUSIVE.
pub record Waiter : Type 0 where
  pub task : ℕ
  pub exclusive : Bool

-- UINT_MAX
abbrev pub uint_max : ℕ
uint_max = 0xFFFF_FFFF

pub record Completion : Type 0 where
  pub done : ℕ
  pub wait : List Waiter

-- The flag WF_SYNC.
abbrev pub wf_sync : ℕ
wf_sync = 1

module _ ⦃K : ListHead⦄ ⦃E : Kernel⦄ where
  unfoldable pub default_wake_function : Sys → Waiter → ℕ → ℕ → Option (Bool × Sys)
  default_wake_function s curr mode wake_flags = try_to_wake_up s curr.task mode wake_flags

  -- `curr->func`, which takes no entry but its own off the queue.
  module _ (func : Sys → Waiter → ℕ → ℕ → Option (Bool × Sys)) where
    -- `nr_exclusive` is an `int`, as its 32 bits: from 0 it goes on to -1.
    unfoldable pub __wake_up_common : Sys → List Waiter → ℕ → ℕ → ℕ → Option Sys
    __wake_up_common s [] mode nr_exclusive wake_flags = some s
    __wake_up_common s (curr ∷ rest) mode nr_exclusive wake_flags =
        func s curr mode wake_flags >>= λ (woken, t). elim (woken && curr.exclusive) [
          | false ↦ __wake_up_common t rest mode nr_exclusive wake_flags
          | true ↦ elim (sub32 nr_exclusive 1 == 0) [
            | true ↦ some t
            | false ↦ __wake_up_common t rest mode (sub32 nr_exclusive 1) wake_flags
          ]
        ]

    unfoldable pub __wake_up : Sys → List Waiter → ℕ → ℕ → Option Sys
    __wake_up s q mode nr_exclusive = __wake_up_common s q mode nr_exclusive 0

    unfoldable pub __wake_up_locked : Sys → List Waiter → ℕ → ℕ → Option Sys
    __wake_up_locked s q mode nr = __wake_up_common s q mode nr 0

    unfoldable pub __wake_up_locked_key : Sys → List Waiter → ℕ → Option Sys
    __wake_up_locked_key s q mode = __wake_up_common s q mode 1 0

    -- Of a queue that is not NULL.
    unfoldable pub __wake_up_sync_key : Sys → List Waiter → ℕ → ℕ → Option Sys
    __wake_up_sync_key s q mode nr_exclusive =
        __wake_up_common s q mode nr_exclusive (if nr_exclusive == 0 then 0 else wf_sync)

    unfoldable pub __wake_up_sync : Sys → List Waiter → ℕ → ℕ → Option Sys
    unfolding __wake_up_sync_key
    __wake_up_sync s q mode nr_exclusive = __wake_up_sync_key s q mode nr_exclusive

  -- The entries of a completion have the default function.
  unfoldable pub complete : Sys → Completion → Option (Completion × Sys)
  unfolding __wake_up_common
  complete s x = __wake_up_common default_wake_function s x.wait task_normal 1 0 >>= λ t.
      some (record x { done = add32 x.done 1 }, t)

  unfoldable pub complete_all : Sys → Completion → Option (Completion × Sys)
  unfolding __wake_up_common
  complete_all s x = __wake_up_common default_wake_function s x.wait task_normal 0 0 >>= λ t.
      some (record x { done = add32 x.done (uint_max / 2) }, t)

-- The result says whether it is 1.
unfoldable pub try_wait_for_completion : Completion → Bool × Completion
try_wait_for_completion x =
    if x.done == 0 then (false, x) else (true, record x { done = sub32 x.done 1 })

unfoldable pub completion_done : Completion → Bool
completion_done x = not (x.done == 0)
