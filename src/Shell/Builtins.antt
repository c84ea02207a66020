-- ===== src/Shell/Builtins.antt =====
-- The commands that the shell runs itself: `run_builtin` of shell.c with the table `builtins`.
pub mod Run
use epfl_ba6_os.Prelude.{
  ℕ, suc, ◌+◌, ◌-◌, ◌^◌, List, [], ◌∷◌, ◌++◌, Bool, Option, none, some, ◌==◌, if◌then◌else◌, str_eq,
}

-- What the commands write: a number, or a warning, which `warn` prints with the error of the system.
pub data Output : Type 0 where
  number : ℕ → Output
  warn : List ℕ → Output
  warnx_missing_arguments : Output

-- The rows of the table, by the function that each one holds.
pub data Builtin : Type 0 where
  builtin_cd builtin_exit builtin_status : Builtin

abbrev pub cd_name : List ℕ
cd_name = b'c' ∷ b'd' ∷ []

abbrev pub exit_name : List ℕ
exit_name = b'e' ∷ b'x' ∷ b'i' ∷ b't' ∷ []

abbrev pub status_name : List ℕ
status_name = b's' ∷ b't' ∷ b'a' ∷ b't' ∷ b'u' ∷ b's' ∷ []

abbrev pub builtins : List (List ℕ × Builtin)
builtins = (cd_name, builtin_cd) ∷ (exit_name, builtin_exit) ∷ (status_name, builtin_status) ∷ []

-- The search of the loop: the first row with the name.
find_builtin : List (List ℕ × Builtin) → List ℕ → Option Builtin
find_builtin [] name = none
find_builtin (b ∷ bs) name =
    let rest = find_builtin bs name in if str_eq b.0 name then some b.1 else rest

-- `W` is the state of the system, and `chdir` its call, with 0 for success and 2^32 - 1 for -1.
module _ {W : Type 0} (chdir : List ℕ → W → ℕ × W) where
  -- `error` as its 32 bits.
  pub record Shell : Type 0 where
    pub error : ℕ
    pub world : W
    pub output : List Output

  -- A builtin returns its status, or ends the process with an exit code.
  pub data Outcome : Type 0 where
    status : ℕ → Shell → Outcome
    exited : ℕ → Outcome

  -- `argv` without the name of the command: `argc > 1` holds if it is not empty.
  call_cd : List (List ℕ) → Shell → Outcome
  call_cd [] s = status 1 (record s { output = s.output ++ warnx_missing_arguments ∷ [] })
  call_cd (dir ∷ args) s =
      let (r, w) = chdir dir s.world in
      status r
        (record s { world = w; output = if r == 0 then s.output else s.output ++ warn dir ∷ [] })

  call : Builtin → List (List ℕ) → Shell → Outcome
  unfolding call_cd
  call builtin_cd args s = call_cd args s
  call builtin_exit args s = exited s.error
  call builtin_status args s = status 0 (record s { output = s.output ++ number s.error ∷ [] })

  -- `run_builtin` returns 0, or 1 with the status in `error`, or does not return.
  pub data RunResult : Type 0 where
    not_builtin : RunResult
    ran : Shell → RunResult
    ended : ℕ → RunResult

  store_status : Outcome → RunResult
  store_status (status r s) = ran (record s { error = r })
  store_status (exited code) = ended code

  call_found : Option Builtin → List (List ℕ) → Shell → RunResult
  unfolding call store_status
  call_found none args s = not_builtin
  call_found (some b) args s = store_status (call b args s)

  -- `args[0]` and the rest of `args`.
  unfoldable pub run_builtin : List ℕ → List (List ℕ) → Shell → RunResult
  unfolding find_builtin call_found
  run_builtin name args s = call_found (find_builtin builtins name) args s
