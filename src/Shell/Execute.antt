-- ===== src/Shell/Execute.antt =====
-- `run_command` of shell.c, with the variables of the shell and what it asks of the system.
use epfl_ba6_os.Prelude.{
  ℕ, zero, suc, ◌+◌, ◌*◌, List, [], ◌∷◌, Bool, false, Option, none, some, ◌==◌, leb, if◌then◌else◌,
}
use epfl_ba6_os.Shell.Builtins.{Shell, RunResult, not_builtin, ran, ended, run_builtin}
use epfl_ba6_os.Shell.Descriptors.{Std, restore_std}

-- `args` and `narg`; NULL is `none`.
pub record Args : Type 0 where
  pub slots : ℕ → Option (List ℕ)
  pub narg : ℕ

abbrev pub args_size : ℕ
args_size = 100

abbrev pub set_slot : (ℕ → Option (List ℕ)) → ℕ → Option (List ℕ) → ℕ → Option (List ℕ)
set_slot slots i w j = if i == j then w else slots j

-- `narg = args; *narg = NULL`
abbrev pub reset_args : Args → Args
reset_args a = record { slots = set_slot a.slots 0 none; narg = 0 }

-- `*narg++ = word; *narg = NULL`, which may pass the end of `args`.
abbrev pub push_word : Option (List ℕ) → Args → Option Args
push_word none a = some a
push_word (some w) a =
    if leb args_size (a.narg + 1)
    then none
    else some (record {
      slots = set_slot (set_slot a.slots a.narg (some w)) (a.narg + 1) none;
      narg = a.narg + 1;
    })

-- The words of `args` from `i` on.
unfoldable pub words_from : ℕ → ℕ → (ℕ → Option (List ℕ)) → List (List ℕ)
words_from zero i slots = []
words_from (suc n) i slots =
    let rest = words_from n (i + 1) slots in elim (slots i) [ none ↦ [] | some w ↦ w ∷ rest ]

abbrev pub starts_with : ℕ → List ℕ → Bool
starts_with b [] = false
starts_with b (c ∷ cs) = c == b

abbrev pub skip_one : List ℕ → List ℕ
skip_one [] = []
skip_one (b ∷ bs) = bs

-- The status that `waitpid` gives of a child that calls `exit(-1)`.
abbrev pub not_found_status : ℕ
not_found_status = 255 * 256

abbrev pub status_of : Option ℕ → ℕ
status_of none = not_found_status
status_of (some n) = n

-- The system: `World` is its state, `File` what a descriptor refers to, and `limit` the number of
-- descriptors of a process. The calls are `chdir`, whether `fork` succeeds, `execvp` in the child
-- with the wait for it (`none` if no program is found), and `open` for writing and for reading.
pub record System : Type 1 where
  pub World : Type 0
  pub File : Type 0
  pub limit : ℕ
  pub chdir : List ℕ → World → ℕ × World
  pub fork : World → Bool
  pub execvp : List ℕ → List (List ℕ) → (ℕ → Option File) → World → Option ℕ × World
  pub open_write : List ℕ → World → Option File × World
  pub open_read : List ℕ → World → Option File × World

module _ ⦃Y : System⦄ where
  open Y use {World, File, limit, chdir, fork, execvp, open_write, open_read}

  pub record Proc : Type 0 where
    pub shell : Shell chdir
    pub std : Std File
    pub conditional_run : Bool
    pub args : Args

  -- A function returns, or the shell has ended, or it has read or written through a bad pointer.
  pub data Ending : Type 0 where
    returned : Proc → Ending
    exited : ℕ → Ending
    faulted : Ending

  unfoldable pub restored : Proc → Proc
  restored p = record p { std = restore_std p.std }

  -- The child and the wait for it.
  unfoldable pub run_program : List ℕ → List (List ℕ) → Proc → Ending
  unfolding restored
  run_program name words p =
      let (result, w) = execvp name words p.std.fds p.shell.world in
      if fork p.shell.world
      then returned (record (restored p) {
        shell = record p.shell { error = status_of result; world = w };
        args = record p.args { slots = set_slot p.args.slots 0 none };
      })
      else exited 1

  unfoldable pub after_builtin : RunResult chdir → List ℕ → List (List ℕ) → Proc → Ending
  unfolding restored run_program
  after_builtin not_builtin name words p = run_program name words p
  after_builtin (ran s) name words p = returned (restored (record p { shell = s }))
  after_builtin (ended code) name words p = exited code

  unfoldable pub run_first : Option (List ℕ) → Proc → Ending
  unfolding restored after_builtin words_from
  run_first none p = returned (restored p)
  run_first (some name) p =
      let words = words_from args_size 1 p.args.slots in
      if p.conditional_run
      then after_builtin (run_builtin chdir name words p.shell) name words p
      else returned (restored p)

  -- `run_command`; a return value of it is never 0.
  unfoldable pub run_command : Proc → Ending
  unfolding run_first
  run_command p = run_first (p.args.slots 0) p

  unfoldable pub reset : Proc → Proc
  reset p = record p { args = reset_args p.args }
