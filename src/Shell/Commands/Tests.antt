-- ===== src/Shell/Commands/Tests.antt =====
-- `process_command` of shell.c at concrete lines.
use epfl_ba6_os.Prelude.{
  ℕ, ◌≡◌, refl, List, [], ◌∷◌, Bool, true, false, Option, none, some, ◌++◌, str_eq,
}
use epfl_ba6_os.Shell.Words.{parseword, skip_space, scan_word, word_or_null, is_space, is_delimiter}
use epfl_ba6_os.Shell.Builtins.{run_builtin}
use epfl_ba6_os.Shell.Descriptors.{restore_std}
use epfl_ba6_os.Shell.Execute.{
  System, Proc, Ending, returned, exited, faulted, run_command, run_first, after_builtin,
  run_program, restored, words_from, reset,
}
use epfl_ba6_os.Shell.Commands.{
  process_command, command_loop, step, step_tail, step_at, stay_or_go, resume, finish, run_then,
  after_run, step_pipe,
}
use epfl_ba6_os.Shell.Commands.Pipes.{process_command-returns, process_command-no_pipe}
use epfl_ba6_os.Shell.Commands.First.{process_command-semicolon}

-- A system whose state is the list of the command lines that have run; every program exits with 0.
instance abbrev logging : System
logging = record {
  World = List (List (List ℕ));
  File = ℕ;
  limit = 8;
  chdir = λ dir w. (0, w);
  fork = λ w. true;
  execvp = λ name args fds w. (some 0, w ++ (name ∷ args) ∷ []);
  open_write = λ file w. (some 7, w);
  open_read = λ file w. (none, w);
}

abbrev fresh : Proc
fresh = record {
  shell = record { error = 0; world = []; output = [] };
  std = record { fds = λ fd. none; saved_in = 0; saved_out = 1 };
  conditional_run = true;
  args = record { slots = λ i. none; narg = 0 };
}

abbrev no_pipes : Proc → Bool × Proc
no_pipes p = (false, p)

abbrev all_pipes : Proc → Bool × Proc
all_pipes p = (true, p)

-- "a|b"
abbrev piped : List ℕ
piped = b'a' ∷ b'|' ∷ b'b' ∷ []

-- The commands that have run when a function ends.
abbrev commands_of : Option Ending → List (List (List ℕ))
commands_of none = []
commands_of (some (returned p)) = p.shell.world
commands_of (some (exited code)) = []
commands_of (some faulted) = []

-- One command runs, with two words.
piped_runs :
    commands_of (process_command no_pipes piped fresh) ≡ ((b'a' ∷ []) ∷ (b'b' ∷ []) ∷ []) ∷ []
unfolding process_command command_loop step step_tail step_at stay_or_go resume finish run_then
    after_run run_command run_first after_builtin run_program restored words_from step_pipe reset
    parseword skip_space scan_word word_or_null is_space is_delimiter run_builtin restore_std str_eq
piped_runs = refl

process_command-returns_example : (e : Ending) × (process_command no_pipes piped fresh ≡ some e)
process_command-returns_example = process_command-returns no_pipes piped fresh

process_command-no_pipe_example :
    process_command no_pipes piped fresh ≡ process_command all_pipes piped fresh
process_command-no_pipe_example = process_command-no_pipe no_pipes all_pipes piped fresh

process_command-semicolon_example :
    process_command no_pipes (b';' ∷ b'a' ∷ []) fresh ≡ process_command no_pipes (b';' ∷ []) fresh
process_command-semicolon_example = process_command-semicolon no_pipes (b'a' ∷ []) fresh
