-- ===== src/Shell/Commands.antt =====
-- `process_command` of shell.c. The line is the bytes before its NUL; a word is the copy of its bytes,
-- since nothing writes to them after the NUL behind them. `run_pipe` is a parameter.
pub mod Loop
pub mod Pipes
pub mod First
mod Tests
use epfl_ba6_os.Prelude.{
  ℕ, zero, suc, ◌+◌, ◌-◌, ◌*◌, List, [], ◌∷◌, Bool, true, false, not, ◌&&◌, ◌||◌, Option, none,
  some, ◌==◌, leb, length, if◌then◌else◌,
}
use epfl_ba6_os.Shell.Words.{parseword}
use epfl_ba6_os.Shell.Builtins.{Shell, RunResult, not_builtin, ran, ended, run_builtin}
use epfl_ba6_os.Shell.Descriptors.{Std, redirect_out, redirect_in, restore_std}
use epfl_ba6_os.Shell.Execute.{
  Args, Ending, Proc, System, after_builtin, args_size, exited, faulted, not_found_status,
  push_word, reset, reset_args, restored, returned, run_command, run_first, run_program, set_slot,
  skip_one, starts_with, status_of, words_from,
}

module _ ⦃Y : System⦄ where
  open Y use {World, File, limit, chdir, fork, execvp, open_write, open_read}

  -- What an iteration of the loop comes to: the loop goes on at a text, or the function ends.
  pub data Step : Type 0 where
    go : List ℕ → Proc → Step
    stop : Ending → Step

  -- What follows a call of `run_command`: the arguments anew, and then the rest.
  pub after_run : (Proc → Step) → Ending → Step
  unfolding reset
  after_run k (returned q) = k (reset q)
  after_run k (exited code) = stop (exited code)
  after_run k faulted = stop faulted

  pub run_then : Proc → (Proc → Step) → Step
  unfolding after_run
  run_then p k = after_run k (run_command p)

  pub finish : Proc → Step
  unfolding run_then
  finish p = run_then p (λ q. stop (returned q))

  set_run : Bool → Proc → Proc
  set_run b p = record p { conditional_run = b }

  keep_args : Bool → Proc → Proc
  unfolding reset
  keep_args true p = p
  keep_args false p = reset p

  -- The cases '>' and '<' with the word that `parseword` returns and the text that it leaves.
  open_word :
      (List ℕ → World → Option File × World)
      → (Option File → Std File → Bool × Std File)
      → Option (List ℕ)
      → List ℕ
      → Proc
      → Step
  unfolding keep_args
  open_word open_file redirect none rest p = stop faulted
  open_word open_file redirect (some file) rest p =
      let (opened, w) = open_file file p.shell.world in
      let (ok, std) = redirect opened p.std in
      go rest (keep_args ok (record p { std = std; shell = record p.shell { world = w } }))

  -- The same, at the text behind the byte.
  step_redirect :
      (List ℕ → World → Option File × World)
      → (Option File → Std File → Bool × Std File)
      → List ℕ
      → Proc
      → Step
  unfolding open_word
  step_redirect open_file redirect after p =
      open_word open_file redirect (parseword after).0 (parseword after).1 p

  -- The increment: where `p` is still `line`, it stays at the NUL that was just written.
  stay_or_go : Bool → List ℕ → Proc → Step
  stay_or_go stuck after p = if stuck then go [] p else go after p

  -- The next iteration, or the end.
  pub resume : (List ℕ → Proc → Option Ending) → Step → Option Ending
  resume k (go rest q) = k rest q
  resume k (stop e) = some e

  module _ (run_pipe : Proc → Bool × Proc) where
    -- The case '|' of a single one. `stay` is the increment at the end of the loop, at the text
    -- behind the byte.
    step_pipe : (Proc → Step) → Proc → Step
    unfolding reset
    step_pipe stay p =
        let (ok, q) = run_pipe p in
        elim (p.args.slots p.args.narg) [
          | none ↦ stay p
          | some w ↦ stay (if ok then reset q else q)
        ]

    -- The `switch`, at the byte `ch` and the text behind it.
    step_at : (Proc → Step) → ℕ → List ℕ → Proc → Step
    unfolding step_redirect step_pipe run_then finish set_run
    step_at stay ch after p =
        if ch == b'>'
        then step_redirect open_write (redirect_out limit) after p
        else if ch == b'<'
        then step_redirect open_read (redirect_in limit) after p
        else if ch == b'|'
        then (if starts_with b'|' after
            then run_then p (λ q. go (skip_one after) (set_run (not (q.shell.error == 0)) q))
            else step_pipe stay p)
        else if ch == b'&'
        then (if starts_with b'&' after
            then run_then p (λ q. go (skip_one after) (set_run (q.shell.error == 0) q))
            else stay p)
        else if ch == b'#' || ch == 10
        then finish p
        else if ch == b';'
        then run_then p stay
        else stay p

    step_tail : Bool → List ℕ → List ℕ → Option Args → Proc → Step
    unfolding step_at stay_or_go finish
    step_tail at_line text tail none p = stop faulted
    step_tail at_line text [] (some a) p = finish (record p { args = a })
    step_tail at_line text (ch ∷ after) (some a) p =
        step_at (stay_or_go (at_line && length text == suc (length after)) after) ch after
          (record p { args = a })

    -- One iteration at a text that is not at its end.
    pub step : Bool → List ℕ → Proc → Step
    unfolding step_tail
    step at_line text p =
        step_tail at_line text (parseword text).1 (push_word (parseword text).0 p.args) p

    -- The loop, with the iterations that it may take; `none` says that they are used up.
    unfoldable pub command_loop : ℕ → Bool → List ℕ → Proc → Option Ending
    unfolding finish resume
    command_loop zero at_line text p = none
    command_loop (suc n) at_line [] p = resume (command_loop n false) (finish p)
    command_loop (suc n) at_line (b ∷ bs) p =
        resume (command_loop n false) (step at_line (b ∷ bs) p)

    -- `process_command`, with the descriptors and the arguments that it begins with.
    unfoldable pub process_command : List ℕ → Proc → Option Ending
    unfolding reset
    process_command line p = command_loop (suc (length line)) true line (
        reset
          (record p { std = record p.std { saved_in = 0; saved_out = 1 }; conditional_run = true }))
