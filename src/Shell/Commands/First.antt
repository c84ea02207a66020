-- ===== src/Shell/Commands/First.antt =====
-- A line of shell.c that begins with a delimiter.
use epfl_ba6_os.Prelude.{
  ℕ, suc, ◌≡◌, refl, sym, ap, ◌∙◌, List, [], ◌∷◌, Bool, true, false, Option, ◌==◌, length, arith,
}
use epfl_ba6_os.Shell.Words.{parseword, skip_space, scan_word, word_or_null, is_space, is_delimiter}
use epfl_ba6_os.Shell.Execute.{System, Proc, Ending, returned, exited, faulted, reset, run_command}
use epfl_ba6_os.Shell.Commands.{
  Step, go, stop, finish, step_at, stay_or_go, step_tail, step, resume, command_loop,
  process_command, run_then, after_run,
}

==-same : (n : ℕ) → (n == n) ≡ true
==-same n = ground arith

module _ ⦃Y : System⦄ where
  -- The pointer stays at the byte, which is now NUL.
  abbrev from_start : List ℕ → Proc → Step
  from_start rest = stay_or_go (suc (length rest) == suc (length rest)) rest

  from_start_lem : (rest : List ℕ) (p : Proc) → from_start rest p ≡ go [] p
  unfolding stay_or_go
  from_start_lem rest p = rw (stay_or_go, ==-same (suc (length rest))) refl

  resume-end :
      (k k' : List ℕ → Proc → Option Ending) (e : Ending)
      → resume k (after_run (λ q. stop (returned q)) e)
        ≡ resume k' (after_run (λ q. stop (returned q)) e)
  unfolding resume after_run
  resume-end k k' (returned q) = refl
  resume-end k k' (exited code) = refl
  resume-end k k' faulted = refl

  module _ (run_pipe : Proc → Bool × Proc) where
    -- The loop at the end of the text, whatever iterations are left.
    loop-end :
        (n m : ℕ) (p : Proc)
        → command_loop run_pipe (suc n) false [] p ≡ command_loop run_pipe (suc m) false [] p
    unfolding command_loop finish run_then
    loop-end n m p =
        resume-end (command_loop run_pipe n false) (command_loop run_pipe m false) (run_command p)

    step-start :
        (rest : List ℕ) (p : Proc)
        → step run_pipe true (b';' ∷ rest) p ≡ run_then p (from_start rest)
    unfolding step step_tail step_at parseword skip_space scan_word word_or_null is_space
        is_delimiter
    step-start rest p = refl

    loop-semicolon :
        (n : ℕ) (rest : List ℕ) (e : Ending)
        → resume (command_loop run_pipe (suc n) false) (after_run (from_start rest) e)
          ≡ resume (command_loop run_pipe 1 false) (after_run (from_start []) e)
    unfolding resume after_run
    loop-semicolon n rest (returned q) =
        ap (resume (command_loop run_pipe (suc n) false)) (from_start_lem rest (reset q))
        ∙ loop-end n 0 (reset q)
        ∙ sym (ap (resume (command_loop run_pipe 1 false)) (from_start_lem [] (reset q)))
    loop-semicolon n rest (exited code) = refl
    loop-semicolon n rest faulted = refl

    -- Of a line that begins with `;` nothing is run: what `process_command` does does not depend on
    -- what stands behind the `;`.
    pub process_command-semicolon :
        (rest : List ℕ) (p : Proc)
        → process_command run_pipe (b';' ∷ rest) p ≡ process_command run_pipe (b';' ∷ []) p
    unfolding process_command reset command_loop run_then
    process_command-semicolon rest p =
        let q = reset (record p {
          std = record p.std { saved_in = 0; saved_out = 1 };
          conditional_run = true;
        }) in
        ap (resume (command_loop run_pipe (suc (length rest)) false)) (step-start rest q)
        ∙ loop-semicolon (length rest) rest (run_command q)
        ∙ sym (ap (resume (command_loop run_pipe 1 false)) (step-start [] q))
