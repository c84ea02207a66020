-- ===== src/Shell/Commands/Pipes.antt =====
-- `process_command` of shell.c: it returns, and it starts no pipe.
use epfl_ba6_os.Prelude.{
  ℕ, zero, suc, ◌≤◌, ◌<◌, ◌≡◌, refl, ap, ◌∙◌, List, [], ◌∷◌, Bool, true, false, Option, some,
  length, arith,
}
use epfl_ba6_os.Shell.Execute.{System, Proc, Ending, returned, exited, faulted, reset, run_command}
use epfl_ba6_os.Shell.Commands.{
  Step, go, stop, finish, resume, command_loop, process_command, run_then, after_run,
}
use epfl_ba6_os.Shell.Commands.Loop.{IsClosed, Next, step-Next, step-same, finish-Next}

module _ ⦃Y : System⦄ where
  resume-returns :
      (n : ℕ) (k : List ℕ → Proc → Option Ending) (s : Step)
      → ((rest : List ℕ) (q : Proc)
          → length rest ≤ n
          → IsClosed q.args
          → (e : Ending) × (k rest q ≡ some e))
      → Next n s
      → (e : Ending) × (resume k s ≡ some e)
  unfolding resume
  resume-returns n k (go rest q) h c = h rest q c.0 c.1
  resume-returns n k (stop e) h c = (e, refl)

  -- The end of the loop.
  resume-after_run :
      (k : List ℕ → Proc → Option Ending) (e : Ending)
      → (f : Ending) × (resume k (after_run (λ q. stop (returned q)) e) ≡ some f)
  unfolding after_run resume
  resume-after_run k (returned q) = (returned (reset q), refl)
  resume-after_run k (exited code) = (exited code, refl)
  resume-after_run k faulted = (faulted, refl)

  resume-finish :
      (k : List ℕ → Proc → Option Ending) (p : Proc) → (f : Ending) × (resume k (finish p) ≡ some f)
  unfolding finish run_then
  resume-finish k p = resume-after_run k (run_command p)

  module _ (run_pipe : Proc → Bool × Proc) where
    command_loop-returns :
        (n : ℕ) (at_line : Bool) (text : List ℕ) (p : Proc)
        → IsClosed p.args
        → length text < n
        → (e : Ending) × (command_loop run_pipe n at_line text p ≡ some e)
    unfolding command_loop
    command_loop-returns zero at_line text p c l = absurd (omega arith)
    command_loop-returns (suc n) at_line [] p c l = resume-finish (command_loop run_pipe n false) p
    command_loop-returns (suc n) at_line (b ∷ bs) p c l =
        resume-returns (length bs) (command_loop run_pipe n false) _
          (λ rest q k d. command_loop-returns n false rest q d (omega arith))
          (step-Next run_pipe (length bs) at_line (b ∷ bs) p c (omega arith))

    -- `process_command` ends on every line: the iterations that it takes are no more than the bytes
    -- of the line, and one.
    pub process_command-returns :
        (line : List ℕ) (p : Proc) → (e : Ending) × (process_command run_pipe line p ≡ some e)
    unfolding process_command reset
    process_command-returns line p =
        command_loop-returns (suc (length line)) true line _ refl (omega arith)

  resume-same :
      (n : ℕ) (k k' : List ℕ → Proc → Option Ending) (s : Step)
      → ((rest : List ℕ) (q : Proc) → IsClosed q.args → k rest q ≡ k' rest q)
      → Next n s
      → resume k s ≡ resume k' s
  unfolding resume
  resume-same n k k' (go rest q) h c = h rest q c.1
  resume-same n k k' (stop e) h c = refl

  module _ (run_pipe other : Proc → Bool × Proc) where
    command_loop-same :
        (n : ℕ) (at_line : Bool) (text : List ℕ) (p : Proc)
        → IsClosed p.args
        → command_loop run_pipe n at_line text p ≡ command_loop other n at_line text p
    unfolding command_loop
    command_loop-same zero at_line text p c = refl
    command_loop-same (suc n) at_line [] p c =
        resume-same 0 (command_loop run_pipe n false) (command_loop other n false) (finish p)
          (λ rest q d. command_loop-same n false rest q d) (finish-Next 0 p)
    command_loop-same (suc n) at_line (b ∷ bs) p c =
        resume-same (length bs) (command_loop run_pipe n false) (command_loop other n false) _
          (λ rest q d. command_loop-same n false rest q d)
          (step-Next run_pipe (length bs) at_line (b ∷ bs) p c (omega arith))
        ∙ ap (resume (command_loop other n false)) (step-same run_pipe other at_line (b ∷ bs) p c)

    -- `process_command` never calls `run_pipe`: what it does on a line does not depend on what
    -- `run_pipe` would do.
    pub process_command-no_pipe :
        (line : List ℕ) (p : Proc) → process_command run_pipe line p ≡ process_command other line p
    unfolding process_command reset
    process_command-no_pipe line p = command_loop-same (suc (length line)) true line _ refl
