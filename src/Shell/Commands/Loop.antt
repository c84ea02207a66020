-- ===== src/Shell/Commands/Loop.antt =====
-- What an iteration of the loop of `process_command` of shell.c leaves to the next one.
use epfl_ba6_os.Prelude.{
  ℕ, suc, ◌≤◌, ◌≡◌, refl, sym, subst, List, [], ◌∷◌, Bool, true, false, not, ◌&&◌, ◌||◌, Option,
  none, some, ◌==◌, length, if◌then◌else◌, arith,
}
use epfl_ba6_os.Shell.Words.{parseword}
use epfl_ba6_os.Shell.Words.Shorter.{length-parseword}
use epfl_ba6_os.Shell.Descriptors.{Std, redirect_out, redirect_in}
use epfl_ba6_os.Shell.Execute.{
  System, Args, push_word, skip_one, starts_with, Proc, Ending, returned, exited, faulted,
  run_command, reset,
}
use epfl_ba6_os.Shell.Commands.{
  Step, go, stop, after_run, run_then, finish, set_run, keep_args, open_word, step_redirect,
  step_pipe, step_at, stay_or_go, step_tail, step,
}

length-skip_one : (xs : List ℕ) → length (skip_one xs) ≤ length xs
length-skip_one [] = omega arith
length-skip_one (x ∷ xs) = omega arith

-- `*narg` is NULL.
abbrev pub IsClosed : Args → Type 0
IsClosed a = a.slots a.narg ≡ none

pub push_word-IsClosed :
    (w : Option (List ℕ)) (a b : Args) → IsClosed a → push_word w a ≡ some b → IsClosed b
push_word-IsClosed none a b h e = ground arith
push_word-IsClosed (some w) a b h e = ground arith

module _ ⦃Y : System⦄ where
  open Y use {limit, open_write, open_read, File, World}

  -- The next iteration has at most `n` bytes, and `*narg` is NULL.
  abbrev pub Next : ℕ → Step → Type 0
  Next n (go rest q) = (length rest ≤ n) × IsClosed q.args
  Next n (stop e) = Unit

  if-Next : (n : ℕ) (b : Bool) (s t : Step) → Next n s → Next n t → Next n (if b then s else t)
  if-Next n true s t h k = h
  if-Next n false s t h k = k

  -- The arguments anew.
  reset-IsClosed : (p : Proc) → IsClosed (reset p).args
  unfolding reset
  reset-IsClosed p = refl

  after_run-Next :
      (n : ℕ) (k : Proc → Step) (e : Ending)
      → ((q : Proc) → IsClosed q.args → Next n (k q))
      → Next n (after_run k e)
  unfolding after_run
  after_run-Next n k (returned q) h = h (reset q) (reset-IsClosed q)
  after_run-Next n k (exited code) h = tt
  after_run-Next n k faulted h = tt

  run_then-Next :
      (n : ℕ) (p : Proc) (k : Proc → Step)
      → ((q : Proc) → IsClosed q.args → Next n (k q))
      → Next n (run_then p k)
  unfolding run_then
  run_then-Next n p k h = after_run-Next n k (run_command p) h

  pub finish-Next : (n : ℕ) (p : Proc) → Next n (finish p)
  unfolding finish
  finish-Next n p = run_then-Next n p (λ q. stop (returned q)) (λ q c. tt)

  keep_args-IsClosed : (b : Bool) (p : Proc) → IsClosed p.args → IsClosed (keep_args b p).args
  unfolding keep_args
  keep_args-IsClosed true p c = c
  keep_args-IsClosed false p c = reset-IsClosed p

  open_word-Next :
      (open_file : List ℕ → World → Option File × World)
      (redirect : Option File → Std File → Bool × Std File) (word : Option (List ℕ)) (rest : List ℕ)
      (p : Proc)
      → IsClosed p.args
      → Next (length rest) (open_word open_file redirect word rest p)
  unfolding open_word
  open_word-Next open_file redirect none rest p c = tt
  open_word-Next open_file redirect (some file) rest p c =
      let (opened, w) = open_file file p.shell.world in
      let (ok, std) = redirect opened p.std in
      (
        omega arith,
        keep_args-IsClosed ok (record p { std = std; shell = record p.shell { world = w } }) c,
      )

  Next-weaken : (n m : ℕ) (s : Step) → n ≤ m → Next n s → Next m s
  Next-weaken n m (go rest q) l h = (omega (arith, h.0), h.1)
  Next-weaken n m (stop e) l h = tt

  step_redirect-Next :
      (open_file : List ℕ → World → Option File × World)
      (redirect : Option File → Std File → Bool × Std File) (after : List ℕ) (p : Proc)
      → IsClosed p.args
      → Next (length after) (step_redirect open_file redirect after p)
  unfolding step_redirect
  step_redirect-Next open_file redirect after p c =
      Next-weaken _ _ _ (length-parseword after)
        (open_word-Next open_file redirect (parseword after).0 (parseword after).1 p c)

  stay_or_go-Next :
      (stuck : Bool) (after : List ℕ) (p : Proc)
      → IsClosed p.args
      → Next (length after) (stay_or_go stuck after p)
  unfolding stay_or_go
  stay_or_go-Next true after p c = (omega arith, c)
  stay_or_go-Next false after p c = (omega arith, c)

  step_pipe_lem :
      (run_pipe : Proc → Bool × Proc) (stay : Proc → Step) (p : Proc)
      → IsClosed p.args
      → step_pipe run_pipe stay p ≡ stay p
  unfolding step_pipe
  step_pipe_lem run_pipe stay p c = rw (step_pipe, c) refl

  -- After `||` and `&&`.
  skip-Next :
      (after : List ℕ) (p : Proc) (b : Proc → Bool)
      → Next (length after) (run_then p (λ q. go (skip_one after) (set_run (b q) q)))
  unfolding set_run
  skip-Next after p b =
      run_then-Next (length after) p (λ q. go (skip_one after) (set_run (b q) q))
        (λ q d. (length-skip_one after, d))

  module _ (run_pipe : Proc → Bool × Proc) where
    step_at-Next :
        (stay : Proc → Step) (ch : ℕ) (after : List ℕ) (p : Proc)
        → IsClosed p.args
        → ((q : Proc) → IsClosed q.args → Next (length after) (stay q))
        → Next (length after) (step_at run_pipe stay ch after p)
    unfolding step_at
    step_at-Next stay ch after p c h =
        let n = length after in
        if-Next n (ch == b'>') _ _ (step_redirect-Next open_write (redirect_out limit) after p c) (
          if-Next n (ch == b'<') _ _ (step_redirect-Next open_read (redirect_in limit) after p c) (
            if-Next n (ch == b'|') _ _
              (if-Next n (starts_with b'|' after) _ _
                (skip-Next after p (λ q. not (q.shell.error == 0)))
                (subst (Next n) (sym (step_pipe_lem run_pipe stay p c)) (h p c)))
              (if-Next n (ch == b'&') _ _
                (if-Next n (starts_with b'&' after) _ _
                  (skip-Next after p (λ q. q.shell.error == 0)) (h p c))
                (if-Next n (ch == b'#' || ch == 10) _ _ (finish-Next n p)
                  (if-Next n (ch == b';') _ _ (run_then-Next n p stay h) (h p c))))))

    step_tail-Next :
        (n : ℕ) (at_line : Bool) (text tail : List ℕ) (a : Option Args) (p : Proc)
        → ((b : Args) → a ≡ some b → IsClosed b)
        → length tail ≤ suc n
        → Next n (step_tail run_pipe at_line text tail a p)
    unfolding step_tail
    step_tail-Next n at_line text tail none p c l = tt
    step_tail-Next n at_line text [] (some a) p c l = finish-Next n (record p { args = a })
    step_tail-Next n at_line text (ch ∷ after) (some a) p c l =
        Next-weaken (length after) n _ (omega arith) (
          step_at-Next _ ch after (record p { args = a }) (c a refl)
            (λ q d. stay_or_go-Next (at_line && length text == suc (length after)) after q d))

    -- An iteration makes the text shorter, and keeps `*narg` NULL.
    pub step-Next :
        (n : ℕ) (at_line : Bool) (text : List ℕ) (p : Proc)
        → IsClosed p.args
        → length text ≤ suc n
        → Next n (step run_pipe at_line text p)
    unfolding step
    step-Next n at_line text p c l =
        step_tail-Next n at_line text (parseword text).1 (push_word (parseword text).0 p.args) p
          (λ b e. push_word-IsClosed (parseword text).0 p.args b c e)
          (let k = length-parseword text in omega arith)

  step_at-same :
      (run_pipe other : Proc → Bool × Proc) (stay : Proc → Step) (ch : ℕ) (after : List ℕ)
      (p : Proc)
      → IsClosed p.args
      → step_at run_pipe stay ch after p ≡ step_at other stay ch after p
  unfolding step_at
  step_at-same run_pipe other stay ch after p c =
      rw (step_at, step_pipe_lem run_pipe stay p c, step_pipe_lem other stay p c) refl

  step_tail-same :
      (run_pipe other : Proc → Bool × Proc) (at_line : Bool) (text tail : List ℕ) (a : Option Args)
      (p : Proc)
      → ((b : Args) → a ≡ some b → IsClosed b)
      → step_tail run_pipe at_line text tail a p ≡ step_tail other at_line text tail a p
  unfolding step_tail
  step_tail-same run_pipe other at_line text tail none p c = refl
  step_tail-same run_pipe other at_line text [] (some a) p c = refl
  step_tail-same run_pipe other at_line text (ch ∷ after) (some a) p c =
      step_at-same run_pipe other (stay_or_go (at_line && length text == suc (length after)) after)
        ch after (record p { args = a }) (c a refl)

  -- It does not matter what `run_pipe` does.
  pub step-same :
      (run_pipe other : Proc → Bool × Proc) (at_line : Bool) (text : List ℕ) (p : Proc)
      → IsClosed p.args
      → step run_pipe at_line text p ≡ step other at_line text p
  unfolding step
  step-same run_pipe other at_line text p c =
      step_tail-same run_pipe other at_line text (parseword text).1
        (push_word (parseword text).0 p.args) p
        (λ b e. push_word-IsClosed (parseword text).0 p.args b c e)
