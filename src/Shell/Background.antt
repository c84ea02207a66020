-- ===== src/Shell/Background.antt =====
-- `process` of shell.c: a line is cut at each `&` that is not half of `&&`. What stands before such
-- a byte runs in a child, what is left at the end in the shell itself.
pub mod Join
use epfl_ba6_os.Prelude.{
  ℕ, suc, ◌+◌, ◌≡◌, refl, List, [], ◌∷◌, ◌++◌, Bool, true, false, not, ◌&&◌, Option, none, some,
  ◌==◌, if◌then◌else◌,
}

abbrev pub amp : ℕ
amp = b'&'

-- The children's command lines in the order of their forks, and the line that the shell itself goes
-- on with; `none` is `err(1, …)` at a failed fork.
pub record Processed : Type 0 where
  pub jobs : List (List ℕ)
  pub foreground : Option (List ℕ)

add_job : List ℕ → Processed → Processed
add_job line r = record { jobs = line ∷ r.jobs; foreground = r.foreground }

abbrev pub starts_amp : List ℕ → Bool
starts_amp [] = false
starts_amp (b ∷ bs) = b == amp

-- `fork n` says whether the fork number n succeeds.
module _ (fork : ℕ → Bool) where
  -- The loop, with the number of forks so far, the text from `line` to `p`, and whether `p` is at
  -- the second byte of `&&`, which `++p` passes over.
  process_from : ℕ → List ℕ → Bool → List ℕ → Processed
  process_from n line second [] = record { jobs = []; foreground = some line }
  process_from n line true (b ∷ bs) = process_from n (line ++ b ∷ []) false bs
  process_from n line false (b ∷ bs) =
      let alone = b == amp && not (starts_amp bs) in
      let rest =
        process_from (if alone then n + 1 else n) (if alone then [] else line ++ b ∷ [])
          (b == amp && starts_amp bs) bs in
      if alone
      then (if fork n then add_job line rest else record { jobs = []; foreground = none })
      else rest

  unfoldable pub process : List ℕ → Processed
  unfolding process_from add_job
  process line = process_from 0 [] false line
