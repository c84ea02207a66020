-- ===== src/Shell/Tests.antt =====
-- The shell at concrete lines.
use epfl_ba6_os.Prelude.{
  ℕ, zero, suc, arith, Option, ◌≡◌, refl, List, [], ◌∷◌, ◌++◌, Bool, true, false, some, none, All,
  ◌==◌, ◌-◌, ◌^◌, if◌then◌else◌, str_eq,
}
use epfl_ba6_os.Shell.Words.{parseword, is_space, is_delimiter}
use epfl_ba6_os.Shell.Words.Cut.{
  IsSpace, IsTrimmed, IsWordByte, IsAtDelimiter, word_bytes, parseword_cuts,
}
use epfl_ba6_os.Shell.Background.{process}
use epfl_ba6_os.Shell.Background.Join.{join, IsCut, process-IsCut}
use epfl_ba6_os.Shell.Builtins.{cd_name, Shell, warn, ran, run_builtin}
use epfl_ba6_os.Shell.Descriptors.{Std, write, lowest_free, redirect_out, restore_std}
use epfl_ba6_os.Shell.Descriptors.Restore.{redirect_out-restore, redirect_out-lost}

-- "  ls;a"
abbrev text : List ℕ
text = b' ' ∷ b' ' ∷ b'l' ∷ b's' ∷ b';' ∷ b'a' ∷ []

parseword_runs : parseword text ≡ (some (b'l' ∷ b's' ∷ []), b';' ∷ b'a' ∷ [])
unfolding parseword is_space is_delimiter
parseword_runs = refl

parseword_cuts_example :
    (spaces : List ℕ) × All IsSpace spaces
    × (text ≡ spaces ++ (word_bytes (parseword text).0 ++ (parseword text).1))
    × IsTrimmed (word_bytes (parseword text).0 ++ (parseword text).1)
    × All IsWordByte (word_bytes (parseword text).0)
    × IsAtDelimiter (parseword text).1
parseword_cuts_example = parseword_cuts text

abbrev forks : ℕ → Bool
forks n = true

-- "a&b&&c&d"
abbrev line : List ℕ
line = b'a' ∷ b'&' ∷ b'b' ∷ b'&' ∷ b'&' ∷ b'c' ∷ b'&' ∷ b'd' ∷ []

abbrev parts : List (List ℕ)
parts = (b'a' ∷ []) ∷ (b'b' ∷ b'&' ∷ b'&' ∷ b'c' ∷ []) ∷ []

process_runs : process forks line ≡ record { jobs = parts; foreground = some (b'd' ∷ []) }
unfolding process
process_runs = refl

-- The second fork fails.
process_fails : process (λ n. n == 0) line ≡ record { jobs = (b'a' ∷ []) ∷ []; foreground = none }
unfolding process
process_fails = refl

process-IsCut_example :
    (jobs : List (List ℕ)) × (last : List ℕ) × (join jobs last ≡ line)
    × IsCut false jobs last
    × (process forks line ≡ record { jobs = jobs; foreground = some last })
process-IsCut_example = process-IsCut forks line (λ n. refl)

-- A system whose directory is a number: "a" can be entered, and nothing else.
abbrev chdir : List ℕ → ℕ → ℕ × ℕ
chdir d w = if str_eq d (b'a' ∷ []) then (0, 7) else (2 ^ 32 - 1, w)

abbrev fresh : Shell chdir
fresh = record { error = 0; world = 1; output = [] }

after_cd : Shell chdir
after_cd = record { error = 2 ^ 32 - 1; world = 1; output = warn (b'b' ∷ []) ∷ [] }

cd_fails : run_builtin chdir cd_name ((b'b' ∷ []) ∷ []) fresh ≡ ran after_cd
unfolding run_builtin str_eq after_cd
cd_fails = refl

-- The table of a process with its three standard descriptors.
abbrev standard : ℕ → Option ℕ
standard zero = some 10
standard (suc zero) = some 11
standard (suc (suc zero)) = some 12
standard (suc (suc (suc n))) = none

abbrev plain : Std ℕ
plain = record { fds = standard; saved_in = 0; saved_out = 1 }

first_free : lowest_free 8 0 standard ≡ some 3
unfolding lowest_free
first_free = refl

second_free : lowest_free 8 0 (write standard 3 (some 20)) ≡ some 4
unfolding lowest_free
second_free = refl

-- The first of two redirections of standard output leaves its backup open.
two_redirections :
    (restore_std (redirect_out 8 (some 21) (redirect_out 8 (some 20) plain).1).1).fds 4 ≡ some 11
unfolding redirect_out restore_std lowest_free
two_redirections = refl

redirect_out-restore_example :
    (t : Std ℕ) × (redirect_out 8 (some 20) plain ≡ (true, t))
    × (t.fds 1 ≡ some 20)
    × ((q : ℕ) → (restore_std t).fds q ≡ standard q)
    × ((restore_std t).saved_in ≡ 0)
    × ((restore_std t).saved_out ≡ 1)
redirect_out-restore_example = redirect_out-restore 8 standard 11 20 3 4 refl first_free second_free

last_free : lowest_free 4 0 standard ≡ some 3
unfolding lowest_free
last_free = refl

none_free : lowest_free 4 0 (write standard 3 (some 20)) ≡ none
unfolding lowest_free
none_free = refl

redirect_out-lost_example :
    (t : Std ℕ) × (redirect_out 4 (some 20) plain ≡ (true, t)) × ((restore_std t).fds 1 ≡ some 20)
redirect_out-lost_example =
    redirect_out-lost 4 standard 11 20 3 refl refl (omega arith) last_free none_free
