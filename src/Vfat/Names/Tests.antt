-- ===== src/Vfat/Names/Tests.antt =====
-- The string functions at concrete names and paths.
use epfl_ba6_os.Prelude.{ℕ, ◌≡◌, refl, List, [], ◌∷◌, some, none, arith}
use epfl_ba6_os.Vfat.Names.{Split, slash, trim_nstr, trim_string, split_path_root}
use epfl_ba6_os.Vfat.Names.Paths.{split_path_root-last}

-- "A B  "
abbrev padded : List ℕ
padded = b'A' ∷ b' ' ∷ b'B' ∷ b' ' ∷ b' ' ∷ []

trim_nstr_runs : trim_nstr padded 5 ≡ b'A' ∷ b' ' ∷ b'B' ∷ 0 ∷ 0 ∷ []
unfolding trim_nstr
trim_nstr_runs = refl

trim_string_runs : trim_string padded ≡ b'A' ∷ b' ' ∷ b'B' ∷ 0 ∷ 0 ∷ []
unfolding trim_string
trim_string_runs = refl

abbrev six : List ℕ
six = 70 ∷ 79 ∷ 79 ∷ 32 ∷ 32 ∷ 32 ∷ []

abbrev four : List ℕ
four = 32 ∷ 84 ∷ 88 ∷ 84 ∷ []

split_path_root-last_example :
    (s : Split) × (split_path_root (slash ∷ 97 ∷ 0 ∷ []) 0 ≡ some s)
    × (split_path_root s.buffer s.path ≡ none)
split_path_root-last_example = split_path_root-last [] (97 ∷ []) (omega arith)
