-- ===== src/Shell/Words/Shorter.antt =====
-- `parseword` of shell.c moves the pointer forward.
use epfl_ba6_os.Prelude.{ℕ, ◌≤◌, List, [], ◌∷◌, length, arith, Bool-cases, inl, inr}
use epfl_ba6_os.Shell.Words.{is_space, is_delimiter, skip_space, scan_word, parseword}

length-skip_space : (p : List ℕ) → length (skip_space p) ≤ length p
unfolding skip_space
length-skip_space [] = omega arith
length-skip_space (b ∷ bs) =
    let h = length-skip_space bs in
    elim (Bool-cases (is_space b)) [ inl e ↦ rw e (omega arith) | inr e ↦ rw e (omega arith) ]

length-scan_word : (p : List ℕ) → length (scan_word p).1 ≤ length p
unfolding scan_word
length-scan_word [] = omega arith
length-scan_word (b ∷ bs) =
    let h = length-scan_word bs in
    elim (Bool-cases (is_delimiter b)) [ inl e ↦ rw e (omega arith) | inr e ↦ rw e (omega arith) ]

-- The rest of a text is no longer than the text.
pub length-parseword : (p : List ℕ) → length (parseword p).1 ≤ length p
unfolding parseword
length-parseword p =
    let h = length-skip_space p in let k = length-scan_word (skip_space p) in omega arith
