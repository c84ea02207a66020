-- ===== src/Shell/Words.antt =====
-- `parseword` of shell.c: the word at the start of a text, and what stands behind it.
pub mod Cut
pub mod Shorter
use epfl_ba6_os.Prelude.{
  ℕ, ◌≡◌, refl, ap, List, [], ◌∷◌, ◌++◌, Bool, true, false, ◌||◌, ◌&&◌, Option, none, some, ◌==◌,
  leb, if◌then◌else◌, All, arith, ◌≢◌,
}

-- `isspace` in the C locale.
unfoldable pub is_space : ℕ → Bool
is_space b = b == b' ' || leb 9 b && leb b 13

-- The bytes at which `strchr(" \t;&|><\n#", *p)` is not NULL, but for NUL.
unfoldable pub is_delimiter : ℕ → Bool
is_delimiter b =
    b == b' '
    || b == 9
    || b == b';'
    || b == b'&'
    || b == b'|'
    || b == b'>'
    || b == b'<'
    || b == 10
    || b == b'#'

-- The first loop.
unfoldable pub skip_space : List ℕ → List ℕ
skip_space [] = []
skip_space (b ∷ bs) = if is_space b then skip_space bs else b ∷ bs

-- The second loop: the bytes that it passes, and what is left.
unfoldable pub scan_word : List ℕ → List ℕ × List ℕ
scan_word [] = ([], [])
scan_word (b ∷ bs) =
    let rest = scan_word bs in if is_delimiter b then ([], b ∷ bs) else (b ∷ rest.0, rest.1)

-- NULL is `none`; the second component is what `*pp` points to afterwards.
unfoldable pub word_or_null : List ℕ → Option (List ℕ)
word_or_null [] = none
word_or_null (b ∷ bs) = some (b ∷ bs)

unfoldable pub parseword : List ℕ → Option (List ℕ) × List ℕ
unfolding skip_space scan_word word_or_null
parseword p = (word_or_null (scan_word (skip_space p)).0, (scan_word (skip_space p)).1)
