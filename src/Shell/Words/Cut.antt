-- ===== src/Shell/Words/Cut.antt =====
-- How `parseword` of shell.c cuts a text.
use epfl_ba6_os.Prelude.{
  ℕ, ◌≡◌, refl, ap, List, [], ◌∷◌, ◌++◌, true, false, Option, none, some, All, Bool-cases, inl, inr,
  ◌∙◌, subst,
}
use epfl_ba6_os.Shell.Words.{is_space, is_delimiter, skip_space, scan_word, word_or_null, parseword}

abbrev pub IsSpace : ℕ → Type 0
IsSpace b = is_space b ≡ true

abbrev pub IsWordByte : ℕ → Type 0
IsWordByte b = is_delimiter b ≡ false

-- A text that is at its end or begins with a delimiter.
abbrev pub IsAtDelimiter : List ℕ → Type 0
IsAtDelimiter [] = Unit
IsAtDelimiter (b ∷ bs) = is_delimiter b ≡ true

-- A text that does not begin with a space.
abbrev pub IsTrimmed : List ℕ → Type 0
IsTrimmed [] = Unit
IsTrimmed (b ∷ bs) = is_space b ≡ false

-- The bytes of what `parseword` returns.
abbrev pub word_bytes : Option (List ℕ) → List ℕ
word_bytes none = []
word_bytes (some w) = w

word_bytes-word_or_null : (w : List ℕ) → word_bytes (word_or_null w) ≡ w
unfolding word_or_null
word_bytes-word_or_null [] = refl
word_bytes-word_or_null (b ∷ bs) = refl

skip_space-cuts :
    (p : List ℕ)
    → (spaces : List ℕ) × All IsSpace spaces
      × (p ≡ spaces ++ skip_space p)
      × IsTrimmed (skip_space p)
unfolding skip_space
skip_space-cuts [] = ([], tt, refl, tt)
skip_space-cuts (b ∷ bs) = elim (Bool-cases (is_space b)) [
  | inl e ↦
      let (spaces, h, q, t) = skip_space-cuts bs in
      rw e (b ∷ spaces, (e, h), ap (λ (xs : List ℕ). b ∷ xs) q, t)
  | inr e ↦ rw e ([], tt, refl, e)
]

scan_word-cuts :
    (p : List ℕ)
    → All IsWordByte (scan_word p).0
      × (p ≡ (scan_word p).0 ++ (scan_word p).1)
      × IsAtDelimiter (scan_word p).1
unfolding scan_word
scan_word-cuts [] = (tt, refl, tt)
scan_word-cuts (b ∷ bs) = elim (Bool-cases (is_delimiter b)) [
  | inl e ↦ rw e (tt, refl, e)
  | inr e ↦ let (h, q, t) = scan_word-cuts bs in rw e ((e, h), ap (λ (xs : List ℕ). b ∷ xs) q, t)
]

-- Every text is what `parseword` says: spaces, the bytes of the word, and the rest, where no
-- delimiter stands in the word, the rest is at its end or begins with a delimiter, and behind the
-- spaces no further space follows.
pub parseword_cuts :
    (p : List ℕ)
    → (spaces : List ℕ) × All IsSpace spaces
      × (p ≡ spaces ++ (word_bytes (parseword p).0 ++ (parseword p).1))
      × IsTrimmed (word_bytes (parseword p).0 ++ (parseword p).1)
      × All IsWordByte (word_bytes (parseword p).0)
      × IsAtDelimiter (parseword p).1
unfolding parseword
parseword_cuts p = rw (word_bytes-word_or_null (scan_word (skip_space p)).0) (
  spaces.0,
  spaces.1,
  spaces.2 ∙ ap (λ (xs : List ℕ). spaces.0 ++ xs) word.1,
  subst IsTrimmed word.1 spaces.3,
  word.0,
  word.2,
)
  where
    spaces :
        (spaces : List ℕ) × All IsSpace spaces
        × (p ≡ spaces ++ skip_space p)
        × IsTrimmed (skip_space p)
    spaces = skip_space-cuts p

    word :
        All IsWordByte (scan_word (skip_space p)).0
        × (skip_space p ≡ (scan_word (skip_space p)).0 ++ (scan_word (skip_space p)).1)
        × IsAtDelimiter (scan_word (skip_space p)).1
    word = scan_word-cuts (skip_space p)

skip_space-spaces :
    (spaces p : List ℕ) → All IsSpace spaces → IsTrimmed p → skip_space (spaces ++ p) ≡ p
unfolding skip_space
skip_space-spaces [] [] h t = refl
skip_space-spaces [] (b ∷ bs) h t = rw t refl
skip_space-spaces (b ∷ bs) p h t = rw h.0 (skip_space-spaces bs p h.1 t)

scan_word-word :
    (w rest : List ℕ) → All IsWordByte w → IsAtDelimiter rest → scan_word (w ++ rest) ≡ (w, rest)
unfolding scan_word
scan_word-word [] [] h t = refl
scan_word-word [] (b ∷ bs) h t = rw t refl
scan_word-word (b ∷ bs) rest h t = rw (h.0, scan_word-word bs rest h.1 t) refl

-- There is no other way to cut a text: `parseword` on spaces, a word and a rest as above returns
-- that word, or NULL if it is empty, and that rest.
pub parseword_unique :
    (spaces w rest : List ℕ)
    → All IsSpace spaces
    → IsTrimmed (w ++ rest)
    → All IsWordByte w
    → IsAtDelimiter rest
    → (word_bytes (parseword (spaces ++ (w ++ rest))).0 ≡ w)
      × ((parseword (spaces ++ (w ++ rest))).1 ≡ rest)
unfolding parseword
parseword_unique spaces w rest h t hw hr =
    rw (skip_space-spaces spaces (w ++ rest) h t, scan_word-word w rest hw hr)
      (word_bytes-word_or_null w, refl)
