-- ===== src/Vfat/Names/Paths.antt =====
-- `split_path_root` of vfat.c, on a path that begins with a slash.
use epfl_ba6_os.Prelude.{
  ℕ, zero, suc, ◌+◌, ◌≡◌, ◌≢◌, refl, sym, ◌≤◌, ◌∙◌, ap, ◌⊎◌, inl, List, [], ◌∷◌, ◌++◌, some, none,
  get_elem?, set, drop, length, length-append, append_assoc, All, arith,
}
use epfl_ba6_os.Vfat.Names.{Split, slash, scan_component, split_path_root}

-- A byte that can stand in the name of a component.
abbrev pub IsNameByte : ℕ → Type 0
IsNameByte b = (b ≢ 0) × (b ≢ slash)

scan_component_lem :
    (comp rest : List ℕ) (sep : ℕ)
    → All IsNameByte comp
    → (sep ≡ 0) ⊎ (sep ≡ slash)
    → scan_component (comp ++ sep ∷ rest) ≡ some (length comp)
unfolding scan_component
scan_component_lem [] rest sep n e = ground arith
scan_component_lem (b ∷ comp) rest sep n e = ground (arith, scan_component_lem comp rest sep n.1)

get_elem?-append_middle :
    (pre rest : List ℕ) (b : ℕ) → get_elem? (pre ++ b ∷ rest) (length pre) ≡ some b
get_elem?-append_middle [] rest b = refl
get_elem?-append_middle (x ∷ pre) rest b = get_elem?-append_middle pre rest b

pub drop-append_middle :
    (pre rest : List ℕ) (b n : ℕ) → n ≡ length pre + 1 → drop n (pre ++ b ∷ rest) ≡ rest
drop-append_middle [] rest b n e = let one : n ≡ 1 = omega arith in rw one
drop-append_middle (x ∷ pre) rest b zero e = absurd (omega arith)
drop-append_middle (x ∷ pre) rest b (suc n) e = drop-append_middle pre rest b n (omega arith)

set-append_middle :
    (pre rest : List ℕ) (b v n : ℕ) → n ≡ length pre → set (pre ++ b ∷ rest) n v ≡ pre ++ v ∷ rest
set-append_middle [] rest b v n e = rw e
set-append_middle (x ∷ pre) rest b v zero e = absurd (omega arith)
set-append_middle (x ∷ pre) rest b v (suc n) e =
    ap (λ (xs : List ℕ). x ∷ xs) (set-append_middle pre rest b v n (omega arith))

-- `split_path_root` on a path that begins with a slash: the head is the component behind the slash,
-- the byte that ends the component becomes NUL, and the path goes on behind that byte, also where
-- the byte was the end of the string already.
pub split_path_root_lem :
    (pre comp rest : List ℕ) (sep : ℕ)
    → All IsNameByte comp
    → (sep ≡ 0) ⊎ (sep ≡ slash)
    → split_path_root (pre ++ slash ∷ (comp ++ sep ∷ rest)) (length pre)
      ≡ some (record {
        buffer = pre ++ slash ∷ (comp ++ 0 ∷ rest);
        path = length pre + 1 + length comp + 1;
        head = length pre + 1;
      })
unfolding split_path_root
split_path_root_lem pre comp rest sep n e = rw (
  get_elem?-append_middle pre (comp ++ sep ∷ rest) slash,
  drop-append_middle pre (comp ++ sep ∷ rest) slash (length pre + 1) refl,
  scan_component_lem comp rest sep n e,
  cleared,
)
  where
    cleared :
        set (pre ++ slash ∷ (comp ++ sep ∷ rest)) (length pre + 1 + length comp) 0
        ≡ pre ++ slash ∷ (comp ++ 0 ∷ rest)
    cleared =
        ap (λ (xs : List ℕ). set xs (length pre + 1 + length comp) 0)
          (sym (append_assoc pre (slash ∷ comp) (sep ∷ rest)))
        ∙ set-append_middle (pre ++ slash ∷ comp) rest sep 0 (length pre + 1 + length comp)
            (omega (arith, length-append pre (slash ∷ comp)))
        ∙ append_assoc pre (slash ∷ comp) (0 ∷ rest)

get_elem?-past : (xs : List ℕ) (i : ℕ) → length xs ≤ i → get_elem? xs i ≡ none
get_elem?-past [] i h = refl
get_elem?-past (x ∷ xs) zero h = absurd (omega arith)
get_elem?-past (x ∷ xs) (suc i) h = get_elem?-past xs i (omega arith)

split_path_root_past :
    (buffer : List ℕ) (path : ℕ) → length buffer ≤ path → split_path_root buffer path ≡ none
unfolding split_path_root
split_path_root_past buffer path h = rw (get_elem?-past buffer path h)

-- Behind the last component the path is past the end of the buffer: the next call reads out of
-- bounds.
pub split_path_root-last :
    (pre comp : List ℕ)
    → All IsNameByte comp
    → (s : Split) × (split_path_root (pre ++ slash ∷ (comp ++ 0 ∷ [])) (length pre) ≡ some s)
      × (split_path_root s.buffer s.path ≡ none)
split_path_root-last pre comp n = (
  _,
  split_path_root_lem pre comp [] 0 n (inl refl),
  split_path_root_past _ _
      (omega (arith, length-append pre (slash ∷ (comp ++ 0 ∷ [])), length-append comp (0 ∷ []))),
)
