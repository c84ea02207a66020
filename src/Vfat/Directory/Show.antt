-- ===== src/Vfat/Directory/Show.antt =====
-- What vfat.c shows of the root directory: `vfat_fuse_readdir` and the names that it gives out.
use epfl_ba6_os.Prelude.{
  ℕ, zero, suc, ◌-◌, ◌≤◌, ◌<◌, ◌≡◌, ◌≢◌, refl, ap, ◌∙◌, inl, inr, List, [], ◌∷◌, ◌++◌, map,
  append-nil, append_assoc, Bool-cases, ltb, if◌then◌else◌, length, get_or, take, replicate, arith,
  c_str, str_eq, str_eq_iff,
}
use epfl_ba6_os.Vfat.Layout.{Vfat, VfatDirentry}
use epfl_ba6_os.Vfat.Names.{space, trim_nstr}
use epfl_ba6_os.Vfat.Directory.{copied_name, filler_name, vfat_fuse_readdir, enoent, names}

take_all : (xs : List ℕ) (n : ℕ) → length xs ≡ n → take n xs ≡ xs
take_all [] zero e = refl
take_all [] (suc n) e = refl
take_all (x ∷ xs) zero e = absurd (omega arith)
take_all (x ∷ xs) (suc n) e = ap (λ (ys : List ℕ). x ∷ ys) (take_all xs n (omega arith))

length-c_str-le : (xs : List ℕ) → length (c_str xs) ≤ length xs
unfolding c_str
length-c_str-le [] = omega arith
length-c_str-le (x ∷ xs) = ground (arith, length-c_str-le xs)

get_or-c_str :
    (xs ys : List ℕ) (i : ℕ) → i < length (c_str xs) → get_or (c_str xs ++ ys) i 0 ≡ get_or xs i 0
unfolding c_str
get_or-c_str [] ys i h = absurd (omega arith)
get_or-c_str (x ∷ xs) ys zero h = ground arith
get_or-c_str (x ∷ xs) ys (suc i) h = ground (arith, get_or-c_str xs ys i)

get_or-replicate : (k i : ℕ) → get_or {A = ℕ} (replicate k 0) i 0 ≡ 0
get_or-replicate zero i = refl
get_or-replicate (suc k) zero = refl
get_or-replicate (suc k) (suc i) = get_or-replicate k i

get_or-pad : (xs : List ℕ) (k i : ℕ) → length xs ≤ i → get_or (xs ++ replicate k 0) i 0 ≡ 0
get_or-pad [] k i h = get_or-replicate k i
get_or-pad (x ∷ xs) k zero h = absurd (omega arith)
get_or-pad (x ∷ xs) k (suc i) h = get_or-pad xs k i (omega arith)

-- The text of a string that is followed by other bytes.
c_str-c_str-append : (xs ys : List ℕ) → c_str (c_str xs ++ ys) ≡ c_str xs ++ c_str ys
unfolding c_str
c_str-c_str-append [] ys = refl
c_str-c_str-append (x ∷ xs) ys = ground (arith, c_str-c_str-append xs ys)

c_str-replicate : (k : ℕ) (ys : List ℕ) → 0 < k → c_str (replicate k 0 ++ ys) ≡ []
unfolding c_str
c_str-replicate zero ys h = absurd (omega arith)
c_str-replicate (suc k) ys h = refl

trim_nstr_keeps : (str : List ℕ) → get_or str 7 0 ≢ space → trim_nstr str 8 ≡ str
unfolding trim_nstr
trim_nstr_keeps str h = ground arith

-- The last byte of the copied name is not a space if the last of the entry's is none.
copied-last :
    (dn : List ℕ) → length dn ≡ 8 → get_or dn 7 0 ≢ space → get_or (copied_name dn) 7 0 ≢ space
unfolding copied_name
copied-last dn e h = rw (take_all dn 8 e) (elim (Bool-cases (ltb 7 (length (c_str dn)))) [
  | inl whole ↦ rw (get_or-c_str dn (replicate (8 - length (c_str dn)) 0) 7 (ground arith)) h
  | inr short ↦ rw (get_or-pad (c_str dn) (8 - length (c_str dn)) 7 (ground arith)) (omega arith)
])

shown_text :
    (dn beyond : List ℕ)
    → length dn ≡ 8
    → c_str (copied_name dn ++ beyond)
      ≡ (if ltb (length (c_str dn)) 8 then c_str dn else c_str dn ++ c_str beyond)
unfolding copied_name
shown_text dn beyond e =
    let pad : List ℕ = replicate (8 - length (c_str dn)) 0 in
    rw (take_all dn 8 e) (
      ap c_str (append_assoc (c_str dn) pad beyond)
      ∙ c_str-c_str-append dn (pad ++ beyond)
      ∙ elim (Bool-cases (ltb (length (c_str dn)) 8)) [
        | inl short ↦
            rw (short, c_str-replicate (8 - length (c_str dn)) beyond (ground arith))
              (append-nil (c_str dn))
        | inr whole ↦
            let none_left : 8 - length (c_str dn) ≡ 0 = ground arith in rw (whole, none_left)
      ])

-- The name that is shown of an entry of eight name bytes, the last of which is no space: the bytes
-- before the first NUL. If there is no NUL among the eight, the name goes on with whatever stands
-- in memory behind the buffer.
pub filler_name_lem :
    (beyond : List ℕ) (e : VfatDirentry)
    → length e.dir_name ≡ 8
    → get_or e.dir_name 7 0 ≢ space
    → filler_name beyond e ≡ (
        if ltb (length (c_str e.dir_name)) 8
        then c_str e.dir_name
        else c_str e.dir_name ++ c_str beyond)
unfolding filler_name
filler_name_lem beyond e len last =
    ap (λ (xs : List ℕ). c_str (xs ++ beyond))
      (trim_nstr_keeps (copied_name e.dir_name) (copied-last e.dir_name len last))
    ∙ text
  where
    text : c_str (copied_name e.dir_name ++ beyond) ≡ (
        if ltb (length (c_str e.dir_name)) 8
        then c_str e.dir_name
        else c_str e.dir_name ++ c_str beyond)
    text = shown_text e.dir_name beyond len

-- `vfat_fuse_readdir` gives out "." and "..", then a name for each entry of the root list in its
-- order, and makes that list the current one; any path but "/" is not found.
pub vfat_fuse_readdir_lem :
    (beyond path : List ℕ) (f : Vfat)
    → (path ≢ b'/' ∷ [] → vfat_fuse_readdir beyond path f ≡ enoent)
      × (vfat_fuse_readdir beyond (b'/' ∷ []) f
          ≡ names
              ((b'.' ∷ []) ∷ (b'.' ∷ b'.' ∷ []) ∷ map (filler_name beyond) f.root_direntries_list)
              (record f { current_direntries_list = f.root_direntries_list }))
unfolding vfat_fuse_readdir
vfat_fuse_readdir_lem beyond path f = (
  (λ h. elim (Bool-cases (str_eq path (b'/' ∷ []))) [
    | inl same ↦ absurd (h ((str_eq_iff path (b'/' ∷ [])).0 same))
    | inr other ↦ rw other
  ]),
  unfold str_eq in refl,
)
