-- ===== src/Vfat/Directory/Root.antt =====
-- `vfat_read_root_directory` of vfat.c against the records that the directory holds.
use epfl_ba6_os.Prelude.{
  ℕ, zero, suc, ◌+◌, ◌*◌, ◌^◌, ◌≤◌, ◌<◌, ◌≡◌, ◌≢◌, refl, ap, sym, ◌∙◌, inl, inr, List, [], ◌∷◌,
  ◌++◌, Bool, true, false, Bool-cases, subst, not, some, ◌==◌, ◌&&◌, if◌then◌else◌, length, take,
  drop, add32, append_assoc, append-nil, length-append, arith,
}
use epfl_ba6_os.Vfat.Bytes.{overlay, pread, u8_at}
use epfl_ba6_os.Vfat.Layout.{
  Vfat, VfatDirentry, decode_direntry, sizeof_direntry, vfat_dirname_free, vfat_attr_lfn,
}
use epfl_ba6_os.Vfat.Names.{space}
use epfl_ba6_os.Vfat.Names.Trim.{trim_nstr_lem, is_blank_start}
use epfl_ba6_os.Vfat.Directory.{
  listed, null_pointer, trimmed, read_entries, root_offset, finish_list, vfat_read_root_directory,
}

-- Is it shown: does it begin neither with NUL nor with the mark of a free record, and is it no part
-- of a long name?
abbrev pub is_shown : List ℕ → Bool
is_shown r =
    not (u8_at r 0 == 0)
    && not (u8_at r 0 == vfat_dirname_free)
    && not (u8_at r 11 == vfat_attr_lfn)

-- Whether the loop goes on behind the record at an offset: one that is shown does not begin with a
-- space, and of any other, which is freed, the byte that is read then is not 0.
abbrev pub GoesOn : (ℕ → ℕ) → ℕ → List ℕ → Type 0
GoesOn freed off r =
    (length r ≡ sizeof_direntry)
    × (is_shown r ≡ true → u8_at r 0 ≢ space)
    × (is_shown r ≡ false → freed off ≢ 0)

-- The records from an offset on.
abbrev pub AllGoOn : (ℕ → ℕ) → ℕ → List (List ℕ) → Type 0
AllGoOn freed off [] = Unit
AllGoOn freed off (r ∷ rs) = GoesOn freed off r × AllGoOn freed (off + sizeof_direntry) rs

-- The loop ends at a record that is freed, and whose first byte is then read as 0.
abbrev pub Ends : (ℕ → ℕ) → ℕ → List ℕ → Type 0
Ends freed off t = (length t ≡ sizeof_direntry) × (is_shown t ≡ false) × (freed off ≡ 0)

-- The entries that the records stand for.
abbrev pub listing : List (List ℕ) → List VfatDirentry
listing [] = []
listing (r ∷ rs) = if is_shown r then trimmed (decode_direntry r) ∷ listing rs else listing rs

-- The bytes of the records, one after the other, and what follows them.
abbrev pub laid_out : List (List ℕ) → List ℕ → List ℕ
laid_out [] rest = rest
laid_out (r ∷ rs) rest = r ++ laid_out rs rest

take-append : (r rest : List ℕ) (n : ℕ) → length r ≡ n → take n (r ++ rest) ≡ r
take-append [] rest zero e = refl
take-append [] rest (suc n) e = absurd (omega arith)
take-append (x ∷ r) rest zero e = absurd (omega arith)
take-append (x ∷ r) rest (suc n) e =
    ap (λ (xs : List ℕ). x ∷ xs) (take-append r rest n (omega arith))

drop-append : (pre rest : List ℕ) (n : ℕ) → length pre ≡ n → drop n (pre ++ rest) ≡ rest
drop-append [] rest zero e = refl
drop-append [] rest (suc n) e = absurd (omega arith)
drop-append (x ∷ pre) rest zero e = absurd (omega arith)
drop-append (x ∷ pre) rest (suc n) e = drop-append pre rest n (omega arith)

overlay_whole : (r buf : List ℕ) → length r ≡ length buf → overlay r buf ≡ r
unfolding overlay
overlay_whole [] [] e = refl
overlay_whole [] (b ∷ buf) e = absurd (omega arith)
overlay_whole (x ∷ r) [] e = absurd (omega arith)
overlay_whole (x ∷ r) (b ∷ buf) e = ap (λ (xs : List ℕ). x ∷ xs) (overlay_whole r buf (omega arith))

-- A record that stands at the offset is the one that is read.
pub pread_record :
    (pre r rest buf : List ℕ) (off : ℕ)
    → length pre ≡ off
    → length r ≡ sizeof_direntry
    → length buf ≡ sizeof_direntry
    → pread (pre ++ (r ++ rest)) buf sizeof_direntry off ≡ r
unfolding pread
pread_record pre r rest buf off hp hr hb =
    rw (drop-append pre (r ++ rest) off hp, take-append r rest sizeof_direntry hr)
      (overlay_whole r buf (omega arith))

length-take : (xs : List ℕ) (n : ℕ) → n ≤ length xs → length (take n xs) ≡ n
length-take xs zero h = refl
length-take [] (suc n) h = absurd (omega arith)
length-take (x ∷ xs) (suc n) h = omega (arith, length-take xs n (omega arith))

next :
    (off : ℕ) → off + sizeof_direntry < 2 ^ 32 → add32 off sizeof_direntry ≡ off + sizeof_direntry
next off h = omega arith

positive : (a : ℕ) → a ≢ 0 → a == 0 ≡ false
positive a h = ground arith

-- The first byte of a shown record survives the trimming of the name.
first-trimmed :
    (r : List ℕ)
    → length r ≡ sizeof_direntry
    → u8_at r 0 ≢ space
    → u8_at (trimmed (decode_direntry r)).dir_name 0 ≡ u8_at r 0
unfolding trimmed decode_direntry
first-trimmed [] l h = absurd (omega arith)
first-trimmed (x ∷ r) l h =
    trim_nstr_lem (x ∷ take 7 r) 8 0 (omega (arith, length-take r 7 (omega arith)))
    ∙ rw (is_blank_start (x ∷ take 7 r) 8 h) refl

pub attr-decode : (r : List ℕ) → (decode_direntry r).dir_attr ≡ u8_at r 11
unfolding decode_direntry
attr-decode r = refl

-- A record that ends the directory begins with NUL.
abbrev pub IsEnd : List ℕ → Type 0
IsEnd t = (length t ≡ sizeof_direntry) × (u8_at t 0 ≡ 0)

module _ (memory : ℕ → List ℕ) (freed : ℕ → ℕ) where
  -- One round of the loop at a record.
  entries_at_shown :
      (fuel : ℕ) (fs : List ℕ) (off : ℕ) (acc : List VfatDirentry) (r : List ℕ)
      → GoesOn freed off r
      → is_shown r ≡ true
      → pread fs (memory off) sizeof_direntry off ≡ r
      → read_entries memory freed (suc fuel) fs off acc
        ≡ read_entries memory freed fuel fs
            (add32 off sizeof_direntry)
            (acc ++ trimmed (decode_direntry r) ∷ [])
  unfolding read_entries
  entries_at_shown fuel fs off acc r h shown e =
      rw e (ground (arith, shown, first-trimmed r h.0 (h.1 shown), attr-decode r))

  entries_at_hidden :
      (fuel : ℕ) (fs : List ℕ) (off : ℕ) (acc : List VfatDirentry) (r : List ℕ)
      → is_shown r ≡ false
      → pread fs (memory off) sizeof_direntry off ≡ r
      → read_entries memory freed (suc fuel) fs off acc ≡ (
          if freed off == 0
          then some acc
          else read_entries memory freed fuel fs (add32 off sizeof_direntry) acc)
  unfolding read_entries
  entries_at_hidden fuel fs off acc r hidden e = rw e (ground (arith, hidden, attr-decode r))

  -- The loop runs through the records up to the one that ends it.
  entries_of_records :
      (fuel : ℕ) (rs : List (List ℕ)) (fs pre t post : List ℕ) (off : ℕ) (acc : List VfatDirentry)
      → ((o : ℕ) → length (memory o) ≡ sizeof_direntry)
      → AllGoOn freed off rs
      → Ends freed (off + sizeof_direntry * length rs) t
      → fs ≡ pre ++ laid_out rs (t ++ post)
      → length pre ≡ off
      → off + sizeof_direntry * length rs < 2 ^ 32
      → length rs < fuel
      → read_entries memory freed fuel fs off acc ≡ some (acc ++ listing rs)
  entries_of_records zero rs fs pre t post off acc m h d e p w b = absurd (omega arith)
  entries_of_records (suc fuel) [] fs pre t post off acc m h d e p w b =
      let stops : freed off ≡ 0 = subst (λ o. freed o ≡ 0) (omega arith) d.2 in
      entries_at_hidden fuel fs off acc t d.1
        (rw e (pread_record pre t post (memory off) off p d.0 (m off)))
      ∙ rw (stops, append-nil acc)
  entries_of_records (suc fuel) (r ∷ rs) fs pre t post off acc m h d e p w b =
      let go = λ (acc' : List VfatDirentry).
        entries_of_records fuel rs fs (pre ++ r) t post (add32 off sizeof_direntry) acc' m
          (rw (next off (omega arith)) h.1) (subst (λ o. Ends freed o t) (omega arith) d)
          (e ∙ sym (append_assoc pre r (laid_out rs (t ++ post))))
          (omega (arith, length-append pre r, h.0.0)) (omega arith) (omega arith) in
      let read : pread fs (memory off) sizeof_direntry off ≡ r =
        rw e (pread_record pre r (laid_out rs (t ++ post)) (memory off) off p h.0.0 (m off)) in
      elim (Bool-cases (is_shown r)) [
        | inl shown ↦
            entries_at_shown fuel fs off acc r h.0 shown read
            ∙ go (acc ++ trimmed (decode_direntry r) ∷ [])
            ∙ rw shown (ap some (append_assoc acc (trimmed (decode_direntry r) ∷ []) (listing rs)))
        | inr hidden ↦
            entries_at_hidden fuel fs off acc r hidden read
            ∙ rw (positive (freed off) (h.0.2 hidden), hidden) (go acc)
      ]

  -- On a device whose root directory holds records of 32 bytes up to one that ends the loop,
  -- `vfat_read_root_directory` lists exactly the shown records, trimmed and in their order; if none
  -- is shown it frees through a null pointer. The loop ends at the first record that is not shown
  -- and whose first byte is read as 0 after `free`: what that read yields is arbitrary, so a free
  -- record or a part of a long name may end it, and one that begins with NUL may not. (Offsets are
  -- 32-bit numbers, the fuel exceeds the number of records, and no shown record begins with a
  -- space.)
  pub vfat_read_root_directory_lem :
      (fuel : ℕ) (f : Vfat) (rs : List (List ℕ)) (pre t post : List ℕ)
      → ((o : ℕ) → length (memory o) ≡ sizeof_direntry)
      → AllGoOn freed (root_offset f) rs
      → Ends freed (root_offset f + sizeof_direntry * length rs) t
      → f.fs ≡ pre ++ laid_out rs (t ++ post)
      → length pre ≡ root_offset f
      → root_offset f + sizeof_direntry * length rs < 2 ^ 32
      → length rs < fuel
      → vfat_read_root_directory memory freed fuel f ≡ elim (listing rs) [
        | [] ↦ null_pointer
        | e ∷ es ↦ listed (record f { root_direntries_list = e ∷ es })
      ]
  unfolding vfat_read_root_directory
  vfat_read_root_directory_lem fuel f rs pre t post m h d e p w b =
      rw (entries_of_records fuel rs f.fs pre t post (root_offset f) [] m h d e p w b)
        (finish (listing rs))
    where
      finish :
          (es : List VfatDirentry)
          → finish_list f (some es) ≡ elim es [
            | [] ↦ null_pointer
            | e ∷ es' ↦ listed (record f { root_direntries_list = e ∷ es' })
          ]
      finish [] = refl
      finish (x ∷ es) = refl
