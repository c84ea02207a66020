-- ===== src/Vfat/Resolve/Lookup.antt =====
-- `vfat_read_directory` of vfat.c against `vfat_read_root_directory`.
use epfl_ba6_os.Prelude.{
  ℕ, zero, suc, ◌≡◌, refl, sym, ap, ◌∙◌, List, [], ◌∷◌, ◌++◌, Bool, true, false, Option,
  append_assoc, some, none, ◌==◌, ◌||◌, if◌then◌else◌, ◌>>=◌, add32,
}
use epfl_ba6_os.Vfat.Bytes.{pread, u8_at}
use epfl_ba6_os.Vfat.Layout.{
  Vfat, VfatDirentry, decode_direntry, sizeof_direntry, vfat_dirname_null, vfat_dirname_free,
  vfat_attr_lfn,
}
use epfl_ba6_os.Vfat.Directory.{
  listed, null_pointer, trimmed, read_entries, root_offset, finish_list, vfat_read_root_directory,
}
use epfl_ba6_os.Vfat.Resolve.{read_directory_entries, vfat_read_directory}

module _ (memory : ℕ → List ℕ) (freed : ℕ → ℕ) (stray : List VfatDirentry) where
  -- What the second loop makes of the list of the first one, behind the entries linked before.
  abbrev Behind :
      List VfatDirentry → Option (List VfatDirentry) → Option (List VfatDirentry) → Type 0
  Behind acc first second =
      (first >>= λ es. some (es ++ stray)) ≡ (second >>= λ es. some (acc ++ es))

  Behind-∷ :
      (acc : List VfatDirentry) (e : VfatDirentry) (first second : Option (List VfatDirentry))
      → Behind (acc ++ e ∷ []) first second
      → Behind acc first (second >>= λ es. some (e ∷ es))
  Behind-∷ acc e first none h = h
  Behind-∷ acc e first (some es) h = h ∙ ap some (append_assoc acc (e ∷ []) es)

  -- A round of both loops, by the tests that they make.
  rounds_agree :
      (null free long done last : Bool) (acc : List VfatDirentry) (e : VfatDirentry)
      (skip keep rest : Option (List VfatDirentry))
      → Behind acc skip rest
      → Behind (acc ++ e ∷ []) keep rest
      → Behind acc
          (if null || free
            then (if done then some acc else skip)
            else if long
            then (if done then some acc else skip)
            else if last
            then some (acc ++ e ∷ [])
            else keep)
          (if null || free || long
            then (if done then some stray else rest)
            else if last
            then some (e ∷ stray)
            else (rest >>= λ es. some (e ∷ es)))
  rounds_agree true free long true last acc e skip keep rest h k = refl
  rounds_agree true free long false last acc e skip keep rest h k = h
  rounds_agree false true long true last acc e skip keep rest h k = refl
  rounds_agree false true long false last acc e skip keep rest h k = h
  rounds_agree false false true true last acc e skip keep rest h k = refl
  rounds_agree false false true false last acc e skip keep rest h k = h
  rounds_agree false false false done true acc e skip keep rest h k =
      ap some (append_assoc acc (e ∷ []) stray)
  rounds_agree false false false done false acc e skip keep rest h k = Behind-∷ acc e keep rest k

  -- The two loops read the same records, one linking the entries behind those before, and the other
  -- one before those to come.
  loops_agree :
      (fuel : ℕ) (fs : List ℕ) (off : ℕ) (acc : List VfatDirentry)
      → Behind acc
          (read_entries memory freed fuel fs off acc)
          (read_directory_entries memory freed stray fuel fs off)
  unfolding read_entries read_directory_entries trimmed
  loops_agree zero fs off acc = refl
  loops_agree (suc fuel) fs off acc =
      let bytes = pread fs (memory off) sizeof_direntry off in
      let e = decode_direntry bytes in
      rounds_agree (u8_at bytes 0 == vfat_dirname_null) (u8_at bytes 0 == vfat_dirname_free)
        (e.dir_attr == vfat_attr_lfn) (freed off == 0) (u8_at (trimmed e).dir_name 0 == 0) acc
        (trimmed e) _ _ _ (loops_agree fuel fs (add32 off sizeof_direntry) acc)
        (loops_agree fuel fs (add32 off sizeof_direntry) (acc ++ trimmed e ∷ []))

  same_list :
      (fuel : ℕ) (f : Vfat)
      → vfat_read_directory memory freed stray fuel f ≡ (
          read_entries memory freed fuel f.fs (root_offset f) [] >>= λ es.
          some (record f { root_direntries_list = es ++ stray }))
  unfolding vfat_read_directory root_offset
  same_list fuel f =
      ap (λ m. m >>= λ es. some (record f { root_direntries_list = es }))
        (sym (some_nil _) ∙ sym (loops_agree fuel f.fs (root_offset f) []))
      ∙ flat (read_entries memory freed fuel f.fs (root_offset f) [])
    where
      some_nil : (m : Option (List VfatDirentry)) → (m >>= λ es. some ([] ++ es)) ≡ m
      some_nil none = refl
      some_nil (some es) = refl

      flat :
          (m : Option (List VfatDirentry))
          → ((m >>= λ es. some (es ++ stray)) >>= λ es.
              some (record f { root_direntries_list = es }))
            ≡ (m >>= λ es. some (record f { root_direntries_list = es ++ stray }))
      flat none = refl
      flat (some es) = refl

  -- The two functions have a loop of their own each. Where `vfat_read_root_directory` ends with a list,
  -- `vfat_read_directory` ends with the same list and what its last node reads as; where there is no
  -- entry to show, and that one frees through a null pointer, this one ends with what the node reads
  -- as.
  pub vfat_read_directory-root :
      (fuel : ℕ) (f : Vfat)
      → ((g : Vfat)
          → vfat_read_root_directory memory freed fuel f ≡ listed g
          → vfat_read_directory memory freed stray fuel f
            ≡ some (record f { root_direntries_list = g.root_direntries_list ++ stray }))
        × (vfat_read_root_directory memory freed fuel f ≡ null_pointer
            → vfat_read_directory memory freed stray fuel f
              ≡ some (record f { root_direntries_list = stray }))
  unfolding vfat_read_root_directory finish_list
  vfat_read_directory-root fuel f = (
    (λ g h. same_list fuel f ∙ lists g (read_entries memory freed fuel f.fs (root_offset f) []) h),
    (λ h. same_list fuel f ∙ nothing (read_entries memory freed fuel f.fs (root_offset f) []) h),
  )
    where
      lists :
          (g : Vfat) (o : Option (List VfatDirentry))
          → finish_list f o ≡ listed g
          → (o >>= λ es. some (record f { root_direntries_list = es ++ stray }))
            ≡ some (record f { root_direntries_list = g.root_direntries_list ++ stray })
      lists g none h = cc
      lists g (some []) h = cc
      lists g (some (e ∷ es)) h =
          let same : record f { root_direntries_list = e ∷ es } ≡ g = cc in rw (← same) refl

      nothing :
          (o : Option (List VfatDirentry))
          → finish_list f o ≡ null_pointer
          → (o >>= λ es. some (record f { root_direntries_list = es ++ stray }))
            ≡ some (record f { root_direntries_list = stray })
      nothing none h = cc
      nothing (some []) h = refl
      nothing (some (e ∷ es)) h = cc
