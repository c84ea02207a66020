-- ===== src/Vfat/Resolve.antt =====
-- The walk along a path in vfat.c: `vfat_read_directory` and `vfat_resolve_dir`.
pub mod Component
pub mod Lookup
mod Tests
use epfl_ba6_os.Prelude.{
  ℕ, zero, suc, ◌+◌, ◌/◌, ◌%◌, List, [], ◌∷◌, ◌++◌, Bool, true, false, not, Option, some, none,
  ◌==◌, ◌||◌, ◌*◌, ◌^◌, add32, if◌then◌else◌, ◌>>=◌, drop, c_str, str_eq,
}
use epfl_ba6_os.Vfat.Bytes.{pread, u8_at, u32_bytes}
use epfl_ba6_os.Vfat.Layout.{
  Vfat, VfatDirentry, decode_direntry, sizeof_direntry, vfat_dirname_null, vfat_dirname_free,
  vfat_attr_lfn, vfat_attr_directory,
}
use epfl_ba6_os.Vfat.Names.{Split, split_path_root, trim_nstr}
use epfl_ba6_os.Vfat.Init.{compute_first_sector_of_cluster}

-- The bytes of a `uint16_t` in memory.
abbrev pub u16_bytes : ℕ → List ℕ
u16_bytes x = x % 256 ∷ x / 256 % 256 ∷ []

-- An entry in memory, as the packed structure.
abbrev pub direntry_bytes : VfatDirentry → List ℕ
direntry_bytes e =
    e.dir_name
    ++ e.dir_ext
    ++ e.dir_attr
      ∷ e.dir_nt_res
      ∷ e.dir_crt_time_tenth
      ∷ (u16_bytes e.dir_crt_time
          ++ u16_bytes e.dir_crt_date
          ++ u16_bytes e.dir_lst_acc_date
          ++ u16_bytes e.dir_fst_clus_hi
          ++ u16_bytes e.dir_wrt_time
          ++ u16_bytes e.dir_wrt_date
          ++ u16_bytes e.dir_fst_clus_lo
          ++ u32_bytes e.dir_file_size)

-- `strlen`; `none` is a read past the end of the buffer.
pub strlen : List ℕ → Option ℕ
strlen [] = none
strlen (b ∷ bs) = let rest = strlen bs in if b == 0 then some 0 else (rest >>= λ n. some (n + 1))

-- `beyond` is what stands in memory behind an entry.
module _ (beyond : VfatDirentry → List ℕ) where
  -- `DIR_Name` as `strcmp` reads it: it goes on where the eight bytes hold no NUL.
  abbrev pub dir_name_text : VfatDirentry → List ℕ
  dir_name_text e = c_str (direntry_bytes e ++ beyond e)

  -- The loop over the current list: the first entry at which `strcmp` is not 0.
  pub find_entry : List ℕ → List VfatDirentry → Option VfatDirentry
  find_entry head [] = none
  find_entry head (e ∷ es) =
      if not (str_eq head (dir_name_text e)) then some e else find_entry head es

-- `memory` and `freed` are as for `vfat_read_root_directory`. The last node of the list is left as
-- `malloc` returns it: `stray` is what it reads as.
module _ (memory : ℕ → List ℕ) (freed : ℕ → ℕ) (stray : List VfatDirentry) where
  -- The loop of `vfat_read_directory` from an offset on: the entries of the nodes from the current one
  -- on. `none` means that the fuel ran out.
  unfoldable pub read_directory_entries : ℕ → List ℕ → ℕ → Option (List VfatDirentry)
  read_directory_entries zero fs offset = none
  read_directory_entries (suc fuel) fs offset =
      let bytes = pread fs (memory offset) sizeof_direntry offset in
      let e = decode_direntry bytes in
      let rest = read_directory_entries fuel fs (add32 offset sizeof_direntry) in
      let printed = record e {
        dir_name = trim_nstr e.dir_name 8;
        dir_ext = trim_nstr e.dir_ext 3;
      } in
      if u8_at bytes 0 == vfat_dirname_null
        || u8_at bytes 0 == vfat_dirname_free
        || e.dir_attr == vfat_attr_lfn
      then (if freed offset == 0 then some stray else rest)
      else if u8_at printed.dir_name 0 == 0
      then some (printed ∷ stray)
      else (rest >>= λ es. some (printed ∷ es))

  unfoldable pub vfat_read_directory : ℕ → Vfat → Option Vfat
  unfolding read_directory_entries
  vfat_read_directory fuel f =
      let offset =
        compute_first_sector_of_cluster f f.boot_sector.bpb_root_clus
        * f.boot_sector.bpb_byts_per_sec
        % 2 ^ 32 in
      read_directory_entries fuel f.fs offset >>= λ es.
      some (record f { root_direntries_list = es })

  -- `vfat_resolve_dir`, with the path as an index into a buffer and, beside the fuel for the calls,
  -- that for the loop of `vfat_read_directory`; the rest of the path is printed, to its NUL. `none` is a read out of bounds, or the fuel is used
  -- up.
  pub vfat_resolve_dir : (VfatDirentry → List ℕ) → ℕ → ℕ → List ℕ → ℕ → Vfat → Option (ℕ × Vfat)
  unfolding vfat_read_directory strlen find_entry
  vfat_resolve_dir beyond records zero buffer path f = none
  vfat_resolve_dir beyond records (suc calls) buffer path f = strlen (drop path buffer) >>= λ n.
      elim n [
        | zero ↦ some (1, f)
        | suc m ↦ split_path_root buffer path >>= λ s. strlen (drop s.path s.buffer) >>= λ k.
            elim (find_entry beyond (c_str (drop s.head s.buffer)) f.current_direntries_list) [
              | none ↦ some (0, f)
              | some e ↦
                  let g = record f { current_direntry = some e } in
                  elim (e.dir_attr == vfat_attr_directory) [
                    | true ↦ vfat_read_directory records g >>= λ h.
                        vfat_resolve_dir beyond records calls s.buffer s.path h
                    | false ↦ some (if k == 0 then 1 else 0, g)
                  ]
            ]
      ]
