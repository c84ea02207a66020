-- ===== src/Vfat/Directory.antt =====
-- The directory functions of vfat.c: the listing of the root directory, and the calls of FUSE that
-- show it.
pub mod Root
pub mod Show
mod Tests
use epfl_ba6_os.Prelude.{
  ℕ, zero, suc, ◌+◌, ◌-◌, ◌*◌, ◌%◌, ◌^◌, List, [], ◌∷◌, ◌++◌, map, Bool, true, false, Option, some,
  none, ◌==◌, ◌||◌, ltb, if◌then◌else◌, length, replicate, take, add32, c_str, str_eq,
}
use epfl_ba6_os.Vfat.Bytes.{pread, u8_at}
use epfl_ba6_os.Vfat.Layout.{
  Vfat, VfatDirentry, decode_direntry, sizeof_direntry, vfat_dirname_null, vfat_dirname_free,
  vfat_attr_lfn,
}
use epfl_ba6_os.Vfat.Init.{compute_first_sector_of_cluster}
use epfl_ba6_os.Vfat.Names.{trim_nstr}

-- An entry after the two calls of `trim_nstr` that print it.
unfoldable pub trimmed : VfatDirentry → VfatDirentry
trimmed e = record e { dir_name = trim_nstr e.dir_name 8; dir_ext = trim_nstr e.dir_ext 3 }

-- How `vfat_read_root_directory` ends: with the list of entries, by `free(old->next)` at
-- `old == NULL`, or not within the fuel.
pub data Listing : Type 0 where
  listed : Vfat → Listing
  null_pointer out_of_fuel : Listing

-- `uint32_t direntry_offset` at the start of the loop.
unfoldable pub root_offset : Vfat → ℕ
root_offset f =
    compute_first_sector_of_cluster f f.boot_sector.bpb_root_clus
    * f.boot_sector.bpb_byts_per_sec
    % 2 ^ 32

-- What follows the loop: the last node is cut off behind the last entry.
unfoldable pub finish_list : Vfat → Option (List VfatDirentry) → Listing
finish_list f none = out_of_fuel
finish_list f (some []) = null_pointer
finish_list f (some (e ∷ es)) = listed (record f { root_direntries_list = e ∷ es })

-- `memory` is what `malloc` returns for the record at an offset. After `free(record)` the test of the
-- loop reads its first byte all the same: `freed` is what that read yields, for the record at an
-- offset, whatever it be.
module _ (memory : ℕ → List ℕ) (freed : ℕ → ℕ) where
  -- The loop, with the entries that are linked already. `continue` goes to the test at its end.
  unfoldable pub read_entries : ℕ → List ℕ → ℕ → List VfatDirentry → Option (List VfatDirentry)
  read_entries zero fs offset acc = none
  read_entries (suc fuel) fs offset acc =
      let bytes = pread fs (memory offset) sizeof_direntry offset in
      let first = u8_at bytes 0 in
      let e = trimmed (decode_direntry bytes) in
      let skip = read_entries fuel fs (add32 offset sizeof_direntry) acc in
      let keep = read_entries fuel fs (add32 offset sizeof_direntry) (acc ++ e ∷ []) in
      if first == vfat_dirname_null || first == vfat_dirname_free
      then (if freed offset == 0 then some acc else skip)
      else if (decode_direntry bytes).dir_attr == vfat_attr_lfn
      then (if freed offset == 0 then some acc else skip)
      else (if u8_at e.dir_name 0 == 0 then some (acc ++ e ∷ []) else keep)

  unfoldable pub vfat_read_root_directory : ℕ → Vfat → Listing
  unfolding read_entries root_offset finish_list
  vfat_read_root_directory fuel f = finish_list f (read_entries fuel f.fs (root_offset f) [])

-- The eight bytes that `strncpy(name, DIR_Name, 8)` leaves in a zeroed buffer.
copied_name : List ℕ → List ℕ
copied_name dir_name = let text = c_str (take 8 dir_name) in text ++ replicate (8 - length text) 0

-- The name that `filler` is given: a C string, read on into the memory behind the buffer if the
-- buffer holds no NUL.
pub filler_name : List ℕ → VfatDirentry → List ℕ
unfolding copied_name
filler_name beyond e = c_str (trim_nstr (copied_name e.dir_name) 8 ++ beyond)

-- The names that `vfat_readdir` gives to `filler`, in order.
pub vfat_readdir : List ℕ → Vfat → List (List ℕ)
vfat_readdir beyond f =
    (b'.' ∷ []) ∷ (b'.' ∷ b'.' ∷ []) ∷ map (filler_name beyond) f.current_direntries_list

-- `vfat_resolve` with the path's text; it returns 1 or 0.
pub vfat_resolve : List ℕ → Vfat → ℕ × Vfat
vfat_resolve [] f = (1, f)
vfat_resolve (b ∷ path) f = (0, record f { current_direntries_list = f.root_direntries_list })

-- `-ENOENT`, or 0 with the names.
pub data ReaddirResult : Type 0 where
  enoent : ReaddirResult
  names : List (List ℕ) → Vfat → ReaddirResult

pub vfat_fuse_readdir : List ℕ → List ℕ → Vfat → ReaddirResult
unfolding vfat_readdir vfat_resolve
vfat_fuse_readdir beyond path f =
    if str_eq path (b'/' ∷ [])
    then (let (res, f') = vfat_resolve path f in names (vfat_readdir beyond f') f')
    else enoent

-- The fields of `struct stat` that the code sets.
pub record Stat : Type 0 where
  pub st_mode : ℕ
  pub st_nlink : ℕ
  pub st_size : ℕ

-- `hello_str` has 13 bytes, `hello_path` is "/hello". S_IFDIR | 0755 and S_IFREG | 0444; `none` is
-- -ENOENT.
abbrev pub hello_path : List ℕ
hello_path = b'/' ∷ b'h' ∷ b'e' ∷ b'l' ∷ b'l' ∷ b'o' ∷ []

pub vfat_fuse_getattr : List ℕ → Option Stat
vfat_fuse_getattr path =
    if str_eq path (b'/' ∷ [])
    then some (record { st_mode = 0o040755; st_nlink = 2; st_size = 0 })
    else if str_eq path hello_path
    then some (record { st_mode = 0o100444; st_nlink = 1; st_size = 13 })
    else none

pub record SearchData : Type 0 where
  pub name : List ℕ
  pub found : Bool
  pub st : Stat

-- The result says whether it is 1.
pub vfat_search_entry : SearchData → List ℕ → Stat → Bool × SearchData
vfat_search_entry sd name st =
    if str_eq sd.name name then (true, record sd { found = true; st = st }) else (false, sd)
