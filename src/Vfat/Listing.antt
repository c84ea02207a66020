-- ===== src/Vfat/Listing.antt =====
-- What `vfat_test_read_all` of vfat.c prints of the root directory, as values.
pub mod Records
mod Tests
use epfl_ba6_os.Prelude.{
  ℕ, zero, suc, ◌+◌, ◌*◌, ◌%◌, ◌^◌, List, [], ◌∷◌, Bool, Option, some, none, ◌==◌, if◌then◌else◌,
  ◌>>=◌, take, c_str,
}
use epfl_ba6_os.Vfat.Bytes.{pread, u8_at}
use epfl_ba6_os.Vfat.Layout.{
  Vfat, VfatDirentry, decode_direntry, direntry_cluster, sizeof_direntry, vfat_dirname_null,
  vfat_dirname_free, vfat_attr_lfn,
}
use epfl_ba6_os.Vfat.Init.{compute_first_sector_of_cluster}
use epfl_ba6_os.Vfat.Chain.{is_eoc, cluster_offset, read_entry}

-- A line for a cluster: its number, where its entry in the FAT is, and where its data is.
pub record ClusterLine : Type 0 where
  pub cluster : ℕ
  pub cluster_offset : ℕ
  pub sector_offset : ℕ

-- What is printed: the offset of a record, and behind it, of a record that does not end the
-- directory, that it is part of a long name, or its marks, its attribute, the name
-- and the extension, the first cluster, and the lines of the clusters; `count` is their number.
pub data Printed : Type 0 where
  direntry_offset : ℕ → Printed
  long_name : Printed
  entry :
      (dot free : Bool) (attr : ℕ) (name ext : List ℕ) (cluster : ℕ) → List ClusterLine → Printed

unfoldable pub cluster_line : Vfat → ℕ → ClusterLine
cluster_line f c = record {
  cluster = c;
  cluster_offset = cluster_offset f c;
  sector_offset = f.boot_sector.bpb_byts_per_sec * compute_first_sector_of_cluster f c % 2 ^ 32;
}

-- The loop over the clusters; `none` means that the fuel ran out.
unfoldable pub cluster_lines : ℕ → Vfat → ℕ → Option (List ClusterLine)
unfolding cluster_line
cluster_lines zero f c = none
cluster_lines (suc fuel) f c =
    let rest = cluster_lines fuel f (read_entry f c c) in
    if is_eoc c then some [] else (rest >>= λ ls. some (cluster_line f c ∷ ls))

-- `uint32_t direntry_offset` of record `i`.
unfoldable pub record_offset : Vfat → ℕ → ℕ
record_offset f i =
    (compute_first_sector_of_cluster f f.boot_sector.bpb_root_clus
        * f.boot_sector.bpb_byts_per_sec
        % 2 ^ 32
      + i * sizeof_direntry)
    % 2 ^ 32

-- What is printed of a record that is no part of a long name.
unfoldable pub print_entry : List ℕ → List ClusterLine → Printed
print_entry bytes ls =
    let e = decode_direntry bytes in
    entry (u8_at bytes 0 == 0x2E) (u8_at bytes 0 == vfat_dirname_free) e.dir_attr
      (c_str (take 8 e.dir_name)) (c_str (take 3 e.dir_ext)) (direntry_cluster e) ls

-- The loop over the records, with the bytes of `record`, which a short read leaves as they were.
-- `chain` is the fuel for the clusters of a record. `none` means that a fuel ran out.
unfoldable pub print_records : ℕ → ℕ → Vfat → ℕ → List ℕ → Option (List Printed)
unfolding print_entry
print_records chain zero f i bytes = none
print_records chain (suc fuel) f i bytes =
    let read = pread f.fs bytes sizeof_direntry (record_offset f i) in
    let rest = print_records chain fuel f (i + 1) read in
    let e = decode_direntry read in
    let offset = direntry_offset (record_offset f i) in
    if u8_at read 0 == vfat_dirname_null
    then some (offset ∷ [])
    else if e.dir_attr == vfat_attr_lfn
    then (rest >>= λ ps. some (offset ∷ long_name ∷ ps))
    else (do
      ls ← cluster_lines chain f (direntry_cluster e)
      ps ← rest
      some (offset ∷ print_entry read ls ∷ ps))

-- `record` is not initialised.
unfoldable pub vfat_test_read_all : ℕ → ℕ → Vfat → List ℕ → Option (List Printed)
vfat_test_read_all chain fuel f record_bytes = print_records chain fuel f 0 record_bytes
