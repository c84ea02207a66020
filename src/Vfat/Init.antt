-- ===== src/Vfat/Init.antt =====
-- `vfat_init` of vfat.c: the boot sector and the geometry of the volume.
pub mod Geometry
mod Tests
use epfl_ba6_os.Prelude.{
  ℕ, ◌+◌, ◌-◌, ◌*◌, ◌/◌, ◌%◌, ◌^◌, List, [], Option, some, none, Bool, ◌==◌, ltb, not,
  if◌then◌else◌, replicate, add32, sub32, ◌≡◌, refl,
}
use epfl_ba6_os.Vfat.Bytes.{pread}
use epfl_ba6_os.Vfat.Layout.{VfatSuper, Vfat, sizeof_direntry, decode_super, vfat_signature}

-- How `vfat_init` ends: with the state set up, by `err(1, …)`, by a division by zero, or early with
-- no boot sector.
pub data InitResult : Type 0 where
  ready : Vfat → InitResult
  open_failed no_boot_sector fat12 fat16 bad_signature division_by_zero : InitResult

-- The fields of `struct vfat` that follow from the boot sector. The products and sums are in
-- `uint32_t`.
pub root_dir_sectors_of : VfatSuper → ℕ
root_dir_sectors_of bs =
    (bs.bpb_root_ent_cnt * 32 + (bs.bpb_byts_per_sec - 1)) / bs.bpb_byts_per_sec

pub fat_sz_of : VfatSuper → ℕ
fat_sz_of bs = if bs.bpb_fat_sz16 == 0 then bs.bpb_fat_sz32 else bs.bpb_fat_sz16

pub first_data_sector_of : VfatSuper → ℕ
unfolding fat_sz_of root_dir_sectors_of
first_data_sector_of bs =
    add32 (add32 bs.bpb_rsvd_sec_cnt (bs.bpb_num_fats * fat_sz_of bs % 2 ^ 32))
      (root_dir_sectors_of bs)

pub tot_sec_of : VfatSuper → ℕ
tot_sec_of bs = if bs.bpb_tot_sec16 == 0 then bs.bpb_tot_sec32 else bs.bpb_tot_sec16

pub data_sec_of : VfatSuper → ℕ
unfolding tot_sec_of first_data_sector_of
data_sec_of bs = sub32 (tot_sec_of bs) (first_data_sector_of bs)

pub count_of_clusters_of : VfatSuper → ℕ
unfolding data_sec_of
count_of_clusters_of bs = data_sec_of bs / bs.bpb_sec_per_clus

-- The global `vfat_info` is zeroed before `vfat_init` runs.
pub vfat_of : List ℕ → VfatSuper → Vfat
vfat_of dev bs = record {
  fs = dev;
  boot_sector = bs;
  root_dir_sectors = root_dir_sectors_of bs;
  fat_sz = fat_sz_of bs;
  first_data_sector = first_data_sector_of bs;
  tot_sec = tot_sec_of bs;
  data_sec = data_sec_of bs;
  count_of_clusters = count_of_clusters_of bs;
  root_direntries_list = [];
  current_direntries_list = [];
  current_direntry = none;
  current_direntry_bytes = replicate sizeof_direntry 0;
  current_cluster_number = 0;
  next_cluster_number = 0;
}

-- What follows the read of the boot sector.
pub init_from : List ℕ → VfatSuper → InitResult
init_from dev bs =
    if bs.bpb_byts_per_sec == 0
    then division_by_zero
    else if bs.bpb_sec_per_clus == 0
    then division_by_zero
    else if ltb (count_of_clusters_of bs) 4085
    then fat12
    else if ltb (count_of_clusters_of bs) 65525
    then fat16
    else if bs.bs_sig == vfat_signature
    then ready (vfat_of dev bs)
    else bad_signature

-- `device` is what `open` finds, `memory` what `malloc` returns for the boot sector.
pub vfat_init : Option (List ℕ) → Option (List ℕ) → InitResult
vfat_init none memory = open_failed
vfat_init (some dev) none = no_boot_sector
vfat_init (some dev) (some memory) = init_from dev (decode_super (pread dev memory 512 0))

-- ComputeFirstSectorOfCluster, for a `uint32_t` cluster number.
unfoldable pub compute_first_sector_of_cluster : Vfat → ℕ → ℕ
compute_first_sector_of_cluster f n =
    add32 f.first_data_sector (sub32 n 2 * f.boot_sector.bpb_sec_per_clus % 2 ^ 32)

-- FATOffset, ThisFATSecNum and ThisFATEntOffset, for a `uint32_t` cluster number.
unfoldable pub fat_offset : Vfat → ℕ → ℕ
fat_offset f n = if f.boot_sector.bpb_tot_sec16 == 0 then n * 4 % 2 ^ 32 else n * 2 % 2 ^ 32

unfoldable pub this_fat_sec_num : Vfat → ℕ → ℕ
unfolding fat_offset
this_fat_sec_num f n =
    add32 f.boot_sector.bpb_rsvd_sec_cnt (fat_offset f n / f.boot_sector.bpb_byts_per_sec)

unfoldable pub this_fat_ent_offset : Vfat → ℕ → ℕ
unfolding fat_offset
this_fat_ent_offset f n = fat_offset f n % f.boot_sector.bpb_byts_per_sec
