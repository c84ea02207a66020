-- ===== src/Vfat/Sample.antt =====
-- Test data for the file system: a boot sector of zeros, one of a small FAT32 volume, and a device
-- of a few bytes with a chain of two clusters.
use epfl_ba6_os.Prelude.{ℕ, List, [], ◌∷◌, none}
use epfl_ba6_os.Vfat.Layout.{VfatSuper, Vfat}

abbrev pub zero_super : VfatSuper
zero_super = record {
  bs_jmp_boot = [];
  bs_oem_name = [];
  bpb_byts_per_sec = 0;
  bpb_sec_per_clus = 0;
  bpb_rsvd_sec_cnt = 0;
  bpb_num_fats = 0;
  bpb_root_ent_cnt = 0;
  bpb_tot_sec16 = 0;
  bpb_media = 0;
  bpb_fat_sz16 = 0;
  bpb_sec_per_trk = 0;
  bpb_num_heads = 0;
  bpb_hidd_sec = 0;
  bpb_tot_sec32 = 0;
  bpb_fat_sz32 = 0;
  bpb_ext_flags = 0;
  bpb_fs_ver = 0;
  bpb_root_clus = 0;
  bpb_fs_info = 0;
  bpb_bk_boot_sec = 0;
  bpb_reserved = [];
  bs_drv_num = 0;
  bs_reserved1 = 0;
  bs_boot_sig = 0;
  bs_vol_id = 0;
  bs_vol_lab = [];
  bs_fil_sys_type = [];
  bs_reserved2 = [];
  bs_sig = 0;
}

-- 70000 sectors of 512 bytes, 1132 of them before the clusters.
abbrev pub volume : VfatSuper
volume = record zero_super {
  bpb_byts_per_sec = 512;
  bpb_sec_per_clus = 1;
  bpb_rsvd_sec_cnt = 32;
  bpb_num_fats = 2;
  bpb_fat_sz32 = 550;
  bpb_tot_sec32 = 70000;
  bpb_root_clus = 2;
  bs_sig = 0xAA55;
}

-- Sectors of 4 bytes, clusters of 8 bytes; the FAT begins at byte 4, the clusters at byte 20.
abbrev pub tiny_super : VfatSuper
tiny_super = record zero_super {
  bpb_byts_per_sec = 4;
  bpb_sec_per_clus = 2;
  bpb_rsvd_sec_cnt = 1;
  bpb_root_clus = 2;
}

-- Cluster 2 is followed by cluster 3, the last one.
abbrev pub tiny_bytes : List ℕ
tiny_bytes =
    0 ∷ 0 ∷ 0 ∷ 0 ∷ 0xF8 ∷ 0xFF ∷ 0xFF ∷ 0x0F ∷ 0xFF ∷ 0xFF ∷ 0xFF ∷ 0x0F ∷ 3 ∷ 0 ∷ 0 ∷ 0 ∷ 0xFF
    ∷ 0xFF ∷ 0xFF ∷ 0x0F ∷ 65 ∷ 66 ∷ 67 ∷ 68 ∷ 69 ∷ 70 ∷ 71 ∷ 72 ∷ 73 ∷ 74 ∷ 75 ∷ 76 ∷ 77 ∷ 78 ∷ 79
    ∷ 80 ∷ []

-- The bytes of a directory entry of a file at cluster 2.
abbrev pub entry_bytes : List ℕ
entry_bytes =
    65 ∷ 66 ∷ 32 ∷ 32 ∷ 32 ∷ 32 ∷ 32 ∷ 32 ∷ 84 ∷ 32 ∷ 32 ∷ 0x20 ∷ 0 ∷ 0 ∷ 0 ∷ 0 ∷ 0 ∷ 0 ∷ 0 ∷ 0 ∷ 0
    ∷ 0 ∷ 0 ∷ 0 ∷ 0 ∷ 0 ∷ 2 ∷ 0 ∷ 5 ∷ 0 ∷ 0 ∷ 0 ∷ []

abbrev pub tiny : Vfat
tiny = record {
  fs = tiny_bytes;
  boot_sector = tiny_super;
  root_dir_sectors = 0;
  fat_sz = 4;
  first_data_sector = 5;
  tot_sec = 9;
  data_sec = 4;
  count_of_clusters = 2;
  root_direntries_list = [];
  current_direntries_list = [];
  current_direntry = none;
  current_direntry_bytes = entry_bytes;
  current_cluster_number = 0;
  next_cluster_number = 2;
}
