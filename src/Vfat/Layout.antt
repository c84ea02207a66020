-- ===== src/Vfat/Layout.antt =====
-- The structures of vfat.c, and how the bytes of the device are read as `struct vfat_super` and
-- `struct vfat_direntry`.
use epfl_ba6_os.Prelude.{ℕ, ◌+◌, ◌*◌, ◌%◌, List, Option}
use epfl_ba6_os.Vfat.Bytes.{u8_at, u16_at, u32_at, bytes_at}

-- The boot sector, 512 bytes.
pub record VfatSuper : Type 0 where
  pub bs_jmp_boot : List ℕ
  pub bs_oem_name : List ℕ
  pub bpb_byts_per_sec : ℕ
  pub bpb_sec_per_clus : ℕ
  pub bpb_rsvd_sec_cnt : ℕ
  pub bpb_num_fats : ℕ
  pub bpb_root_ent_cnt : ℕ
  pub bpb_tot_sec16 : ℕ
  pub bpb_media : ℕ
  pub bpb_fat_sz16 : ℕ
  pub bpb_sec_per_trk : ℕ
  pub bpb_num_heads : ℕ
  pub bpb_hidd_sec : ℕ
  pub bpb_tot_sec32 : ℕ
  pub bpb_fat_sz32 : ℕ
  pub bpb_ext_flags : ℕ
  pub bpb_fs_ver : ℕ
  pub bpb_root_clus : ℕ
  pub bpb_fs_info : ℕ
  pub bpb_bk_boot_sec : ℕ
  pub bpb_reserved : List ℕ
  pub bs_drv_num : ℕ
  pub bs_reserved1 : ℕ
  pub bs_boot_sig : ℕ
  pub bs_vol_id : ℕ
  pub bs_vol_lab : List ℕ
  pub bs_fil_sys_type : List ℕ
  pub bs_reserved2 : List ℕ
  pub bs_sig : ℕ

pub decode_super : List ℕ → VfatSuper
decode_super b = record {
  bs_jmp_boot = bytes_at b 0 3;
  bs_oem_name = bytes_at b 3 8;
  bpb_byts_per_sec = u16_at b 11;
  bpb_sec_per_clus = u8_at b 13;
  bpb_rsvd_sec_cnt = u16_at b 14;
  bpb_num_fats = u8_at b 16;
  bpb_root_ent_cnt = u16_at b 17;
  bpb_tot_sec16 = u16_at b 19;
  bpb_media = u8_at b 21;
  bpb_fat_sz16 = u16_at b 22;
  bpb_sec_per_trk = u16_at b 24;
  bpb_num_heads = u16_at b 26;
  bpb_hidd_sec = u32_at b 28;
  bpb_tot_sec32 = u32_at b 32;
  bpb_fat_sz32 = u32_at b 36;
  bpb_ext_flags = u16_at b 40;
  bpb_fs_ver = u16_at b 42;
  bpb_root_clus = u32_at b 44;
  bpb_fs_info = u16_at b 48;
  bpb_bk_boot_sec = u16_at b 50;
  bpb_reserved = bytes_at b 52 12;
  bs_drv_num = u8_at b 64;
  bs_reserved1 = u8_at b 65;
  bs_boot_sig = u8_at b 66;
  bs_vol_id = u32_at b 67;
  bs_vol_lab = bytes_at b 71 11;
  bs_fil_sys_type = bytes_at b 82 8;
  bs_reserved2 = bytes_at b 90 420;
  bs_sig = u16_at b 510;
}

abbrev pub vfat_signature : ℕ
vfat_signature = 0xAA55

abbrev pub vfat_eoc : ℕ
vfat_eoc = 0x0FFF_FFF8

-- A directory entry, 32 bytes.
pub record VfatDirentry : Type 0 where
  pub dir_name : List ℕ
  pub dir_ext : List ℕ
  pub dir_attr : ℕ
  pub dir_nt_res : ℕ
  pub dir_crt_time_tenth : ℕ
  pub dir_crt_time : ℕ
  pub dir_crt_date : ℕ
  pub dir_lst_acc_date : ℕ
  pub dir_fst_clus_hi : ℕ
  pub dir_wrt_time : ℕ
  pub dir_wrt_date : ℕ
  pub dir_fst_clus_lo : ℕ
  pub dir_file_size : ℕ

abbrev pub sizeof_direntry : ℕ
sizeof_direntry = 32

unfoldable pub decode_direntry : List ℕ → VfatDirentry
decode_direntry b = record {
  dir_name = bytes_at b 0 8;
  dir_ext = bytes_at b 8 3;
  dir_attr = u8_at b 11;
  dir_nt_res = u8_at b 12;
  dir_crt_time_tenth = u8_at b 13;
  dir_crt_time = u16_at b 14;
  dir_crt_date = u16_at b 16;
  dir_lst_acc_date = u16_at b 18;
  dir_fst_clus_hi = u16_at b 20;
  dir_wrt_time = u16_at b 22;
  dir_wrt_date = u16_at b 24;
  dir_fst_clus_lo = u16_at b 26;
  dir_file_size = u32_at b 28;
}

abbrev pub vfat_dirname_null : ℕ
vfat_dirname_null = 0x00

abbrev pub vfat_dirname_free : ℕ
vfat_dirname_free = 0xE5

abbrev pub vfat_attr_directory : ℕ
vfat_attr_directory = 0x10

-- READ_ONLY | HIDDEN | SYSTEM | VOLUME_ID
abbrev pub vfat_attr_lfn : ℕ
vfat_attr_lfn = 0x0F

-- VFAT_DIRENTRY_CLUSTER: the two halves are 16 bits wide each, so the or is a sum.
unfoldable pub direntry_cluster : VfatDirentry → ℕ
direntry_cluster e = e.dir_fst_clus_hi % 0x1_0000 * 0x1_0000 + e.dir_fst_clus_lo % 0x1_0000

-- `struct vfat`; `fs` is the content of the open device. A list of directory entries is what its
-- links lead through, `current_direntry` the pointer and `current_direntry_bytes` the structure.
pub record Vfat : Type 0 where
  pub fs : List ℕ
  pub boot_sector : VfatSuper
  pub root_dir_sectors : ℕ
  pub fat_sz : ℕ
  pub first_data_sector : ℕ
  pub tot_sec : ℕ
  pub data_sec : ℕ
  pub count_of_clusters : ℕ
  pub root_direntries_list : List VfatDirentry
  pub current_direntries_list : List VfatDirentry
  pub current_direntry : Option VfatDirentry
  pub current_direntry_bytes : List ℕ
  pub current_cluster_number : ℕ
  pub next_cluster_number : ℕ
