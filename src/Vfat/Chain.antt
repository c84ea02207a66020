-- ===== src/Vfat/Chain.antt =====
-- Cluster chains of vfat.c: `get_next_cluster_number`, and the loop of `vfat_test_read_all` that
-- counts the clusters of a file.
pub mod Walk
mod Tests
use epfl_ba6_os.Prelude.{
  ℕ, zero, suc, ◌+◌, ◌*◌, ◌%◌, ◌^◌, ◌-◌, List, Bool, true, false, Option, some, none, not, ◌&&◌,
  ltb, leb, if◌then◌else◌,
}
use epfl_ba6_os.Vfat.Bytes.{pread_int, u32_at, u32_bytes}
use epfl_ba6_os.Vfat.Layout.{Vfat, vfat_eoc}

-- IS_EOC
abbrev pub is_eoc : ℕ → Bool
is_eoc x = leb vfat_eoc x

-- `int clusterOffset`, as its 32 bits: the sum is a `size_t`.
unfoldable pub cluster_offset : Vfat → ℕ → ℕ
cluster_offset f c =
    (f.boot_sector.bpb_rsvd_sec_cnt * f.boot_sector.bpb_byts_per_sec + c * 4) % 2 ^ 32

-- `pread(f->fs, &x, sizeof(uint32_t), clusterOffset); x &= 0x0FFFFFFF;`
unfoldable pub read_entry : Vfat → ℕ → ℕ → ℕ
unfolding cluster_offset pread_int
read_entry f x c = u32_at (pread_int f.fs (u32_bytes x) 4 (cluster_offset f c)) 0 % 2 ^ 28

-- The result says whether it is 0; otherwise it is -1, which as a `uint32_t` is 2^32 - 1.
unfoldable pub get_next_cluster_number : Vfat → Bool × Vfat
get_next_cluster_number f =
    let c = f.next_cluster_number in
    if ltb 0 c && not (is_eoc c)
    then (true, record f { current_cluster_number = c; next_cluster_number = read_entry f c c })
    else (false, record f { current_cluster_number = 2 ^ 32 - 1; next_cluster_number = 2 ^ 32 - 1 })

-- The loop over the clusters of a file in `vfat_test_read_all`, with its `count`. `none` means that
-- the fuel ran out.
unfoldable pub count_clusters : ℕ → Vfat → ℕ → ℕ → Option ℕ
count_clusters zero f cluster count = none
count_clusters (suc fuel) f cluster count =
    let rest = count_clusters fuel f (read_entry f cluster cluster) (count + 1) in
    if is_eoc cluster then some count else rest
