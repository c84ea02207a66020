-- ===== src/Vfat/Init/Geometry.antt =====
-- The geometry that `vfat_init` computes: which sectors belong to a cluster, where the entry of a
-- cluster stands in the FAT, and which boot sectors are accepted.
use epfl_ba6_os.Prelude.{
  ℕ, zero, suc, refl, ◌+◌, ◌-◌, ◌*◌, ◌/◌, ◌^◌, ◌≤◌, ◌<◌, ◌≡◌, ◌≢◌, ap, List, sub32, add32, ◌%◌,
  arith,
}
use native.Mathlib.Nat.{div-add-mod}
use epfl_ba6_os.Vfat.Layout.{VfatSuper, Vfat, vfat_signature}
use epfl_ba6_os.Vfat.Init.{
  ready, init_from, vfat_of, root_dir_sectors_of, fat_sz_of, first_data_sector_of, tot_sec_of,
  data_sec_of, count_of_clusters_of, compute_first_sector_of_cluster,
}

-- The sectors before the first cluster, as numbers without bound.
abbrev pub header_sectors : VfatSuper → ℕ
header_sectors bs = bs.bpb_rsvd_sec_cnt + bs.bpb_num_fats * fat_sz_of bs + root_dir_sectors_of bs

-- The volume has room for what stands before its clusters, and its size is a 32-bit number.
pub record IsSane (bs : VfatSuper) : Type 0 where
  pub fits : header_sectors bs ≤ tot_sec_of bs
  pub word : tot_sec_of bs < 2 ^ 32

first_data_sector_lem : (bs : VfatSuper) → IsSane bs → first_data_sector_of bs ≡ header_sectors bs
unfolding first_data_sector_of
first_data_sector_lem bs s = omega arith

data_sec_lem : (bs : VfatSuper) → IsSane bs → data_sec_of bs + header_sectors bs ≡ tot_sec_of bs
unfolding data_sec_of
data_sec_lem bs s = omega (arith, first_data_sector_lem bs s)

below_quotient : (k s d : ℕ) → k < d / s → k * s + s ≤ d
below_quotient k s d h = grind (arith, div-add-mod d s)

-- On a volume that has room for its header each data cluster, from 2 to the number of clusters plus
-- 1, lies between the first data sector and the end of the volume, and no computation of its place
-- wraps around.
pub cluster_in_volume :
    (dev : List ℕ) (bs : VfatSuper) (n : ℕ)
    → IsSane bs
    → 2 ≤ n
    → n < count_of_clusters_of bs + 2
    → n < 2 ^ 32
    → let f = vfat_of dev bs in
      (compute_first_sector_of_cluster f n ≡ header_sectors bs + (n - 2) * bs.bpb_sec_per_clus)
      × (header_sectors bs ≤ compute_first_sector_of_cluster f n)
      × (compute_first_sector_of_cluster f n + bs.bpb_sec_per_clus ≤ tot_sec_of bs)
unfolding vfat_of compute_first_sector_of_cluster count_of_clusters_of
cluster_in_volume dev bs n s lo hi word = omega (
  arith,
  first_data_sector_lem bs s,
  data_sec_lem bs s,
  s.word,
  below_quotient (n - 2) bs.bpb_sec_per_clus (data_sec_of bs) (omega arith),
  ap (λ (k : ℕ). k * bs.bpb_sec_per_clus) same,
)
  where
    same : sub32 n 2 ≡ n - 2
    same = omega arith

-- The byte of the device at which the data of a cluster begins.
abbrev pub cluster_begin : Vfat → ℕ → ℕ
cluster_begin f c =
    (f.first_data_sector + (c - 2) * f.boot_sector.bpb_sec_per_clus)
    * f.boot_sector.bpb_byts_per_sec

le_product : (a b : ℕ) → b ≢ 0 → a ≤ a * b
le_product a zero h = absurd (h refl)
le_product a (suc b) h = omega arith

-- The code computes that byte, for a cluster whose data begins within 2^32 bytes.
pub cluster_begin_lem :
    (f : Vfat) (c : ℕ)
    → 2 ≤ c
    → c < 2 ^ 32
    → f.boot_sector.bpb_byts_per_sec ≢ 0
    → cluster_begin f c < 2 ^ 32
    → f.boot_sector.bpb_byts_per_sec * compute_first_sector_of_cluster f c % 2 ^ 32
      ≡ cluster_begin f c
unfolding compute_first_sector_of_cluster
cluster_begin_lem f c lo hi bps word = rw (two, sector) (omega (arith, word))
  where
    sectors : ℕ
    sectors = f.first_data_sector + (c - 2) * f.boot_sector.bpb_sec_per_clus

    bound : sectors < 2 ^ 32
    bound = omega (arith, word, le_product sectors f.boot_sector.bpb_byts_per_sec bps)

    two : sub32 c 2 ≡ c - 2
    two = omega arith

    sector : add32 f.first_data_sector ((c - 2) * f.boot_sector.bpb_sec_per_clus % 2 ^ 32) ≡ sectors
    sector = omega (arith, bound)

-- On such a volume the sectors of a cluster end before those of a cluster with a greater number
-- begin.
pub clusters_disjoint :
    (dev : List ℕ) (bs : VfatSuper) (n m : ℕ)
    → IsSane bs
    → 2 ≤ n
    → n < m
    → m < count_of_clusters_of bs + 2
    → m < 2 ^ 32
    → let f = vfat_of dev bs in
      compute_first_sector_of_cluster f n + bs.bpb_sec_per_clus
      ≤ compute_first_sector_of_cluster f m
clusters_disjoint dev bs n m s lo lt hi word = omega (
  arith,
  (cluster_in_volume dev bs n s lo (omega arith) (omega arith)).0,
  (cluster_in_volume dev bs m s (omega arith) hi word).0,
  steps,
)
  where
    steps : (n - 2) * bs.bpb_sec_per_clus + bs.bpb_sec_per_clus ≤ (m - 2) * bs.bpb_sec_per_clus
    steps = let gap : suc (n - 2) ≤ m - 2 = omega arith in grind (arith, gap)

many_clusters : (d s : ℕ) → 2 ^ 31 ≤ d → s ≢ 0 → s ≤ 128 → 65525 ≤ d / s
many_clusters d s hd h0 hs = grind (arith, div-add-mod d s)

-- The number of data sectors is computed in 32 bits: a volume that is smaller than its own header
-- (of less than 2^31 sectors) gets far more data sectors than it has sectors, and is taken for a
-- sound FAT32 volume if its signature is right, no divisor is zero, and a cluster has at most 128
-- sectors.
pub small_volume_accepted :
    (dev : List ℕ) (bs : VfatSuper)
    → bs.bpb_byts_per_sec ≢ 0
    → bs.bpb_sec_per_clus ≢ 0
    → bs.bpb_sec_per_clus ≤ 128
    → bs.bs_sig ≡ vfat_signature
    → tot_sec_of bs < header_sectors bs
    → header_sectors bs < 2 ^ 31
    → (init_from dev bs ≡ ready (vfat_of dev bs)) × (tot_sec_of bs < data_sec_of bs)
unfolding init_from count_of_clusters_of
small_volume_accepted dev bs bps spc small sig less word = (
  ground (arith, enough, many_clusters (data_sec_of bs) bs.bpb_sec_per_clus),
  omega (arith, enough),
)
  where
    enough : (2 ^ 31 ≤ data_sec_of bs)
    enough = unfold data_sec_of first_data_sector_of in omega arith
