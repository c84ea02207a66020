-- ===== src/Vfat/Init/Tests.antt =====
-- The geometry theorems at a small FAT32 volume.
use epfl_ba6_os.Prelude.{◌+◌, ◌-◌, ◌*◌, ◌≤◌, ◌<◌, ◌≡◌, refl, [], arith}
use epfl_ba6_os.Vfat.Layout.{VfatSuper}
use epfl_ba6_os.Vfat.Sample.{volume}
use epfl_ba6_os.Vfat.Init.{
  ready, init_from, vfat_of, tot_sec_of, data_sec_of, count_of_clusters_of,
  compute_first_sector_of_cluster,
}
use epfl_ba6_os.Vfat.Init.Geometry.{
  IsSane, header_sectors, cluster_in_volume, small_volume_accepted,
}

volume-IsSane : IsSane volume
unfolding tot_sec_of data_sec_of
volume-IsSane = omega arith

volume_clusters : count_of_clusters_of volume ≡ 68868
unfolding count_of_clusters_of
volume_clusters = refl

cluster_in_volume_example :
    (compute_first_sector_of_cluster (vfat_of [] volume) 100
      ≡ header_sectors volume + (100 - 2) * 1)
    × (header_sectors volume ≤ compute_first_sector_of_cluster (vfat_of [] volume) 100)
    × (compute_first_sector_of_cluster (vfat_of [] volume) 100 + 1 ≤ tot_sec_of volume)
cluster_in_volume_example =
    cluster_in_volume [] volume 100 volume-IsSane (omega arith) (omega (arith, volume_clusters))
      (omega arith)

-- A volume of 1000 sectors whose header takes 1132.
abbrev too_small : VfatSuper
too_small = record volume { bpb_tot_sec32 = 1000 }

small_volume_accepted_example :
    (init_from [] too_small ≡ ready (vfat_of [] too_small))
    × (tot_sec_of too_small < data_sec_of too_small)
small_volume_accepted_example =
    small_volume_accepted [] too_small (omega arith) (omega arith) (omega arith) refl
      (unfold tot_sec_of data_sec_of in omega arith) (unfold data_sec_of in omega arith)
