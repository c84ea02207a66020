-- ===== src/Vfat/Directory/Tests.antt =====
-- The directory functions at a root directory of two records.
use epfl_ba6_os.Prelude.{
  ℕ, ◌≡◌, refl, List, [], ◌∷◌, ◌==◌, if◌then◌else◌, ◌++◌, take, replicate, arith,
}
use epfl_ba6_os.Vfat.Layout.{Vfat, decode_direntry}
use epfl_ba6_os.Vfat.Sample.{tiny, tiny_bytes, entry_bytes}
use epfl_ba6_os.Vfat.Init.{compute_first_sector_of_cluster}
use epfl_ba6_os.Vfat.Directory.{listed, trimmed, root_offset, vfat_read_root_directory}
use epfl_ba6_os.Vfat.Directory.Root.{laid_out, vfat_read_root_directory_lem}

-- A part of a long name.
abbrev long_name_bytes : List ℕ
long_name_bytes = 0x41 ∷ replicate 10 0x61 ++ (0x0F ∷ replicate 20 0)

abbrev end_bytes : List ℕ
end_bytes = replicate 32 0

abbrev with_root : Vfat
with_root = record tiny {
  fs = take 20 tiny_bytes ++ laid_out (long_name_bytes ∷ entry_bytes ∷ []) (end_bytes ++ []);
}

root_at_20 : root_offset with_root ≡ 20
unfolding root_offset compute_first_sector_of_cluster
root_at_20 = refl

-- The part of a long name at byte 20 is read as it stood, the last record as NUL.
abbrev freed : ℕ → ℕ
freed o = if o == 20 then 0x41 else 0

vfat_read_root_directory_lem_example :
    vfat_read_root_directory (λ o. end_bytes) freed 3 with_root
    ≡ listed
        (record with_root { root_direntries_list = trimmed (decode_direntry entry_bytes) ∷ [] })
unfolding root_offset compute_first_sector_of_cluster
vfat_read_root_directory_lem_example =
    vfat_read_root_directory_lem (λ o. end_bytes) freed 3 with_root
      (long_name_bytes ∷ entry_bytes ∷ []) (take 20 tiny_bytes) end_bytes [] (λ o. refl)
      (
        (refl, (λ e. omega arith), (λ e. omega arith)),
        ((refl, (λ e. omega arith), (λ e. absurd (cc e))), tt),
      )
      (refl, refl, refl) refl refl (omega arith) (omega arith)
