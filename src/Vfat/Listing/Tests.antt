-- ===== src/Vfat/Listing/Tests.antt =====
-- The listing at a root directory of two records.
use epfl_ba6_os.Prelude.{ℕ, ◌≡◌, refl, List, [], ◌∷◌, ◌++◌, some, take, replicate, arith}
use epfl_ba6_os.Vfat.Layout.{Vfat}
use epfl_ba6_os.Vfat.Sample.{tiny, tiny_bytes, entry_bytes}
use epfl_ba6_os.Vfat.Directory.Root.{laid_out}
use epfl_ba6_os.Vfat.Listing.{vfat_test_read_all}
use epfl_ba6_os.Vfat.Listing.Records.{ends, more, printed, vfat_test_read_all_lem}

-- A part of a long name.
abbrev long_name_bytes : List ℕ
long_name_bytes = 0x41 ∷ replicate 10 0x61 ++ (0x0F ∷ replicate 20 0)

abbrev end_bytes : List ℕ
end_bytes = replicate 32 0

abbrev records : List (List ℕ)
records = long_name_bytes ∷ entry_bytes ∷ []

abbrev volume_bytes : Vfat
volume_bytes = record tiny { fs = take 20 tiny_bytes ++ laid_out records (end_bytes ++ []) }

-- The file has the clusters 2 and 3.
abbrev clusters : List ℕ → List ℕ
clusters r = 2 ∷ 3 ∷ []

vfat_test_read_all_lem_example :
    vfat_test_read_all 3 3 volume_bytes end_bytes
    ≡ some (printed volume_bytes 3 clusters 20 records)
vfat_test_read_all_lem_example =
    vfat_test_read_all_lem volume_bytes 3 clusters 3 records (take 20 tiny_bytes) end_bytes []
      end_bytes (omega arith) (omega arith) (omega arith) (omega arith)
      (
        (λ s. absurd (s refl)),
        (
          (λ s. (
            more (omega arith) (omega arith)
                (more (omega arith) (omega arith) (ends (omega arith))),
            omega arith,
            omega arith,
          )),
          tt,
        ),
      )
      (omega arith) refl refl refl (omega arith) (omega arith)
