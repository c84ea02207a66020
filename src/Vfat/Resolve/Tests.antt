-- ===== src/Vfat/Resolve/Tests.antt =====
-- The listing of a directory and the walk along a path at concrete volumes.
use epfl_ba6_os.Prelude.{
  ℕ, ◌≡◌, refl, ap, get_or, arith, List, [], ◌∷◌, ◌++◌, some, take, replicate,
}
use epfl_ba6_os.Vfat.Layout.{Vfat, VfatDirentry}
use epfl_ba6_os.Vfat.Sample.{tiny, tiny_bytes, entry_bytes}
use epfl_ba6_os.Vfat.Directory.{listed, null_pointer, vfat_read_root_directory}
use epfl_ba6_os.Vfat.Resolve.{vfat_read_directory, vfat_resolve_dir}
use epfl_ba6_os.Vfat.Resolve.Component.{vfat_resolve_dir-component}
use epfl_ba6_os.Vfat.Resolve.Lookup.{vfat_read_directory-root}

-- The root directory holds one entry, and then NULs.
abbrev one_file : Vfat
one_file = record tiny { fs = take 20 tiny_bytes ++ (entry_bytes ++ replicate 32 0) }

vfat_read_directory-root_example :
    ((g : Vfat)
      → vfat_read_root_directory (λ o. replicate 32 0) (λ o. 0) 3 one_file ≡ listed g
      → vfat_read_directory (λ o. replicate 32 0) (λ o. 0) [] 3 one_file
        ≡ some (record one_file { root_direntries_list = g.root_direntries_list ++ [] }))
    × (vfat_read_root_directory (λ o. replicate 32 0) (λ o. 0) 3 one_file ≡ null_pointer
        → vfat_read_directory (λ o. replicate 32 0) (λ o. 0) [] 3 one_file
          ≡ some (record one_file { root_direntries_list = [] }))
vfat_read_directory-root_example =
    vfat_read_directory-root (λ o. replicate 32 0) (λ o. 0) [] 3 one_file

-- A file with a name.
abbrev file : List ℕ → VfatDirentry
file name = record {
  dir_name = name;
  dir_ext = [];
  dir_attr = 0x20;
  dir_nt_res = 0;
  dir_crt_time_tenth = 0;
  dir_crt_time = 0;
  dir_crt_date = 0;
  dir_lst_acc_date = 0;
  dir_fst_clus_hi = 0;
  dir_wrt_time = 0;
  dir_wrt_date = 0;
  dir_fst_clus_lo = 2;
  dir_file_size = 5;
}

abbrev ab : VfatDirentry
ab = file (b'a' ∷ b'b' ∷ 0 ∷ [])

abbrev xy : VfatDirentry
xy = file (b'x' ∷ b'y' ∷ 0 ∷ [])

abbrev two : Vfat
two = record tiny { current_direntries_list = ab ∷ xy ∷ [] }

-- The path "/ab/c".
abbrev path_ab : List ℕ
path_ab = b'/' ∷ b'a' ∷ b'b' ∷ b'/' ∷ b'c' ∷ 0 ∷ []

vfat_resolve_dir-component_example :
    (two.current_direntries_list ≡ ab ∷ []
      → vfat_resolve_dir (λ o. []) (λ o. 0) [] (λ e. []) 5 1 path_ab 0 two ≡ some (0, two))
    × (two.current_direntries_list ≡ (ab ∷ []) ++ xy ∷ []
        → vfat_resolve_dir (λ o. []) (λ o. 0) [] (λ e. []) 5 1 path_ab 0 two
          ≡ some (0, record two { current_direntry = some xy }))
vfat_resolve_dir-component_example =
    vfat_resolve_dir-component (λ o. []) (λ o. 0) [] (λ e. []) 5 0 (b'a' ∷ b'b' ∷ []) (b'c' ∷ [])
      (b'x' ∷ b'y' ∷ []) two (ab ∷ []) [] xy (omega arith) (omega arith) (omega arith)
      (record { padding = []; field = refl; text = omega arith }, tt)
      (record { padding = []; field = refl; text = omega arith })
      (λ h. let e : 120 ≡ 97 = ap (λ (bs : List ℕ). get_or bs 0 0) h in absurd (omega (arith, e)))
      (omega arith)
