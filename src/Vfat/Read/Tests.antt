-- ===== src/Vfat/Read/Tests.antt =====
-- `vfat_fuse_read` at a device of a few bytes, whose file begins at cluster 2.
use epfl_ba6_os.Prelude.{
  ℕ, ◌+◌, ◌-◌, ◌^◌, ◌≡◌, ◌≤◌, ◌<◌, ◌++◌, take, drop, refl, inr, List, [], ◌∷◌, some, arith,
}
use epfl_ba6_os.Prelude.Int.{pos, negsuc}
use epfl_ba6_os.Vfat.Bytes.{pread}
use epfl_ba6_os.Vfat.Layout.{Vfat, decode_direntry, direntry_cluster}
use epfl_ba6_os.Vfat.Sample.{tiny, tiny_bytes}
use epfl_ba6_os.Vfat.Chain.Walk.{Chain, stop, link}
use epfl_ba6_os.Vfat.Init.Geometry.{cluster_begin}
use epfl_ba6_os.Vfat.Read.{ReadResult, read, minus_one, read_start, vfat_fuse_read}
use epfl_ba6_os.Vfat.Read.Returns.{started, vfat_fuse_read-returns, vfat_fuse_read-within_cluster}

abbrev buffer : List ℕ
buffer = 0 ∷ 0 ∷ 0 ∷ 0 ∷ []

tiny-started : (started tiny buffer 3 1).next_cluster_number ≡ 2
unfolding read_start pread direntry_cluster decode_direntry
tiny-started = refl

tiny-Chain :
    Chain (started tiny buffer 3 1) (started tiny buffer 3 1).next_cluster_number (2 ∷ 3 ∷ [])
unfolding read_start pread direntry_cluster decode_direntry
tiny-Chain =
    link (omega arith) (omega arith) (omega arith)
      (link (omega arith) (omega arith) (omega arith) (stop (inr (omega arith))))

vfat_fuse_read-returns_example :
    (r : ReadResult) × (vfat_fuse_read 9 tiny buffer 3 1 ≡ some r)
    × (3 ≤ 1 → r ≡ minus_one)
    × (1 < 3 → 3 < 2 ^ 31 → (f' : Vfat) × (buf' : List ℕ) × (r ≡ read (pos 3) f' buf'))
    × (1 < 3
        → 2 ^ 31 ≤ 3
        → 3 < 2 ^ 32
        → (f' : Vfat) × (buf' : List ℕ) × (r ≡ read (negsuc (2 ^ 32 - 1 - 3)) f' buf'))
vfat_fuse_read-returns_example = vfat_fuse_read-returns 9 tiny buffer 3 1 tiny-Chain (omega arith)

-- Three bytes are asked for from offset 1 on: two are read.
vfat_fuse_read-within_cluster_example :
    (f' : Vfat) × (vfat_fuse_read 2 tiny buffer 3 1
      ≡ some (
          read
            (pos 3)
            f'
            (take (3 - 1) (drop (cluster_begin tiny 2 + 1) tiny_bytes) ++ drop (3 - 1) buffer)))
vfat_fuse_read-within_cluster_example =
    vfat_fuse_read-within_cluster 0 tiny buffer 3 1 2 (omega arith) (omega arith) (omega arith)
      tiny-started (omega arith) (omega arith) (omega arith) (omega arith) (omega arith)
      (omega arith)
