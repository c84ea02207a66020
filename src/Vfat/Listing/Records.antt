-- ===== src/Vfat/Listing/Records.antt =====
-- `vfat_test_read_all` of vfat.c against the records that the directory holds, and against the count
-- of clusters.
use epfl_ba6_os.Prelude.{
  ℕ, ◌%◌, zero, suc, ◌+◌, ◌*◌, ◌^◌, ◌<◌, ◌≡◌, ◌≢◌, refl, sym, ap, ◌∙◌, inl, inr, List, [], ◌∷◌,
  ◌++◌, false, some, ◌==◌, if◌then◌else◌, Bool-cases, length, All, append_assoc, length-append,
  arith, ◌≤◌, map, take, drop, c_str,
}
use epfl_ba6_os.Vfat.Bytes.{pread, u8_at}
use epfl_ba6_os.Vfat.Layout.{
  Vfat, decode_direntry, direntry_cluster, sizeof_direntry, vfat_attr_lfn, vfat_eoc,
}
use epfl_ba6_os.Vfat.Init.Geometry.{cluster_begin, cluster_begin_lem}
use epfl_ba6_os.Vfat.Chain.{is_eoc, cluster_offset}
use epfl_ba6_os.Vfat.Chain.Walk.{IsStored, entry_at, fat_entry, read_entry_lem}
use epfl_ba6_os.Vfat.Directory.Root.{laid_out, IsEnd, pread_record, attr-decode}
use epfl_ba6_os.Vfat.Listing.{
  ClusterLine, cluster_line, Printed, direntry_offset, long_name, entry, cluster_lines, print_entry,
  print_records, record_offset, vfat_test_read_all,
}

-- A record of the directory before its end: 32 bytes, the first not NUL.
abbrev pub IsFilled : List ℕ → Type 0
IsFilled r = (length r ≡ sizeof_direntry) × (u8_at r 0 ≢ 0) × All (λ b. b < 256) r

byte_at : (xs : List ℕ) (i : ℕ) → All (λ b. b < 256) xs → u8_at xs i < 256
byte_at [] i h = ground arith
byte_at (x ∷ xs) zero h = h.0
byte_at (x ∷ xs) (suc i) h = byte_at xs i h.1

-- The number of the first cluster, from the bytes of a record.
abbrev pub first_cluster : List ℕ → ℕ
first_cluster r = u8_at r 26 + 0x100 * u8_at r 27 + 0x1_0000 * u8_at r 20 + 0x100_0000 * u8_at r 21

first_cluster_lem :
    (r : List ℕ) → IsFilled r → direntry_cluster (decode_direntry r) ≡ first_cluster r
unfolding direntry_cluster decode_direntry
first_cluster_lem r h =
    let a = byte_at r 26 h.2 in
    let b = byte_at r 27 h.2 in
    let c = byte_at r 20 h.2 in let d = byte_at r 21 h.2 in omega (arith, a, b, c, d)

take-take : (n : ℕ) (xs : List ℕ) → take n (take n xs) ≡ take n xs
take-take zero xs = refl
take-take (suc n) [] = refl
take-take (suc n) (x ∷ xs) = ap (λ (ys : List ℕ). x ∷ ys) (take-take n xs)

module _ (f : Vfat) where
  -- The clusters from `c` on, as the FAT links them, up to the mark of an end.
  pub data Run : ℕ → List ℕ → Type 0 where
    ends : {c : ℕ} → vfat_eoc ≤ c → Run c []
    more :
        {c : ℕ} {cs : List ℕ}
        → c < vfat_eoc
        → IsStored f c
        → Run (fat_entry f c) cs
        → Run c (c ∷ cs)

  -- A cluster of the data area, whose data begins within 2^32 bytes.
  abbrev pub IsNear : ℕ → Type 0
  IsNear c = (2 ≤ c) × (cluster_begin f c < 2 ^ 32)

  -- The line of a cluster: where its entry stands on the device, and where its data.
  abbrev pub line_of : ℕ → ClusterLine
  line_of c = record {
    cluster = c;
    cluster_offset = entry_at f c;
    sector_offset = cluster_begin f c;
  }

  line_lem :
      (c : ℕ)
      → f.boot_sector.bpb_byts_per_sec ≢ 0
      → c < vfat_eoc
      → IsStored f c
      → IsNear c
      → cluster_line f c ≡ line_of c
  unfolding cluster_line cluster_offset
  line_lem c bps hi s near = rw (small, cluster_begin_lem f c near.0 (omega arith) bps near.1) refl
    where
      small : entry_at f c % 2 ^ 32 ≡ entry_at f c
      small = omega (arith, s.1)

  cluster_lines_lem :
      (fuel c : ℕ) (cs : List ℕ)
      → f.boot_sector.bpb_byts_per_sec ≢ 0
      → Run c cs
      → All IsNear cs
      → length cs < fuel
      → cluster_lines fuel f c ≡ some (map line_of cs)
  unfolding cluster_lines
  cluster_lines_lem zero c cs bps r n h = absurd (omega arith)
  cluster_lines_lem (suc fuel) c cs bps (ends e) n h = ground arith
  cluster_lines_lem (suc fuel) c cs bps (more {cs = ds} hi s r) n h =
      let below : is_eoc c ≡ false = ground arith in
      rw
        (
          below,
          read_entry_lem f c c s,
          cluster_lines_lem fuel (fat_entry f c) ds bps r n.1 (omega arith),
          line_lem c bps hi s n.0,
        )
        refl

  module _ (chain : ℕ) (clusters : List ℕ → List ℕ) where
    -- The clusters of a record that is no part of a long name; their number is below the fuel.
    abbrev pub HasClusters : List ℕ → Type 0
    HasClusters r =
        u8_at r 11 ≢ vfat_attr_lfn
        → Run (first_cluster r) (clusters r)
          × All IsNear (clusters r)
          × (length (clusters r) < chain)

    -- What the records print as from an offset on, by their bytes.
    abbrev pub printed : ℕ → List (List ℕ) → List Printed
    printed off [] = direntry_offset off ∷ []
    printed off (r ∷ rs) =
        direntry_offset off
        ∷ (if u8_at r 11 == 0x0F
            then long_name
            else entry (u8_at r 0 == b'.') (u8_at r 0 == 0xE5) (u8_at r 11) (c_str (take 8 r))
                (c_str (take 3 (drop 8 r))) (first_cluster r) (map line_of (clusters r)))
        ∷ printed (off + 32) rs

    record_offset_lem :
        (i : ℕ)
        → f.boot_sector.bpb_byts_per_sec ≢ 0
        → 2 ≤ f.boot_sector.bpb_root_clus
        → f.boot_sector.bpb_root_clus < 2 ^ 32
        → cluster_begin f f.boot_sector.bpb_root_clus + i * 32 < 2 ^ 32
        → record_offset f i ≡ cluster_begin f f.boot_sector.bpb_root_clus + i * 32
    unfolding record_offset
    record_offset_lem i bps lo hi h =
        let root = f.boot_sector.bpb_root_clus in
        let begin = cluster_begin_lem f root lo hi bps (omega arith) in omega (arith, begin)

    entry_lem :
        (r : List ℕ)
        → IsFilled r
        → print_entry r (map line_of (clusters r))
          ≡ entry
              (u8_at r 0 == b'.')
              (u8_at r 0 == 0xE5)
              (u8_at r 11)
              (c_str (take 8 r))
              (c_str (take 3 (drop 8 r)))
              (first_cluster r)
              (map line_of (clusters r))
    unfolding print_entry decode_direntry
    entry_lem r h = rw (← first_cluster_lem r h, take-take 8 r, take-take 3 (drop 8 r)) refl

    print_records_lem :
        (fuel : ℕ) (rs : List (List ℕ)) (pre t post buf : List ℕ) (i : ℕ)
        → f.boot_sector.bpb_byts_per_sec ≢ 0
        → 2 ≤ f.boot_sector.bpb_root_clus
        → f.boot_sector.bpb_root_clus < 2 ^ 32
        → All IsFilled rs
        → All HasClusters rs
        → IsEnd t
        → length buf ≡ sizeof_direntry
        → f.fs ≡ pre ++ laid_out rs (t ++ post)
        → length pre ≡ cluster_begin f f.boot_sector.bpb_root_clus + i * 32
        → cluster_begin f f.boot_sector.bpb_root_clus + (i + length rs) * 32 < 2 ^ 32
        → length rs < fuel
        → print_records chain fuel f i buf
          ≡ some (printed (cluster_begin f f.boot_sector.bpb_root_clus + i * 32) rs)
    unfolding print_records
    print_records_lem zero rs pre t post buf i bps lo hi h k d m e p w b = absurd (omega arith)
    print_records_lem (suc fuel) [] pre t post buf i bps lo hi h k d m e p w b =
        let off = record_offset_lem i bps lo hi (omega arith) in
        let first : pread f.fs buf sizeof_direntry (record_offset f i) ≡ t =
          ap (λ fs. pread fs buf sizeof_direntry (record_offset f i)) e
          ∙ (pread_record pre t post buf (record_offset f i) (p ∙ sym off) d.0 m) in
        rw (first, d.1, off) refl
    print_records_lem (suc fuel) (r ∷ rs) pre t post buf i bps lo hi h k d m e p w b =
        let off = record_offset_lem i bps lo hi (omega arith) in
        let read : pread f.fs buf sizeof_direntry (record_offset f i) ≡ r =
          ap (λ fs. pread fs buf sizeof_direntry (record_offset f i)) e
          ∙ (pread_record pre r (laid_out rs (t ++ post)) buf (record_offset f i) (p ∙ sym off)
              h.0.0 m) in
        let rest =
          print_records_lem fuel rs (pre ++ r) t post r (i + 1) bps lo hi h.1 k.1 d h.0.0
            (e ∙ sym (append_assoc pre r (laid_out rs (t ++ post))))
            (omega (arith, length-append pre r, h.0.0)) (omega arith) (omega arith) in
        let after : cluster_begin f f.boot_sector.bpb_root_clus + (i + 1) * 32
            ≡ cluster_begin f f.boot_sector.bpb_root_clus + i * 32 + 32 =
          omega arith in
        let filled : u8_at r 0 == 0 ≡ false = ground (arith, h.0.1) in
        let attr = ap (λ a. a == vfat_attr_lfn) (attr-decode r) in
        elim (Bool-cases (u8_at r 11 == vfat_attr_lfn)) [
          | inl long ↦ rw (read, filled, attr ∙ long, long, rest, off, after) refl
          | inr short ↦
              let (run, near, fuel') = k.0 (λ z. absurd (ground (arith, z, short))) in
              let lines =
                rw (← first_cluster_lem r h.0) at
                  (cluster_lines_lem chain (first_cluster r) (clusters r) bps run near fuel') in
              rw (read, filled, attr ∙ short, short, lines, rest, entry_lem r h.0, off, after) refl
        ]

    -- On a device whose root directory holds records of 32 bytes up to one that begins with NUL,
    -- `vfat_test_read_all` prints the offset of each, and then, up to the last one, a block for each in
    -- their order, also for those of deleted files: a mark for a part of a long name, and for any
    -- other the marks, the attribute, the name, the extension and the first cluster that its bytes
    -- give, and a line for each of its clusters with the place of its entry in the FAT and of its
    -- data. (The clusters of each record that is no part of a long name run from 2 on to a mark of an
    -- end and are fewer than the fuel `chain`; the other fuel exceeds the number of records, and the
    -- root directory and the data lie within the first 2^32 bytes.)
    pub vfat_test_read_all_lem :
        (fuel : ℕ) (rs : List (List ℕ)) (pre t post buf : List ℕ)
        → f.boot_sector.bpb_byts_per_sec ≢ 0
        → 2 ≤ f.boot_sector.bpb_root_clus
        → f.boot_sector.bpb_root_clus < 2 ^ 32
        → All IsFilled rs
        → All HasClusters rs
        → IsEnd t
        → length buf ≡ sizeof_direntry
        → f.fs ≡ pre ++ laid_out rs (t ++ post)
        → length pre ≡ cluster_begin f f.boot_sector.bpb_root_clus
        → cluster_begin f f.boot_sector.bpb_root_clus + length rs * 32 < 2 ^ 32
        → length rs < fuel
        → vfat_test_read_all chain fuel f buf
          ≡ some (printed (cluster_begin f f.boot_sector.bpb_root_clus) rs)
    unfolding vfat_test_read_all
    vfat_test_read_all_lem fuel rs pre t post buf bps lo hi h k d m e p w b =
        print_records_lem fuel rs pre t post buf 0 bps lo hi h k d m e (omega arith) (omega arith) b
        ∙ ap (λ o. some (printed o rs)) (omega arith)
