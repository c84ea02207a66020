-- ===== src/Vfat/Chain/Walk.antt =====
-- The calls of `get_next_cluster_number` walk through the chain that the FAT describes.
use epfl_ba6_os.Prelude.{
  ℕ, zero, suc, ◌+◌, ◌*◌, ◌/◌, ◌%◌, ◌^◌, ◌-◌, ◌≤◌, ◌<◌, ◌≡◌, ◌≢◌, refl, ap, ◌∙◌, ◌⊎◌, inl, inr,
  List, [], ◌∷◌, true, false, some, if◌then◌else◌, length, arith,
}
use epfl_ba6_os.Vfat.Bytes.{pread_int_u32, u32_at, u32_bytes}
use epfl_ba6_os.Vfat.Layout.{Vfat, vfat_eoc}
use native.Mathlib.Nat.{div-add-mod}
use epfl_ba6_os.Vfat.Init.{this_fat_sec_num, this_fat_ent_offset}
use epfl_ba6_os.Vfat.Chain.{cluster_offset, read_entry, get_next_cluster_number, count_clusters}

-- Where the FAT has the entry of a cluster, and what the entry says: 28 bits of the device.
abbrev pub entry_at : Vfat → ℕ → ℕ
entry_at f c = f.boot_sector.bpb_rsvd_sec_cnt * f.boot_sector.bpb_byts_per_sec + c * 4

abbrev pub fat_entry : Vfat → ℕ → ℕ
fat_entry f c = u32_at f.fs (entry_at f c) % 2 ^ 28

-- The entry lies within the device, at an offset that an `int` holds.
abbrev pub IsStored : Vfat → ℕ → Type 0
IsStored f c = (entry_at f c + 4 ≤ length f.fs) × (entry_at f c < 2 ^ 31)

-- The clusters from `c` on, as the FAT links them, up to the mark of an end or a free cluster.
pub data Chain (f : Vfat) : ℕ → List ℕ → Type 0 where
  stop : {c : ℕ} → (c ≡ 0) ⊎ (vfat_eoc ≤ c) → Chain f c []
  link :
      {c : ℕ} {cs : List ℕ}
      → 0 < c
      → c < vfat_eoc
      → IsStored f c
      → Chain f (fat_entry f c) cs
      → Chain f c (c ∷ cs)

-- The code reads the entry that the FAT holds, whatever the variable held before.
pub read_entry_lem : (f : Vfat) (x c : ℕ) → IsStored f c → read_entry f x c ≡ fat_entry f c
unfolding read_entry
read_entry_lem f x c s =
    ap (λ (k : ℕ). k % 2 ^ 28)
      (pread_int_u32 f.fs (u32_bytes x) (cluster_offset f c) (omega (arith, place)) (rw place s.0)
          (omega arith)
        ∙ ap (u32_at f.fs) place)
  where
    place : cluster_offset f c ≡ entry_at f c
    place = unfold cluster_offset in omega arith

-- A call at a cluster of the chain makes it the current one and reads the next.
pub get_next_at_link :
    (f : Vfat)
    → 0 < f.next_cluster_number
    → f.next_cluster_number < vfat_eoc
    → IsStored f f.next_cluster_number
    → get_next_cluster_number f ≡ (
      true,
      record f {
        current_cluster_number = f.next_cluster_number;
        next_cluster_number = fat_entry f f.next_cluster_number;
      },
    )
unfolding get_next_cluster_number
get_next_at_link f lo hi s =
    ground (arith, read_entry_lem f f.next_cluster_number f.next_cluster_number s)

-- A call at the end marks the walk as over.
abbrev pub ended : Vfat → Vfat
ended f = record f { current_cluster_number = 2 ^ 32 - 1; next_cluster_number = 2 ^ 32 - 1 }

pub get_next_at_stop :
    (f : Vfat)
    → (f.next_cluster_number ≡ 0) ⊎ (vfat_eoc ≤ f.next_cluster_number)
    → get_next_cluster_number f ≡ (false, ended f)
unfolding get_next_cluster_number
get_next_at_stop f (inl e) = ground arith
get_next_at_stop f (inr e) = ground arith

-- The clusters that become current in at most `n` calls, until one of them returns -1.
abbrev pub walk : ℕ → Vfat → List ℕ × Vfat
walk zero f = ([], f)
walk (suc n) f =
    let (going, f') = get_next_cluster_number f in
    let (cs, f'') = walk n f' in if going then (f'.current_cluster_number ∷ cs, f'') else ([], f')

-- The numbers that the walk keeps do not matter to the chain.
pub Chain-moved :
    (f : Vfat) (a b : ℕ) {c : ℕ} {cs : List ℕ}
    → Chain f c cs
    → Chain (record f { current_cluster_number = a; next_cluster_number = b }) c cs
Chain-moved f a b (stop e) = stop e
Chain-moved f a b (link lo hi s c) = link lo hi s (Chain-moved f a b c)

walk_from :
    (n : ℕ) (f : Vfat) {c : ℕ} {cs : List ℕ}
    → f.next_cluster_number ≡ c
    → Chain f c cs
    → length cs < n
    → walk n f ≡ (cs, ended f)
walk_from zero f e c h = absurd (omega arith)
walk_from (suc n) f e (stop s) h = rw (get_next_at_stop f (rw e s))
walk_from (suc n) f e (link {c = c} lo hi s rest) h =
    rw
      (
        get_next_at_link f (rw e lo) (rw e hi) (rw e s),
        walk_from n _ (rw e refl)
            (Chain-moved f f.next_cluster_number (fat_entry f f.next_cluster_number) rest)
            (omega arith),
      )
      (rw e)

-- Calling `get_next_cluster_number` until it returns -1 makes exactly the clusters of the chain
-- current, in their order, and leaves both numbers at -1 and all else as it was.
pub walk-Chain :
    (n : ℕ) (f : Vfat) {cs : List ℕ}
    → Chain f f.next_cluster_number cs
    → length cs < n
    → walk n f ≡ (cs, ended f)
walk-Chain n f c h = walk_from n f refl c h

-- A chain of `n` clusters that ends with the mark of an end.
pub data Links (f : Vfat) : ℕ → ℕ → Type 0 where
  ends : {c : ℕ} → vfat_eoc ≤ c → Links f c 0
  more : {c n : ℕ} → c < vfat_eoc → IsStored f c → Links f (fat_entry f c) n → Links f c (suc n)

count_from :
    (fuel : ℕ) (f : Vfat) (count total : ℕ) {c n : ℕ}
    → Links f c n
    → n < fuel
    → count + n ≡ total
    → count_clusters fuel f c count ≡ some total
unfolding count_clusters
count_from zero f count total l h e = absurd (omega arith)
count_from (suc fuel) f count total (ends s) h e = ground arith
count_from (suc fuel) f count total (more {c = c} hi s rest) h e =
    rw
      (read_entry_lem f c c s, count_from fuel f (count + 1) total rest (omega arith) (omega arith))
      (ground arith)

-- The loop of `vfat_test_read_all` counts the clusters of a chain that ends with the mark of an
-- end; fuel above their number is enough.
pub count_clusters_lem :
    (fuel : ℕ) (f : Vfat) {c n : ℕ} → Links f c n → n < fuel → count_clusters fuel f c 0 ≡ some n
count_clusters_lem fuel f l h = count_from fuel f 0 _ l h (omega arith)

-- The offset of the entry of a cluster that the code computes is the place that the macros
-- ThisFATSecNum and ThisFATEntOffset name, on a volume of FAT32 (whose BPB_TotSec16 is 0), where
-- the offset is a 32-bit number.
pub cluster_offset_lem :
    (f : Vfat) (c : ℕ)
    → f.boot_sector.bpb_tot_sec16 ≡ 0
    → f.boot_sector.bpb_byts_per_sec ≢ 0
    → entry_at f c < 2 ^ 32
    → cluster_offset f c
      ≡ this_fat_sec_num f c * f.boot_sector.bpb_byts_per_sec + this_fat_ent_offset f c
unfolding cluster_offset this_fat_sec_num this_fat_ent_offset
cluster_offset_lem f c fat32 bps word = rw fat32 (ground (arith, small, place, bound))
  where
    small : c * 4 % 2 ^ 32 ≡ c * 4
    small = omega arith

    place :
        (f.boot_sector.bpb_rsvd_sec_cnt + c * 4 / f.boot_sector.bpb_byts_per_sec)
            * f.boot_sector.bpb_byts_per_sec
          + c * 4 % f.boot_sector.bpb_byts_per_sec
        ≡ entry_at f c
    place = grind (arith, div-add-mod (c * 4) f.boot_sector.bpb_byts_per_sec)

    bound : f.boot_sector.bpb_rsvd_sec_cnt + c * 4 / f.boot_sector.bpb_byts_per_sec < 2 ^ 32
    bound = grind (arith, place)
