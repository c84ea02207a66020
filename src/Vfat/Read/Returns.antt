-- ===== src/Vfat/Read/Returns.antt =====
-- When `vfat_fuse_read` returns, and what it returns.
use epfl_ba6_os.Prelude.{
  ℕ, zero, suc, ◌+◌, ◌-◌, ◌%◌, ◌^◌, ◌*◌, ◌≤◌, ◌<◌, ◌≡◌, ◌≢◌, ap, ◌++◌, take, drop, refl, ◌∙◌, inl,
  inr, List, true, false, lt→leb, Bool-cases, some, leb, length, arith,
}
use epfl_ba6_os.Prelude.Int.{pos, negsuc}
use epfl_ba6_os.Vfat.Bytes.{pread, pread_within}
use epfl_ba6_os.Vfat.Layout.{Vfat, vfat_eoc}
use epfl_ba6_os.Vfat.Init.{compute_first_sector_of_cluster}
use epfl_ba6_os.Vfat.Init.Geometry.{cluster_begin, cluster_begin_lem}
use epfl_ba6_os.Vfat.Chain.{get_next_cluster_number}
use epfl_ba6_os.Vfat.Chain.Walk.{
  Chain, stop, link, Chain-moved, IsStored, get_next_at_link, get_next_at_stop, fat_entry, ended,
}
use epfl_ba6_os.Vfat.Read.{
  Reading, ReadResult, read, minus_one, int_of_size, bytes_per_sector, data_start, read_round,
  read_loop, read_start, vfat_fuse_read,
}

-- A round does not touch the state of the file system.
f-read_round : (s : Reading) → (read_round s).f ≡ s.f
unfolding read_round
f-read_round s = ground arith

read_loop_step :
    (fuel : ℕ) (s : Reading) (f' : Vfat)
    → s.last_round ≡ false
    → get_next_cluster_number s.f ≡ (true, f')
    → read_loop (suc fuel) s ≡ read_loop fuel (read_round (record s { f = f' }))
unfolding read_loop
read_loop_step fuel s f' more going = rw (more, going)

-- The loop ends on every chain of clusters that ends, with a round for each cluster at most.
read_loop-ends :
    (fuel : ℕ) (s : Reading) {c : ℕ} {cs : List ℕ}
    → s.f.next_cluster_number ≡ c
    → Chain s.f c cs
    → length cs < fuel
    → (s' : Reading) × (read_loop fuel s ≡ some s')
unfolding read_loop
read_loop-ends zero s e ch h = absurd (omega arith)
read_loop-ends (suc fuel) s e (stop end) h = elim (Bool-cases s.last_round) [
  | inl last ↦ (s, rw last)
  | inr more ↦ (record s { f = ended s.f }, rw (more, get_next_at_stop s.f (rw e end)))
]
read_loop-ends (suc fuel) s e (link {c = c} {cs = cs} lo hi stored rest) h =
    let f' : Vfat = record s.f {
      current_cluster_number = s.f.next_cluster_number;
      next_cluster_number = fat_entry s.f s.f.next_cluster_number;
    } in
    let round = read_round (record s { f = f' }) in
    let kept : round.f ≡ f' = f-read_round (record s { f = f' }) in
    let ih =
      read_loop-ends fuel round {c = fat_entry s.f s.f.next_cluster_number} {cs = cs} (rw kept refl)
        (rw kept (
          Chain-moved s.f s.f.next_cluster_number (fat_entry s.f s.f.next_cluster_number)
            (rw (← e) at rest)))
        (omega arith) in
    elim (Bool-cases s.last_round) [
      | inl last ↦ (s, rw last)
      | inr more ↦ (
        ih.0,
        read_loop_step fuel s f' more (get_next_at_link s.f (rw e lo) (rw e hi) (rw e stored))
            ∙ ih.1,
      )
    ]

-- The state when the loop begins: the cluster of the directory entry is the next one.
abbrev pub started : Vfat → List ℕ → ℕ → ℕ → Vfat
started f buf size offset = (read_start f buf size offset).f

int_of_size_lem :
    (n : ℕ)
    → n < 2 ^ 32
    → (n < 2 ^ 31 → int_of_size n ≡ pos n) × (2 ^ 31 ≤ n → int_of_size n ≡ negsuc (2 ^ 32 - 1 - n))
unfolding int_of_size
int_of_size_lem n w =
    let same : n % 2 ^ 32 ≡ n = omega arith in
    ((λ h. ground (arith, same)), (λ h. ground (arith, same)))

-- `vfat_fuse_read` returns on every file whose chain of clusters ends, with a round for each
-- cluster at most. At an offset from the size on the result is -1; below it, the number of bytes
-- asked for, however many the file has, if an `int` holds that number, and for a size from 2^31 to
-- 2^32 - 1 the negative number that the `int` wraps around to.
pub vfat_fuse_read-returns :
    (fuel : ℕ) (f : Vfat) (buf : List ℕ) (size offset : ℕ) {cs : List ℕ}
    → Chain (started f buf size offset) (started f buf size offset).next_cluster_number cs
    → length cs < fuel
    → (r : ReadResult) × (vfat_fuse_read fuel f buf size offset ≡ some r)
      × (size ≤ offset → r ≡ minus_one)
      × (offset < size
          → size < 2 ^ 31
          → (f' : Vfat) × (buf' : List ℕ) × (r ≡ read (pos size) f' buf'))
      × (offset < size
          → 2 ^ 31 ≤ size
          → size < 2 ^ 32
          → (f' : Vfat) × (buf' : List ℕ) × (r ≡ read (negsuc (2 ^ 32 - 1 - size)) f' buf'))
unfolding vfat_fuse_read
vfat_fuse_read-returns fuel f buf size offset ch h =
    let (s, e) = read_loop-ends fuel (read_start f buf size offset) refl ch h in result s e
  where
    result :
        (s : Reading)
        → read_loop fuel (read_start f buf size offset) ≡ some s
        → (r : ReadResult) × (vfat_fuse_read fuel f buf size offset ≡ some r)
          × (size ≤ offset → r ≡ minus_one)
          × (offset < size
              → size < 2 ^ 31
              → (f' : Vfat) × (buf' : List ℕ) × (r ≡ read (pos size) f' buf'))
          × (offset < size
              → 2 ^ 31 ≤ size
              → size < 2 ^ 32
              → (f' : Vfat) × (buf' : List ℕ) × (r ≡ read (negsuc (2 ^ 32 - 1 - size)) f' buf'))
    result s e = elim (Bool-cases (leb size offset)) [
      | inl b ↦ (
        minus_one,
        rw b refl,
        (λ l. refl),
        (λ l m. absurd (ground arith)),
        (λ l m n. absurd (ground arith)),
      )
      | inr b ↦ (
        read (int_of_size size) s.f s.buf,
        rw (b, e) refl,
        (λ l. absurd (ground arith)),
        (λ l m.
            (s.f, s.buf, ap (λ n. read n s.f s.buf) ((int_of_size_lem size (omega arith)).0 m))),
        (λ l m n. (s.f, s.buf, ap (λ n. read n s.f s.buf) ((int_of_size_lem size n).1 m))),
      )
    ]

read_round-within :
    (s : Reading)
    → s.offset < s.size
    → s.size + s.offset < bytes_per_sector s.f
    → bytes_per_sector s.f < 2 ^ 31
    → read_round s ≡ record s {
      buf = pread s.f.fs s.buf (s.size - s.offset) ((data_start s.f + s.offset) % 2 ^ 32);
      last_round = true;
    }
unfolding read_round
read_round-within s lt inside small = ground (arith, less)
  where
    less : (s.size + 2 ^ 64 - s.offset) % 2 ^ 32 ≡ s.size - s.offset
    less = omega arith

nonzero : (n a b : ℕ) → n < a * b → a ≢ 0
nonzero n zero b h e = absurd (omega arith)
nonzero n (suc a) b h e = absurd (omega arith)

data_start_lem :
    (f : Vfat) (c : ℕ)
    → f.current_cluster_number ≡ c
    → 2 ≤ c
    → c < 2 ^ 32
    → f.boot_sector.bpb_byts_per_sec ≢ 0
    → cluster_begin f c < 2 ^ 32
    → data_start f ≡ cluster_begin f c
unfolding data_start compute_first_sector_of_cluster
data_start_lem f c e lo hi bps word = rw e (cluster_begin_lem f c lo hi bps word)

-- A call whose bytes all lie before the end of the first cluster, which the device holds, returns
-- the size, but writes only the size less the offset bytes to the buffer: those from the offset in
-- that cluster on. What stood behind them in the buffer stays. (The data of the cluster begins
-- within the first 2^32 bytes.)
pub vfat_fuse_read-within_cluster :
    (fuel : ℕ) (f : Vfat) (buf : List ℕ) (size offset c : ℕ)
    → offset < size
    → size + offset < f.boot_sector.bpb_byts_per_sec * f.boot_sector.bpb_sec_per_clus
    → f.boot_sector.bpb_byts_per_sec * f.boot_sector.bpb_sec_per_clus < 2 ^ 31
    → (started f buf size offset).next_cluster_number ≡ c
    → 2 ≤ c
    → c < vfat_eoc
    → IsStored f c
    → cluster_begin f c + offset < 2 ^ 32
    → cluster_begin f c + size ≤ length f.fs
    → size ≤ length buf
    → (f' : Vfat) × (vfat_fuse_read (suc (suc fuel)) f buf size offset
        ≡ some (
            read (pos size) f' (
              take (size - offset) (drop (cluster_begin f c + offset) f.fs)
              ++ drop (size - offset) buf)))
unfolding vfat_fuse_read read_loop bytes_per_sector read_start
vfat_fuse_read-within_cluster fuel f buf size offset c lt inside small first lo hi stored near held
      room =
    let start = read_start f buf size offset in
    let moved : Vfat = record start.f {
      current_cluster_number = start.f.next_cluster_number;
      next_cluster_number = fat_entry start.f start.f.next_cluster_number;
    } in
    let next = get_next_at_link start.f (rw first (omega arith)) (rw first hi) (rw first stored) in
    let round = read_round-within (record start { f = moved }) lt inside small in
    (
      moved,
      rw
          (
            lt→leb size offset lt,
            next,
            round,
            bytes moved (
                data_start_lem moved c first lo (omega arith) (nonzero _ _ _ inside) (omega arith)),
            int,
          )
          refl,
    )
  where
    int : int_of_size size ≡ pos size
    int = (int_of_size_lem size (omega arith)).0 (omega arith)

    bytes :
        (g : Vfat)
        → data_start g ≡ cluster_begin f c
        → pread f.fs buf (size - offset) ((data_start g + offset) % 2 ^ 32)
          ≡ take (size - offset) (drop (cluster_begin f c + offset) f.fs)
            ++ drop (size - offset) buf
    bytes g place = rw place (
        ap (pread f.fs buf (size - offset)) (omega arith)
        ∙ pread_within f.fs buf (size - offset) (cluster_begin f c + offset) (omega arith)
            (omega arith))
