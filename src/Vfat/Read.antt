-- ===== src/Vfat/Read.antt =====
-- `vfat_fuse_read` of vfat.c. Offsets are not negative; sums are in `size_t`.
pub mod Returns
mod Tests
use epfl_ba6_os.Prelude.{
  ℕ, zero, suc, ◌+◌, ◌-◌, ◌*◌, ◌%◌, ◌^◌, List, Bool, true, false, Option, some, none, ltb, leb,
  if◌then◌else◌, ◌>>=◌,
}
use epfl_ba6_os.Prelude.Int.{ℤ, pos, negsuc}
use epfl_ba6_os.Vfat.Bytes.{pread}
use epfl_ba6_os.Vfat.Layout.{Vfat, decode_direntry, direntry_cluster, sizeof_direntry}
use epfl_ba6_os.Vfat.Init.{compute_first_sector_of_cluster}
use epfl_ba6_os.Vfat.Chain.{get_next_cluster_number}

-- The variables of the loop, and the caller's buffer.
pub record Reading : Type 0 where
  pub f : Vfat
  pub buf : List ℕ
  pub size : ℕ
  pub offset : ℕ
  pub last_round : Bool

-- The directory entry that is read in place of a resolved path.
abbrev pub test_direntry_offset : ℕ
test_direntry_offset = 0x000F_DC20

-- `int bytes_per_sector`: the bytes of a cluster.
unfoldable pub bytes_per_sector : Vfat → ℕ
bytes_per_sector f = f.boot_sector.bpb_byts_per_sec * f.boot_sector.bpb_sec_per_clus

-- `uint32_t dataStart`
unfoldable pub data_start : Vfat → ℕ
data_start f =
    f.boot_sector.bpb_byts_per_sec
    * compute_first_sector_of_cluster f f.current_cluster_number
    % 2 ^ 32

-- `pread(f->fs, buf, to_read, dataStart + current_offset)`
pub read_data : Reading → ℕ → ℕ → List ℕ
unfolding data_start
read_data s to_read current_offset =
    pread s.f.fs s.buf to_read ((data_start s.f + current_offset) % 2 ^ 32)

-- The body of the loop, once the next cluster is the current one. `to_read` is an `int`.
pub read_round : Reading → Reading
unfolding read_data bytes_per_sector
read_round s =
    let bytes = bytes_per_sector s.f in
    let wanted = (s.size + s.offset) % 2 ^ 64 in
    if leb wanted bytes
    then record s {
      buf = read_data s ((s.size + 2 ^ 64 - s.offset) % 2 ^ 32) s.offset;
      last_round = if ltb wanted bytes then true else s.last_round;
    }
    else if leb bytes s.offset
    then record s { offset = s.offset - bytes }
    else if ltb bytes s.size
    then record s {
      buf = read_data s (bytes - s.offset) s.offset;
      size = s.size - bytes;
      offset = 0;
    }
    else record s {
      buf = read_data s (bytes - s.offset) s.offset;
      size = s.size - (bytes - s.offset);
      offset = 0;
    }

-- `while (!last_round && get_next_cluster_number() != -1)`; `none` means that the fuel ran out.
pub read_loop : ℕ → Reading → Option Reading
read_loop zero s = none
read_loop (suc fuel) s =
    let (going, f') = get_next_cluster_number s.f in
    let rest = read_loop fuel (read_round (record s { f = f' })) in
    if s.last_round then some s else (if going then rest else some (record s { f = f' }))

-- What the call does before the loop.
pub read_start : Vfat → List ℕ → ℕ → ℕ → Reading
read_start f buf size offset =
    let entry = pread f.fs f.current_direntry_bytes sizeof_direntry test_direntry_offset in
    let c = direntry_cluster (decode_direntry entry) in
    record {
      f = record f {
        current_direntry_bytes = entry;
        next_cluster_number = c;
        current_cluster_number = c;
      };
      buf = buf;
      size = size;
      offset = offset;
      last_round = false;
    }

-- The value of an `int` that a `size_t` is stored in.
pub int_of_size : ℕ → ℤ
int_of_size n =
    let word = n % 2 ^ 32 in if ltb word (2 ^ 31) then pos word else negsuc (2 ^ 32 - 1 - word)

-- How the call ends: by -1, or with a number of bytes, the state and the buffer.
pub data ReadResult : Type 0 where
  minus_one : ReadResult
  read : ℤ → Vfat → List ℕ → ReadResult

pub vfat_fuse_read : ℕ → Vfat → List ℕ → ℕ → ℕ → Option ReadResult
unfolding read_loop read_start int_of_size
vfat_fuse_read fuel f buf size offset =
    if leb size offset
    then some minus_one
    else (read_loop fuel (read_start f buf size offset) >>= λ s.
        some (read (int_of_size size) s.f s.buf))
