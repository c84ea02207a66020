-- ===== src/Vfat/Names.antt =====
-- The string functions of vfat.c: `trim_string`, `trim_nstr`, `lfn_checksum`, `split_path_root`.
-- A string is a buffer of bytes; a pointer into it is an index.
pub mod Trim
pub mod Checksum
pub mod Paths
mod Tests
use epfl_ba6_os.Prelude.{
  ℕ, zero, suc, ◌+◌, ◌*◌, ◌/◌, ◌%◌, List, [], ◌∷◌, Option, some, none, Bool, not, ◌==◌, ◌&&◌, ◌||◌,
  if◌then◌else◌, ◌>>=◌, get_elem?, get_or, set, drop, length, c_str,
}

abbrev pub space : ℕ
space = b' '

-- The loop of the two functions, with `i + 1` as its counter.
unfoldable pub trim_from : List ℕ → ℕ → List ℕ
trim_from str zero = str
trim_from str (suc i) = if get_or str i 0 == space then trim_from (set str i 0) i else str

pub trim_string : List ℕ → List ℕ
unfolding trim_from c_str
trim_string str = trim_from str (length (c_str str))

unfoldable pub trim_nstr : List ℕ → ℕ → List ℕ
unfolding trim_from
trim_nstr str n = trim_from str n

-- The sum is a `uint8_t`: it is rotated to the right by one bit, and the byte is added.
unfoldable pub checksum_step : ℕ → ℕ → ℕ
checksum_step sum b = (sum % 2 * 128 + sum / 2 + b) % 256

-- The loop, with the rounds left; `none` is a read past the end of the name.
checksum_from : ℕ → ℕ → List ℕ → Option ℕ
checksum_from zero sum name = some sum
checksum_from (suc n) sum [] = none
checksum_from (suc n) sum (b ∷ name) = checksum_from n (checksum_step sum b) name

pub lfn_checksum : List ℕ → Option ℕ
unfolding checksum_from
lfn_checksum name = checksum_from 11 0 name

abbrev pub slash : ℕ
slash = b'/'

-- `while (**path && (**path != '/')) ++(*path);` over the bytes from `*path` on: how far the pointer
-- moves; `none` is a read past the end of the buffer.
scan_component : List ℕ → Option ℕ
scan_component [] = none
scan_component (b ∷ bs) =
    let rest = scan_component bs in
    if b == 0 || b == slash then some 0 else (rest >>= λ n. some (n + 1))

pub record Split : Type 0 where
  pub buffer : List ℕ
  pub path : ℕ
  pub head : ℕ

-- What follows the skip of the root: `head` is where the component begins.
split_from : List ℕ → List ℕ → ℕ → Option Split
unfolding scan_component
split_from buffer rest head = do
  n ← scan_component rest
  some (record { buffer = set buffer (head + n) 0; path = head + n + 1; head = head })

-- `split_path_root(&path, &head)`, with `path` an index into the buffer.
pub split_path_root : List ℕ → ℕ → Option Split
unfolding split_from
split_path_root buffer path = do
  b ← get_elem? buffer path
  (if b == slash
      then split_from buffer (drop (path + 1) buffer) (path + 1)
      else split_from buffer (drop path buffer) path)
