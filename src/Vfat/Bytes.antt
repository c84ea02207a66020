-- ===== src/Vfat/Bytes.antt =====
-- What vfat.c sees of memory and of the device: bytes, little-endian fields of packed
-- structures, and `pread`.
use epfl_ba6_os.Prelude.{
  ℕ, zero, suc, ◌+◌, ◌*◌, ◌/◌, ◌%◌, ◌≡◌, refl, ap, ◌∙◌, ◌≤◌, ◌<◌, ◌-◌, ◌^◌, lt→ltb, List, [], ◌∷◌,
  ◌++◌, if◌then◌else◌, get_or, take, drop, length, ltb, arith,
}

-- A buffer after the first bytes of it are overwritten.
unfoldable pub overlay : List ℕ → List ℕ → List ℕ
overlay [] buf = buf
overlay (x ∷ xs) [] = []
overlay (x ∷ xs) (b ∷ buf) = x ∷ overlay xs buf

-- `pread(fd, buf, size, offset)`: the bytes that the device has from the offset on, `size` at most;
-- what it does not have leaves the buffer as it was.
unfoldable pub pread : List ℕ → List ℕ → ℕ → ℕ → List ℕ
unfolding overlay
pread dev buf size offset = overlay (take size (drop offset dev)) buf

-- The same with an offset that passed through an `int`: a negative offset is an error of `pread`.
unfoldable pub pread_int : List ℕ → List ℕ → ℕ → ℕ → List ℕ
unfolding pread
pread_int dev buf size offset = if ltb offset 0x8000_0000 then pread dev buf size offset else buf

-- Fields of a packed structure, on a little-endian machine.
abbrev pub u8_at : List ℕ → ℕ → ℕ
u8_at bytes i = get_or bytes i 0

abbrev pub u16_at : List ℕ → ℕ → ℕ
u16_at bytes i = u8_at bytes i + 256 * u8_at bytes (i + 1)

abbrev pub u32_at : List ℕ → ℕ → ℕ
u32_at bytes i = u16_at bytes i + 0x1_0000 * u16_at bytes (i + 2)

abbrev pub bytes_at : List ℕ → ℕ → ℕ → List ℕ
bytes_at bytes i n = take n (drop i bytes)

-- The bytes of a `uint32_t` in memory.
abbrev pub u32_bytes : ℕ → List ℕ
u32_bytes x = x % 256 ∷ x / 256 % 256 ∷ x / 65536 % 256 ∷ x / 16777216 % 256 ∷ []

pub length-overlay : (xs buf : List ℕ) → length (overlay xs buf) ≡ length buf
unfolding overlay
length-overlay [] buf = refl
length-overlay (x ∷ xs) [] = refl
length-overlay (x ∷ xs) (b ∷ buf) = ap suc (length-overlay xs buf)

get_or-drop : (xs : List ℕ) (n i : ℕ) → get_or (drop n xs) i 0 ≡ get_or xs (n + i) 0
get_or-drop xs zero i = ap (λ k. get_or xs k 0) (omega arith)
get_or-drop [] (suc n) i = ground arith
get_or-drop (x ∷ xs) (suc n) i = get_or-drop xs n i ∙ ground arith

length-drop : (n : ℕ) (xs : List ℕ) → length (drop n xs) ≡ length xs - n
length-drop zero xs = omega arith
length-drop (suc n) [] = omega arith
length-drop (suc n) (x ∷ xs) = omega (arith, length-drop n xs)

get_or-overlay-take :
    (n : ℕ) (xs buf : List ℕ) (i : ℕ)
    → i < n
    → n ≤ length xs
    → n ≤ length buf
    → get_or (overlay (take n xs) buf) i 0 ≡ get_or xs i 0
unfolding overlay
get_or-overlay-take zero xs buf i h hx hb = absurd (omega arith)
get_or-overlay-take (suc n) [] buf i h hx hb = absurd (omega arith)
get_or-overlay-take (suc n) (x ∷ xs) [] i h hx hb = absurd (omega arith)
get_or-overlay-take (suc n) (x ∷ xs) (b ∷ buf) zero h hx hb = refl
get_or-overlay-take (suc n) (x ∷ xs) (b ∷ buf) (suc i) h hx hb =
    get_or-overlay-take n xs buf i (omega arith) (omega arith) (omega arith)

-- Within the device `pread` fills the whole buffer that it is asked for.
pub get_or-pread :
    (dev buf : List ℕ) (n off i : ℕ)
    → i < n
    → off + n ≤ length dev
    → n ≤ length buf
    → get_or (pread dev buf n off) i 0 ≡ get_or dev (off + i) 0
unfolding pread
get_or-pread dev buf n off i h hd hb =
    get_or-overlay-take n (drop off dev) buf i h (omega (arith, length-drop off dev)) hb
    ∙ get_or-drop dev off i

overlay-take :
    (n : ℕ) (xs buf : List ℕ)
    → n ≤ length xs
    → n ≤ length buf
    → overlay (take n xs) buf ≡ take n xs ++ drop n buf
unfolding overlay
overlay-take zero xs buf hx hb = refl
overlay-take (suc n) [] buf hx hb = absurd (omega arith)
overlay-take (suc n) (x ∷ xs) [] hx hb = absurd (omega arith)
overlay-take (suc n) (x ∷ xs) (b ∷ buf) hx hb =
    ap (λ (ys : List ℕ). x ∷ ys) (overlay-take n xs buf (omega arith) (omega arith))

-- What it leaves in the buffer: the bytes of the device, and behind them those that stood there.
pub pread_within :
    (dev buf : List ℕ) (n off : ℕ)
    → off + n ≤ length dev
    → n ≤ length buf
    → pread dev buf n off ≡ take n (drop off dev) ++ drop n buf
unfolding pread
pread_within dev buf n off hd hb =
    overlay-take n (drop off dev) buf (omega (arith, length-drop off dev)) hb

-- A `uint32_t` read from within the device is the one that stands there.
pub pread_int_u32 :
    (dev buf : List ℕ) (off : ℕ)
    → off < 2 ^ 31
    → off + 4 ≤ length dev
    → 4 ≤ length buf
    → u32_at (pread_int dev buf 4 off) 0 ≡ u32_at dev off
unfolding pread_int
pread_int_u32 dev buf off small hd hb =
    rw
      (
        lt→ltb off 0x8000_0000 small,
        get_or-pread dev buf 4 off 0 (omega arith) hd hb,
        get_or-pread dev buf 4 off 1 (omega arith) hd hb,
        get_or-pread dev buf 4 off 2 (omega arith) hd hb,
        get_or-pread dev buf 4 off 3 (omega arith) hd hb,
      )
      (ground arith)
