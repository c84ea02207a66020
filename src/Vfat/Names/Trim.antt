-- ===== src/Vfat/Names/Trim.antt =====
-- `trim_nstr` of vfat.c against the bytes that it must clear.
use epfl_ba6_os.Prelude.{
  ℕ, zero, suc, ◌≤◌, ◌<◌, ◌≡◌, ◌≢◌, refl, ◌∙◌, inl, inr, List, [], ◌∷◌, Bool, false, Bool-cases,
  ◌==◌, ◌&&◌, ◌||◌, if◌then◌else◌, get_or, set, length, arith,
}
use epfl_ba6_os.Vfat.Names.{space, trim_nstr}

-- Is `j` below `n`, with nothing but spaces at the positions from `j` to `n - 1`?
unfoldable pub is_blank : List ℕ → ℕ → ℕ → Bool
is_blank str j zero = false
is_blank str j (suc i) = get_or str i 0 == space && (j == i || is_blank str j i)

get_or-set :
    (xs : List ℕ) (i j v : ℕ)
    → i < length xs
    → get_or (set xs i v) j 0 ≡ (if i == j then v else get_or xs j 0)
get_or-set [] i j v h = absurd (omega arith)
get_or-set (x ∷ xs) zero zero v h = refl
get_or-set (x ∷ xs) zero (suc j) v h = ground arith
get_or-set (x ∷ xs) (suc i) zero v h = ground arith
get_or-set (x ∷ xs) (suc i) (suc j) v h = ground (arith, get_or-set xs i j v)

length-set : (xs : List ℕ) (i v : ℕ) → length (set xs i v) ≡ length xs
length-set [] i v = refl
length-set (x ∷ xs) zero v = refl
length-set (x ∷ xs) (suc i) v = omega (arith, length-set xs i v)

-- A position that is not below `n` is not in the blank tail.
is_blank_above : (str : List ℕ) (j n : ℕ) → n ≤ j → is_blank str j n ≡ false
unfolding is_blank
is_blank_above str j zero h = refl
is_blank_above str j (suc i) h = ground (arith, is_blank_above str j i)

-- A write at or above `n` does not change what is blank below.
is_blank-set :
    (str : List ℕ) (i v j n : ℕ)
    → i < length str
    → n ≤ i
    → is_blank (set str i v) j n ≡ is_blank str j n
unfolding is_blank
is_blank-set str i v j zero h b = refl
is_blank-set str i v j (suc n) h b =
    ground (arith, is_blank-set str i v j n h, get_or-set str i n v h)

-- `trim_nstr(str, n)` on a buffer of `n` bytes at least turns a byte to NUL exactly if it stands
-- before position `n` and only spaces stand from it up to there, and leaves all others alone.
pub trim_nstr_lem :
    (str : List ℕ) (n j : ℕ)
    → n ≤ length str
    → get_or (trim_nstr str n) j 0 ≡ (if is_blank str j n then 0 else get_or str j 0)
unfolding trim_nstr is_blank
trim_nstr_lem str zero j h = refl
trim_nstr_lem str (suc i) j h = elim (Bool-cases (get_or str i 0 == space)) [
  | inl e ↦ rw e (
      trim_nstr_lem (set str i 0) i j (rw (length-set str i 0) (omega arith))
      ∙ ground (arith, is_blank-set str i 0 j i, get_or-set str i j 0, is_blank_above str j i))
  | inr e ↦ rw e
]

-- A buffer that does not begin with a space is not blank from its start.
pub is_blank_start : (str : List ℕ) (n : ℕ) → get_or str 0 0 ≢ space → is_blank str 0 n ≡ false
unfolding is_blank
is_blank_start str zero h = refl
is_blank_start str (suc zero) h = ground arith
is_blank_start str (suc (suc n)) h = ground (arith, is_blank_start str (suc n) h)
