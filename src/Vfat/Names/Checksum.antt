-- ===== src/Vfat/Names/Checksum.antt =====
-- `lfn_checksum` of vfat.c: what it tells apart.
use epfl_ba6_os.Prelude.{
  ℕ, zero, suc, ◌+◌, ◌≤◌, ◌<◌, ◌≡◌, ◌≢◌, refl, sym, ap, ◌∙◌, length-append, List, [], ◌∷◌, ◌++◌,
  some, length, arith,
}
use epfl_ba6_os.Vfat.Names.{checksum_step, checksum_from, lfn_checksum}

-- A name of eleven bytes has a checksum, which is a byte.
checksum_from-some :
    (n s : ℕ) (name : List ℕ)
    → n ≤ length name
    → s < 256
    → (c : ℕ) × (checksum_from n s name ≡ some c) × (c < 256)
unfolding checksum_from
checksum_from-some zero s name h b = (s, refl, b)
checksum_from-some (suc n) s [] h b = absurd (omega arith)
checksum_from-some (suc n) s (x ∷ name) h b =
    checksum_from-some n (checksum_step s x) name (omega arith)
      (unfold checksum_step in omega arith)

checksum_step-injective :
    (s t b : ℕ) → s < 256 → t < 256 → checksum_step s b ≡ checksum_step t b → s ≡ t
unfolding checksum_step
checksum_step-injective s t b hs ht h = omega arith

-- Different sums stay different.
checksum_from-injective :
    (n s t : ℕ) (name : List ℕ)
    → n ≤ length name
    → s < 256
    → t < 256
    → checksum_from n s name ≡ checksum_from n t name
    → s ≡ t
unfolding checksum_from
checksum_from-injective zero s t name h hs ht e = cc
checksum_from-injective (suc n) s t [] h hs ht e = absurd (omega arith)
checksum_from-injective (suc n) s t (b ∷ name) h hs ht e = checksum_step-injective s t b hs ht (
    checksum_from-injective n (checksum_step s b) (checksum_step t b) name (omega arith)
      (unfold checksum_step in omega arith) (unfold checksum_step in omega arith) e)

one_byte_from :
    (n s : ℕ) (before after : List ℕ) (x y : ℕ)
    → n ≡ length before + suc (length after)
    → s < 256
    → x < 256
    → y < 256
    → checksum_from n s (before ++ x ∷ after) ≡ checksum_from n s (before ++ y ∷ after)
    → x ≡ y
unfolding checksum_from
one_byte_from zero s before after x y h hs hx hy e = absurd (omega arith)
one_byte_from (suc n) s [] after x y h hs hx hy e = unfold checksum_step in omega (arith, sums)
  where
    sums : checksum_step s x ≡ checksum_step s y
    sums =
        checksum_from-injective n (checksum_step s x) (checksum_step s y) after (omega arith)
          (unfold checksum_step in omega arith) (unfold checksum_step in omega arith) e
one_byte_from (suc n) s (b ∷ before) after x y h hs hx hy e =
    one_byte_from n (checksum_step s b) before after x y (omega arith)
      (unfold checksum_step in omega arith) hx hy e

-- Two names of eleven bytes that differ in exactly one byte have different checksums, which are
-- bytes.
pub lfn_checksum-one_byte :
    (before after : List ℕ) (x y : ℕ)
    → length before + suc (length after) ≡ 11
    → x < 256
    → y < 256
    → x ≢ y
    → (c d : ℕ) × (lfn_checksum (before ++ x ∷ after) ≡ some c)
      × (lfn_checksum (before ++ y ∷ after) ≡ some d)
      × (c < 256)
      × (d < 256)
      × (c ≢ d)
unfolding lfn_checksum
lfn_checksum-one_byte before after x y len hx hy ne =
    let first = checksum_from-some 11 0 (before ++ x ∷ after) (long x) (omega arith) in
    let second = checksum_from-some 11 0 (before ++ y ∷ after) (long y) (omega arith) in
    (
      first.0,
      second.0,
      first.1,
      second.1,
      first.2,
      second.2,
      λ e. ne (
          one_byte_from 11 0 before after x y (omega arith) (omega arith) hx hy
            (first.1 ∙ ap some e ∙ sym second.1)),
    )
  where
    long : (z : ℕ) → 11 ≤ length (before ++ z ∷ after)
    long z = omega (arith, length-append before (z ∷ after))
