-- ===== src/Ntfs/Words/Value.antt =====
-- What the word readers return, in plain arithmetic.
use neutrasearch.Base.{
  ℕ, ◌+◌, ◌*◌, ◌^◌, ◌≤◌, ◌<◌, ◌≡◌, ap, arith, Bytes, IsByte, refl, some, slice-some, All, [], ◌∷◌,
  length, u64_mod,
}
use neutrasearch.Base.Bits.{bit_or-fields, pow-le-pow, pow_byte}
use neutrasearch.Ntfs.Words.{u16le, u32le, u64le, read_unsigned_from, read_unsigned, le_value}
use native.Mathlib.Nat.{mod-eq_of_lt}
use native.Mathlib.Numerals.{add-one}

-- `n` bytes write a number below `256 ^ n`.
pub le_value-lt : (b : Bytes) → All IsByte b → le_value b < 2 ^ (length b * 8)
unfolding le_value
le_value-lt [] h = omega arith
le_value-lt (x ∷ xs) (hx, hxs) = omega (arith, le_value-lt xs hxs, pow_byte (length xs))

read_unsigned_from-le_value :
    (xs : Bytes) (i a : ℕ)
    → All IsByte xs
    → length xs + i ≤ 8
    → a < 2 ^ (i * 8)
    → read_unsigned_from i a xs ≡ a + le_value xs * 2 ^ (i * 8)
unfolding read_unsigned_from le_value
read_unsigned_from-le_value [] i a h fits below = omega arith
read_unsigned_from-le_value (x ∷ xs) i a (hx, hxs) fits below =
    let low : 2 ^ (i * 8) ≤ 2 ^ 56 = pow-le-pow (i * 8) 56 (omega arith) in
    let fits_word : x * 2 ^ (i * 8) < u64_mod = grind arith in
    let next : 2 ^ ((i + 1) * 8) ≡ 256 * 2 ^ (i * 8) = rw add-one (pow_byte i) in
    rw (mod-eq_of_lt fits_word, bit_or-fields (i * 8) a x below)
      (omega (
        arith,
        next,
        ap (λ (t : ℕ). le_value xs * t) next,
        read_unsigned_from-le_value xs (i + 1) (a + x * 2 ^ (i * 8)) hxs (omega arith)
            (grind (arith, next)),
      ))

-- `read_unsigned` is the little-endian value of up to eight bytes.
read_unsigned-le_value : (b : Bytes) → All IsByte b → length b ≤ 8 → read_unsigned b ≡ le_value b
unfolding read_unsigned
read_unsigned-le_value b h fits =
    omega (arith, read_unsigned_from-le_value b 0 0 h (omega arith) (omega arith))

-- Words inside the bytes are read.
pub u16le-some : (b : Bytes) (p : ℕ) → p + 2 ≤ length b → (v : ℕ) × (u16le b p ≡ some v)
unfolding u16le
u16le-some b p h = rw (slice-some b p (p + 2) (omega arith) h) (_, refl)

pub u32le-some : (b : Bytes) (p : ℕ) → p + 4 ≤ length b → (v : ℕ) × (u32le b p ≡ some v)
unfolding u32le
u32le-some b p h = rw (slice-some b p (p + 4) (omega arith) h) (_, refl)

pub u64le-some : (b : Bytes) (p : ℕ) → p + 8 ≤ length b → (v : ℕ) × (u64le b p ≡ some v)
unfolding u64le
u64le-some b p h = rw (slice-some b p (p + 8) (omega arith) h) (_, refl)
