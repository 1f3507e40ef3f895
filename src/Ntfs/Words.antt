-- ===== src/Ntfs/Words.antt =====
-- crates/neutra-ntfs/src/geometry.rs: the readers of little-endian words.
pub mod Value
use neutrasearch.Base.{
  ℕ, zero, suc, ◌+◌, ◌-◌, ◌*◌, ◌^◌, ◌%◌, bit_and, bit_or, Bytes, List, [], ◌∷◌, Option, none, some,
  length, slice, ltb, ◌==◌, ◌&&◌, not, if◌then◌else◌, u64_mod,
}
use neutrasearch.Base.Int.{ℤ, pos, as_i64}
use mathlib.Core.Option

-- The fold of `read_unsigned`, at index `i`: `a | ((x as u64) << (i * 8))`.
unfoldable pub read_unsigned_from : ℕ → ℕ → Bytes → ℕ
read_unsigned_from i a [] = a
read_unsigned_from i a (x ∷ xs) =
    read_unsigned_from (i + 1) (bit_or a (x * 2 ^ (i * 8) % u64_mod)) xs

unfoldable pub read_unsigned : Bytes → ℕ
unfolding read_unsigned_from
read_unsigned b = read_unsigned_from 0 0 b

-- `b[b.len() - 1]`, for a slice that is not empty.
abbrev last_byte : Bytes → ℕ
last_byte [] = 0
last_byte (x ∷ []) = x
last_byte (x ∷ y ∷ ys) = last_byte (y ∷ ys)

-- The sign is extended by `u | (!0u64 << bits)`.
unfoldable pub read_signed : Bytes → ℤ
read_signed [] = pos 0
read_signed (x ∷ xs) =
    let b = x ∷ xs in
    let u = read_unsigned b in
    let bits = length b * 8 in
    if ltb bits 64 && not (bit_and (last_byte b) 0x80 == 0)
    then as_i64 (bit_or u ((u64_mod - 1) * 2 ^ bits % u64_mod))
    else as_i64 u

-- `u16::from_le_bytes` and its like: the number that the bytes write, lowest first.
unfoldable pub le_value : Bytes → ℕ
le_value [] = 0
le_value (x ∷ xs) = x + 256 * le_value xs

unfoldable pub u16le : Bytes → ℕ → Option ℕ
u16le b p = Option.map le_value (slice b p (p + 2))

unfoldable pub u32le : Bytes → ℕ → Option ℕ
u32le b p = Option.map le_value (slice b p (p + 4))

unfoldable pub u64le : Bytes → ℕ → Option ℕ
u64le b p = Option.map le_value (slice b p (p + 8))

-- `unwrap_or(0)`
abbrev pub or_zero : Option ℕ → ℕ
or_zero none = 0
or_zero (some n) = n
