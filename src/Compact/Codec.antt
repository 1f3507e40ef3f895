-- ===== src/Compact/Codec.antt =====
-- crates/neutra-core/src/compact/format/codec.rs: variable-length numbers and bounded reads.
pub mod RoundTrip
mod Examples
use neutrasearch.Base.{
  ℕ, zero, suc, ◌+◌, ◌*◌, ◌/◌, ◌%◌, ◌^◌, bit_and, bit_or, not, [], ◌∷◌, ◌++◌, get_elem?, slice, ltb,
  leb, ◌==◌, if◌then◌else◌, Bytes, Outcome, ok, fault, ◌>>=◌, ◌>>◌, ensure, context, u32_mod,
  checked_add,
}
use neutrasearch.Ntfs.Words.{le_value}

-- The messages of `invalid`.
pub data Invalid : Type 0 where
  truncated_varint varint_overflow delta_overflow list_too_large : Invalid
  offset_overflow out_of_bounds : Invalid

-- `while n >= 0x80`, with `rounds` left.
unfoldable pub put_varint_loop : ℕ → ℕ → Bytes → Bytes
put_varint_loop zero n out = out ++ n % 256 ∷ []
put_varint_loop (suc rounds) n out =
    let rest = put_varint_loop rounds (n / 128) (out ++ bit_or (n % 256) 0x80 ∷ []) in
    if leb 0x80 n then rest else out ++ n % 256 ∷ []

-- A `u32` is below 128 after four rounds.
unfoldable pub put_varint : ℕ → Bytes → Bytes
put_varint n out = put_varint_loop 4 n out

-- The loop of `get_varint`, on fuel; the result is the number and the new `p`.
unfoldable pub get_varint_loop : ℕ → ℕ → ℕ → Bytes → ℕ → Outcome Invalid (ℕ × ℕ)
get_varint_loop zero n shift bytes p = fault
get_varint_loop (suc fuel) n shift bytes p = do
  b ← context (get_elem? bytes p) truncated_varint
  ensure (not (leb 32 shift)) varint_overflow
  let n' = bit_or n (bit_and b 0x7f * 2 ^ shift % u32_mod)
  if bit_and b 0x80 == 0 then ok (n', p + 1) else get_varint_loop fuel n' (shift + 7) bytes (p + 1)

-- At the sixth byte the shift is 35, and the loop ends.
unfoldable pub get_varint : Bytes → ℕ → Outcome Invalid (ℕ × ℕ)
get_varint bytes p = get_varint_loop 6 0 0 bytes p

unfoldable pub checked : Bytes → ℕ → ℕ → Outcome Invalid Bytes
checked bytes offset len = do
  end ← context (checked_add offset len) offset_overflow
  context (slice bytes offset end) out_of_bounds

unfoldable pub u16_at : Bytes → ℕ → Outcome Invalid ℕ
u16_at b p = do word ← checked b p 2; ok (le_value word)

unfoldable pub u32_at : Bytes → ℕ → Outcome Invalid ℕ
u32_at b p = do word ← checked b p 4; ok (le_value word)

unfoldable pub u64_at : Bytes → ℕ → Outcome Invalid ℕ
u64_at b p = do word ← checked b p 8; ok (le_value word)
