-- ===== src/Ntfs/Geometry.antt =====
-- crates/neutra-ntfs/src/geometry.rs: the boot sector; and `prepare_allocated` of records.rs. A device
-- is its bytes; a read behind its end is the error of the reader.
pub mod Sound
mod Examples
use neutrasearch.Base.{
  ℕ, zero, suc, ◌+◌, ◌-◌, ◌*◌, ◌/◌, ◌^◌, bit_and, Bool, true, false, not, ◌&&◌, ◌||◌, [], ◌∷◌,
  Option, none, some, get_elem?, slice, equal, ltb, leb, ◌==◌, if◌then◌else◌, Bytes, Outcome, ok,
  err, fault, ◌>>=◌, ◌>>◌, ensure, context, unwrap, checked_add, checked_mul,
}
use neutrasearch.Ntfs.Error.{
  Error, io_error, not_ntfs, bad_geometry, cluster_overflow, record_shift, record_overflow,
  bad_record_size, mft_overflow, unknown_extent, allocation_flags,
}
use neutrasearch.Ntfs.Words.{or_zero, u16le, u64le}
use neutrasearch.Ntfs.Fixup.{apply_fixup}

pub record Geometry : Type 0 where
  pub declared_bytes : ℕ
  pub sector : ℕ
  pub cluster : ℕ
  pub record_size : ℕ
  pub mft_offset : ℕ

-- `read_exact_at`
unfoldable pub read_exact_at : Bytes → ℕ → ℕ → Outcome Error Bytes
read_exact_at device off len = context (slice device off (off + len)) io_error

-- Whether a number is 2^k for a k below `n`.
unfoldable pub is_power_below : ℕ → ℕ → Bool
is_power_below zero v = false
is_power_below (suc n) v = v == 2 ^ n || is_power_below n v

-- `1u64.checked_shl(n)`
abbrev pub checked_shl : ℕ → Option ℕ
checked_shl n = if ltb n 64 then some (2 ^ n) else none

-- The byte as an `i8` is negative from 128 on.
unfoldable pub record_bytes : ℕ → ℕ → Outcome Error ℕ
record_bytes cluster encoded =
    if leb 128 encoded
    then context (checked_shl (256 - encoded)) record_shift
    else context (checked_mul cluster encoded) record_overflow

-- The fields of the boot sector `b` behind the size of a cluster.
unfoldable pub mft_geometry : Bytes → ℕ → ℕ → Outcome Error Geometry
mft_geometry b sector cluster = do
  mft_lcn ← unwrap (u64le b 48)
  encoded ← unwrap (get_elem? b 64)
  size ← record_bytes cluster encoded
  ensure (not (ltb size sector || ltb (64 * 1024) size)) bad_record_size
  sectors ← unwrap (u64le b 40)
  offset ← context (checked_mul mft_lcn cluster) mft_overflow
  ok record {
    declared_bytes = or_zero (checked_mul sectors sector);
    sector = sector;
    cluster = cluster;
    record_size = size;
    mft_offset = offset;
  }

unfoldable pub read_geometry : Bytes → Outcome Error Geometry
read_geometry device = do
  b ← read_exact_at device 0 512
  magic ← unwrap (slice b 3 7)
  ensure (equal magic (b'N' ∷ b'T' ∷ b'F' ∷ b'S' ∷ [])) not_ntfs
  sector ← unwrap (u16le b 11)
  spc ← unwrap (get_elem? b 13)
  ensure (not (not (is_power_below 64 sector) || spc == 0)) bad_geometry
  cluster ← context (checked_mul sector spc) cluster_overflow
  mft_geometry b sector cluster

-- `end` is what seeking to the end returns, if it can.
unfoldable pub device_extent : Option ℕ → ℕ → ℕ → Outcome Error ℕ
device_extent end hint declared =
    let guess =
      if ltb 0 hint then ok hint else if ltb 0 declared then ok declared else err unknown_extent in
    elim end [ none ↦ guess | some n ↦ if ltb 0 n then ok n else guess ]

-- Nothing where the record is not allocated; else its flags, with the record put right.
unfoldable pub prepare_allocated : Bytes → ℕ → Outcome Error (Option ℕ × Bytes)
prepare_allocated rec sector = elim (slice rec 0 4) [
  | none ↦ ok (none, rec)
  | some magic ↦ if not (equal magic (b'F' ∷ b'I' ∷ b'L' ∷ b'E' ∷ [])) then ok (none, rec) else do
    flags ← context (u16le rec 22) allocation_flags
    if bit_and flags 1 == 0
        then ok (none, rec)
        else do rec' ← apply_fixup rec sector; ok (some flags, rec')
]
