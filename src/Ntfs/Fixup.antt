-- ===== src/Ntfs/Fixup.antt =====
-- crates/neutra-ntfs/src/geometry.rs: `apply_fixup`, which checks the update sequence array of a
-- record and puts the bytes back that it stands for. The model returns the record that the source
-- changes in place.
pub mod Reported
pub mod Patches
mod Examples
use neutrasearch.Base.{
  ℕ, zero, suc, ◌+◌, ◌-◌, ◌*◌, ◌/◌, ◌%◌, not, ◌||◌, List, [], ◌∷◌, length, get_elem?, set, slice,
  equal, ltb, ◌==◌, if◌then◌else◌, Bytes, Outcome, ok, err, fault, ◌>>=◌, ◌>>◌, ensure, context,
  unwrap, Bool,
}
use neutrasearch.Ntfs.Error.{Error, usa_offset, usa_count, bad_usa, usa_mismatch}
use neutrasearch.Ntfs.Words.{u16le}

-- The body of the loop for the sector that ends at `end`; `src` is where its two bytes are kept.
pub fix_sector : Bytes → Bytes → ℕ → ℕ → Outcome Error Bytes
fix_sector sig rec end src = if ltb end 2 then fault else do
  tail ← unwrap (slice rec (end - 2) end)
  ensure (equal tail sig) usa_mismatch
  a ← unwrap (get_elem? rec src)
  let rec' = set rec (end - 2) a
  b ← unwrap (get_elem? rec' (src + 1))
  ok (set rec' (end - 1) b)

-- `for i in 1..count`: `rounds` are left, and `i` is the next.
pub fixup_loop : ℕ → ℕ → Bytes → ℕ → ℕ → Bytes → Outcome Error Bytes
fixup_loop zero i sig usa_off sector rec = ok rec
fixup_loop (suc rounds) i sig usa_off sector rec = do
  rec' ← fix_sector sig rec (i * sector) (usa_off + i * 2)
  fixup_loop rounds (i + 1) sig usa_off sector rec'

-- The guard of `apply_fixup`, negated: the array fits the record, an entry for each sector.
pub usa_fits : ℕ → ℕ → ℕ → ℕ → Bool
usa_fits size sector usa_off count = not (
    sector == 0
    || not (size % sector == 0)
    || not (count == size / sector + 1)
    || ltb size (usa_off + count * 2))

unfoldable pub apply_fixup : Bytes → ℕ → Outcome Error Bytes
unfolding usa_fits fixup_loop fix_sector
apply_fixup rec sector = do
  usa_off ← context (u16le rec 4) usa_offset
  count ← context (u16le rec 6) usa_count
  ensure (usa_fits (length rec) sector usa_off count) bad_usa
  a ← unwrap (get_elem? rec usa_off)
  b ← unwrap (get_elem? rec (usa_off + 1))
  fixup_loop (count - 1) 1 (a ∷ b ∷ []) usa_off sector rec
