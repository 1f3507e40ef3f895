-- ===== src/Ntfs/Fixup/Reported.antt =====
-- `apply_fixup` reads and writes nothing out of range, on any record and sector size.
use neutrasearch.Base.{
  ℕ, zero, suc, ◌+◌, ◌-◌, ◌*◌, ◌/◌, ◌%◌, ◌≤◌, ◌<◌, ◌≡◌, arith, length, length-set, get_elem?-lt,
  set, slice-some, ltb, Bytes, ok, IsReported, ok-IsReported, ensure_step, context_step,
  unwrap_step, >>=-IsReported, equal, if_step, ◌∷◌, [], true,
}
use native.Mathlib.Nat.{div-add-mod'}
use neutrasearch.Ntfs.Words.{u16le}
use neutrasearch.Ntfs.Fixup.{fix_sector, fixup_loop, usa_fits, apply_fixup}

module _ (sig rec : Bytes) (end src : ℕ) (two : 2 ≤ end) (inside : end ≤ length rec) where
  fix_sector-IsReported : src + 1 < length rec → IsReported (fix_sector sig rec end src)
  unfolding fix_sector
  fix_sector-IsReported kept =
      if_step (ltb end 2) (λ small. absurd (ground arith))
        λ _.
          unwrap_step _ (_, slice-some rec (end - 2) end (omega arith) inside)
            λ tail _. ensure_step (equal tail sig) _ λ _.
              unwrap_step _ (get_elem?-lt rec src (omega arith)) λ a _.
                unwrap_step _
                  (get_elem?-lt (set rec (end - 2) a) (src + 1)
                    (omega (arith, length-set rec (end - 2) a)))
                  λ b _. ok-IsReported _

-- A sector that is put right leaves the record as long as it was.
pub length-fix_sector :
    (sig rec : Bytes) (end src : ℕ) {rec' : Bytes}
    → fix_sector sig rec end src ≡ ok rec'
    → length rec' ≡ length rec
unfolding fix_sector
length-fix_sector sig rec end src e = grind (arith, length-set)

fixup_loop-IsReported :
    (rounds i : ℕ) (sig : Bytes) (usa_off sector : ℕ) (rec : Bytes)
    → 2 ≤ sector
    → 1 ≤ i
    → (i + rounds) * sector ≤ length rec + sector
    → usa_off + (i + rounds) * 2 ≤ length rec
    → IsReported (fixup_loop rounds i sig usa_off sector rec)
unfolding fixup_loop
fixup_loop-IsReported zero i sig usa_off sector rec two one sectors array = ok-IsReported _
fixup_loop-IsReported (suc rounds) i sig usa_off sector rec two one sectors array =
    >>=-IsReported (fix_sector sig rec (i * sector) (usa_off + i * 2)) _
      (fix_sector-IsReported sig rec (i * sector) (usa_off + i * 2) (grind arith) (omega arith)
        (omega arith))
      λ rec' e.
        let same = length-fix_sector sig rec (i * sector) (usa_off + i * 2) e in
        fixup_loop-IsReported rounds (i + 1) sig usa_off sector rec' two (omega arith) (omega arith)
          (omega arith)

-- What the guard lets through: sectors of two bytes or more that make up the record, an entry for
-- each behind the signature, and an array inside the record.
pub usa_fits_lem :
    (size sector usa_off count : ℕ)
    → usa_fits size sector usa_off count ≡ true
    → (2 ≤ sector) × (count * sector ≡ size + sector) × (1 ≤ count) × (usa_off + count * 2 ≤ size)
unfolding usa_fits
usa_fits_lem size zero usa_off count e = cc
usa_fits_lem size (suc zero) usa_off count e = ground arith
usa_fits_lem size (suc (suc s)) usa_off count e =
    let sector = suc (suc s) in
    let split : size / sector * sector + size % sector ≡ size = div-add-mod' size sector in
    let parts : (size % sector ≡ 0) × (count ≡ size / sector + 1) × (usa_off + count * 2 ≤ size) =
      ground arith in
    (omega arith, rw parts.1 (omega (arith, parts.0)), omega (arith, parts.1), parts.2)

-- On any record and sector size `apply_fixup` returns a record or reports an error. The sizes that
-- would read before the record, such as sectors of one byte, do not pass its guard.
pub apply_fixup-IsReported : (rec : Bytes) (sector : ℕ) → IsReported (apply_fixup rec sector)
unfolding apply_fixup
apply_fixup-IsReported rec sector = context_step (u16le rec 4) _ λ usa_off _.
    context_step (u16le rec 6) _ λ count _.
      ensure_step (usa_fits (length rec) sector usa_off count) _ λ fits.
        let (two, whole, one, array) = usa_fits_lem (length rec) sector usa_off count fits in
        unwrap_step _ (get_elem?-lt rec usa_off (omega arith)) λ a _.
          unwrap_step _ (get_elem?-lt rec (usa_off + 1) (omega arith)) λ b _.
            fixup_loop-IsReported (count - 1) 1 (a ∷ b ∷ []) usa_off sector rec two (omega arith)
              (let n : 1 + (count - 1) ≡ count = omega arith in rw n (omega arith)) (omega arith)
