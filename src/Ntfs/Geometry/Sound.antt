-- ===== src/Ntfs/Geometry/Sound.antt =====
-- What a boot sector that `read_geometry` accepts says, and that neither it nor `prepare_allocated`
-- faults.
use neutrasearch.Base.{
  ℕ, zero, suc, ◌-◌, ◌*◌, ◌%◌, ◌^◌, ◌≤◌, ◌<◌, ◌≡◌, arith, bit_and, true, not, ◌||◌, [], ◌∷◌, some,
  none, length-slice, get_elem?, get_elem?-lt, slice, slice-some, equal, ltb, leb, ◌==◌, ==_iff,
  Bytes, ok, inl, inr, Bool-cases, Option-cases, checked_mul, ok-injective, IsReported,
  err-IsReported, Option, checked_mul-some, ok-IsReported, >>=-IsReported, ensure_step,
  context_step, unwrap_step, if_step, ensure_ok, context_ok, unwrap_ok, >>=-eq-ok, refl, ap, sym,
  ◌∙◌, context, length, Bool,
}
use mathlib.Core.Path.{subst}
use native.Mathlib.Nat.{mul-mod_left}
use neutrasearch.Ntfs.Error.{Error, record_shift, record_overflow}
use neutrasearch.Ntfs.Words.{u16le, u64le}
use neutrasearch.Ntfs.Words.Value.{u16le-some, u64le-some}
use neutrasearch.Ntfs.Fixup.{apply_fixup}
use neutrasearch.Ntfs.Fixup.Reported.{apply_fixup-IsReported}
use neutrasearch.Ntfs.Geometry.{
  Geometry, read_exact_at, is_power_below, checked_shl, record_bytes, read_geometry, mft_geometry,
  prepare_allocated,
}

is_power_below-pow : (n v : ℕ) → is_power_below n v ≡ true → (k : ℕ) × (k < n) × (v ≡ 2 ^ k)
unfolding is_power_below
is_power_below-pow zero v h = cc
is_power_below-pow (suc n) v h = elim (Bool-cases (v == 2 ^ n)) [
  | inl here ↦ (n, omega arith, (==_iff v (2 ^ n)).0 here)
  | inr other ↦
      let (k, less, same) = is_power_below-pow n v (rw other at h) in (k, omega arith, same)
]

-- Sectors of a power of two, whole sectors in a cluster, a record of a sector at least and 64 KiB at
-- most, and an MFT that starts at a cluster.
pub record IsGeometry (g : Geometry) : Type 0 where
  pub power : (k : ℕ) × (k < 64) × (g.sector ≡ 2 ^ k)
  pub whole : (n : ℕ) × (1 ≤ n) × (g.cluster ≡ g.sector * n)
  pub record_fits : (g.sector ≤ g.record_size) × (g.record_size ≤ 64 * 1024)
  pub aligned : g.mft_offset % g.cluster ≡ 0

-- What the two guards let through.
shape_guard :
    (power : Bool) (spc : ℕ) → not (not power || spc == 0) ≡ true → (power ≡ true) × (1 ≤ spc)
shape_guard power spc h = ground arith

size_guard :
    (sector bytes : ℕ)
    → not (ltb bytes sector || ltb (64 * 1024) bytes) ≡ true
    → (sector ≤ bytes) × (bytes ≤ 64 * 1024)
size_guard sector bytes h = ground arith

context-IsReported : {A : Type 0} (o : Option A) (e : Error) → IsReported (context o e)
context-IsReported none e = err-IsReported e
context-IsReported (some a) e = ok-IsReported a

record_bytes-IsReported : (cluster encoded : ℕ) → IsReported (record_bytes cluster encoded)
unfolding record_bytes
record_bytes-IsReported cluster encoded =
    if_step (leb 128 encoded) (λ _. context-IsReported (checked_shl (256 - encoded)) record_shift)
      (λ _. context-IsReported (checked_mul cluster encoded) record_overflow)

module _ (b : Bytes) (size : length b ≡ 512) (sector cluster : ℕ) where
  mft_geometry-IsReported : IsReported (mft_geometry b sector cluster)
  unfolding mft_geometry
  mft_geometry-IsReported = unwrap_step _ (u64le-some b 48 (omega arith)) λ mft_lcn _.
      unwrap_step _ (get_elem?-lt b 64 (omega arith)) λ encoded _.
        >>=-IsReported (record_bytes cluster encoded) _ (record_bytes-IsReported cluster encoded)
          λ bytes _. ensure_step (not (ltb bytes sector || ltb (64 * 1024) bytes)) _ λ _.
            unwrap_step _ (u64le-some b 40 (omega arith))
              λ sectors _. context_step (checked_mul mft_lcn cluster) _ λ offset _. ok-IsReported _

-- On any device `read_geometry` returns a geometry or reports an error.
pub read_geometry-IsReported : (device : Bytes) → IsReported (read_geometry device)
unfolding read_geometry read_exact_at
read_geometry-IsReported device = context_step (slice device 0 512) _ λ b cut.
    let size : length b ≡ 512 = omega (arith, length-slice device 0 512 cut) in
    unwrap_step _ (_, slice-some b 3 7 (omega arith) (omega arith))
      λ magic _. ensure_step (equal magic (b'N' ∷ b'T' ∷ b'F' ∷ b'S' ∷ [])) _ λ _.
        unwrap_step _ (u16le-some b 11 (omega arith)) λ sector _.
          unwrap_step _ (get_elem?-lt b 13 (omega arith)) λ spc _.
            ensure_step (not (not (is_power_below 64 sector) || spc == 0)) _ λ _.
              context_step (checked_mul sector spc) _
                λ cluster _. mft_geometry-IsReported b size sector cluster

-- What the second half returns.
record IsMft (sector cluster : ℕ) (g : Geometry) : Type 0 where
  same_sector : g.sector ≡ sector
  same_cluster : g.cluster ≡ cluster
  fits : (g.sector ≤ g.record_size) × (g.record_size ≤ 64 * 1024)
  start : g.mft_offset % g.cluster ≡ 0

mft_geometry-IsMft :
    (b : Bytes) (sector cluster : ℕ) {g : Geometry}
    → mft_geometry b sector cluster ≡ ok g
    → IsMft sector cluster g
unfolding mft_geometry
mft_geometry-IsMft b sector cluster {g} ran =
    let (mft_lcn, _, e8) = unwrap_ok (u64le b 48) _ ran in
    let (encoded, _, e9) = unwrap_ok (get_elem? b 64) _ e8 in
    let (bytes, _, e10) = >>=-eq-ok (record_bytes cluster encoded) _ e9 in
    let (bounds, e11) = ensure_ok (not (ltb bytes sector || ltb (64 * 1024) bytes)) _ _ e10 in
    let (sectors, _, e12) = unwrap_ok (u64le b 40) _ e11 in
    let (offset, start, e13) = context_ok (checked_mul mft_lcn cluster) _ _ e12 in
    let at : offset ≡ mft_lcn * cluster = (checked_mul-some mft_lcn cluster start).0 in
    subst (IsMft sector cluster) (ok-injective e13) record {
      same_sector = refl;
      same_cluster = refl;
      fits = size_guard sector bytes bounds;
      start = rw at (mul-mod_left mft_lcn cluster);
    }

-- A geometry that `read_geometry` returns has sectors of a power of two, a whole number of them in a
-- cluster, a record of one sector at least and of 64 KiB at most, and an MFT that starts at a cluster.
pub read_geometry-IsGeometry :
    (device : Bytes) {g : Geometry} → read_geometry device ≡ ok g → IsGeometry g
unfolding read_geometry read_exact_at
read_geometry-IsGeometry device {g} ran =
    let (b, _, e1) = context_ok (slice device 0 512) _ _ ran in
    let (magic, _, e2) = unwrap_ok (slice b 3 7) _ e1 in
    let (_, e3) = ensure_ok (equal magic (b'N' ∷ b'T' ∷ b'F' ∷ b'S' ∷ [])) _ _ e2 in
    let (sector, _, e4) = unwrap_ok (u16le b 11) _ e3 in
    let (spc, _, e5) = unwrap_ok (get_elem? b 13) _ e4 in
    let (shape, e6) = ensure_ok (not (not (is_power_below 64 sector) || spc == 0)) _ _ e5 in
    let (cluster, product, e7) = context_ok (checked_mul sector spc) _ _ e6 in
    let (power, some_sectors) = shape_guard (is_power_below 64 sector) spc shape in
    let (k, below, is_power) = is_power_below-pow 64 sector power in
    let whole = (checked_mul-some sector spc product).0 in
    let mft = mft_geometry-IsMft b sector cluster e7 in
    record {
      power = (k, below, mft.same_sector ∙ is_power);
      whole = (
        spc,
        some_sectors,
        mft.same_cluster ∙ whole ∙ ap (λ (t : ℕ). t * spc) (sym mft.same_sector),
      );
      record_fits = mft.fits;
      aligned = mft.start;
    }

-- On any record and sector size `prepare_allocated` returns or reports an error.
prepare_allocated-IsReported :
    (rec : Bytes) (sector : ℕ) → IsReported (prepare_allocated rec sector)
unfolding prepare_allocated
prepare_allocated-IsReported rec sector = elim (Option-cases (slice rec 0 4)) [
  | inl short ↦ rw (prepare_allocated, short) (ok-IsReported _)
  | inr (magic, cut) ↦
      rw (prepare_allocated, cut)
        (if_step (not (equal magic (b'F' ∷ b'I' ∷ b'L' ∷ b'E' ∷ []))) (λ _. ok-IsReported _)
          λ _. context_step (u16le rec 22) _ λ flags _.
            if_step (bit_and flags 1 == 0) (λ _. ok-IsReported _)
              λ _.
                >>=-IsReported (apply_fixup rec sector) _ (apply_fixup-IsReported rec sector)
                  λ rec' _. ok-IsReported _)
]
