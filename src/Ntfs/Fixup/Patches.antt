-- ===== src/Ntfs/Fixup/Patches.antt =====
-- What `apply_fixup` does to a record whose array stands in front of the first sector's last bytes.
use neutrasearch.Base.{
  ℕ, zero, suc, ◌+◌, ◌-◌, ◌*◌, ◌≤◌, ◌<◌, ◌≡◌, ◌≢◌, ◌∙◌, sym, arith, length, length-set, get_elem?,
  get_elem?-set_self, get_elem?-set_ne, set, slice, slice_inside, ltb, Bytes, ok, [], ◌∷◌, some,
  equal, equal_iff, ok-injective, ℕ_discrete, Bool-cases, unwrap_ok, ensure_ok, >>=-eq-ok, ltb→ge,
  drop, take, inr, inl,
}
use neutrasearch.Ntfs.Words.{u16le}
use neutrasearch.Ntfs.Fixup.{fix_sector, fixup_loop, usa_fits, apply_fixup}
use neutrasearch.Ntfs.Fixup.Reported.{usa_fits_lem}

-- The sector that ends at `end` held the signature `x`, `y`, and holds the two bytes from `src` instead.
pub record IsFixed (x y : ℕ) (rec rec' : Bytes) (end src : ℕ) : Type 0 where
  pub signed : (get_elem? rec (end - 2) ≡ some x) × (get_elem? rec (end - 1) ≡ some y)
  pub first : get_elem? rec' (end - 2) ≡ get_elem? rec src
  pub second : get_elem? rec' (end - 1) ≡ get_elem? rec (src + 1)

abbrev pub IsSame : Bytes → Bytes → ℕ → Type 0
IsSame rec rec' j = get_elem? rec' j ≡ get_elem? rec j

take_pair :
    (lo : ℕ) (xs : Bytes) (x y : ℕ)
    → x ∷ y ∷ [] ≡ take 2 (drop lo xs)
    → (get_elem? xs lo ≡ some x) × (get_elem? xs (suc lo) ≡ some y)
take_pair zero [] x y e = cc
take_pair zero (a ∷ []) x y e = cc
take_pair zero (a ∷ b ∷ xs) x y e = (cc, cc)
take_pair (suc lo) [] x y e = cc
take_pair (suc lo) (a ∷ xs) x y e = take_pair lo xs x y e

slice_pair :
    (end : ℕ) (rec : Bytes) (x y : ℕ)
    → 2 ≤ end
    → slice rec (end - 2) end ≡ some (x ∷ y ∷ [])
    → (get_elem? rec (end - 2) ≡ some x) × (get_elem? rec (end - 1) ≡ some y)
slice_pair end rec x y two cut =
    let width : end - (end - 2) ≡ 2 = omega arith in
    let next : suc (end - 2) ≡ end - 1 = omega arith in
    rw next at (take_pair (end - 2) rec x y (rw width at ((slice_inside rec (end - 2) end cut).0)))

module _ (x y : ℕ) (rec : Bytes) (end src : ℕ) {rec' : Bytes}
    (ran : fix_sector (x ∷ y ∷ []) rec end src ≡ ok rec') where
  abbrev sig : Bytes
  sig = x ∷ y ∷ []

  -- The steps that a successful round took.
  round :
      (a b : ℕ) × (get_elem? rec src ≡ some a)
      × (get_elem? (set rec (end - 2) a) (src + 1) ≡ some b)
      × (rec' ≡ set (set rec (end - 2) a) (end - 1) b)
      × (slice rec (end - 2) end ≡ some sig)
      × (2 ≤ end)
  unfolding fix_sector
  round = elim (Bool-cases (ltb end 2)) [
    | inl small ↦ cc (rw small at ran)
    | inr two ↦
        let (tail, cut, e1) = unwrap_ok (slice rec (end - 2) end) _ (rw two at ran) in
        let (signed, e2) = ensure_ok (equal tail sig) _ _ e1 in
        let (a, ea, e3) = unwrap_ok (get_elem? rec src) _ e2 in
        let (b, eb, e4) = unwrap_ok (get_elem? (set rec (end - 2) a) (src + 1)) _ e3 in
        (
          a,
          b,
          ea,
          eb,
          sym (ok-injective e4),
          rw ((equal_iff tail sig).0 signed) at cut,
          ltb→ge end 2 two,
        )
  ]

  fix_sector-rest : (j : ℕ) → j ≢ end - 2 → j ≢ end - 1 → IsSame rec rec' j
  fix_sector-rest j n m =
      let (a, b, ea, eb, same, signed, two) = round in
      rw same (
        get_elem?-set_ne (set rec (end - 2) a) (end - 1) j b (λ e. m (sym e))
        ∙ get_elem?-set_ne rec (end - 2) j a (λ e. n (sym e)))

  fix_sector-IsFixed : src + 3 < end → IsFixed x y rec rec' end src
  fix_sector-IsFixed before =
      let (a, b, ea, eb, same, signed, two) = round in
      let inside = slice_inside rec (end - 2) end signed in
      record {
        signed = slice_pair end rec x y two signed;
        first = rw same (
            get_elem?-set_ne (set rec (end - 2) a) (end - 1) (end - 2) b (omega arith)
            ∙ get_elem?-set_self rec (end - 2) a (omega (arith, inside.2))
            ∙ sym ea);
        second = rw same (
            get_elem?-set_self (set rec (end - 2) a) (end - 1) b
              (omega (arith, inside.2, length-set rec (end - 2) a))
            ∙ sym eb
            ∙ get_elem?-set_ne rec (end - 2) (src + 1) a (omega arith));
      }

-- `rec'` is `rec` with the sectors from the `i`th up to the `n`th put right, and nothing else changed.
pub record IsPatched (x y : ℕ) (rec rec' : Bytes) (usa_off sector i n : ℕ) : Type 0 where
  pub fixed : (k : ℕ) → i ≤ k → k < n → IsFixed x y rec rec' (k * sector) (usa_off + k * 2)
  pub kept :
      (j : ℕ)
      → ((k : ℕ) → i ≤ k → k < n → (j ≢ k * sector - 2) × (j ≢ k * sector - 1))
      → IsSame rec rec' j

later_end : (i m s : ℕ) → i + 1 ≤ m → i * s + s ≤ m * s
later_end i m s lt = grind arith

-- The ends of two sectors lie a sector apart.
apart : (i m s : ℕ) → i + 1 ≤ m → 1 ≤ i → 4 ≤ s → (i * s - 2 ≢ m * s - 2) × (i * s - 2 ≢ m * s - 1)
apart i m s lt one four = let far = later_end i m s lt in (λ e. omega arith, λ e. omega arith)

apart_last :
    (i m s : ℕ) → i + 1 ≤ m → 1 ≤ i → 4 ≤ s → (i * s - 1 ≢ m * s - 2) × (i * s - 1 ≢ m * s - 1)
apart_last i m s lt one four = let far = later_end i m s lt in (λ e. omega arith, λ e. omega arith)

fixup_loop-IsPatched :
    (rounds i n : ℕ) (x y : ℕ) (usa_off sector : ℕ) (rec : Bytes) {rec' : Bytes}
    → n ≡ i + rounds
    → 1 ≤ i
    → usa_off + n * 2 + 2 ≤ sector
    → fixup_loop rounds i (x ∷ y ∷ []) usa_off sector rec ≡ ok rec'
    → IsPatched x y rec rec' usa_off sector i n
unfolding fixup_loop
fixup_loop-IsPatched zero i n x y usa_off sector rec e one small ran = record {
  fixed = λ k low high. absurd (omega arith);
  kept = λ j away. rw (ok-injective ran);
}
fixup_loop-IsPatched (suc rounds) i n x y usa_off sector rec {rec'} e one small ran =
    let (mid, head, rest) =
      >>=-eq-ok (fix_sector (x ∷ y ∷ []) rec (i * sector) (usa_off + i * 2)) _ ran in
    let later =
      fixup_loop-IsPatched rounds (i + 1) n x y usa_off sector mid (omega arith) (omega arith) small
        rest in
    let here = fix_sector-IsFixed x y rec (i * sector) (usa_off + i * 2) head (grind arith) in
    let before = fix_sector-rest x y rec (i * sector) (usa_off + i * 2) head in
    record {
      fixed = λ k low high. elim (ℕ_discrete k i) [
        | yes same ↦ rw same (record {
          signed = here.signed;
          first =
              later.kept (i * sector - 2) (λ m lo hi. apart i m sector lo one (omega arith))
              ∙ here.first;
          second =
              later.kept (i * sector - 1) (λ m lo hi. apart_last i m sector lo one (omega arith))
              ∙ here.second;
        })
        | no other ↦
            let f = later.fixed k (omega arith) high in
            let far = later_end i k sector (omega arith) in
            let first_end = later_end 0 i sector one in
            record {
              signed = (
                sym (before (k * sector - 2) (λ e. omega arith) (λ e. omega arith)) ∙ f.signed.0,
                sym (before (k * sector - 1) (λ e. omega arith) (λ e. omega arith)) ∙ f.signed.1,
              );
              first = f.first ∙ before (usa_off + k * 2) (λ e. omega arith) (λ e. omega arith);
              second =
                  f.second ∙ before (usa_off + k * 2 + 1) (λ e. omega arith) (λ e. omega arith);
            }
      ];
      kept = λ j away.
          later.kept j (λ m lo hi. away m (omega arith) hi)
          ∙ before j (away i (omega arith) (omega arith)).0 (away i (omega arith) (omega arith)).1;
    }

-- Where the array ends in front of the last two bytes of the first sector, a record that
-- `apply_fixup` accepts held the signature at the end of each sector; the result has there, two by
-- two, the bytes that the array keeps, and every other byte as it was.
pub apply_fixup-IsPatched :
    (rec : Bytes) (sector usa_off count x y : ℕ) {rec' : Bytes}
    → u16le rec 4 ≡ some usa_off
    → u16le rec 6 ≡ some count
    → get_elem? rec usa_off ≡ some x
    → get_elem? rec (usa_off + 1) ≡ some y
    → usa_off + count * 2 + 2 ≤ sector
    → apply_fixup rec sector ≡ ok rec'
    → IsPatched x y rec rec' usa_off sector 1 count × (count * sector ≡ length rec + sector)
unfolding apply_fixup
apply_fixup-IsPatched rec sector usa_off count x y off n first second small ran =
    let (fits, e) =
      ensure_ok (usa_fits (length rec) sector usa_off count) _ _
        (rw (off, n, first, second) at ran) in
    let (two, whole, one, array) = usa_fits_lem (length rec) sector usa_off count fits in
    (
      fixup_loop-IsPatched (count - 1) 1 count x y usa_off sector rec (omega arith) (omega arith)
          small e,
      whole,
    )
