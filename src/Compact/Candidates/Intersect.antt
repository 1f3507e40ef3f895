-- ===== src/Compact/Candidates/Intersect.antt =====
-- `intersect` on ascending lists.
use neutrasearch.Base.{
  ℕ, zero, suc, ◌+◌, ◌≤◌, ◌<◌, ◌≡◌, refl, arith, false, List, [], ◌∷◌, length, ltb, Bool, ==_iff,
  ◌∙◌, ◌==◌, ◌&&◌, ◌||◌, inl, inr, Bool-cases,
}
use neutrasearch.Base.Table.{contains}
use neutrasearch.Compact.Candidates.{intersect, intersect_loop}
use neutrasearch.Compact.Postings.RoundTrip.{IsAscending}

contains-below : (b lo : ℕ) (xs : List ℕ) → b < lo → IsAscending lo xs → contains b xs ≡ false
unfolding contains
contains-below b lo [] less up = refl
contains-below b lo (x ∷ xs) less (above, _, up) =
    ground (arith, contains-below b x xs (omega arith) up)

and_comm : (a b : Bool) → (a && b) ≡ (b && a)
and_comm a b = ground arith

both_heads :
    (here in_xs in_ys : Bool) → (here || (in_xs && in_ys)) ≡ ((here || in_xs) && (here || in_ys))
both_heads here in_xs in_ys = ground arith

raise : (lo x : ℕ) (xs : List ℕ) → lo ≤ x → IsAscending x xs → IsAscending lo xs
raise lo x [] h up = tt
raise lo x (y ∷ ys) h (above, small, up) = (omega arith, small, up)

-- Leaving the smaller head out does not matter.
skip_head :
    (b x y : ℕ) (in_xs : Bool) (ys : List ℕ)
    → x < y
    → IsAscending y ys
    → (in_xs && contains b (y ∷ ys)) ≡ ((x == b || in_xs) && contains b (y ∷ ys))
unfolding contains
skip_head b x y in_xs ys less up = elim (Bool-cases (x == b)) [
  | inl here ↦
      let same : x ≡ b = (==_iff x b).0 here in
      let absent : contains b ys ≡ false = contains-below b y ys (omega arith) up in
      let other : (y == b) ≡ false = ground arith in rw (here, absent, other) (ground arith)
  | inr other ↦ rw other refl
]

intersect_loop-contains :
    (b fuel lo lo' : ℕ) (xs ys : List ℕ)
    → length xs + length ys ≤ fuel
    → IsAscending lo xs
    → IsAscending lo' ys
    → contains b (intersect_loop fuel xs ys) ≡ (contains b xs && contains b ys)
unfolding contains intersect_loop
intersect_loop-contains b zero lo lo' [] ys h p q = refl
intersect_loop-contains b zero lo lo' (x ∷ xs) ys h p q = absurd (omega arith)
intersect_loop-contains b (suc fuel) lo lo' [] ys h p q = refl
intersect_loop-contains b (suc fuel) lo lo' (x ∷ xs) [] h p q = ground arith
intersect_loop-contains b (suc fuel) lo lo' (x ∷ xs) (y ∷ ys) h (lx, sx, p) (ly, sy, q) =
    elim (Bool-cases (ltb x y)) [
      | inl less ↦
          rw
            (
              less,
              intersect_loop-contains b fuel x y xs (y ∷ ys) (omega arith) p (omega arith, sy, q),
            )
            (skip_head b x y (contains b xs) ys (ground arith) q)
      | inr more ↦ elim (Bool-cases (ltb y x)) [
        | inl greater ↦
            rw
              (
                more,
                greater,
                intersect_loop-contains b fuel x y (x ∷ xs) ys (omega arith) (omega arith, sx, p) q,
              )
              (and_comm (x == b || contains b xs) (contains b ys)
                ∙ skip_head b y x (contains b ys) xs (ground arith) p
                ∙ and_comm (y == b || contains b ys) (x == b || contains b xs))
        | inr equal ↦
            let same : y ≡ x = ground arith in
            rw (more, equal, intersect_loop-contains b fuel x y xs ys (omega arith) p q, same)
              (both_heads (x == b) (contains b xs) (contains b ys))
      ]
    ]

intersect_loop-IsAscending :
    (fuel lo : ℕ) (xs ys : List ℕ)
    → IsAscending lo xs
    → IsAscending lo ys
    → IsAscending lo (intersect_loop fuel xs ys)
unfolding intersect_loop
intersect_loop-IsAscending zero lo xs ys p q = tt
intersect_loop-IsAscending (suc fuel) lo [] ys p q = tt
intersect_loop-IsAscending (suc fuel) lo (x ∷ xs) [] p q = tt
intersect_loop-IsAscending (suc fuel) lo (x ∷ xs) (y ∷ ys) (lx, sx, p) (ly, sy, q) =
    elim (Bool-cases (ltb x y)) [
      | inl less ↦
          rw less (intersect_loop-IsAscending fuel lo xs (y ∷ ys) (raise lo x xs lx p) (ly, sy, q))
      | inr more ↦ elim (Bool-cases (ltb y x)) [
        | inl greater ↦
            rw (more, greater)
              (intersect_loop-IsAscending fuel lo (x ∷ xs) ys (lx, sx, p) (raise lo y ys ly q))
        | inr equal ↦
            let same : y ≡ x = ground arith in
            rw (more, equal) (lx, sx, intersect_loop-IsAscending fuel x xs ys p (rw same at q))
      ]
    ]

-- On ascending lists `intersect` has just the numbers that are in both.
pub intersect-contains :
    (b : ℕ) (xs ys : List ℕ)
    → IsAscending 0 xs
    → IsAscending 0 ys
    → contains b (intersect xs ys) ≡ (contains b xs && contains b ys)
unfolding intersect
intersect-contains b xs ys p q =
    intersect_loop-contains b (length xs + length ys) 0 0 xs ys (omega arith) p q

-- The result is ascending again.
pub intersect-IsAscending :
    (xs ys : List ℕ) → IsAscending 0 xs → IsAscending 0 ys → IsAscending 0 (intersect xs ys)
unfolding intersect
intersect-IsAscending xs ys p q = intersect_loop-IsAscending (length xs + length ys) 0 xs ys p q
