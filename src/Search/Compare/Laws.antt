-- ===== src/Search/Compare/Laws.antt =====
-- The laws of comparisons, and what preserves them.
use neutrasearch.Base.{
  false, true, ℕ, ◌<◌, [], ◌∷◌, ◌≡◌, refl, sym, ◌∙◌, ap, Bytes, arith, ◌⊎◌, inl, inr,
}
use neutrasearch.Base.Sorting.{IsOrder}
use neutrasearch.Search.Compare.{is_lt, and_then, compare_int, compare_bytes}
use Prim.Native.Nat.{compare, Ordering, lt, eq, gt}
use native.Mathlib.Omega.{compare-lt, compare-eq}
use neutrasearch.Base.Int.{ℤ, pos, negsuc}

abbrev pub reverse : Ordering → Ordering
reverse lt = gt
reverse eq = eq
reverse gt = lt

-- Swapped arguments give the reverse, equal items compare alike, and what is less is transitive.
pub record IsComparison {A : Type 0} (c : A → A → Ordering) : Type 0 where
  pub flip : (a b : A) → c b a ≡ reverse (c a b)
  pub alike : (a b z : A) → c a b ≡ eq → c a z ≡ c b z
  pub transitive : (a b z : A) → c a b ≡ lt → c b z ≡ lt → c a z ≡ lt

pub compare-flip : (a b : ℕ) → compare b a ≡ reverse (compare a b)
compare-flip a b = ground arith

pub compare-less : (a b : ℕ) → a < b → compare a b ≡ lt
compare-less a b h = ground arith

pub compare-IsComparison : IsComparison compare
compare-IsComparison = record {
  flip = compare-flip;
  alike = λ a b z e. ap (λ t. compare t z) (compare-eq a b e);
  transitive = λ a b z h k. compare-less a z (omega (arith, compare-lt a b h, compare-lt b z k));
}

-- The order of the negative numbers is turned round.
pub compare_int-IsComparison : IsComparison compare_int
compare_int-IsComparison = record {
  flip = int-flip;
  alike = int-alike;
  transitive = int-transitive;
}
  where
    int-flip : (a b : ℤ) → compare_int b a ≡ reverse (compare_int a b)
    int-flip (pos a) (pos b) = compare-flip a b
    int-flip (pos a) (negsuc b) = refl
    int-flip (negsuc a) (pos b) = refl
    int-flip (negsuc a) (negsuc b) = compare-flip b a

    int-alike : (a b z : ℤ) → compare_int a b ≡ eq → compare_int a z ≡ compare_int b z
    int-alike (pos a) (pos b) z e = ap (λ t. compare_int (pos t) z) (compare-eq a b e)
    int-alike (pos a) (negsuc b) z e = cc
    int-alike (negsuc a) (pos b) z e = cc
    int-alike (negsuc a) (negsuc b) z e =
        ap (λ t. compare_int (negsuc t) z) (sym (compare-eq b a e))

    int-transitive :
        (a b z : ℤ) → compare_int a b ≡ lt → compare_int b z ≡ lt → compare_int a z ≡ lt
    int-transitive (pos a) (pos b) (pos z) h k = compare-IsComparison.transitive a b z h k
    int-transitive (pos a) (negsuc b) z h k = cc
    int-transitive (pos a) (pos b) (negsuc z) h k = cc
    int-transitive (negsuc a) b (pos z) h k = refl
    int-transitive (negsuc a) (pos b) (negsuc z) h k = cc
    int-transitive (negsuc a) (negsuc b) (negsuc z) h k = compare-IsComparison.transitive z b a k h

reverse-then : (o p : Ordering) → and_then (reverse o) (reverse p) ≡ reverse (and_then o p)
reverse-then lt p = refl
reverse-then eq p = refl
reverse-then gt p = refl

then_eq : (o p : Ordering) → and_then o p ≡ eq → (o ≡ eq) × (p ≡ eq)
then_eq lt p e = cc
then_eq eq p e = (refl, e)
then_eq gt p e = cc

then_lt : (o p : Ordering) → and_then o p ≡ lt → (o ≡ lt) ⊎ ((o ≡ eq) × (p ≡ lt))
then_lt lt p e = inl refl
then_lt eq p e = inr (refl, e)
then_lt gt p e = cc

Ordering-cases : (o : Ordering) → (o ≡ lt) ⊎ ((o ≡ eq) ⊎ (o ≡ gt))
Ordering-cases lt = inl refl
Ordering-cases eq = inr (inl refl)
Ordering-cases gt = inr (inr refl)

module _ {A : Type 0} {c : A → A → Ordering} (laws : IsComparison c) where
  -- What is equal on the right compares alike as well.
  alike_right : (a b z : A) → c b z ≡ eq → c a b ≡ c a z
  alike_right a b z e = laws.flip b a ∙ ap reverse (laws.alike b z a e) ∙ sym (laws.flip z a)

  pub reversed-IsComparison : IsComparison (λ a b. c b a)
  reversed-IsComparison = record {
    flip = λ a b. laws.flip b a;
    alike = λ a b z e. alike_right z a b (laws.flip b a ∙ ap reverse e);
    transitive = λ a b z h k. laws.transitive z b a k h;
  }

  pub on-IsComparison : {B : Type 0} (f : B → A) → IsComparison (λ a b. c (f a) (f b))
  on-IsComparison f = record {
    flip = λ a b. laws.flip (f a) (f b);
    alike = λ a b z. laws.alike (f a) (f b) (f z);
    transitive = λ a b z. laws.transitive (f a) (f b) (f z);
  }

-- The first difference decides.
then_step :
    {A : Type 0} {c : A → A → Ordering} (first : IsComparison c) (a b z : A) (p q r : Ordering)
    → and_then (c a b) p ≡ lt
    → and_then (c b z) q ≡ lt
    → (p ≡ lt → q ≡ lt → r ≡ lt)
    → and_then (c a z) r ≡ lt
then_step {c = c} first a b z p q r h k later = elim (then_lt (c a b) p h) [
  | inl less ↦ elim (then_lt (c b z) q k) [
    | inl less' ↦ rw (first.transitive a b z less less') refl
    | inr (same, k') ↦ rw (← alike_right first a b z same, less) refl
  ]
  | inr (same, h') ↦ elim (then_lt (c b z) q k) [
    | inl less' ↦ rw (first.alike a b z same, less') refl
    | inr (same', k') ↦ rw (first.alike a b z same, same') (later h' k')
  ]
]

module _ {A : Type 0} {c d : A → A → Ordering} (first : IsComparison c)
    (second : IsComparison d) where
  pub then-IsComparison : IsComparison (λ a b. and_then (c a b) (d a b))
  then-IsComparison = record {
    flip = λ a b. rw (first.flip a b, second.flip a b) (reverse-then (c a b) (d a b));
    alike = λ a b z e.
        let (same, same') = then_eq (c a b) (d a b) e in
        rw (first.alike a b z same, second.alike a b z same') refl;
    transitive = λ a b z h k. then_step first a b z _ _ (d a z) h k (second.transitive a b z);
  }

module _ (f : ℕ → ℕ) where
  bytes-flip : (a b : Bytes) → compare_bytes f b a ≡ reverse (compare_bytes f a b)
  unfolding compare_bytes
  bytes-flip [] [] = refl
  bytes-flip [] (y ∷ b) = refl
  bytes-flip (x ∷ a) [] = refl
  bytes-flip (x ∷ a) (y ∷ b) =
      rw (compare-flip (f x) (f y), bytes-flip a b)
        (reverse-then (compare (f x) (f y)) (compare_bytes f a b))

  bytes-alike :
      (a b z : Bytes) → compare_bytes f a b ≡ eq → compare_bytes f a z ≡ compare_bytes f b z
  unfolding compare_bytes
  bytes-alike [] [] z e = refl
  bytes-alike [] (y ∷ b) z e = cc
  bytes-alike (x ∷ a) [] z e = cc
  bytes-alike (x ∷ a) (y ∷ b) [] e = refl
  bytes-alike (x ∷ a) (y ∷ b) (w ∷ z) e =
      let (same, same') = then_eq (compare (f x) (f y)) (compare_bytes f a b) e in
      rw (compare-IsComparison.alike (f x) (f y) (f w) same, bytes-alike a b z same') refl

  bytes-transitive :
      (a b z : Bytes)
      → compare_bytes f a b ≡ lt
      → compare_bytes f b z ≡ lt
      → compare_bytes f a z ≡ lt
  unfolding compare_bytes
  bytes-transitive [] [] z h k = cc
  bytes-transitive [] (y ∷ b) [] h k = cc
  bytes-transitive [] (y ∷ b) (w ∷ z) h k = refl
  bytes-transitive (x ∷ a) [] z h k = cc
  bytes-transitive (x ∷ a) (y ∷ b) [] h k = cc
  bytes-transitive (x ∷ a) (y ∷ b) (w ∷ z) h k =
      then_step compare-IsComparison (f x) (f y) (f w) (compare_bytes f a b) (compare_bytes f b z)
        (compare_bytes f a z) h k (bytes-transitive a b z)

  pub compare_bytes-IsComparison : IsComparison (compare_bytes f)
  compare_bytes-IsComparison = record {
    flip = bytes-flip;
    alike = bytes-alike;
    transitive = bytes-transitive;
  }

module _ {A : Type 0} {c : A → A → Ordering} (laws : IsComparison c) where
  lt_excluded : (o : Ordering) → o ≡ lt → is_lt o ≡ false → ⊥
  lt_excluded lt e h = cc
  lt_excluded eq e h = cc
  lt_excluded gt e h = cc

  less-asymmetric : (a b : A) → is_lt (c a b) ≡ true → is_lt (c b a) ≡ false
  less-asymmetric a b h = rw (laws.flip a b) (elim (Ordering-cases (c a b)) [
    | inl less ↦ rw less refl
    | inr more ↦ elim more [
      | inl same ↦ rw same refl
      | inr greater ↦ let never = rw greater at h in cc
    ]
  ])

  less-comparable :
      (a b z : A) → is_lt (c a b) ≡ false → is_lt (c b z) ≡ false → is_lt (c a z) ≡ false
  less-comparable a b z h k = elim (Ordering-cases (c a z)) [
    | inr (inl same) ↦ rw same refl
    | inr (inr greater) ↦ rw greater refl
    | inl less ↦ elim (Ordering-cases (c a b)) [
      | inl less' ↦ absurd (lt_excluded (c a b) less' h)
      | inr (inl same) ↦ absurd (lt_excluded (c b z) (sym (laws.alike a b z same) ∙ less) k)
      | inr (inr greater) ↦
          absurd (
            lt_excluded (c b z) (laws.transitive b a z (laws.flip a b ∙ ap reverse greater) less) k)
    ]
  ]

  -- What a comparison calls less is a strict order in which items are comparable.
  pub is_lt-IsOrder : IsOrder (λ a b. is_lt (c a b))
  is_lt-IsOrder = record { asymmetric = less-asymmetric; comparable = less-comparable }
