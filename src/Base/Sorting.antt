-- ===== src/Base/Sorting.antt =====
-- Sorting by a Boolean comparison, and lists with the same items.
use mathlib.Core.Path.{◌≡◌, refl, ◌∙◌, sym}
use mathlib.Core.Logic.{inl, inr}
use mathlib.Core.Bool.{Bool, true, false}
use mathlib.Core.List.{List, [], ◌∷◌, ◌++◌}
use Prim.Native.Nat.{ℕ, ◌+◌}
use native.Mathlib.Omega.{arith}
use neutrasearch.Base.Tests.{if◌then◌else◌, Bool-cases}
use neutrasearch.Base.Lists.{All, length}

module _ {A : Type 0} where
  -- The number of the items that pass a test.
  unfoldable pub count : (A → Bool) → List A → ℕ
  count p [] = 0
  count p (x ∷ xs) = let rest = count p xs in if p x then rest + 1 else rest

  -- The lists have the same items, each as often.
  abbrev pub HaveSameItems : List A → List A → Type 0
  HaveSameItems xs ys = (p : A → Bool) → count p xs ≡ count p ys

  pub count-append : (p : A → Bool) (xs ys : List A) → count p (xs ++ ys) ≡ count p xs + count p ys
  unfolding count
  count-append p [] ys = omega arith
  count-append p (x ∷ xs) ys = elim (Bool-cases (p x)) [
    | inl counts ↦ rw (count, counts) (omega (arith, count-append p xs ys))
    | inr passed ↦ rw (count, passed) (count-append p xs ys)
  ]

  pub count-all : (xs : List A) → count (λ x. true) xs ≡ length xs
  unfolding count
  count-all [] = refl
  count-all (x ∷ xs) = omega (arith, count-all xs)

  pub HaveSameItems-length : (xs ys : List A) → HaveSameItems xs ys → length xs ≡ length ys
  HaveSameItems-length xs ys same = sym (count-all xs) ∙ same (λ x. true) ∙ count-all ys

  module _ (less : A → A → Bool) where
    -- `less` is a strict order in which items are comparable.
    pub record IsOrder : Type 0 where
      pub asymmetric : (a b : A) → less a b ≡ true → less b a ≡ false
      pub comparable : (a b c : A) → less a b ≡ false → less b c ≡ false → less a c ≡ false

    -- An item goes behind those that it is less than.
    unfoldable pub insert_by : A → List A → List A
    insert_by x [] = x ∷ []
    insert_by x (y ∷ ys) = let later = insert_by x ys in if less x y then y ∷ later else x ∷ y ∷ ys

    -- A stable sort that puts the greatest item first.
    unfoldable pub sort_by : List A → List A
    sort_by [] = []
    sort_by (x ∷ xs) = insert_by x (sort_by xs)

    abbrev pub AreDescending : List A → Type 0
    AreDescending [] = Unit
    AreDescending (x ∷ xs) = All (λ (y : A). less x y ≡ false) xs × AreDescending xs

    pub count-insert_by :
        (p : A → Bool) (x : A) (ys : List A) → count p (insert_by x ys) ≡ count p (x ∷ ys)
    unfolding count insert_by
    count-insert_by p x [] = refl
    count-insert_by p x (y ∷ ys) = elim (Bool-cases (less x y)) [
      | inl before ↦ rw (insert_by, before) (ground (arith, count-insert_by p x ys))
      | inr after ↦ rw (insert_by, after) refl
    ]

    pub sort_by-HaveSameItems : (xs : List A) → HaveSameItems (sort_by xs) xs
    unfolding sort_by count
    sort_by-HaveSameItems [] p = refl
    sort_by-HaveSameItems (x ∷ xs) p =
        count-insert_by p x (sort_by xs) ∙ ground (arith, sort_by-HaveSameItems xs p)

    pub All-insert_by :
        (P : A → Type 0) (x : A) (ys : List A) → P x → All P ys → All P (insert_by x ys)
    unfolding insert_by
    All-insert_by P x [] h all = (h, tt)
    All-insert_by P x (y ∷ ys) h (here, all) = elim (Bool-cases (less x y)) [
      | inl before ↦ rw (insert_by, before) (here, All-insert_by P x ys h all)
      | inr after ↦ rw (insert_by, after) (h, (here, all))
    ]

    pub All-sort_by : (P : A → Type 0) (xs : List A) → All P xs → All P (sort_by xs)
    unfolding sort_by
    All-sort_by P [] all = tt
    All-sort_by P (x ∷ xs) (here, all) = All-insert_by P x (sort_by xs) here (All-sort_by P xs all)

    module _ (order : IsOrder) where
      pub All-not_less :
          (a b : A) (ys : List A)
          → less a b ≡ false
          → All (λ (y : A). less b y ≡ false) ys
          → All (λ (y : A). less a y ≡ false) ys
      All-not_less a b [] h all = tt
      All-not_less a b (y ∷ ys) h (here, all) =
          (order.comparable a b y h here, All-not_less a b ys h all)

      pub insert_by-AreDescending :
          (x : A) (ys : List A) → AreDescending ys → AreDescending (insert_by x ys)
      unfolding insert_by
      insert_by-AreDescending x [] sorted = (tt, tt)
      insert_by-AreDescending x (y ∷ ys) (first, sorted) = elim (Bool-cases (less x y)) [
        | inl before ↦
            rw (insert_by, before)
              (
                All-insert_by (λ (z : A). less y z ≡ false) x ys (order.asymmetric x y before)
                    first,
                insert_by-AreDescending x ys sorted,
              )
        | inr after ↦
            rw (insert_by, after) ((after, All-not_less x y ys after first), (first, sorted))
      ]

      pub sort_by-AreDescending : (xs : List A) → AreDescending (sort_by xs)
      unfolding sort_by
      sort_by-AreDescending [] = tt
      sort_by-AreDescending (x ∷ xs) =
          insert_by-AreDescending x (sort_by xs) (sort_by-AreDescending xs)

pub flip-IsOrder : {A : Type 0} (less : A → A → Bool) → IsOrder less → IsOrder (λ a b. less b a)
flip-IsOrder less order = record {
  asymmetric = λ a b. order.asymmetric b a;
  comparable = λ a b c h k. order.comparable c b a k h;
}
