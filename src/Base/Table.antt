-- ===== src/Base/Table.antt =====
-- A `HashMap` with numbers for keys, as an association list: the first entry of a key counts.
use neutrasearch.Base.Tests.{◌==◌, ==_iff, Bool-cases, if◌then◌else◌}
use neutrasearch.Base.Lists.{length}
use Prim.Native.Nat.{ℕ, ◌+◌, ◌≤◌}
use mathlib.Core.Bool.{Bool, false, ◌||◌}
use mathlib.Core.Path.{◌≡◌, refl}
use mathlib.Core.Logic.{inl, inr}
use mathlib.Core.List.{List, [], ◌∷◌}
use mathlib.Core.Option.{Option, none, some}
use native.Mathlib.Omega.{arith}

abbrev pub Table : Type 0 → Type 0
Table V = List (ℕ × V)

-- `HashSet::contains`
unfoldable pub contains : ℕ → List ℕ → Bool
contains k [] = false
contains k (x ∷ xs) = x == k || contains k xs

module _ {V : Type 0} where
  unfoldable pub find : ℕ → Table V → Option V
  find k [] = none
  find k ((j, v) ∷ t) = if j == k then some v else find k t

  unfoldable pub insert : ℕ → V → Table V → Table V
  insert k v [] = (k, v) ∷ []
  insert k v ((j, w) ∷ t) = if j == k then (k, v) ∷ t else (j, w) ∷ insert k v t

  pub find-insert :
      (k j : ℕ) (v : V) (t : Table V)
      → find j (insert k v t) ≡ (if k == j then some v else find j t)
  unfolding find insert
  find-insert k j v [] = refl
  find-insert k j v ((i, w) ∷ t) = ground (arith, find-insert k j v t)

-- The list without `k`.
remove : ℕ → List ℕ → List ℕ
remove k [] = []
remove k (x ∷ xs) = let rest = remove k xs in if x == k then rest else x ∷ rest

abbrev pub IsDistinct : List ℕ → Type 0
IsDistinct [] = Unit
IsDistinct (x ∷ xs) = (contains x xs ≡ false) × IsDistinct xs

module _ {V : Type 0} where
  -- Every number of the list is a key.
  abbrev pub AreKeys : List ℕ → Table V → Type 0
  AreKeys [] t = Unit
  AreKeys (x ∷ xs) t = ((v : V) × (find x t ≡ some v)) × AreKeys xs t

contains-remove : (k x : ℕ) (xs : List ℕ) → contains x xs ≡ false → contains x (remove k xs) ≡ false
unfolding contains remove
contains-remove k x [] h = refl
contains-remove k x (y ∷ ys) h = ground (arith, contains-remove k x ys)

remove-IsDistinct : (k : ℕ) (xs : List ℕ) → IsDistinct xs → IsDistinct (remove k xs)
unfolding remove
remove-IsDistinct k [] h = tt
remove-IsDistinct k (x ∷ xs) h = elim (Bool-cases (x == k)) [
  | inl same ↦ rw same (remove-IsDistinct k xs h.1)
  | inr other ↦ rw other (contains-remove k x xs h.0, remove-IsDistinct k xs h.1)
]

length-remove_absent :
    (k : ℕ) (xs : List ℕ) → contains k xs ≡ false → length (remove k xs) ≡ length xs
unfolding remove contains
length-remove_absent k [] h = refl
length-remove_absent k (x ∷ xs) h = ground (arith, length-remove_absent k xs)

length-remove : (k : ℕ) (xs : List ℕ) → IsDistinct xs → length xs ≤ length (remove k xs) + 1
unfolding remove
length-remove k [] h = omega arith
length-remove k (x ∷ xs) h = elim (Bool-cases (x == k)) [
  | inl same ↦
      let absent : contains k xs ≡ false = rw (← (==_iff x k).0 same) h.0 in
      rw same (omega (arith, length-remove_absent k xs absent))
  | inr other ↦ rw other (omega (arith, length-remove k xs h.1))
]

module _ {V : Type 0} where
  remove-AreKeys :
      (k : ℕ) (v : V) (xs : List ℕ) (t : Table V)
      → AreKeys xs ((k, v) ∷ t)
      → AreKeys (remove k xs) t
  unfolding remove find
  remove-AreKeys k v [] t h = tt
  remove-AreKeys k v (x ∷ xs) t h = elim (Bool-cases (x == k)) [
    | inl same ↦ rw same (remove-AreKeys k v xs t h.1)
    | inr other ↦
        let (w, e) = h.0 in rw other ((w, ground (arith, ==_iff x k)), remove-AreKeys k v xs t h.1)
  ]

  -- Distinct keys are at most as many as the entries.
  pub length-le_of_keys :
      (xs : List ℕ) (t : Table V) → IsDistinct xs → AreKeys xs t → length xs ≤ length t
  unfolding find
  length-le_of_keys [] t d h = omega arith
  length-le_of_keys (x ∷ xs) [] d h = cc h.0.1
  length-le_of_keys (x ∷ xs) ((k, v) ∷ t) d h = omega (
    arith,
    length-remove k (x ∷ xs) d,
    length-le_of_keys (remove k (x ∷ xs)) t (remove-IsDistinct k (x ∷ xs) d)
        (remove-AreKeys k v (x ∷ xs) t h),
  )
