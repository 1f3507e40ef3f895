-- ===== src/Compact/Candidates/Complete.antt =====
-- `candidate_blocks` leaves out no block that all postings of a query list.
use neutrasearch.Base.{
  ℕ, zero, suc, ◌%◌, ◌+◌, ◌≤◌, ◌<◌, ◌≡◌, refl, arith, Bool, true, false, List, [], ◌∷◌, some,
  length, All, ◌==◌, inl, inr, Bool-cases, Bytes, ok, u32_mod,
}
use native.Mathlib.Nat.{mod-eq_of_lt}
use neutrasearch.Base.Table.{contains}
use neutrasearch.Compact.Postings.{DictEntry, decode_posting}
use neutrasearch.Compact.Postings.RoundTrip.{IsAscending}
use neutrasearch.Compact.Dictionary.{TableView, dict_find}
use neutrasearch.Compact.Candidates.{
  range, find_all, is_empty, intersect, narrow, collect_trigrams, decode_shortest, candidate_blocks,
}
use neutrasearch.Compact.Candidates.Intersect.{intersect-contains, intersect-IsAscending}

-- The posting of `entry` decodes to an ascending list with block `b`.
pub record IsListed (map : Bytes) (b : ℕ) (entry : DictEntry) : Type 0 where
  pub blocks : List ℕ
  pub decoded : decode_posting map entry ≡ ok blocks
  pub up : IsAscending 0 blocks
  pub listed : contains b blocks ≡ true

-- `gram` has an entry, and its posting lists block `b`.
abbrev pub IsIndexed : Bytes → TableView → ℕ → ℕ → Type 0
IsIndexed map dict b gram =
    (entry : DictEntry) × (dict_find map dict gram ≡ some entry) × IsListed map b entry

range-contains : (b i n : ℕ) → i ≤ b → b < i + n → contains b (range i n) ≡ true
unfolding range contains
range-contains b i zero h k = absurd (omega arith)
range-contains b i (suc n) h k = elim (Bool-cases (i == b)) [
  | inl here ↦ rw here refl
  | inr other ↦ rw other (range-contains b (i + 1) n (ground arith) (omega arith))
]

nonempty : (xs : List ℕ) → is_empty xs ≡ false → 1 ≤ length xs
nonempty [] h = cc
nonempty (x ∷ xs) h = omega arith

module _ (map : Bytes) (dict : TableView) (b : ℕ) where
  find_all-IsListed :
      (grams : List ℕ)
      → All (IsIndexed map dict b) grams
      → (entries : List DictEntry) × (find_all map dict grams ≡ some entries)
        × All (IsListed map b) entries
        × (length entries ≡ length grams)
  unfolding find_all
  find_all-IsListed [] h = ([], refl, tt, refl)
  find_all-IsListed (gram ∷ grams) ((entry, found, listed), h) =
      let (entries, all, lists, size) = find_all-IsListed grams h in
      let step : find_all map dict (gram ∷ grams) ≡ some (entry ∷ entries) =
        rw (find_all, found, all) refl in
      (entry ∷ entries, step, (listed, lists), omega (arith, size))

  narrow-contains :
      (left : ℕ) (entries : List DictEntry) (candidates : List ℕ)
      → All (IsListed map b) entries
      → IsAscending 0 candidates
      → contains b candidates ≡ true
      → (cs : List ℕ) × (narrow left map entries candidates ≡ ok cs) × (contains b cs ≡ true)
  unfolding narrow
  narrow-contains zero entries candidates h up here = (candidates, refl, here)
  narrow-contains (suc left) [] candidates h up here = (candidates, refl, here)
  narrow-contains (suc left) (entry ∷ entries) candidates (first, h) up here =
      let both : contains b (intersect candidates first.blocks) ≡ true =
        rw (intersect-contains b candidates first.blocks up first.up, here, first.listed) refl in
      let up' = intersect-IsAscending candidates first.blocks up first.up in
      elim (Bool-cases (is_empty (intersect candidates first.blocks))) [
        | inl empty ↦ (intersect candidates first.blocks, rw (first.decoded, empty) refl, both)
        | inr more ↦
            let (cs, ran, found) =
              narrow-contains left entries (intersect candidates first.blocks) h up' both in
            (cs, rw (first.decoded, more) ran, found)
      ]

decode_shortest-contains :
    (map : Bytes) (b : ℕ) (entries : List DictEntry)
    → 1 ≤ length entries
    → All (IsListed map b) entries
    → (cs : List ℕ) × (decode_shortest map entries ≡ ok cs) × (contains b cs ≡ true)
unfolding decode_shortest
decode_shortest-contains map b [] h k = absurd (omega arith)
decode_shortest-contains map b (entry ∷ entries) h (first, k) = rw first.decoded (
    narrow-contains map record { start = 0; count = 0 } b 2 entries first.blocks k first.up
      first.listed)

module _ (to_lowercase : Bytes → Bytes) (in_hash_order : List ℕ → List ℕ)
    (by_len : List DictEntry → List DictEntry)
    -- What iterating over the set and sorting do: the elements stay, and a sort keeps their number.
    (hash-All : (P : ℕ → Type 0) (xs : List ℕ) → All P xs → All P (in_hash_order xs))
    (sort-All : (P : DictEntry → Type 0) (xs : List DictEntry) → All P xs → All P (by_len xs))
    (length-sort : (xs : List DictEntry) → length (by_len xs) ≡ length xs) where
  -- Where the posting of every trigram of the terms of a query decodes to an ascending list with block
  -- `b`, one of fewer than 2^32 blocks of the index, `candidate_blocks` succeeds and `b` is among its
  -- candidates, whatever the order of the set of grams and of the sort.
  pub candidate_blocks-contains :
      (map : Bytes) (dict : TableView) (blocks b : ℕ) (fold_accents : Bool) (terms : List Bytes)
      → b < blocks
      → blocks < u32_mod
      → All (IsIndexed map dict b) (collect_trigrams to_lowercase terms)
      → (cs : List ℕ) × (candidate_blocks to_lowercase in_hash_order by_len map dict blocks
            fold_accents terms
          ≡ ok cs)
        × (contains b cs ≡ true)
  unfolding candidate_blocks
  candidate_blocks-contains map dict blocks b true terms h small indexed = (
    _,
    refl,
    range-contains b 0 (blocks % u32_mod) (omega arith) (rw (mod-eq_of_lt small) (omega arith)),
  )
  candidate_blocks-contains map dict blocks b false terms h small indexed =
      let grams = in_hash_order (collect_trigrams to_lowercase terms) in
      elim (Bool-cases (is_empty grams)) [
        | inl none_left ↦ (
          _,
          rw none_left refl,
          range-contains b 0 (blocks % u32_mod) (omega arith)
              (rw (mod-eq_of_lt small) (omega arith)),
        )
        | inr some_left ↦
            let (entries, found, lists, size) =
              find_all-IsListed map dict b grams (hash-All _ _ indexed) in
            let (cs, ran, there) =
              decode_shortest-contains map b (by_len entries)
                (omega (arith, length-sort entries, size, nonempty grams some_left))
                (sort-All _ entries lists) in
            (cs, rw (some_left, found) ran, there)
      ]
