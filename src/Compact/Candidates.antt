-- ===== src/Compact/Candidates.antt =====
-- `candidate_blocks` of crates/neutra-core/src/compact/search.rs, with `collect_trigrams` and
-- `intersect` of compact/domain.rs: the blocks that a query has to decode.
--
-- `to_lowercase` is the case fold of the standard library, `in_hash_order` the order in which a
-- `HashSet` of these numbers iterates, and `by_len` its unstable sort by the length of the posting.
pub mod Intersect
pub mod Complete
mod Examples
use neutrasearch.Base.{
  ℕ, zero, suc, ◌+◌, ◌*◌, ◌%◌, ◌^◌, Bool, true, false, List, [], ◌∷◌, ◌++◌, Option, none, some,
  length, ltb, if◌then◌else◌, Bytes, Outcome, ok, fault, ◌>>=◌, u32_mod, bit_or,
}
use neutrasearch.Compact.Codec.{Invalid}
use neutrasearch.Compact.Postings.{DictEntry, decode_posting}
use neutrasearch.Compact.Dictionary.{TableView, dict_find}

-- `windows(3)`, each as a number.
unfoldable pub trigrams : Bytes → List ℕ
trigrams (a ∷ b ∷ c ∷ rest) =
    bit_or (bit_or (a * 2 ^ 16 % u32_mod) (b * 2 ^ 8 % u32_mod)) c ∷ trigrams (b ∷ c ∷ rest)
trigrams _ = []

-- `a` and `b` stand for what is left of the two slices.
unfoldable pub intersect_loop : ℕ → List ℕ → List ℕ → List ℕ
intersect_loop (suc fuel) (x ∷ a) (y ∷ b) =
    let less = intersect_loop fuel a (y ∷ b) in
    let greater = intersect_loop fuel (x ∷ a) b in
    let equal = intersect_loop fuel a b in
    if ltb x y then less else if ltb y x then greater else x ∷ equal
intersect_loop _ _ _ = []

-- Each round takes a number from one list or from both.
unfoldable pub intersect : List ℕ → List ℕ → List ℕ
intersect a b = intersect_loop (length a + length b) a b

-- `0..n`, from `i` on.
unfoldable pub range : ℕ → ℕ → List ℕ
range i zero = []
range i (suc n) = i ∷ range (i + 1) n

-- `for gram in grams`; nothing where a gram has no entry.
unfoldable pub find_all : Bytes → TableView → List ℕ → Option (List DictEntry)
find_all map dict [] = some []
find_all map dict (gram ∷ grams) = elim (dict_find map dict gram) [
  | none ↦ none
  | some entry ↦ elim (find_all map dict grams) [
    | none ↦ none
    | some entries ↦ some (entry ∷ entries)
  ]
]

abbrev pub is_empty : List ℕ → Bool
is_empty [] = true
is_empty (x ∷ xs) = false

-- `for entry in entries.into_iter().skip(1).take(2)`, with `left` to take.
unfoldable pub narrow : ℕ → Bytes → List DictEntry → List ℕ → Outcome Invalid (List ℕ)
narrow (suc left) map (entry ∷ entries) candidates = do
  right ← decode_posting map entry
  let candidates' = intersect candidates right
  if is_empty candidates' then ok candidates' else narrow left map entries candidates'
narrow _ map _ candidates = ok candidates

unfoldable pub collect_trigrams : (Bytes → Bytes) → List Bytes → List ℕ
collect_trigrams to_lowercase [] = []
collect_trigrams to_lowercase (term ∷ terms) =
    trigrams (to_lowercase term) ++ collect_trigrams to_lowercase terms

-- `entries[0]` and what follows it.
unfoldable pub decode_shortest : Bytes → List DictEntry → Outcome Invalid (List ℕ)
decode_shortest map [] = fault
decode_shortest map (entry ∷ entries) = do
  candidates ← decode_posting map entry
  narrow 2 map entries candidates

module _ (to_lowercase : Bytes → Bytes) (in_hash_order : List ℕ → List ℕ)
    (by_len : List DictEntry → List DictEntry) where
  -- A query is its terms and whether it folds accents; `blocks` is the number of blocks.
  unfoldable pub candidate_blocks :
      Bytes → TableView → ℕ → Bool → List Bytes → Outcome Invalid (List ℕ)
  candidate_blocks map dict blocks fold_accents terms =
      let all = range 0 (blocks % u32_mod) in
      let grams = in_hash_order (collect_trigrams to_lowercase terms) in
      if fold_accents
      then ok all
      else if is_empty grams
      then ok all
      else elim (find_all map dict grams) [
        | none ↦ ok []
        | some entries ↦ decode_shortest map (by_len entries)
      ]
