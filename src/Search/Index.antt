-- ===== src/Search/Index.antt =====
-- The index in memory of crates/neutra-core/src/index.rs. `passes` and `score` are those of the query;
-- `nth` is `select_nth_unstable_by` of the standard library.
pub mod Exact
use neutrasearch.Base.{
  ℕ, ◌+◌, ◌-◌, ◌%◌, Bool, true, false, not, ◌&&◌, List, [], ◌∷◌, ◌++◌, Option, none, some, length,
  take, ltb, ◌==◌, if◌then◌else◌, u64_mod,
}
use neutrasearch.Base.Sorting.{sort_by}
use neutrasearch.Record.{FileRecord}
use neutrasearch.Query.Types.{Query}
use neutrasearch.Search.Compare.{SearchHit, comes_before}

pub record Index : Type 0 where
  pub records : List FileRecord
  pub generation : ℕ

abbrev pub new_index : Index
new_index = record { records = []; generation = 0 }

unfoldable pub push_record : FileRecord → Index → Index
push_record r index = record { records = index.records ++ r ∷ []; generation = index.generation }

unfoldable pub extend : List FileRecord → Index → Index
extend rs index = record {
  records = index.records ++ rs;
  generation = (index.generation + 1) % u64_mod;
}

-- `retain`
unfoldable pub retain : (FileRecord → Bool) → List FileRecord → List FileRecord
retain keep [] = []
retain keep (r ∷ rs) = let rest = retain keep rs in if keep r then r ∷ rest else rest

-- The index, and how many records went.
unfoldable pub remove_source : ℕ → Index → Index × ℕ
remove_source source index =
    let records = retain (λ r. not (r.source == source)) index.records in
    let removed = length index.records - length records in
    (
      record {
        records = records;
        generation = if ltb 0 removed then (index.generation + 1) % u64_mod else index.generation;
      },
      removed,
    )

-- How the parallel reduction joins the chunks.
pub data Reduction : Type 0 where
  identity : Reduction
  chunk : List FileRecord → Reduction
  join : Reduction → Reduction → Reduction

-- The records of the chunks, in order.
abbrev pub records_of : Reduction → List FileRecord
records_of identity = []
records_of (chunk records) = records
records_of (join left right) = records_of left ++ records_of right

module _ (on_windows : Bool) (passes : Query → FileRecord → Bool)
    (score : Query → FileRecord → Option ℕ)
    (nth : (SearchHit → SearchHit → Bool) → ℕ → List SearchHit → List SearchHit) where
  unfoldable pub score_chunk : Query → List FileRecord → List SearchHit
  score_chunk q [] = []
  score_chunk q (r ∷ records) =
      let rest = score_chunk q records in
      if passes q r
      then elim (score q r) [ none ↦ rest | some s ↦ record { score = s; record_of = r } ∷ rest ]
      else rest

  -- The closure `prune`.
  unfoldable pub prune : Query → List SearchHit → List SearchHit
  prune q ranked =
      if ltb 0 q.limit && ltb q.limit (length ranked)
      then take q.limit (nth (comes_before on_windows q.sort) q.limit ranked)
      else ranked

  -- The number of matches and the hits that a reduction ends with.
  unfoldable pub reduce : Query → Reduction → ℕ × List SearchHit
  reduce q identity = (0, [])
  reduce q (chunk records) = let ranked = score_chunk q records in (length ranked, prune q ranked)
  reduce q (join left right) =
      let (left_count, left_ranked) = reduce q left in
      let (right_count, right_ranked) = reduce q right in
      (left_count + right_count, prune q (left_ranked ++ right_ranked))

  -- `search`, with the reduction that the scheduler chose for the records; without a limit it joins
  -- nothing and prunes nothing.
  unfoldable pub search : Query → Reduction → ℕ × List SearchHit
  search q reduction =
      let all = score_chunk q (records_of reduction) in
      let (matched, ranked) = if ltb 0 q.limit then reduce q reduction else (length all, all) in
      (matched, sort_by (λ a b. comes_before on_windows q.sort b a) ranked)
