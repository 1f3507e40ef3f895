-- ===== src/Search/Index/Exact.antt =====
-- The parallel search finds the first hits of all.
use neutrasearch.Base.Sorting.{
  sort_by-HaveSameItems, flip-IsOrder, sort_by-AreDescending, AreDescending, HaveSameItems,
  HaveSameItems-length, count, IsOrder,
}
use neutrasearch.Search.Top.{IsTop-sort, ahead_nil, IsTop, AreAhead}
use neutrasearch.Base.{
  ◌<◌, ℕ, Bool, true, List, [], ◌∷◌, ◌++◌, ◌≡◌, refl, sym, ◌∙◌, ap, Option, length, length-append,
  append-nil, take, drop, take-drop, length-take_of_le, ltb, ltb→lt, ltb→ge, arith, Bool-cases,
  Option-cases, inl, inr,
}
use neutrasearch.Search.Compare.Order.{comes_before-IsOrder}
use neutrasearch.Search.Top.Pool.{IsTop-join}
use neutrasearch.Record.{FileRecord}
use neutrasearch.Query.Types.{Query}
use neutrasearch.Search.Compare.{SearchHit, comes_before}
use neutrasearch.Search.Index.{
  search, Reduction, identity, chunk, join, records_of, score_chunk, prune, reduce,
}

-- What `select_nth_unstable_by` does: it reorders the items, so that none behind the place comes before
-- one in front of it.
pub record IsSelection (nth : (SearchHit → SearchHit → Bool) → ℕ → List SearchHit → List SearchHit)
    : Type 0 where
  pub same :
      (less : SearchHit → SearchHit → Bool) (n : ℕ) (xs : List SearchHit)
      → HaveSameItems (nth less n xs) xs
  pub parted :
      (less : SearchHit → SearchHit → Bool)
      → IsOrder less
      → (n : ℕ) (xs : List SearchHit)
      → AreAhead less (take n (nth less n xs)) (drop n (nth less n xs))

module _ (on_windows : Bool) (passes : Query → FileRecord → Bool)
    (score : Query → FileRecord → Option ℕ)
    (nth : (SearchHit → SearchHit → Bool) → ℕ → List SearchHit → List SearchHit)
    (selects : IsSelection nth) where
  abbrev hits_of : Query → List FileRecord → List SearchHit
  hits_of = score_chunk on_windows passes score nth

  score_chunk-append :
      (q : Query) (xs ys : List FileRecord) → hits_of q (xs ++ ys) ≡ hits_of q xs ++ hits_of q ys
  unfolding score_chunk
  score_chunk-append q [] ys = refl
  score_chunk-append q (r ∷ xs) ys = elim (Bool-cases (passes q r)) [
    | inr failed ↦ rw (score_chunk, failed) (score_chunk-append q xs ys)
    | inl passed ↦ elim (Option-cases (score q r)) [
      | inl no_score ↦ rw (score_chunk, passed, no_score) (score_chunk-append q xs ys)
      | inr (s, scored) ↦
          rw (score_chunk, passed, scored)
            (ap (λ (t : List SearchHit). record { score = s; record_of = r } ∷ t)
              (score_chunk-append q xs ys))
    ]
  ]

  prune-IsTop :
      (q : Query) (xs : List SearchHit)
      → ltb 0 q.limit ≡ true
      → IsTop (comes_before on_windows q.sort) q.limit (prune on_windows passes score nth q xs) xs
  unfolding prune
  prune-IsTop q xs limited = elim (Bool-cases (ltb q.limit (length xs))) [
    | inl more ↦
        let less = comes_before on_windows q.sort in
        let ys = nth less q.limit xs in
        let parts = take-drop q.limit ys in
        let size = HaveSameItems-length ys xs (selects.same less q.limit xs) in
        let long = ltb→lt q.limit (length xs) more in
        rw (limited, more)
          record {
            dropped = drop q.limit ys;
            same = λ p. ap (count p) (sym parts) ∙ selects.same less q.limit xs p;
            ahead = selects.parted less (comes_before-IsOrder on_windows q.sort) q.limit xs;
            full = length-take_of_le q.limit ys (omega (arith, size, long)) ∙ omega (arith, long);
          }
    | inr few ↦
        let short = ltb→ge q.limit (length xs) few in
        rw (limited, few)
          record {
            dropped = [];
            same = λ p. ap (count p) (append-nil xs);
            ahead = ahead_nil (comes_before on_windows q.sort) xs;
            full = omega (arith, short);
          }
  ]

  reduce-IsTop :
      (q : Query) (reduction : Reduction)
      → ltb 0 q.limit ≡ true
      → ((reduce on_windows passes score nth q reduction).0
          ≡ length (hits_of q (records_of reduction)))
        × IsTop
            (comes_before on_windows q.sort)
            q.limit
            (reduce on_windows passes score nth q reduction).1
            (hits_of q (records_of reduction))
  unfolding reduce score_chunk
  reduce-IsTop q identity limited =
      (refl, record { dropped = []; same = λ p. refl; ahead = tt; full = omega arith })
  reduce-IsTop q (chunk records) limited = (refl, prune-IsTop q (hits_of q records) limited)
  reduce-IsTop q (join left right) limited =
      let (left_count, left_top) = reduce-IsTop q left limited in
      let (right_count, right_top) = reduce-IsTop q right limited in
      let left_ranked = (reduce on_windows passes score nth q left).1 in
      let right_ranked = (reduce on_windows passes score nth q right).1 in
      rw (score_chunk-append q (records_of left) (records_of right)) (
        omega (
          arith,
          left_count,
          right_count,
          length-append (hits_of q (records_of left)) (hits_of q (records_of right)),
        ),
        IsTop-join (comes_before on_windows q.sort) (comes_before-IsOrder on_windows q.sort) q.limit
            (prune on_windows passes score nth q (left_ranked ++ right_ranked)) left_ranked
            (hits_of q (records_of left)) right_ranked (hits_of q (records_of right)) left_top
            right_top (prune-IsTop q (left_ranked ++ right_ranked) limited),
      )

  -- However the scheduler cuts the records into chunks and joins them, `search` counts every match and
  -- returns hits in order: all of them without a limit, and with one the first of them, as many as it
  -- allows.
  pub search-IsExact :
      (q : Query) (reduction : Reduction) (records : List FileRecord)
      → records_of reduction ≡ records
      → ((search on_windows passes score nth q reduction).0 ≡ length (hits_of q records))
        × AreDescending
            (λ a b. comes_before on_windows q.sort b a)
            (search on_windows passes score nth q reduction).1
        × (q.limit ≡ 0
            → HaveSameItems (search on_windows passes score nth q reduction).1 (hits_of q records))
        × (0 < q.limit
            → IsTop
                (comes_before on_windows q.sort)
                q.limit
                (search on_windows passes score nth q reduction).1
                (hits_of q records))
  unfolding search
  search-IsExact q reduction records is =
      let less = comes_before on_windows q.sort in
      let sorted =
        sort_by-AreDescending (λ a b. less b a)
          (flip-IsOrder less (comes_before-IsOrder on_windows q.sort)) in
      rw (← is) (elim (Bool-cases (ltb 0 q.limit)) [
        | inl limited ↦
            let (counted, top) = reduce-IsTop q reduction limited in
            rw limited (
              counted,
              sorted (reduce on_windows passes score nth q reduction).1,
              (λ zero_limit.
                  let never : 0 < q.limit = ltb→lt 0 q.limit limited in
                  absurd (omega (arith, never, zero_limit))),
              λ _.
                  IsTop-sort less (λ a b. less b a) q.limit
                    (reduce on_windows passes score nth q reduction).1
                    (hits_of q (records_of reduction)) top,
            )
        | inr unlimited ↦
            let zero_limit = ltb→ge 0 q.limit unlimited in
            rw unlimited (
              refl,
              sorted (hits_of q (records_of reduction)),
              (λ _. sort_by-HaveSameItems (λ a b. less b a) (hits_of q (records_of reduction))),
              λ positive. absurd (omega (arith, zero_limit, positive)),
            )
      ])
