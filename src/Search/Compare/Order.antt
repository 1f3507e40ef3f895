-- ===== src/Search/Compare/Order.antt =====
-- The order of hits is one.
use neutrasearch.Search.Compare.Laws.{
  is_lt-IsOrder, compare_int-IsComparison, reverse, compare-IsComparison, reversed-IsComparison,
  compare_bytes-IsComparison, then-IsComparison, on-IsComparison, IsComparison, compare-less,
}
use neutrasearch.Query.Paths.{to_ascii_lowercase}
use neutrasearch.Search.Compare.{
  compare_int, SearchHit, and_then, compare_bytes, compare_zipped, compare_index_paths,
  compare_records, comes_before, cmp_name_ci, fold_byte, sort_mtime,
}
use neutrasearch.Record.{disk_bytes}
use neutrasearch.Query.Filters.{name_of}
use Prim.Native.Nat.{compare, Ordering, lt, eq, gt}
use Prim.Native.Nat.compare.{suc-suc}
use neutrasearch.Base.{ℕ, suc, Bool, [], ◌∷◌, ◌≡◌, ◌<◌, refl, sym, ◌∙◌, ap, Bytes, arith, length}
use neutrasearch.Base.Sorting.{IsOrder}
use neutrasearch.Query.Types.{
  SortKey, relevance, name_asc, name_desc, size_desc, size_asc, mtime_desc, mtime_asc, path_asc,
  path_desc,
}

then_assoc : (o p q : Ordering) → and_then (and_then o p) q ≡ and_then o (and_then p q)
then_assoc lt p q = refl
then_assoc eq p q = refl
then_assoc gt p q = refl

compare-greater : (a b : ℕ) → b < a → compare a b ≡ gt
compare-greater a b h = ground arith

compare-same : (a : ℕ) → compare a a ≡ eq
compare-same a = ground arith

compare-suc : (a b : ℕ) → compare (suc a) (suc b) ≡ compare a b
compare-suc a b = suc-suc a b

-- The loop and the lengths together compare byte by byte, a front coming first.
compare_zipped-bytes :
    (f : ℕ → ℕ) (left right : Bytes)
    → and_then (compare_zipped f left right) (compare (length left) (length right))
      ≡ compare_bytes f left right
unfolding compare_zipped compare_bytes
compare_zipped-bytes f [] [] = compare-same 0
compare_zipped-bytes f [] (y ∷ right) = compare-less 0 (suc (length right)) (omega arith)
compare_zipped-bytes f (x ∷ left) [] = compare-greater (suc (length left)) 0 (omega arith)
compare_zipped-bytes f (x ∷ left) (y ∷ right) =
    then_assoc (compare (f x) (f y)) (compare_zipped f left right)
      (compare (suc (length left)) (suc (length right)))
    ∙ ap (λ t. and_then (compare (f x) (f y)) (and_then (compare_zipped f left right) t))
        (compare-suc (length left) (length right))
    ∙ ap (λ t. and_then (compare (f x) (f y)) t) (compare_zipped-bytes f left right)

module _ (on_windows : Bool) where
  compare_index_paths-IsComparison : IsComparison (compare_index_paths on_windows)
  unfolding compare_index_paths
  compare_index_paths-IsComparison =
      let laws = compare_bytes-IsComparison (fold_byte on_windows) in
      let same : (a b : Bytes)
          → compare_index_paths on_windows a b ≡ compare_bytes (fold_byte on_windows) a b =
        compare_zipped-bytes (fold_byte on_windows) in
      record {
        flip = λ a b. same b a ∙ laws.flip a b ∙ ap reverse (sym (same a b));
        alike = λ a b z e. same a z ∙ laws.alike a b z (sym (same a b) ∙ e) ∙ sym (same b z);
        transitive =
            λ a b z h k. same a z ∙ laws.transitive a b z (sym (same a b) ∙ h) (sym (same b z) ∙ k);
      }

  path-IsComparison :
      IsComparison
        (λ (a b : SearchHit). compare_index_paths on_windows a.record_of.path b.record_of.path)
  path-IsComparison =
      on-IsComparison compare_index_paths-IsComparison (λ (h : SearchHit). h.record_of.path)

  mtime-IsComparison : IsComparison (λ (a b : SearchHit).
      compare_int (sort_mtime on_windows a.record_of) (sort_mtime on_windows b.record_of))
  mtime-IsComparison =
      on-IsComparison compare_int-IsComparison
        (λ (h : SearchHit). sort_mtime on_windows h.record_of)

  size-IsComparison :
      IsComparison (λ (a b : SearchHit). compare (disk_bytes a.record_of) (disk_bytes b.record_of))
  size-IsComparison =
      on-IsComparison compare-IsComparison (λ (h : SearchHit). disk_bytes h.record_of)

  name-IsComparison :
      IsComparison (λ (a b : SearchHit). cmp_name_ci (name_of a.record_of) (name_of b.record_of))
  unfolding cmp_name_ci
  name-IsComparison =
      on-IsComparison (compare_bytes-IsComparison to_ascii_lowercase)
        (λ (h : SearchHit). name_of h.record_of)

  score-IsComparison : IsComparison (λ (a b : SearchHit). compare a.score b.score)
  score-IsComparison = on-IsComparison compare-IsComparison (λ (h : SearchHit). h.score)

  -- Under every sort key `compare_records` is a comparison: swapped hits give the reverse, hits that are
  -- equal compare alike with every other, and what comes before is transitive.
  pub compare_records-IsComparison :
      (sort : SortKey) → IsComparison (compare_records on_windows sort)
  unfolding compare_records
  compare_records-IsComparison relevance =
      then-IsComparison (reversed-IsComparison score-IsComparison) (
        then-IsComparison (reversed-IsComparison mtime-IsComparison)
          (reversed-IsComparison path-IsComparison))
  compare_records-IsComparison name_asc = then-IsComparison name-IsComparison path-IsComparison
  compare_records-IsComparison name_desc =
      then-IsComparison (reversed-IsComparison name-IsComparison)
        (reversed-IsComparison path-IsComparison)
  compare_records-IsComparison path_asc = path-IsComparison
  compare_records-IsComparison path_desc = reversed-IsComparison path-IsComparison
  compare_records-IsComparison size_desc =
      then-IsComparison (reversed-IsComparison size-IsComparison)
        (reversed-IsComparison path-IsComparison)
  compare_records-IsComparison size_asc = then-IsComparison size-IsComparison path-IsComparison
  compare_records-IsComparison mtime_desc =
      then-IsComparison (reversed-IsComparison mtime-IsComparison)
        (reversed-IsComparison path-IsComparison)
  compare_records-IsComparison mtime_asc = then-IsComparison mtime-IsComparison path-IsComparison

  pub comes_before-IsOrder : (sort : SortKey) → IsOrder (comes_before on_windows sort)
  unfolding comes_before
  comes_before-IsOrder sort = is_lt-IsOrder (compare_records-IsComparison sort)
