-- ===== src/Search/Compare.antt =====
-- crates/neutra-core/src/matcher/ordering.rs: the order of hits. `on_windows` is
-- `cfg!(target_os = "windows")`.
pub mod Laws
pub mod Order
use Prim.Native.Nat.{compare, Ordering, lt, eq, gt}
use neutrasearch.Base.{
  ℕ, Bool, true, false, [], ◌∷◌, length, leb, ltb, ◌&&◌, ◌==◌, if◌then◌else◌, Bytes,
}
use neutrasearch.Base.Int.{ℤ, pos, negsuc}
use neutrasearch.Record.{FileRecord, disk_bytes}
use neutrasearch.Query.Types.{
  SortKey, relevance, name_asc, name_desc, size_desc, size_asc, mtime_desc, mtime_asc, path_asc,
  path_desc,
}
use neutrasearch.Query.Paths.{to_ascii_lowercase}
use neutrasearch.Query.Filters.{name_of}

-- `SearchHit`, and the pairs that are compared.
pub record SearchHit : Type 0 where
  pub score : ℕ
  pub record_of : FileRecord

-- `Ordering::then`
abbrev pub and_then : Ordering → Ordering → Ordering
and_then lt o = lt
and_then eq o = o
and_then gt o = gt

abbrev pub is_lt : Ordering → Bool
is_lt lt = true
is_lt eq = false
is_lt gt = false

-- `cmp` of `i64`
abbrev pub compare_int : ℤ → ℤ → Ordering
compare_int (pos a) (pos b) = compare a b
compare_int (pos a) (negsuc b) = gt
compare_int (negsuc a) (pos b) = lt
compare_int (negsuc a) (negsuc b) = compare b a

-- `cmp` of two iterators over bytes, each byte taken through `f`.
unfoldable pub compare_bytes : (ℕ → ℕ) → Bytes → Bytes → Ordering
compare_bytes f [] [] = eq
compare_bytes f [] (y ∷ right) = lt
compare_bytes f (x ∷ left) [] = gt
compare_bytes f (x ∷ left) (y ∷ right) = and_then (compare (f x) (f y)) (compare_bytes f left right)

unfoldable pub cmp_name_ci : Bytes → Bytes → Ordering
cmp_name_ci left right = compare_bytes to_ascii_lowercase left right

unfoldable pub fold_byte : Bool → ℕ → ℕ
fold_byte on_windows b = if on_windows then to_ascii_lowercase (if b == 92 then b'/' else b) else b

-- The loop over both paths; where it finds no difference the lengths decide.
unfoldable pub compare_zipped : (ℕ → ℕ) → Bytes → Bytes → Ordering
compare_zipped f (x ∷ left) (y ∷ right) =
    and_then (compare (f x) (f y)) (compare_zipped f left right)
compare_zipped f _ _ = eq

module _ (on_windows : Bool) where
  unfoldable pub compare_index_paths : Bytes → Bytes → Ordering
  compare_index_paths left right =
      and_then (compare_zipped (fold_byte on_windows) left right)
        (compare (length left) (length right))

  abbrev pub latest_plausible_mtime : ℕ
  latest_plausible_mtime = 4102444800

  unfoldable pub sort_mtime : FileRecord → ℤ
  sort_mtime r = elim r.mtime [
    | pos n ↦ if ltb latest_plausible_mtime n then pos 0 else pos n
    | negsuc n ↦ negsuc n
  ]

  unfoldable pub compare_records : SortKey → SearchHit → SearchHit → Ordering
  compare_records relevance a b = and_then (compare b.score a.score) (
      and_then (compare_int (sort_mtime b.record_of) (sort_mtime a.record_of))
        (compare_index_paths b.record_of.path a.record_of.path))
  compare_records name_asc a b =
      and_then (cmp_name_ci (name_of a.record_of) (name_of b.record_of))
        (compare_index_paths a.record_of.path b.record_of.path)
  compare_records name_desc a b =
      and_then (cmp_name_ci (name_of b.record_of) (name_of a.record_of))
        (compare_index_paths b.record_of.path a.record_of.path)
  compare_records path_asc a b = compare_index_paths a.record_of.path b.record_of.path
  compare_records path_desc a b = compare_index_paths b.record_of.path a.record_of.path
  compare_records size_desc a b =
      and_then (compare (disk_bytes b.record_of) (disk_bytes a.record_of))
        (compare_index_paths b.record_of.path a.record_of.path)
  compare_records size_asc a b =
      and_then (compare (disk_bytes a.record_of) (disk_bytes b.record_of))
        (compare_index_paths a.record_of.path b.record_of.path)
  compare_records mtime_desc a b =
      and_then (compare_int (sort_mtime b.record_of) (sort_mtime a.record_of))
        (compare_index_paths b.record_of.path a.record_of.path)
  compare_records mtime_asc a b =
      and_then (compare_int (sort_mtime a.record_of) (sort_mtime b.record_of))
        (compare_index_paths a.record_of.path b.record_of.path)

  -- `a < b` in the order of the hits: `a` comes first.
  unfoldable pub comes_before : SortKey → SearchHit → SearchHit → Bool
  comes_before sort a b = is_lt (compare_records sort a b)
