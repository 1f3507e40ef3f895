-- ===== src/Ntfs/Namespace/Examples.antt =====
-- The theorems on paths at a volume with directory `a`, record 7, below the root and `b`, record 9,
-- below `a`.
use neutrasearch.Base.{◌≡◌, refl, [], ◌∷◌, true, Bytes, ok, arith, IsReported}
use neutrasearch.Base.Int.{pos}
use neutrasearch.Base.Table.{Table, find, insert, contains}
use neutrasearch.Ntfs.Records.{Entry, append_component}
use neutrasearch.Ntfs.Namespace.{
  ensure_dir_path, sequence_matches, climb, fill, cached_path, resolve,
}
use neutrasearch.Ntfs.Namespace.Resolves.{Resolves, root, below, IsSound, IsReached}
use neutrasearch.Ntfs.Namespace.Sound.{ensure_dir_path-IsReached}
use neutrasearch.Ntfs.Namespace.Complete.{ensure_dir_path-IsReported, ensure_dir_path_complete}

abbrev entry_a : Entry
entry_a = record {
  parent = 5;
  parent_sequence = 1;
  sequence = 2;
  name = 97 ∷ [];
  size = 0;
  alloc = 0;
  mtime = pos 0;
  dir = true;
}

abbrev entry_b : Entry
entry_b = record {
  parent = 7;
  parent_sequence = 2;
  sequence = 4;
  name = 98 ∷ [];
  size = 0;
  alloc = 0;
  mtime = pos 0;
  dir = true;
}

abbrev entries : Table Entry
entries = (7, entry_a) ∷ (9, entry_b) ∷ []

abbrev paths : Table Bytes
paths = (7, 97 ∷ []) ∷ (9, 97 ∷ b'/' ∷ 98 ∷ []) ∷ []

no_paths : IsSound entries 1 []
unfolding find
no_paths id path e = cc

ran : ensure_dir_path entries 1 9 4 [] ≡ ok paths
unfolding ensure_dir_path sequence_matches climb fill cached_path resolve find insert contains
    append_component
ran = refl

b-Resolves : Resolves entries 1 9 4 (97 ∷ b'/' ∷ 98 ∷ [])
unfolding find append_component
b-Resolves =
    below entry_b (97 ∷ []) (omega arith) refl refl refl
      (below entry_a [] (omega arith) refl refl refl (root refl refl refl) refl) refl

ensure_dir_path-IsReached_example : IsSound entries 1 paths × IsReached entries 1 9 4 paths
ensure_dir_path-IsReached_example = ensure_dir_path-IsReached entries 1 9 4 [] no_paths ran

ensure_dir_path-IsReported_example : IsReported (ensure_dir_path entries 1 9 4 [])
ensure_dir_path-IsReported_example = ensure_dir_path-IsReported entries 1 9 4 [] no_paths

ensure_dir_path_complete_example :
    (cache' : Table Bytes) × (ensure_dir_path entries 1 9 4 [] ≡ ok cache')
ensure_dir_path_complete_example = ensure_dir_path_complete entries 1 [] no_paths b-Resolves
