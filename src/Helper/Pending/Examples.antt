-- ===== src/Helper/Pending/Examples.antt =====
-- Runs of the changes that wait.
use neutrasearch.Helper.Pending.Batch.{waiting, take_batch-waiting}
use neutrasearch.Base.{take, drop, true, [], ◌∷◌, ◌≡◌, refl, List, ◌&&◌, ◌||◌}
use neutrasearch.Helper.Pending.{
  remove_subtrees, is_subtree, is_conflict, part_roots, supersede, new_pending, take_batch,
  sort_changes, insert_leaf, bytes_less, path_of, leaves_where, remove_subtree, trim_slashes_end,
}
use neutrasearch.Base.Text.{codes, strip_prefix}
use neutrasearch.Base.Sorting.{HaveSameItems}
use neutrasearch.Delta.Record.{DeltaChange, remove, remove_prefix}
use neutrasearch.Portable.{path_in_portable_root, starts_with, ends_with_slash}
use neutrasearch.Helper.Pending.Supersede.{
  survives, outlives, has_conflict, supersede-HaveSameItems,
}

abbrev sweep : List DeltaChange
sweep =
    remove (codes "/a/b")
    ∷ remove_prefix (codes "/old")
    ∷ remove (codes "/a")
    ∷ remove (codes "/a.txt")
    ∷ []

pending_leaves :
    (new_pending sweep).leaves
    ≡ remove (codes "/a") ∷ remove (codes "/a.txt") ∷ remove (codes "/a/b") ∷ []
unfolding sort_changes insert_leaf bytes_less path_of
pending_leaves = refl

removed : remove_subtree (codes "/a") (new_pending sweep).leaves ≡ remove (codes "/a.txt") ∷ []
unfolding sort_changes insert_leaf bytes_less path_of remove_subtree trim_slashes_end leaves_where
removed = refl

batched :
    (take_batch 2 (new_pending sweep)).0 ≡ remove_prefix (codes "/old") ∷ remove (codes "/a") ∷ []
unfolding sort_changes insert_leaf bytes_less path_of take_batch
batched = refl

superseded : (supersede (remove (codes "/old/x")) (new_pending sweep)).retry ≡ true
unfolding supersede sort_changes insert_leaf bytes_less path_of part_roots is_conflict is_subtree
    path_in_portable_root starts_with strip_prefix ends_with_slash remove_subtrees
superseded = refl

supersede-HaveSameItems_example :
    HaveSameItems (supersede (remove_prefix (codes "/a")) (new_pending sweep)).leaves (
      leaves_where
        (λ path.
          survives (remove_prefix (codes "/a")) (new_pending sweep).prefixes path
          && outlives (remove_prefix (codes "/a")) path)
        (new_pending sweep).leaves)
    × ((supersede (remove_prefix (codes "/a")) (new_pending sweep)).retry ≡ (
        (new_pending sweep).retry
        || has_conflict (remove_prefix (codes "/a")) (new_pending sweep).prefixes))
supersede-HaveSameItems_example =
    supersede-HaveSameItems (remove_prefix (codes "/a")) (new_pending sweep)

take_batch-waiting_example :
    ((take_batch 2 (new_pending sweep)).0 ≡ take 2 (waiting (new_pending sweep)))
    × (waiting (take_batch 2 (new_pending sweep)).1 ≡ drop 2 (waiting (new_pending sweep)))
take_batch-waiting_example = take_batch-waiting 2 (new_pending sweep)
