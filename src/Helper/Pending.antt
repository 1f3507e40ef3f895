-- ===== src/Helper/Pending.antt =====
-- crates/neutra-helper/src/watch_sweep/pending.rs: the changes of a sweep that wait to be written. The
-- ordered map of the leaves is a list of them in the order of their paths.
pub mod Subtree
pub mod Supersede
pub mod Batch
mod Examples
use neutrasearch.Base.{
  ℕ, zero, suc, ◌+◌, Bool, true, false, not, ◌&&◌, ◌||◌, List, [], ◌∷◌, ◌++◌, length, ltb, ◌==◌,
  if◌then◌else◌, Bytes, equal,
}
use neutrasearch.Delta.Record.{DeltaChange, upsert, remove, remove_prefix}
use neutrasearch.Portable.{path_in_portable_root}

pub record Pending : Type 0 where
  pub prefixes : List Bytes
  pub leaves : List DeltaChange
  pub retry : Bool

unfoldable pub path_of : DeltaChange → Bytes
path_of (upsert r) = r.path
path_of (remove path) = path
path_of (remove_prefix path) = path

-- The order of the keys.
unfoldable pub bytes_less : Bytes → Bytes → Bool
bytes_less [] [] = false
bytes_less [] (y ∷ b) = true
bytes_less (x ∷ a) [] = false
bytes_less (x ∷ a) (y ∷ b) = let later = bytes_less a b in ltb x y || (x == y && later)

-- The leaves that pass a test on their paths.
unfoldable pub leaves_where : (Bytes → Bool) → List DeltaChange → List DeltaChange
leaves_where keep [] = []
leaves_where keep (leaf ∷ leaves) =
    let rest = leaves_where keep leaves in if keep (path_of leaf) then leaf ∷ rest else rest

-- `insert` puts a leaf in the place of the one of its path.
unfoldable pub insert_leaf : DeltaChange → List DeltaChange → List DeltaChange
insert_leaf leaf [] = leaf ∷ []
insert_leaf leaf (other ∷ leaves) =
    let later = insert_leaf leaf leaves in
    if bytes_less (path_of leaf) (path_of other)
    then leaf ∷ other ∷ leaves
    else if bytes_less (path_of other) (path_of leaf)
    then other ∷ later
    else leaf ∷ leaves

-- `Pending::new`, from its state on.
unfoldable pub sort_changes : List DeltaChange → Pending → Pending
sort_changes [] pending = pending
sort_changes (change ∷ changes) pending = elim change [
  | remove_prefix root ↦
      sort_changes changes record pending { prefixes = pending.prefixes ++ root ∷ [] }
  | upsert r ↦
      sort_changes changes record pending { leaves = insert_leaf (upsert r) pending.leaves }
  | remove path ↦
      sort_changes changes record pending { leaves = insert_leaf (remove path) pending.leaves }
]

abbrev pub new_pending : List DeltaChange → Pending
new_pending changes = sort_changes changes record { prefixes = []; leaves = []; retry = false }

-- `trim_end_matches('/')`
unfoldable pub trim_slashes_end : Bytes → Bytes
trim_slashes_end [] = []
trim_slashes_end (b ∷ root) =
    let rest = trim_slashes_end root in
    elim rest [ [] ↦ if b == b'/' then [] else b ∷ [] | c ∷ cs ↦ b ∷ c ∷ cs ]

-- The map is split at both ends of the range of the paths below the root; `0` is the byte behind `/`.
unfoldable pub remove_subtree : Bytes → List DeltaChange → List DeltaChange
remove_subtree root leaves =
    let others = leaves_where (λ path. not (equal path root)) leaves in
    let low : Bytes = trim_slashes_end root ++ b'/' ∷ [] in
    let high : Bytes = trim_slashes_end root ++ b'0' ∷ [] in
    let selected = leaves_where (λ path. not (bytes_less path low)) others in
    leaves_where (λ path. bytes_less path low) others
    ++ leaves_where (λ path. not (bytes_less path high)) selected

unfoldable pub is_subtree : DeltaChange → Bool
is_subtree (remove_prefix root) = true
is_subtree _ = false

unfoldable pub is_conflict : DeltaChange → Bytes → Bool
is_conflict newer root =
    path_in_portable_root (path_of newer) root
    || (is_subtree newer && path_in_portable_root root (path_of newer))

-- `retain`: the roots that stay, and those in conflict.
unfoldable pub part_roots : DeltaChange → List Bytes → List Bytes × List Bytes
part_roots newer [] = ([], [])
part_roots newer (root ∷ roots) =
    let (kept, conflicts) = part_roots newer roots in
    if is_conflict newer root then (kept, root ∷ conflicts) else (root ∷ kept, conflicts)

-- `for root in conflicts`
unfoldable pub remove_subtrees : List Bytes → List DeltaChange → List DeltaChange
remove_subtrees [] leaves = leaves
remove_subtrees (root ∷ roots) leaves = remove_subtrees roots (remove_subtree root leaves)

abbrev pub is_nil : List Bytes → Bool
is_nil [] = true
is_nil (x ∷ xs) = false

unfoldable pub supersede : DeltaChange → Pending → Pending
supersede newer pending =
    let (kept, conflicts) = part_roots newer pending.prefixes in
    let leaves = remove_subtrees conflicts pending.leaves in
    record {
      prefixes = kept;
      leaves =
          if is_subtree newer
          then remove_subtree (path_of newer) leaves
          else leaves_where (λ path. not (equal path (path_of newer))) leaves;
      retry = pending.retry || not (is_nil conflicts);
    }

-- The rounds of `batch` that are left; each takes one change.
unfoldable pub take_batch : ℕ → Pending → List DeltaChange × Pending
take_batch zero pending = ([], pending)
take_batch (suc limit) pending = elim pending.prefixes [
  | root ∷ roots ↦
      let (taken, rest) = take_batch limit record pending { prefixes = roots } in
      (remove_prefix root ∷ taken, rest)
  | [] ↦ elim pending.leaves [
    | leaf ∷ leaves ↦
        let (taken, rest) = take_batch limit record pending { leaves = leaves } in
        (leaf ∷ taken, rest)
    | [] ↦ ([], pending)
  ]
]
