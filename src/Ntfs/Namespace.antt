-- ===== src/Ntfs/Namespace.antt =====
-- crates/neutra-ntfs/src/namespace.rs: the paths of directories, cached by record number. The root
-- directory is record 5. A path is a list of bytes, as the `String` of the source.
pub mod Resolves
pub mod Sound
pub mod Complete
pub mod Keeps
mod Examples
use neutrasearch.Base.{
  ℕ, zero, suc, ◌+◌, Bool, true, false, not, ◌||◌, List, [], ◌∷◌, Option, none, some, length, ◌==◌,
  if◌then◌else◌, Bytes, Outcome, ok, err, fault, ◌>>=◌, ◌>>◌, ensure, context, unwrap,
}
use neutrasearch.Base.Table.{Table, find, insert, contains}
use neutrasearch.Ntfs.Records.{Entry, Alias, append_component}

pub data Failure : Type 0 where
  missing : ℕ → Failure
  sequence : ℕ → ℕ → ℕ → Failure
  cycle : Failure
  non_directory : ℕ → Failure

-- `expected == 0 || expected == actual`
abbrev pub matches : ℕ → ℕ → Bool
matches expected actual = expected == 0 || expected == actual

unfoldable pub sequence_matches : ℕ → ℕ → ℕ → Outcome Failure (Unit {0})
sequence_matches id expected actual = ensure (matches expected actual) (sequence id expected actual)

module _ (entries : Table Entry) (root_sequence : ℕ) where
  -- The loop of `ensure_dir_path`, on fuel: up the parents to the root or to a cached directory. It
  -- returns where it stopped and the chain below, the record nearest to the top first.
  pub climb : ℕ → Table Bytes → ℕ → ℕ → List ℕ → List ℕ → Outcome Failure (ℕ × List ℕ)
  climb zero cache current expected seen chain = fault
  climb (suc fuel) cache current expected seen chain =
      if current == 5
      then sequence_matches 5 expected root_sequence >> ok (current, chain)
      else elim (find current cache) [
        | some path ↦ if expected == 0 then ok (current, chain) else do
          entry ← context (find current entries) (missing current)
          ensure (entry.sequence == expected) (sequence current expected entry.sequence)
          ok (current, chain)
        | none ↦ do
          ensure (not (contains current seen)) cycle
          entry ← context (find current entries) (missing current)
          ensure (matches expected entry.sequence) (sequence current expected entry.sequence)
          ensure entry.dir (non_directory current)
          climb fuel cache entry.parent entry.parent_sequence (current ∷ seen) (current ∷ chain)
      ]

  -- `for record in chain.into_iter().rev()`
  pub fill : List ℕ → Bytes → Table Bytes → Outcome Failure (Table Bytes)
  fill [] path cache = ok cache
  fill (record_id ∷ chain) path cache = do
    entry ← unwrap (find record_id entries)
    let path' = append_component path entry.name
    fill chain path' (insert record_id path' cache)

  -- `cache.get(&current).cloned().unwrap_or_default()`
  pub cached_path : ℕ → Table Bytes → Bytes
  cached_path current cache = elim (find current cache) [ none ↦ [] | some path ↦ path ]

  -- The way through the loop. A round that goes on meets an entry that it has not seen, so a round
  -- for each entry and the last test are enough.
  pub resolve : ℕ → ℕ → Table Bytes → Outcome Failure (Table Bytes)
  unfolding climb fill cached_path
  resolve id expected cache = do
    (current, chain) ← climb (suc (length entries)) cache id expected [] []
    fill chain (cached_path current cache) cache

  -- `ensure_dir_path` returns the cache, which the source changes in place; `seen` is scratch space
  -- that each call clears.
  unfoldable pub ensure_dir_path : ℕ → ℕ → Table Bytes → Outcome Failure (Table Bytes)
  unfolding resolve
  ensure_dir_path id expected cache =
      if id == 5
      then sequence_matches id expected root_sequence >> ok cache
      else elim (find id entries) [
        | none ↦ resolve id expected cache
        | some entry ↦ do
          ensure (matches expected entry.sequence) (sequence id expected entry.sequence)
          elim (find id cache) [
            | none ↦ resolve id expected cache
            | some path ↦ if entry.dir then ok cache else err (non_directory id)
          ]
      ]
