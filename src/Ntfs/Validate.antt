-- ===== src/Ntfs/Validate.antt =====
-- crates/neutra-ntfs/src/namespace.rs: `validate`, which a volume passes when everything named lies
-- below the root. The order of a table is the order in which the source iterates over its map.
pub mod Paths
use neutrasearch.Base.{
  ℕ, Bool, true, false, List, [], ◌∷◌, Option, none, some, ◌==◌, if◌then◌else◌, Bytes, Outcome, ok,
  err, ◌>>=◌, ◌>>◌, ensure, map_err,
}
use neutrasearch.Base.Table.{Table, find, insert}
use neutrasearch.Ntfs.Records.{Entry, Alias}
use neutrasearch.Ntfs.Namespace.{Failure, ensure_dir_path}

pub data Rejection : Type 0 where
  root_missing root_not_directory : Rejection
  record_no_path directory_no_path alias_no_path record_failed alias_failed :
      ℕ → Failure → Rejection

module _ (entries : Table Entry) (root_sequence : ℕ) where
  -- `if entry.dir`: the path of the directory itself.
  unfoldable pub validate_directory : ℕ → Entry → Table Bytes → Outcome Rejection (Table Bytes)
  validate_directory id entry dir_paths =
      if entry.dir
      then map_err (directory_no_path id)
          (ensure_dir_path entries root_sequence id entry.sequence dir_paths)
      else ok dir_paths

  -- `for (&id, entry) in entries`
  unfoldable pub validate_entries : Table Entry → Table Bytes → Outcome Rejection (Table Bytes)
  validate_entries [] dir_paths = ok dir_paths
  validate_entries ((id, entry) ∷ rest) dir_paths =
      if id == 5 then validate_entries rest dir_paths else do
        dir_paths1 ←
            map_err (record_no_path id)
              (ensure_dir_path entries root_sequence entry.parent entry.parent_sequence dir_paths)
        dir_paths2 ← validate_directory id entry dir_paths1
        validate_entries rest dir_paths2

  -- `for alias in names`
  unfoldable pub validate_names : ℕ → List Alias → Table Bytes → Outcome Rejection (Table Bytes)
  validate_names id [] dir_paths = ok dir_paths
  validate_names id (alias ∷ names) dir_paths = do
    dir_paths' ←
        map_err (alias_no_path id)
          (ensure_dir_path entries root_sequence alias.parent alias.parent_sequence dir_paths)
    validate_names id names dir_paths'

  -- The names of a record count only where it is an entry and no directory.
  unfoldable pub has_names : ℕ → Bool
  has_names id = elim (find id entries) [
    | none ↦ false
    | some entry ↦ if entry.dir then false else true
  ]

  -- `for (&id, names) in aliases`
  unfoldable pub validate_aliases :
      Table (List Alias) → Table Bytes → Outcome Rejection (Table Bytes)
  validate_aliases [] dir_paths = ok dir_paths
  validate_aliases ((id, names) ∷ rest) dir_paths =
      if has_names id
      then (do dir_paths' ← validate_names id names dir_paths; validate_aliases rest dir_paths')
      else validate_aliases rest dir_paths

  unfoldable pub validate :
      Table (List Alias) → Bool → Bool → Table Bytes → Outcome Rejection (Table Bytes)
  validate aliases root_allocated root_dir dir_paths = do
    ensure root_allocated root_missing
    ensure root_dir root_not_directory
    dir_paths1 ← validate_entries entries (insert 5 [] dir_paths)
    validate_aliases aliases dir_paths1
