-- ===== src/Ntfs/Emit.antt =====
-- crates/neutra-ntfs/src/lib.rs: the end of `scan_reader`, which hands a record for each name of the
-- volume to the sink. The sink is the list of what it was handed.
pub mod Records
pub mod Volume
mod Examples
use neutrasearch.Ntfs.Validate.{validate, Rejection, record_failed, alias_failed, has_names}
use neutrasearch.Base.{
  ℕ, zero, ◌+◌, Bool, true, false, not, ◌||◌, List, [], ◌∷◌, ◌++◌, Option, none, some, ◌==◌,
  if◌then◌else◌, Bytes, Outcome, ok, ◌>>=◌, unwrap, map_err,
}
use neutrasearch.Base.Table.{Table, find, insert}
use neutrasearch.Record.{FileKind, FileRecord, file, dir, ntfs, allocated_bytes}
use neutrasearch.Ntfs.Records.{Entry, Alias, append_component}
use neutrasearch.Ntfs.Namespace.{ensure_dir_path}

-- The part of `ScanStats` that is counted here.
pub record Stats : Type 0 where
  pub records : ℕ
  pub files : ℕ
  pub dirs : ℕ

-- The variables of the loops.
pub record Emitter : Type 0 where
  pub dir_paths : Table Bytes
  pub sunk : List FileRecord
  pub stats : Stats

-- `trim_end_matches(['/', '\\'])`
unfoldable pub trim_prefix : Bytes → Bytes
trim_prefix [] = []
trim_prefix (b ∷ prefix) =
    let rest = trim_prefix prefix in
    elim rest [ [] ↦ if b == b'/' || b == 92 then [] else b ∷ [] | c ∷ cs ↦ b ∷ c ∷ cs ]

-- What goes to the sink.
abbrev pub record_of : Bytes → Entry → FileKind → ℕ → ℕ → FileRecord
record_of path entry kind id parent = record {
  path = path;
  size = entry.size;
  disk = allocated_bytes entry.alloc;
  mtime = entry.mtime;
  mode = 0;
  kind = kind;
  fs = ntfs;
  native_id = id;
  native_parent = parent;
  source = 0;
}

module _ (prefix : Bytes) where
  unfoldable pub dir_path : Bytes → Bytes
  dir_path rel = prefix ++ b'/' ∷ rel

  unfoldable pub file_path : Bytes → Bytes → Bytes
  file_path [] name = prefix ++ b'/' ∷ name
  file_path (c ∷ parent) name = prefix ++ b'/' ∷ ((c ∷ parent) ++ b'/' ∷ name)

  -- The record of an entry, below the path of its parent.
  unfoldable pub sink_entry : ℕ → Entry → Bytes → Emitter → Emitter
  sink_entry id entry parent s =
      let rel = append_component parent entry.name in
      if entry.dir
      then record {
        dir_paths = insert id rel s.dir_paths;
        sunk = s.sunk ++ record_of (dir_path rel) entry dir id entry.parent ∷ [];
        stats = record {
          records = s.stats.records + 1;
          files = s.stats.files;
          dirs = s.stats.dirs + 1;
        };
      }
      else record {
        dir_paths = s.dir_paths;
        sunk = s.sunk ++ record_of (file_path parent entry.name) entry file id entry.parent ∷ [];
        stats = record {
          records = s.stats.records + 1;
          files = s.stats.files + 1;
          dirs = s.stats.dirs;
        };
      }

  module _ (entries : Table Entry) (root_sequence : ℕ) where
    -- `for (&id, entry) in &entries`
    unfoldable pub emit_entries : Table Entry → Emitter → Outcome Rejection Emitter
    emit_entries [] s = ok s
    emit_entries ((id, entry) ∷ rest) s = if id == 5 then emit_entries rest s else do
      dir_paths ←
          map_err (record_failed id)
            (ensure_dir_path entries root_sequence entry.parent entry.parent_sequence s.dir_paths)
      parent ← unwrap (find entry.parent dir_paths)
      emit_entries rest (
          sink_entry id entry parent
            record { dir_paths = dir_paths; sunk = s.sunk; stats = s.stats })

    -- `for alias in names`, of the file `entry`
    unfoldable pub emit_names : ℕ → Entry → List Alias → Emitter → Outcome Rejection Emitter
    emit_names id entry [] s = ok s
    emit_names id entry (alias ∷ names) s = do
      dir_paths ←
          map_err (alias_failed id)
            (ensure_dir_path entries root_sequence alias.parent alias.parent_sequence s.dir_paths)
      parent ← unwrap (find alias.parent dir_paths)
      emit_names id entry names record {
        dir_paths = dir_paths;
        sunk = s.sunk ++ record_of (file_path parent alias.name) entry file id alias.parent ∷ [];
        stats = record {
          records = s.stats.records + 1;
          files = s.stats.files + 1;
          dirs = s.stats.dirs;
        };
      }

    -- `for (id, names) in aliases`
    unfoldable pub emit_aliases : Table (List Alias) → Emitter → Outcome Rejection Emitter
    emit_aliases [] s = ok s
    emit_aliases ((id, names) ∷ rest) s = elim (find id entries) [
      | none ↦ emit_aliases rest s
      | some entry ↦
          if entry.dir
          then emit_aliases rest s
          else do s' ← emit_names id entry names s; emit_aliases rest s'
    ]

-- From the two maps on: validation, then the loops. The stats count from zero.
unfoldable pub emit_volume :
    Bytes → Table Entry → ℕ → Table (List Alias) → Bool → Bool → Outcome Rejection Emitter
emit_volume prefix entries root_sequence aliases root_allocated root_dir = do
  dir_paths ← validate entries root_sequence aliases root_allocated root_dir []
  s ← emit_entries (trim_prefix prefix) entries root_sequence entries record {
    dir_paths = dir_paths;
    sunk = [];
    stats = record { records = 0; files = 0; dirs = 0 };
  }
  emit_aliases (trim_prefix prefix) entries root_sequence aliases s
