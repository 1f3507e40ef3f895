-- ===== src/Delta/Record.antt =====
-- The changes of the log: `DeltaChange` of crates/neutra-core/src/delta.rs, and the old layout of
-- delta/wal.rs.
use neutrasearch.Record.{FileKind, FsKind, FileRecord}
use neutrasearch.Base.{ℕ, Bytes}
use neutrasearch.Base.Int.{ℤ}

pub data DeltaChange : Type 0 where
  upsert : FileRecord → DeltaChange
  remove remove_prefix : Bytes → DeltaChange

pub record OldDeltaRecord : Type 0 where
  pub path : Bytes
  pub size : ℕ
  pub mtime : ℤ
  pub mode : ℕ
  pub kind : FileKind
  pub fs : FsKind
  pub native_id : ℕ
  pub native_parent : ℕ
  pub source : ℕ

pub data OldDeltaChange : Type 0 where
  old_upsert : OldDeltaRecord → OldDeltaChange
  old_remove : Bytes → OldDeltaChange

-- The old layout has no size on disk: 0 stands for one that is not known.
pub upgrade : OldDeltaChange → DeltaChange
upgrade (old_remove path) = remove path
upgrade (old_upsert old) = upsert record {
  path = old.path;
  size = old.size;
  disk = 0;
  mtime = old.mtime;
  mode = old.mode;
  kind = old.kind;
  fs = old.fs;
  native_id = old.native_id;
  native_parent = old.native_parent;
  source = old.source;
}
