-- ===== src/Record.antt =====
-- `FileRecord` of crates/neutra-core/src/types.rs and `FsKind` of mounts.rs. Strings are lists of bytes.
use neutrasearch.Base.{ℕ, ◌-◌, Bytes, ◌==◌, if◌then◌else◌, u64_mod}
use neutrasearch.Base.Int.{ℤ}

pub data FileKind : Type 0 where
  file dir symlink other : FileKind

pub data FsKind : Type 0 where
  btrfs ext4 ntfs zfs : FsKind
  network unsupported : Bytes → FsKind

pub record FileRecord : Type 0 where
  pub path : Bytes
  pub size : ℕ
  pub disk : ℕ
  pub mtime : ℤ
  pub mode : ℕ
  pub kind : FileKind
  pub fs : FsKind
  pub native_id : ℕ
  pub native_parent : ℕ
  pub source : ℕ

-- All ones stand for a known size of 0, and 0 for one that is not known.
unfoldable pub disk_bytes : FileRecord → ℕ
disk_bytes r = if r.disk == 0 then r.size else if r.disk == u64_mod - 1 then 0 else r.disk

unfoldable pub allocated_bytes : ℕ → ℕ
allocated_bytes bytes = if bytes == 0 then u64_mod - 1 else bytes
