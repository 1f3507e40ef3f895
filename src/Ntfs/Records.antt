-- ===== src/Ntfs/Records.antt =====
-- crates/neutra-ntfs/src/records.rs: the entries that MFT records become.
use neutrasearch.Base.{ℕ, [], ◌∷◌, ◌++◌, Bool, Bytes}
use neutrasearch.Base.Int.{ℤ}

-- `Entry`; `mtime` is an `i64`.
pub record Entry : Type 0 where
  pub parent : ℕ
  pub parent_sequence : ℕ
  pub sequence : ℕ
  pub name : Bytes
  pub size : ℕ
  pub alloc : ℕ
  pub mtime : ℤ
  pub dir : Bool

pub record Alias : Type 0 where
  pub parent : ℕ
  pub parent_sequence : ℕ
  pub name : Bytes

unfoldable pub append_component : Bytes → Bytes → Bytes
append_component [] name = name
append_component (c ∷ parent) name = (c ∷ parent) ++ b'/' ∷ name
