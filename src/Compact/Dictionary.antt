-- ===== src/Compact/Dictionary.antt =====
-- crates/neutra-core/src/compact/format/table.rs: the trigram dictionary in the mapped index file.
-- Its sums wrap at 2^64.
pub mod Search
mod Examples
use neutrasearch.Base.Options.{◌>>=◌}
use neutrasearch.Base.{
  ℕ, zero, suc, ◌+◌, ◌-◌, ◌*◌, ◌/◌, ◌%◌, Option, none, some, ltb, leb, not, ◌==◌, if◌then◌else◌,
  Bytes, Outcome, ok, err, fault, u64_mod,
}
use neutrasearch.Compact.Codec.{Invalid, u16_at, u32_at, u64_at}
use neutrasearch.Compact.Postings.{DictEntry}

pub record TableView : Type 0 where
  pub start : ℕ
  pub count : ℕ

-- An entry of the block directory.
pub record BlockDesc : Type 0 where
  pub offset : ℕ
  pub len : ℕ
  pub count : ℕ

-- `Result::ok`; the readers do not fault.
abbrev read : {A : Type 0} → Outcome Invalid A → Option A
read (ok a) = some a
read (err e) = none
read fault = none

abbrev pub dict_size : ℕ
dict_size = 16

abbrev pub desc_size : ℕ
desc_size = 16

unfoldable pub block : Bytes → TableView → ℕ → Option BlockDesc
block map blocks id = if leb blocks.count id then none else do
  let p = (blocks.start + id * desc_size) % u64_mod
  offset ← read (u64_at map p)
  len ← read (u32_at map ((p + 8) % u64_mod))
  count ← read (u16_at map ((p + 12) % u64_mod))
  some record { offset = offset; len = len; count = count }

unfoldable pub dict_entry : Bytes → TableView → ℕ → Option DictEntry
dict_entry map dict i = do
  let p = (dict.start + i * dict_size) % u64_mod
  gram ← read (u32_at map p)
  len ← read (u32_at map ((p + 4) % u64_mod))
  offset ← read (u64_at map ((p + 8) % u64_mod))
  some record { gram = gram; len = len; offset = offset }

-- `while low < high`, on fuel.
unfoldable pub dict_find_loop : ℕ → Bytes → TableView → ℕ → ℕ → ℕ → Option DictEntry
dict_find_loop zero map dict gram low high = none
dict_find_loop (suc fuel) map dict gram low high = if not (ltb low high) then none else do
  let mid = low + (high - low) / 2
  entry ← dict_entry map dict mid
  let right = dict_find_loop fuel map dict gram (mid + 1) high
  let left = dict_find_loop fuel map dict gram low mid
  if entry.gram == gram then some entry else if ltb entry.gram gram then right else left

-- Each round halves the range at least, so `count` rounds and the last test are enough.
unfoldable pub dict_find : Bytes → TableView → ℕ → Option DictEntry
dict_find map dict gram = dict_find_loop (suc dict.count) map dict gram 0 dict.count
