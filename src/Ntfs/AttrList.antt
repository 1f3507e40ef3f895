-- ===== src/Ntfs/AttrList.antt =====
-- crates/neutra-ntfs/src/attr_list/entries.rs: the entries of an attribute list.
pub mod Entries
mod Examples
use neutrasearch.Base.{
  ℕ, zero, suc, ◌+◌, ◌/◌, ◌%◌, ◌^◌, bit_and, Option, none, some, ◌||◌, List, [], ◌∷◌, ◌++◌, length,
  ltb, if◌then◌else◌, Bytes, Outcome, ok, fault,
}
use neutrasearch.Ntfs.Error.{Error}
use neutrasearch.Ntfs.Words.{or_zero, u16le, u32le, u64le}

pub record AttributeListEntry : Type 0 where
  pub attribute_kind : ℕ
  pub lowest_vcn : ℕ
  pub record_number : ℕ
  pub sequence_number : ℕ
  pub attribute_id : ℕ

-- The entry at `p`: the file reference has the record in its low 48 bits and the sequence above.
unfoldable pub entry_at : Bytes → ℕ → AttributeListEntry
entry_at value p =
    let reference = or_zero (u64le value (p + 16)) in
    record {
      attribute_kind = or_zero (u32le value p);
      lowest_vcn = or_zero (u64le value (p + 8));
      record_number = bit_and reference 0x0000_ffff_ffff_ffff;
      sequence_number = reference / 2 ^ 48 % 2 ^ 16;
      attribute_id = or_zero (u16le value (p + 24));
    }

-- `while p + 26 <= value.len()`, on fuel.
unfoldable pub entries_loop :
    ℕ → Bytes → ℕ → List AttributeListEntry → Outcome Error (List AttributeListEntry)
entries_loop zero value p entries = fault
entries_loop (suc fuel) value p entries =
    let len = or_zero (u16le value (p + 4)) in
    let rest = entries_loop fuel value (p + len) (entries ++ entry_at value p ∷ []) in
    if ltb (length value) (p + 26)
    then ok entries
    else if ltb len 26 || ltb (length value) (p + len)
    then ok entries
    else rest

-- Each round takes 26 bytes at least.
unfoldable pub parse_attribute_list_entries : Bytes → Outcome Error (List AttributeListEntry)
parse_attribute_list_entries value = entries_loop (suc (length value)) value 0 []
