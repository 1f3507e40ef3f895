-- ===== src/Ntfs/AttrList/Entries.antt =====
-- The decoder of attribute lists ends, and its entries are in bounds.
use neutrasearch.Base.{
  ℕ, zero, suc, ◌+◌, ◌^◌, ◌≤◌, ◌<◌, ◌≡◌, refl, arith, ◌||◌, List, [], ◌∷◌, ◌++◌, All, All-append,
  length, ltb, Bytes, ok, inl, inr, Bool-cases,
}
use neutrasearch.Base.Bits.{bit_and-mask}
use neutrasearch.Ntfs.Words.{or_zero, u16le, u64le}
use neutrasearch.Ntfs.AttrList.{
  AttributeListEntry, entry_at, entries_loop, parse_attribute_list_entries,
}

-- A record number of 48 bits and a sequence number of 16.
abbrev pub IsReference : AttributeListEntry → Type 0
IsReference e = (e.record_number < 2 ^ 48) × (e.sequence_number < 2 ^ 16)

entry_at-IsReference : (value : Bytes) (p : ℕ) → IsReference (entry_at value p)
unfolding entry_at
entry_at-IsReference value p = (
  rw (bit_and-mask 48 0x0000_ffff_ffff_ffff (or_zero (u64le value (p + 16))) refl) (omega arith),
  omega arith,
)

entries_loop-IsReference :
    (fuel : ℕ) (value : Bytes) (p : ℕ) (entries : List AttributeListEntry)
    → length value + 1 ≤ p + fuel
    → 1 ≤ fuel
    → All IsReference entries
    → (all : List AttributeListEntry) × (entries_loop fuel value p entries ≡ ok all)
      × All IsReference all
unfolding entries_loop
entries_loop-IsReference zero value p entries enough more h = absurd (omega arith)
entries_loop-IsReference (suc fuel) value p entries enough more h =
    elim (Bool-cases (ltb (length value) (p + 26))) [
      | inl past ↦ (entries, rw past refl, h)
      | inr inside ↦
          let len = or_zero (u16le value (p + 4)) in
          elim (Bool-cases (ltb len 26 || ltb (length value) (p + len))) [
            | inl broken ↦ (entries, rw (inside, broken) refl, h)
            | inr whole ↦
                let (all, ran, bounded) =
                  entries_loop-IsReference fuel value (p + len) (entries ++ entry_at value p ∷ [])
                    (ground arith) (ground arith)
                    (All-append IsReference entries (entry_at value p ∷ []) h
                      (entry_at-IsReference value p, tt)) in
                (all, rw (inside, whole, ran) refl, bounded)
          ]
    ]

-- On any bytes the loop of `parse_attribute_list_entries` ends, with entries whose record numbers are
-- below 2^48 and whose sequence numbers are below 2^16.
pub parse_attribute_list_entries-IsReference :
    (value : Bytes)
    → (all : List AttributeListEntry) × (parse_attribute_list_entries value ≡ ok all)
      × All IsReference all
unfolding parse_attribute_list_entries
parse_attribute_list_entries-IsReference value =
    entries_loop-IsReference (suc (length value)) value 0 [] (omega arith) (omega arith) tt
