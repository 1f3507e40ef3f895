-- ===== src/Ntfs/AttrList/Examples.antt =====
-- One entry of 26 bytes: record 5 of sequence 1.
use neutrasearch.Base.{◌≡◌, [], ◌∷◌, List, Bytes, All, ok}
use neutrasearch.Ntfs.AttrList.{AttributeListEntry, parse_attribute_list_entries}
use neutrasearch.Ntfs.AttrList.Entries.{IsReference, parse_attribute_list_entries-IsReference}

abbrev one_entry : Bytes
one_entry =
    128 ∷ 0 ∷ 0 ∷ 0 ∷ 26 ∷ 0 ∷ 0 ∷ 26 ∷ 0 ∷ 0 ∷ 0 ∷ 0 ∷ 0 ∷ 0 ∷ 0 ∷ 0 ∷ 5 ∷ 0 ∷ 0 ∷ 0 ∷ 0 ∷ 0 ∷ 1
    ∷ 0 ∷ 3 ∷ 0 ∷ []

parse_attribute_list_entries-IsReference_example :
    (all : List AttributeListEntry) × (parse_attribute_list_entries one_entry ≡ ok all)
    × All IsReference all
parse_attribute_list_entries-IsReference_example =
    parse_attribute_list_entries-IsReference one_entry
