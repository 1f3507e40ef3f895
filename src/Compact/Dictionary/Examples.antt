-- ===== src/Compact/Dictionary/Examples.antt =====
-- The search in a dictionary of one entry.
use neutrasearch.Base.{ℕ, ◌≡◌, ◌<◌, refl, [], ◌∷◌, Bytes, some, arith, get_elem?, slice, suc, zero}
use neutrasearch.Ntfs.Words.{le_value}
use neutrasearch.Compact.Codec.{u32_at, u64_at, checked}
use neutrasearch.Compact.Postings.{DictEntry}
use neutrasearch.Compact.Dictionary.{TableView, dict_entry, dict_find}
use neutrasearch.Compact.Dictionary.Search.{IsTable, lookup, dict_find-lookup}

abbrev index : Bytes
index = 99 ∷ 98 ∷ 97 ∷ 0 ∷ 1 ∷ 0 ∷ 0 ∷ 0 ∷ 16 ∷ 0 ∷ 0 ∷ 0 ∷ 0 ∷ 0 ∷ 0 ∷ 0 ∷ []

abbrev view : TableView
view = record { start = 0; count = 1 }

abbrev entry : DictEntry
entry = record { gram = 6382179; len = 1; offset = 16 }

stored_entry :
    (i : ℕ) (e : DictEntry) → get_elem? (entry ∷ []) i ≡ some e → dict_entry index view i ≡ some e
unfolding dict_entry u32_at u64_at checked slice le_value
stored_entry zero e there = there
stored_entry (suc i) e there = cc

only : (i j : ℕ) (a b : DictEntry) → i < j → get_elem? (entry ∷ []) j ≡ some b → a.gram < b.gram
only i zero a b less there = absurd (omega arith)
only i (suc j) a b less there = cc

index-IsTable : IsTable index view (entry ∷ [])
index-IsTable = record {
  counted = refl;
  stored = stored_entry;
  ascending = λ i j a b less here there. only i j a b less there;
}

dict_find-lookup_example : dict_find index view 6382179 ≡ lookup 6382179 (entry ∷ [])
dict_find-lookup_example = dict_find-lookup index view (entry ∷ []) 6382179 index-IsTable
