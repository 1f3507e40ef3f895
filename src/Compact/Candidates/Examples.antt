-- ===== src/Compact/Candidates/Examples.antt =====
-- An index of eight blocks with one gram, that of `abc`, in block 5.
use neutrasearch.Base.{ℕ, ◌≡◌, refl, [], ◌∷◌, List, Bytes, All, true, false, ◌&&◌, ok, arith, slice}
use neutrasearch.Base.Table.{contains}
use neutrasearch.Ntfs.Words.{le_value}
use neutrasearch.Compact.Codec.{u32_at, u64_at, checked, get_varint, get_varint_loop}
use neutrasearch.Compact.Postings.{DictEntry, decode_posting, decode_loop}
use neutrasearch.Compact.Dictionary.{TableView, dict_find, dict_find_loop, dict_entry}
use neutrasearch.Compact.Candidates.{collect_trigrams, trigrams, candidate_blocks, intersect}
use neutrasearch.Compact.Candidates.Intersect.{intersect-contains}
use neutrasearch.Compact.Candidates.Complete.{IsListed, IsIndexed, candidate_blocks-contains}

abbrev index : Bytes
index = 99 ∷ 98 ∷ 97 ∷ 0 ∷ 1 ∷ 0 ∷ 0 ∷ 0 ∷ 16 ∷ 0 ∷ 0 ∷ 0 ∷ 0 ∷ 0 ∷ 0 ∷ 0 ∷ 5 ∷ []

abbrev view : TableView
view = record { start = 0; count = 1 }

abbrev abc : Bytes
abc = 97 ∷ 98 ∷ 99 ∷ []

abbrev entry : DictEntry
entry = record { gram = 6382179; len = 1; offset = 16 }

entry-IsListed : IsListed index 5 entry
unfolding decode_posting decode_loop checked get_varint get_varint_loop contains slice
entry-IsListed = record {
  blocks = 5 ∷ [];
  decoded = refl;
  up = (omega arith, omega arith, tt);
  listed = refl;
}

abc-IsIndexed : All (IsIndexed index view 5) (collect_trigrams (λ t. t) (abc ∷ []))
unfolding dict_find dict_find_loop dict_entry u32_at u64_at checked slice le_value collect_trigrams
    trigrams
abc-IsIndexed = ((entry, refl, entry-IsListed), tt)

candidate_blocks-contains_example :
    (cs : List ℕ) × (candidate_blocks (λ t. t) (λ xs. xs) (λ es. es) index view 8 false (abc ∷ [])
      ≡ ok cs)
    × (contains 5 cs ≡ true)
candidate_blocks-contains_example =
    candidate_blocks-contains (λ t. t) (λ xs. xs) (λ es. es) (λ P xs h. h) (λ P xs h. h)
      (λ xs. refl) index view 8 5 false (abc ∷ []) (omega arith) (omega arith) abc-IsIndexed

intersect-contains_example :
    contains 3 (intersect (1 ∷ 3 ∷ []) (3 ∷ 4 ∷ []))
    ≡ (contains 3 (1 ∷ 3 ∷ []) && contains 3 (3 ∷ 4 ∷ []))
intersect-contains_example =
    intersect-contains 3 (1 ∷ 3 ∷ []) (3 ∷ 4 ∷ [])
      (omega arith, omega arith, (omega arith, omega arith, tt))
      (omega arith, omega arith, (omega arith, omega arith, tt))
