-- ===== src/Compact/Postings/Examples.antt =====
-- The postings of three pairs: gram 1 in blocks 2 and 5, gram 3 in block 0.
use neutrasearch.Base.{ℕ, ◌≡◌, ◌++◌, [], ◌∷◌, List, map, ok, arith, Bytes}
use neutrasearch.Compact.Postings.{DictEntry, write_postings_from_pairs}
use neutrasearch.Compact.Postings.Written.{IsEncoded, postings, write_postings_from_pairs-IsEncoded}

abbrev three_pairs : List ℕ
three_pairs = 4294967298 ∷ 4294967301 ∷ 12884901888 ∷ []

write_postings_from_pairs-IsEncoded_example :
    (dict : List DictEntry) × (more : Bytes) × (write_postings_from_pairs
        (map ok three_pairs)
        (7 ∷ [])
      ≡ ok (dict, (7 ∷ []) ++ more))
    × IsEncoded ((7 ∷ []) ++ more) dict (postings three_pairs)
write_postings_from_pairs-IsEncoded_example =
    write_postings_from_pairs-IsEncoded three_pairs (7 ∷ [])
      (omega arith, omega arith, (omega arith, omega arith, (omega arith, omega arith, tt)))
      (omega arith) (omega arith)
