-- ===== src/Search/Examples.antt =====
-- The theorems on matching, ranking and the lists that a search returns, at three records.
use neutrasearch.Search.Leaders.Exact.{search-IsTop}
use neutrasearch.Search.Leaders.Page.{AreSorted, all_hits, AreLeaders}
use neutrasearch.Base.{
  All-drop, suc, drop, ℕ, Bool, true, false, List, [], ◌∷◌, ◌≡◌, refl, Option, none, some, ◌<◌,
  Bytes, length, take, equal, slice, arith, zero,
}
use neutrasearch.Search.Top.Heap.{push_ranked}
use neutrasearch.Search.Find.{
  is_word_byte, starts_word, ascii_word_bounds, same_at, matches_at, find_from, find_ascii,
}
use neutrasearch.Query.Filters.{same_text}
use neutrasearch.Search.Compare.Order.{compare_records-IsComparison}
use neutrasearch.Search.Index.Exact.{IsSelection, search-IsExact}
use neutrasearch.Search.Compare.Laws.{IsComparison}
use neutrasearch.Base.Int.{pos}
use neutrasearch.Base.Text.{codes}
use neutrasearch.Record.{FileRecord, file, ext4}
use neutrasearch.Search.Index
use neutrasearch.Search.Leaders
use neutrasearch.Search.Leaders.{
  Lists, Delta, page, base_loop, upsert_loop, candidate, is_shadowed, unfiltered, leaders_of,
}
use neutrasearch.Base.Sorting.{
  count, insert_by, sort_by, AreDescending, HaveSameItems, sort_by-HaveSameItems,
  sort_by-AreDescending, flip-IsOrder,
}
use neutrasearch.Search.Compare.{
  compare_index_paths, compare_zipped, sort_mtime, fold_byte, SearchHit, compare_records,
  comes_before,
}
use neutrasearch.Query.Types.{SortKey, Query, default_query, mtime_desc, size_desc}
use neutrasearch.Search.Index.{Reduction, chunk, join, score_chunk}
use neutrasearch.Search.Top.{AreAhead, IsTop}

abbrev record_at : Bytes → ℕ → FileRecord
record_at path mtime = record {
  path = path;
  size = 1;
  disk = 4096;
  mtime = pos mtime;
  mode = 0;
  kind = file;
  fs = ext4;
  native_id = 0;
  native_parent = 0;
  source = 0;
}

compare_records-IsComparison_example : IsComparison (compare_records false mtime_desc)
compare_records-IsComparison_example = compare_records-IsComparison false mtime_desc

bounds_test : find_ascii (codes "my_note note") (codes "NOTE") false true ≡ some (8, 4)
unfolding find_ascii find_from matches_at same_at same_text slice ascii_word_bounds starts_word
    is_word_byte
bounds_test = refl

find_test : find_ascii (codes "main-notes") (codes "NOTE") false false ≡ some (5, 4)
unfolding find_ascii find_from matches_at same_at same_text slice
find_test = refl

word_test : find_ascii (codes "main-notes") (codes "note") false true ≡ none
unfolding find_ascii find_from matches_at same_at same_text slice ascii_word_bounds starts_word
    is_word_byte
word_test = refl

abbrev no_characters : Bytes → Bytes → Bool → Bool → Bool → Option (ℕ × ℕ)
no_characters haystack needle case_sensitive whole_word fold_accents = none

abbrev no_regex : Query → Bytes → Bytes → Option (ℕ × ℕ)
no_regex q pattern haystack = none

abbrev words : Query
words = record default_query { terms = codes "main" ∷ codes "notes" ∷ [] }

abbrev notes : Bytes
notes = codes "/doc/main-notes"

-- The selection sorts, the first hit in front.
abbrev by_sorting : (SearchHit → SearchHit → Bool) → ℕ → List SearchHit → List SearchHit
by_sorting less n xs = sort_by (λ a b. less b a) xs

sorted_parts :
    (less : SearchHit → SearchHit → Bool) (n : ℕ) (xs : List SearchHit)
    → AreDescending (λ a b. less b a) xs
    → AreAhead less (take n xs) (drop n xs)
sorted_parts less zero xs sorted = tt
sorted_parts less (suc n) [] sorted = tt
sorted_parts less (suc n) (x ∷ xs) (first, sorted) =
    (All-drop (λ (y : SearchHit). less y x ≡ false) n xs first, sorted_parts less n xs sorted)

selects : IsSelection by_sorting
selects = record {
  same = λ less n xs. sort_by-HaveSameItems (λ a b. less b a) xs;
  parted = λ less order n xs.
      sorted_parts less n (sort_by (λ a b. less b a) xs)
        (sort_by-AreDescending (λ a b. less b a) (flip-IsOrder less order) xs);
}

abbrev newest_two : Query
newest_two = record default_query { sort = mtime_desc; limit = 2 }

all_pass : Query → FileRecord → Bool
all_pass q r = true

all_zero : Query → FileRecord → Option ℕ
all_zero q r = some 0

abbrev some_records : List FileRecord
some_records =
    record_at (codes "/old") 10 ∷ record_at (codes "/new") 30 ∷ record_at (codes "/mid") 20 ∷ []

abbrev in_two_chunks : Reduction
in_two_chunks =
    join (chunk (record_at (codes "/old") 10 ∷ []))
      (chunk (record_at (codes "/new") 30 ∷ record_at (codes "/mid") 20 ∷ []))

search-IsExact_example :
    ((Index.search false all_pass all_zero by_sorting newest_two in_two_chunks).0
      ≡ length (score_chunk false all_pass all_zero by_sorting newest_two some_records))
    × AreDescending
        (λ a b. comes_before false mtime_desc b a)
        (Index.search false all_pass all_zero by_sorting newest_two in_two_chunks).1
    × (newest_two.limit ≡ 0
        → HaveSameItems
            (Index.search false all_pass all_zero by_sorting newest_two in_two_chunks).1
            (score_chunk false all_pass all_zero by_sorting newest_two some_records))
    × (0 < 2
        → IsTop
            (comes_before false mtime_desc)
            2
            (Index.search false all_pass all_zero by_sorting newest_two in_two_chunks).1
            (score_chunk false all_pass all_zero by_sorting newest_two some_records))
search-IsExact_example =
    search-IsExact false all_pass all_zero by_sorting selects newest_two in_two_chunks some_records
      refl

-- The newest first; the lists have every record.
abbrev in_order : List FileRecord
in_order =
    record_at (codes "/new") 30 ∷ record_at (codes "/mid") 20 ∷ record_at (codes "/old") 10 ∷ []

abbrev lists : Lists
lists = record { total = 3; newest = in_order; largest = in_order }

whole : (sort : SortKey) → AreLeaders false all_pass all_zero sort 3 in_order in_order
unfolding count
whole sort = record {
  top = record { dropped = []; same = λ p. refl; ahead = (tt, (tt, (tt, tt))); full = omega arith };
  in_total = omega arith;
}

-- The delta removes the newest record and adds one.
abbrev delta : Option Delta
delta = some record {
  shadows = λ path. equal path (codes "/new");
  upserts = record_at (codes "/now") 40 ∷ [];
}

abbrev page_of : List SearchHit
page_of =
    record { score = 0; record_of = record_at (codes "/now") 40 }
    ∷ record { score = 0; record_of = record_at (codes "/mid") 20 }
    ∷ []

found :
    Leaders.search false all_pass all_zero lists newest_two delta
    ≡ some (page_of, record { scanned = 4; matched = 4 })
unfolding Leaders.search page base_loop upsert_loop candidate is_shadowed unfiltered leaders_of
    push_ranked insert_by sort_by comes_before compare_records compare_index_paths compare_zipped
    sort_mtime fold_byte all_pass all_zero
found = refl

search-IsTop_example :
    IsTop
      (comes_before false mtime_desc)
      2
      page_of
      (all_hits false all_pass all_zero newest_two delta in_order)
    × AreSorted false all_pass all_zero mtime_desc page_of
unfolding all_zero
search-IsTop_example =
    search-IsTop false all_pass all_zero lists in_order newest_two delta page_of
      record { scanned = 4; matched = 4 }
      record { newest = whole mtime_desc; largest = whole size_desc } (λ no_terms plain r. refl)
      found
