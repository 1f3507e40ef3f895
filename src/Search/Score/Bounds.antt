-- ===== src/Search/Score/Bounds.antt =====
-- How the scores of matches compare, and what scores at all.
use neutrasearch.Base.{ℕ, ◌+◌, ◌<◌, ◌^◌, Bool, ◌≡◌, ◌≢◌, List, Option, Bytes, All, arith}
use neutrasearch.Query.Types.{Query}
use neutrasearch.Search.Score.Places.{IsName, IsFoundAt, IsPlace}
use neutrasearch.Search.Score.{match_score, path_score, places}

-- A match of the whole name scores above every other match, one at the name's start above one inside it,
-- and one inside it above one in the path alone; every score is below 2^25.
pub match_score-ranks :
    (pos len name_len : ℕ)
    → (pos ≡ 0 → len ≡ name_len → 2 ^ 24 + 2 ^ 20 + 256 ≡ match_score pos len name_len)
      × (pos ≡ 0 → len ≢ name_len → 2 ^ 20 + 256 ≡ match_score pos len name_len)
      × (pos ≢ 0
          → (2 ^ 12 < match_score pos len name_len) × (match_score pos len name_len < 2 ^ 12 + 256))
      × (path_score < match_score pos len name_len)
      × (match_score pos len name_len < 2 ^ 25)
unfolding match_score
match_score-ranks pos len name_len = ground arith

module _ (find_characters : Bytes → Bytes → Bool → Bool → Bool → Option (ℕ × ℕ))
    (fold_term : Query → Bytes → Bytes) (regex_find : Query → Bytes → Bytes → Option (ℕ × ℕ))
    (q : Query) (full : Bytes) where
  abbrev AreFound : List Bytes → Type 0
  AreFound terms =
      All (λ term. IsPlace (places find_characters fold_term regex_find q term full)) terms

  module _ (base : Bytes) (is_name : IsName full base) where
    -- Each term is found in a part that the query searches.
    abbrev pub AreMatched : List Bytes → Type 0
    AreMatched terms =
        All (λ term. IsFoundAt find_characters fold_term regex_find q q.match_fields full base term)
          terms
