-- ===== src/Search/Score.antt =====
-- `score_path` of crates/neutra-core/src/matcher.rs. The pattern engine `regex_find` and the loop over the
-- characters of strings that are not ASCII are parameters; `fold_term` is what the matcher makes of a term.
pub mod Places
pub mod Bounds
use neutrasearch.Base.{
  ℕ, ◌+◌, ◌-◌, ◌*◌, ◌%◌, ◌^◌, min, Bool, true, false, ◌&&◌, List, [], ◌∷◌, Option, none, some,
  length, ◌==◌, if◌then◌else◌, Bytes, u32_mod, u64_mod,
}
use neutrasearch.Base.Text.{after_last}
use neutrasearch.Record.{FileRecord}
use neutrasearch.Query.Types.{Query, MatchFields, name, name_and_path, path}
use neutrasearch.Search.Find.{find_term}

-- The bonus of a match in the name; the arithmetic of `name_score` and of the loop is the same.
unfoldable pub match_score : ℕ → ℕ → ℕ → ℕ
match_score pos len name_len =
    (if pos == 0 then 2 ^ 20 else 2 ^ 12)
    + (if pos == 0 && len == name_len then 2 ^ 24 else 0)
    + (256 - min pos 255)

unfoldable pub name_score : ℕ → ℕ → ℕ → ℕ
name_score pos len name_len = min (match_score pos len name_len) (u32_mod - 1)

-- A match in the path alone.
abbrev pub path_score : ℕ
path_score = 2 ^ 6

-- `path.rfind('/')`
unfoldable pub name_part : Bytes → Bytes
name_part full = elim (after_last b'/' full) [ none ↦ full | some rest ↦ rest ]

abbrev pub or_else : Option (ℕ × ℕ) → Option (ℕ × ℕ) → Option (ℕ × ℕ)
or_else (some hit) other = some hit
or_else none other = other

-- The score of a term by its match in the searched part, or by a match in the path.
unfoldable pub term_score : ℕ → Option (ℕ × ℕ) → Option (ℕ × ℕ) → Option ℕ
term_score name_len (some (pos, len)) fallback = some (match_score pos len name_len)
term_score name_len none (some hit) = some path_score
term_score name_len none none = none

module _ (find_characters : Bytes → Bytes → Bool → Bool → Bool → Option (ℕ × ℕ))
    (fold_term : Query → Bytes → Bytes) (regex_find : Query → Bytes → Bytes → Option (ℕ × ℕ)) where
  abbrev find : Query → Bytes → Bytes → Option (ℕ × ℕ)
  find q term haystack =
      find_term find_characters haystack term (fold_term q term) q.case_sensitive q.whole_word
        q.fold_accents

  -- Where a term is found, and where else it may be.
  unfoldable pub places : Query → Bytes → Bytes → Option (ℕ × ℕ) × Option (ℕ × ℕ)
  places q term full = elim q.match_fields [
    | name ↦ (find q term (name_part full), none)
    | path ↦ (find q term full, none)
    | name_and_path ↦ (find q term (name_part full), find q term full)
  ]

  -- The loop over the terms; the sum is a `u64`.
  unfoldable pub score_terms : Query → Bytes → List Bytes → ℕ → Option ℕ
  score_terms q full [] total = some (min total (u32_mod - 1))
  score_terms q full (term ∷ terms) total =
      let (hit, fallback) = places q term full in
      elim (term_score (length (name_part full)) hit fallback) [
        | none ↦ none
        | some score ↦ score_terms q full terms ((total + score) % u64_mod)
      ]

  unfoldable pub score_regex : Query → Bytes → Bytes → Option ℕ
  score_regex q pattern full =
      let name_hit = regex_find q pattern (name_part full) in
      let path_hit : Option (ℕ × ℕ) = elim q.match_fields [
        | name ↦ none
        | path ↦ regex_find q pattern full
        | name_and_path ↦ elim name_hit [ some hit ↦ none | none ↦ regex_find q pattern full ]
      ] in
      elim name_hit [
        | some hit ↦ some (name_score hit.0 hit.1 (length (name_part full)))
        | none ↦ elim path_hit [ some hit ↦ some path_score | none ↦ none ]
      ]

  unfoldable pub score_plain : Query → Bytes → List Bytes → Option ℕ
  score_plain q full [] = some 0
  score_plain q full (term ∷ terms) = score_terms q full (term ∷ terms) 0

  unfoldable pub score_path : Query → Bytes → Option ℕ
  score_path q full = elim q.regex [
    | some pattern ↦ score_regex q pattern full
    | none ↦ score_plain q full q.terms
  ]

  unfoldable pub score : Query → FileRecord → Option ℕ
  score q r = score_path q r.path
