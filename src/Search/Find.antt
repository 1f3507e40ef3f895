-- ===== src/Search/Find.antt =====
-- `find_term` of crates/neutra-core/src/matcher/matching.rs. Strings are their bytes. The loop over the
-- characters of strings that are not ASCII, `find_characters`, is a parameter.
pub mod Places
pub mod First
use neutrasearch.Base.{
  ℕ, zero, suc, ◌+◌, ◌-◌, Bool, true, false, not, ◌&&◌, ◌||◌, List, [], ◌∷◌, Option, none, some,
  length, get_elem?, slice, leb, ltb, ◌==◌, if◌then◌else◌, Bytes, equal,
}
use neutrasearch.Query.Paths.{is_ascii}
use neutrasearch.Query.Filters.{same_text}

unfoldable pub is_word_byte : ℕ → Bool
is_word_byte b =
    (leb b'0' b && leb b b'9')
    || (leb b'A' b && leb b b'Z')
    || (leb b'a' b && leb b b'z')
    || b == b'_'

abbrev pub is_word : Option ℕ → Bool
is_word none = false
is_word (some b) = is_word_byte b

-- `start == 0 || !is_word_byte(haystack[start - 1])`
unfoldable pub starts_word : Bytes → ℕ → Bool
starts_word haystack start = start == 0 || not (is_word (get_elem? haystack (start - 1)))

unfoldable pub ascii_word_bounds : Bytes → ℕ → ℕ → Bool
ascii_word_bounds haystack start len =
    let prev_ok = starts_word haystack start in
    let next_ok =
      leb (length haystack) (start + len) || not (is_word (get_elem? haystack (start + len))) in
    prev_ok && next_ok

module _ (haystack needle : Bytes) (case_sensitive whole_word : Bool) where
  -- `same`, of the bytes from `start` on.
  unfoldable pub same_at : ℕ → Bool
  same_at start = elim (slice haystack start (start + length needle)) [
    | none ↦ false
    | some part ↦ if case_sensitive then equal part needle else same_text part needle
  ]

  unfoldable pub matches_at : ℕ → Bool
  matches_at start =
      same_at start && (not whole_word || ascii_word_bounds haystack start (length needle))

  -- `for start in ..`, for the next `rounds` places from `start` on.
  unfoldable pub find_from : ℕ → ℕ → Option ℕ
  find_from zero start = none
  find_from (suc rounds) start =
      let later = find_from rounds (start + 1) in if matches_at start then some start else later

  unfoldable pub find_ascii : Option (ℕ × ℕ)
  find_ascii =
      if ltb (length haystack) (length needle)
      then none
      else elim (find_from (length haystack - length needle + 1) 0) [
        | none ↦ none
        | some start ↦ some (start, length needle)
      ]

module _ (find_characters : Bytes → Bytes → Bool → Bool → Bool → Option (ℕ × ℕ)) where
  unfoldable pub find_term : Bytes → Bytes → Bytes → Bool → Bool → Bool → Option (ℕ × ℕ)
  find_term haystack [] needle_folded case_sensitive whole_word fold_accents = some (0, 0)
  find_term haystack (c ∷ needle) needle_folded case_sensitive whole_word fold_accents =
      if is_ascii haystack && is_ascii (c ∷ needle) && not fold_accents
      then find_ascii haystack (c ∷ needle) case_sensitive whole_word
      else find_characters haystack
          (if case_sensitive && not fold_accents then c ∷ needle else needle_folded) case_sensitive
          whole_word fold_accents
