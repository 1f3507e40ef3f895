-- ===== src/Search/Find/Places.antt =====
-- Where a term stands in ASCII text: as the same bytes, or as the same letters, and, where whole words are
-- asked for, with no letter, digit or underscore next to it.
use neutrasearch.Base.{
  and_true, ℕ, ◌+◌, ◌-◌, ◌≤◌, Bool, true, false, not, ◌&&◌, ◌||◌, ◌≡◌, ◌≢◌, ◌↔◌, ◌⊎◌, inl, inr,
  refl, [], ◌∷◌, Option, none, some, length, map, leb, ◌==◌, slice, get_elem?, get_elem?-none,
  equal, equal_iff, Bytes, arith, Bool-cases, Option-cases, if◌then◌else◌, ==_iff, leb→le,
}
use mathlib.Core.Option.{some-injective}
use neutrasearch.Query.Filters.{same_text}
use neutrasearch.Search.Find.{
  is_word_byte, is_word, starts_word, ascii_word_bounds, same_at, matches_at,
}

abbrev pub IsWord : ℕ → Type 0
IsWord b = ((48 ≤ b) × (b ≤ 57)) ⊎ ((65 ≤ b) × (b ≤ 90)) ⊎ ((97 ≤ b) × (b ≤ 122)) ⊎ (b ≡ 95)

-- There is no byte, or one that does not belong to a word.
abbrev pub IsEdge : Option ℕ → Type 0
IsEdge none = Unit
IsEdge (some b) = ¬ IsWord b

-- The small letter of a letter.
abbrev pub small : ℕ → ℕ
small b = if leb 65 b && leb b 90 then b + 32 else b

abbrev pub IsSame : Bool → Bytes → Bytes → Type 0
IsSame true part needle = part ≡ needle
IsSame false part needle = map small part ≡ map small needle

module _ (haystack needle : Bytes) (case_sensitive whole_word : Bool) where
  pub record StandsAt (place : ℕ) : Type 0 where
    pub part : Bytes
    pub here : slice haystack place (place + length needle) ≡ some part
    pub same : IsSame case_sensitive part needle
    pub before : whole_word ≡ true → place ≢ 0 → IsEdge (get_elem? haystack (place - 1))
    pub after : whole_word ≡ true → IsEdge (get_elem? haystack (place + length needle))

is_word_byte_iff : (b : ℕ) → (is_word_byte b ≡ true) ↔ IsWord b
unfolding is_word_byte
is_word_byte_iff b = ground arith

same_text_iff : (a b : Bytes) → (same_text a b ≡ true) ↔ (map small a ≡ map small b)
unfolding same_text
same_text_iff [] [] = ground arith
same_text_iff [] (y ∷ b) = ground arith
same_text_iff (x ∷ a) [] = ground arith
same_text_iff (x ∷ a) (y ∷ b) = ground (arith, same_text_iff a b)

IsEdge-iff : (o : Option ℕ) → (not (is_word o) ≡ true) ↔ IsEdge o
IsEdge-iff none = ((λ e. tt), λ e. refl)
IsEdge-iff (some b) =
    let letter = is_word_byte_iff b in
    elim (Bool-cases (is_word_byte b)) [
      | inl word ↦ ((λ e. let never = rw word at e in cc), λ edge. absurd (edge (letter.0 word)))
      | inr other ↦ ((λ e w. let never = letter.1 w in cc), λ edge. rw other refl)
    ]

module _ (haystack needle : Bytes) where
  starts_word_iff :
      (i : ℕ) → (starts_word haystack i ≡ true) ↔ (i ≢ 0 → IsEdge (get_elem? haystack (i - 1)))
  unfolding starts_word
  starts_word_iff i = elim (Bool-cases (i == 0)) [
    | inl front ↦ rw (starts_word, front) ((λ e n. absurd (n ((==_iff i 0).0 front))), λ h. refl)
    | inr behind ↦
        let (to, from) = IsEdge-iff (get_elem? haystack (i - 1)) in
        rw (starts_word, behind)
          ((λ e n. to e), λ h. from (h λ e. let never = (==_iff i 0).1 e in cc))
  ]

  next_iff :
      (i : ℕ)
      → ((leb (length haystack) i || not (is_word (get_elem? haystack i))) ≡ true)
        ↔ IsEdge (get_elem? haystack i)
  next_iff i = elim (Bool-cases (leb (length haystack) i)) [
    | inl out ↦ rw (out, get_elem?-none haystack i (leb→le _ _ out)) ((λ e. tt), λ e. refl)
    | inr inside ↦ rw inside (IsEdge-iff (get_elem? haystack i))
  ]

  bounds_iff :
      (i : ℕ)
      → (ascii_word_bounds haystack i (length needle) ≡ true) ↔ (
          (i ≢ 0 → IsEdge (get_elem? haystack (i - 1)))
          × IsEdge (get_elem? haystack (i + length needle)))
  unfolding ascii_word_bounds
  bounds_iff i =
      let (to, from) = starts_word_iff i in
      let (to2, from2) = next_iff (i + length needle) in
      ((λ e. let (a, b) = and_true _ _ e in (to a, to2 b)), λ (a, b). rw (from a, from2 b) refl)

  same_at_iff :
      (cs ww : Bool) (i : ℕ)
      → (same_at haystack needle cs ww i ≡ true) ↔ (
          (part : Bytes) × (slice haystack i (i + length needle) ≡ some part)
          × IsSame cs part needle)
  unfolding same_at
  same_at_iff cs ww i = elim (Option-cases (slice haystack i (i + length needle))) [
    | inl out ↦ rw (same_at, out) ((λ e. cc), λ (part, here, same). cc)
    | inr (part, here) ↦
        let (to, from) = test_iff cs part in
        rw (same_at, here)
          (
            (λ e. (part, refl, to e)),
            λ (part', here', same). from (rw (some-injective part part' here') same),
          )
  ]
    where
      test_iff :
          (cs : Bool) (part : Bytes)
          → ((if cs then equal part needle else same_text part needle) ≡ true)
            ↔ IsSame cs part needle
      test_iff true part = equal_iff part needle
      test_iff false part = same_text_iff part needle

  -- The test of the loop holds exactly where the term stands.
  pub matches_at_iff :
      (cs ww : Bool) (i : ℕ)
      → (matches_at haystack needle cs ww i ≡ true) ↔ StandsAt haystack needle cs ww i
  unfolding matches_at
  matches_at_iff cs true i =
      let (to, from) = same_at_iff cs true i in
      let (to2, from2) = bounds_iff i in
      (
        (λ e.
            let (found, alone) = and_true (same_at haystack needle cs true i) _ e in
            let (part, here, same) = to found in
            let (before, after) = to2 alone in
            record {
              part = part;
              here = here;
              same = same;
              before = λ w. before;
              after = λ w. after;
            }),
        λ s. rw (from (s.part, s.here, s.same), from2 (s.before refl, s.after refl)) refl,
      )
  matches_at_iff cs false i =
      let (to, from) = same_at_iff cs false i in
      (
        (λ e.
            let (found, anywhere) = and_true (same_at haystack needle cs false i) _ e in
            let (part, here, same) = to found in
            record {
              part = part;
              here = here;
              same = same;
              before = λ w. absurd (ne w);
              after = λ w. absurd (ne w);
            }),
        λ s. rw (from (s.part, s.here, s.same)) refl,
      )
    where
      ne : ¬ (false ≡ true)
      ne e = cc
