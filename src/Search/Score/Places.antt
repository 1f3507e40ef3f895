-- ===== src/Search/Score/Places.antt =====
-- Which parts of a path a query searches, and when a term is found there.
use neutrasearch.Base.{
  none, ℕ, Bool, true, false, not, ◌&&◌, ◌≡◌, ◌↔◌, ◌⊎◌, inl, inr, refl, [], ◌∷◌, ◌++◌, Option, some,
  Bytes, if◌then◌else◌, Bool-cases, length,
}
use neutrasearch.Base.Table.{contains}
use neutrasearch.Base.Last.{after_last-absent, after_last-found}
use neutrasearch.Query.Paths.{is_ascii}
use neutrasearch.Query.Types.{Query, MatchFields, name, name_and_path, path}
use neutrasearch.Search.Find.{find_term, find_ascii}
use neutrasearch.Search.Find.First.{find_ascii-IsFirst, Stands}
use neutrasearch.Search.Score.{name_part, places}

-- The name is what follows the last slash of the path, or the whole path where it has none.
abbrev pub IsName : Bytes → Bytes → Type 0
IsName full base =
    (contains b'/' base ≡ false) × ((full ≡ base) ⊎ ((dir : Bytes) × (full ≡ dir ++ b'/' ∷ base)))

-- Where the source looks for a term: in one part, or in a second one too.
abbrev pub IsPlace : Option (ℕ × ℕ) × Option (ℕ × ℕ) → Type 0
IsPlace (hit, fallback) = ((h : ℕ × ℕ) × (hit ≡ some h)) ⊎ ((h : ℕ × ℕ) × (fallback ≡ some h))

name_part-IsName : (full base : Bytes) → IsName full base → name_part full ≡ base
unfolding name_part
name_part-IsName full base (apart, inl whole) =
    rw whole (rw (name_part, after_last-absent b'/' base apart) refl)
name_part-IsName full base (apart, inr (dir, cut)) =
    rw cut (rw (name_part, after_last-found b'/' dir base apart) refl)

module _ (find_characters : Bytes → Bytes → Bool → Bool → Bool → Option (ℕ × ℕ))
    (fold_term : Query → Bytes → Bytes) (regex_find : Query → Bytes → Bytes → Option (ℕ × ℕ))
    (q : Query) where
  -- In ASCII text a term that is not empty is found where it stands at a place; in other text, or where
  -- accents are folded, where the loop over the characters finds it.
  abbrev IsFoundBy : Bool → Bytes → Bytes → Type 0
  IsFoundBy true term text = (place : ℕ) × Stands text term q.case_sensitive q.whole_word place
  IsFoundBy false term text =
      (hit : ℕ × ℕ) × (find_characters text
          (if q.case_sensitive && not q.fold_accents then term else fold_term q term)
          q.case_sensitive q.whole_word q.fold_accents
        ≡ some hit)

  abbrev pub IsFoundIn : Bytes → Bytes → Type 0
  IsFoundIn [] text = Unit
  IsFoundIn (c ∷ term) text =
      IsFoundBy (is_ascii text && is_ascii (c ∷ term) && not q.fold_accents) (c ∷ term) text

  -- The parts that the fields of the query name.
  abbrev pub IsFoundAt : MatchFields → Bytes → Bytes → Bytes → Type 0
  IsFoundAt name full base term = IsFoundIn term base
  IsFoundAt path full base term = IsFoundIn term full
  IsFoundAt name_and_path full base term = IsFoundIn term base ⊎ IsFoundIn term full

  abbrev find : Bytes → Bytes → Option (ℕ × ℕ)
  find term text =
      find_term find_characters text term (fold_term q term) q.case_sensitive q.whole_word
        q.fold_accents

  ascii_iff :
      (term text : Bytes)
      → ((hit : ℕ × ℕ) × (find_ascii text term q.case_sensitive q.whole_word ≡ some hit))
        ↔ IsFoundBy true term text
  ascii_iff term text = elim (find_ascii-IsFirst text term q.case_sensitive q.whole_word) [
    | inl (nothing, nowhere) ↦ ((λ (hit, e). cc), λ (place, stands). absurd (nowhere place stands))
    | inr (place, found, stands, first) ↦
        ((λ h. (place, stands)), λ h. ((place, length term), found))
  ]

  find_term_iff :
      (term text : Bytes) → ((hit : ℕ × ℕ) × (find term text ≡ some hit)) ↔ IsFoundIn term text
  unfolding find_term
  find_term_iff [] text = ((λ h. tt), λ h. ((0, 0), refl))
  find_term_iff (c ∷ term) text =
      elim (Bool-cases (is_ascii text && is_ascii (c ∷ term) && not q.fold_accents)) [
        | inl ascii ↦ rw (find_term, ascii) (ascii_iff (c ∷ term) text)
        | inr other ↦ rw (find_term, other) ((λ h. h), λ h. h)
      ]

  parts : MatchFields → Bytes → Bytes → Bytes → Option (ℕ × ℕ) × Option (ℕ × ℕ)
  parts name full base term = (find term base, none)
  parts path full base term = (find term full, none)
  parts name_and_path full base term = (find term base, find term full)

  places-parts :
      (full base : Bytes)
      → name_part full ≡ base
      → (m : MatchFields) → q.match_fields ≡ m
      → (term : Bytes)
      → places find_characters fold_term regex_find q term full ≡ parts m full base term
  unfolding places parts
  places-parts full base is_name name e term = simp (places, e, is_name)
  places-parts full base is_name path e term = simp (places, e)
  places-parts full base is_name name_and_path e term = simp (places, e, is_name)

  parts_iff :
      (full base : Bytes) (m : MatchFields) (term : Bytes)
      → IsPlace (parts m full base term) ↔ IsFoundAt m full base term
  unfolding parts
  parts_iff full base name term =
      let (to, from) = find_term_iff term base in
      ((λ s. elim s [ inl h ↦ to h | inr (h, never) ↦ cc ]), λ f. inl (from f))
  parts_iff full base path term =
      let (to, from) = find_term_iff term full in
      ((λ s. elim s [ inl h ↦ to h | inr (h, never) ↦ cc ]), λ f. inl (from f))
  parts_iff full base name_and_path term =
      let (to, from) = find_term_iff term base in
      let (to2, from2) = find_term_iff term full in
      (
        (λ s. elim s [ inl h ↦ inl (to h) | inr h ↦ inr (to2 h) ]),
        λ s. elim s [ inl f ↦ inl (from f) | inr f ↦ inr (from2 f) ],
      )

  -- The source looks where the fields of the query say.
  pub places_iff :
      (full base : Bytes)
      → IsName full base
      → (term : Bytes)
      → IsPlace (places find_characters fold_term regex_find q term full)
        ↔ IsFoundAt q.match_fields full base term
  places_iff full base is_name term =
      rw (places-parts full base (name_part-IsName full base is_name) q.match_fields refl term)
        (parts_iff full base q.match_fields term)
