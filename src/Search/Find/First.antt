-- ===== src/Search/Find/First.antt =====
-- Where `find_term` finds an ASCII term.
use neutrasearch.Base.{
  ℕ, zero, suc, ◌+◌, ◌-◌, ◌<◌, ◌≤◌, Bool, true, false, ◌≡◌, refl, none, some, length, ltb, ltb→lt,
  ltb→ge, Bytes, arith, Bool-cases, inl, inr, ◌⊎◌, slice_inside,
}
use native.Mathlib.Nat.{zero-add}
use neutrasearch.Search.Find.{matches_at, find_from, find_ascii}
use neutrasearch.Search.Find.Places.{StandsAt, matches_at_iff}

module _ (haystack needle : Bytes) (case_sensitive whole_word : Bool) where
  abbrev here : ℕ → Bool
  here = matches_at haystack needle case_sensitive whole_word

  -- The place is the first of those from `start` on.
  record IsFirst (start limit place : ℕ) : Type 0 where
    pub from_start : start ≤ place
    pub below : place < limit
    pub found : here place ≡ true
    pub first : (i : ℕ) → start ≤ i → i < place → here i ≡ false

  -- No place from `start` on.
  abbrev IsAbsent : ℕ → ℕ → Type 0
  IsAbsent start limit = (i : ℕ) → start ≤ i → i < limit → here i ≡ false

  at_start :
      (start i : ℕ)
      → here start ≡ false
      → start ≤ i
      → (suc start ≤ i → here i ≡ false)
      → here i ≡ false
  at_start start i no_match h later = elim (Bool-cases (ltb start i)) [
    | inl after ↦ later (omega (arith, ltb→lt start i after))
    | inr equal_start ↦
        let same : i ≡ start = omega (arith, ltb→ge start i equal_start) in rw same no_match
  ]

  find_from-IsFirst :
      (rounds start : ℕ)
      → ((find_from haystack needle case_sensitive whole_word rounds start ≡ none)
          × IsAbsent start (start + rounds))
        ⊎ ((place : ℕ) × (find_from haystack needle case_sensitive whole_word rounds start
              ≡ some place)
            × IsFirst start (start + rounds) place)
  unfolding find_from
  find_from-IsFirst zero start = inl (refl, λ i h k. absurd (omega arith))
  find_from-IsFirst (suc rounds) start = elim (Bool-cases (here start)) [
    | inl found ↦ inr (
      start,
      rw (find_from, found) refl,
      record {
        from_start = omega arith;
        below = omega arith;
        found = found;
        first = λ i h k. absurd (omega arith);
      },
    )
    | inr no_match ↦ elim (find_from-IsFirst rounds (start + 1)) [
      | inl (nowhere, absent) ↦ inl (
        rw (find_from, no_match) nowhere,
        λ i h k. at_start start i no_match h λ after. absent i (omega arith) (omega arith),
      )
      | inr (place, found, first) ↦ inr (
        place,
        rw (find_from, no_match) found,
        record {
          from_start = omega (arith, first.from_start);
          below = omega (arith, first.below);
          found = first.found;
          first = λ i h k. at_start start i no_match h λ after. first.first i (omega arith) k;
        },
      )
    ]
  ]

  find_ascii_lem :
      ((find_ascii haystack needle case_sensitive whole_word ≡ none)
        × ((i : ℕ) → i + length needle ≤ length haystack → here i ≡ false))
      ⊎ ((place : ℕ) × (find_ascii haystack needle case_sensitive whole_word
            ≡ some (place, length needle))
          × IsFirst 0 (length haystack - length needle + 1) place)
  unfolding find_ascii
  find_ascii_lem = elim (Bool-cases (ltb (length haystack) (length needle))) [
    | inl short ↦
        let less = ltb→lt (length haystack) (length needle) short in
        inl (rw short refl, λ i h. absurd (omega (arith, less)))
    | inr long ↦
        let enough = ltb→ge (length haystack) (length needle) long in
        elim (find_from-IsFirst (length haystack - length needle + 1) 0) [
          | inl (nowhere, absent) ↦
              inl (rw (long, nowhere) refl, λ i h. absent i (omega arith) (omega (arith, enough)))
          | inr (place, found, first) ↦ inr (
            place,
            rw (long, found) refl,
            rw (zero-add (length haystack - length needle + 1)) at first,
          )
        ]
  ]

  abbrev pub Stands : ℕ → Type 0
  Stands = StandsAt haystack needle case_sensitive whole_word

  absent : (i : ℕ) → (i + length needle ≤ length haystack → here i ≡ false) → ¬ Stands i
  absent i nowhere s =
      let (same, low, high) = slice_inside haystack i (i + length needle) s.here in
      let never = nowhere high in
      let always = (matches_at_iff haystack needle case_sensitive whole_word i).1 s in cc

  pub find_ascii-IsFirst :
      ((find_ascii haystack needle case_sensitive whole_word ≡ none) × ((i : ℕ) → ¬ Stands i))
      ⊎ ((place : ℕ) × (find_ascii haystack needle case_sensitive whole_word
            ≡ some (place, length needle))
          × Stands place
          × ((i : ℕ) → i < place → ¬ Stands i))
  find_ascii-IsFirst = elim find_ascii_lem [
    | inl (nothing, nowhere) ↦ inl (nothing, λ i. absent i (nowhere i))
    | inr (place, found, first) ↦ inr (
      place,
      found,
      (matches_at_iff haystack needle case_sensitive whole_word place).0 first.found,
      λ i before. absent i λ inside. first.first i (omega arith) before,
    )
  ]
