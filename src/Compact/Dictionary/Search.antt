-- ===== src/Compact/Dictionary/Search.antt =====
-- The binary search of the dictionary against a search from the front.
use neutrasearch.Base.{
  ℕ, zero, suc, ◌+◌, ◌-◌, ◌/◌, ◌≤◌, ◌<◌, ◌≡◌, ◌≢◌, refl, sym, ap, ◌∙◌, arith, true, false, List, [],
  ◌∷◌, Option, none, some, length, get_elem?, get_elem?-lt, ltb, ◌==◌, if◌then◌else◌, Bytes, inl,
  inr, Bool-cases, ==_iff,
}
use mathlib.Core.Option.{some-injective}
use neutrasearch.Compact.Postings.{DictEntry}
use neutrasearch.Compact.Dictionary.{TableView, dict_entry, dict_find_loop, dict_find}

-- The first entry of gram `gram`.
unfoldable pub lookup : ℕ → List DictEntry → Option DictEntry
lookup gram [] = none
lookup gram (e ∷ entries) = if e.gram == gram then some e else lookup gram entries

-- The table in the file has these entries, each gram less than the next.
pub record IsTable (map : Bytes) (dict : TableView) (entries : List DictEntry) : Type 0 where
  pub counted : dict.count ≡ length entries
  pub stored :
      (i : ℕ) (e : DictEntry) → get_elem? entries i ≡ some e → dict_entry map dict i ≡ some e
  pub ascending :
      (i j : ℕ) (a b : DictEntry)
      → i < j
      → get_elem? entries i ≡ some a
      → get_elem? entries j ≡ some b
      → a.gram < b.gram

lookup-none :
    (gram : ℕ) (entries : List DictEntry)
    → ((i : ℕ) (e : DictEntry) → get_elem? entries i ≡ some e → e.gram ≢ gram)
    → lookup gram entries ≡ none
unfolding lookup
lookup-none gram [] h = refl
lookup-none gram (e ∷ entries) h =
    let other : (e.gram == gram) ≡ false = let n = h 0 e refl in ground arith in
    rw other (lookup-none gram entries (λ i d there. h (suc i) d there))

lookup-some :
    (gram : ℕ) (entries : List DictEntry) (i : ℕ) (e : DictEntry)
    → get_elem? entries i ≡ some e
    → e.gram ≡ gram
    → ((j : ℕ) (d : DictEntry) → j < i → get_elem? entries j ≡ some d → d.gram ≢ gram)
    → lookup gram entries ≡ some e
unfolding lookup
lookup-some gram [] i e here same h = cc
lookup-some gram (d ∷ entries) zero e here same h = ground arith
lookup-some gram (d ∷ entries) (suc i) e here same h =
    let other : (d.gram == gram) ≡ false = let n = h 0 d (omega arith) refl in ground arith in
    rw other
      (lookup-some gram entries i e here same (λ j c less there. h (suc j) c (omega arith) there))

lt-of_get_elem? :
    (entries : List DictEntry) (i : ℕ) {e : DictEntry}
    → get_elem? entries i ≡ some e
    → i < length entries
lt-of_get_elem? [] i h = cc
lt-of_get_elem? (d ∷ entries) zero h = omega arith
lt-of_get_elem? (d ∷ entries) (suc i) h = omega (arith, lt-of_get_elem? entries i h)

module _ (map : Bytes) (dict : TableView) (entries : List DictEntry)
    (table : IsTable map dict entries) (gram : ℕ) where
  monotone :
      (i j : ℕ) (a b : DictEntry)
      → i ≤ j
      → get_elem? entries i ≡ some a
      → get_elem? entries j ≡ some b
      → a.gram ≤ b.gram
  monotone i j a b order here there = elim (Bool-cases (i == j)) [
    | inl same ↦
        let equal : i ≡ j = (==_iff i j).0 same in
        let one : a ≡ b = some-injective a b (sym here ∙ ap (get_elem? entries) equal ∙ there) in
        omega (arith, ap (λ (d : DictEntry). d.gram) one)
    | inr other ↦ let less = table.ascending i j a b (ground arith) here there in omega arith
  ]

  dict_find_loop-lookup :
      (fuel low high : ℕ)
      → high - low < fuel
      → low ≤ high
      → high ≤ length entries
      → ((i : ℕ) (e : DictEntry) → i < low → get_elem? entries i ≡ some e → e.gram < gram)
      → ((i : ℕ) (e : DictEntry) → high ≤ i → get_elem? entries i ≡ some e → gram < e.gram)
      → dict_find_loop fuel map dict gram low high ≡ lookup gram entries
  unfolding dict_find_loop
  dict_find_loop-lookup zero low high enough order inside below above = absurd (omega arith)
  dict_find_loop-lookup (suc fuel) low high enough order inside below above =
      elim (Bool-cases (ltb low high)) [
        | inr met ↦ rw met (
            sym (
              lookup-none gram entries λ i e here same. elim (Bool-cases (ltb i low)) [
                | inl before ↦ let less = below i e (ground arith) here in omega arith
                | inr behind ↦ let more = above i e (ground arith) here in omega arith
              ]))
        | inl apart ↦
            let mid = low + (high - low) / 2 in
            let (entry, here) = get_elem?-lt entries mid (ground arith) in
            let smaller : ltb (mid - low) fuel ≡ true = ground arith in
            rw (apart, table.stored mid entry here)
              (elim (Bool-cases (entry.gram == gram)) [
                | inl found ↦
                    let same : entry.gram ≡ gram = (==_iff entry.gram gram).0 found in
                    rw found (
                      sym (
                        lookup-some gram entries mid entry here same λ j d less there equal.
                          let before = table.ascending j mid d entry less there here in
                          omega arith))
                | inr other ↦ elim (Bool-cases (ltb entry.gram gram)) [
                  | inl less ↦
                      rw (other, less)
                        (dict_find_loop-lookup fuel (mid + 1) high (ground arith) (ground arith)
                          inside
                          (λ i e near there.
                            let before = monotone i mid e entry (omega arith) there here in
                            ground arith)
                          above)
                  | inr more ↦
                      rw (other, more)
                        (dict_find_loop-lookup fuel low mid (ground arith) (omega arith)
                          (ground arith) below
                          λ i e far there.
                            let behind = monotone mid i entry e (omega arith) here there in
                            ground arith)
                ]
              ])
      ]

-- On a table of entries in ascending order of their grams, `dict_find` returns the entry that a
-- search from the front finds, and none where that finds none.
pub dict_find-lookup :
    (map : Bytes) (dict : TableView) (entries : List DictEntry) (gram : ℕ)
    → IsTable map dict entries
    → dict_find map dict gram ≡ lookup gram entries
unfolding dict_find
dict_find-lookup map dict entries gram table =
    dict_find_loop-lookup map dict entries table gram (suc dict.count) 0 dict.count (omega arith)
      (omega arith) (omega (arith, table.counted)) (λ i e none_before there. absurd (omega arith))
      λ i e behind there.
        absurd (let inside = lt-of_get_elem? entries i there in omega (arith, table.counted))
