-- ===== src/Search/Leaders/Counts.antt =====
-- The loops over the leaders and the upserts, as the hits that they push.
use neutrasearch.Base.{
  ℕ, ◌+◌, Bool, not, ◌&&◌, List, [], ◌∷◌, ◌≡◌, refl, ap, Option, none, some, length, if◌then◌else◌,
  map, arith, All, Bool-cases, Option-cases, inl, inr,
}
use neutrasearch.Base.Sorting.{count}
use neutrasearch.Record.{FileRecord}
use neutrasearch.Query.Types.{Query}
use neutrasearch.Search.Compare.{SearchHit, comes_before}
use neutrasearch.Search.Top.Heap.{push_ranked, push_all}
use neutrasearch.Search.Leaders.{Delta, LeaderRound, is_shadowed, candidate, base_loop, upsert_loop}

module _ {A : Type 0} where
  -- `filter`
  unfoldable pub select : (A → Bool) → List A → List A
  select f [] = []
  select f (x ∷ xs) = let rest = select f xs in if f x then x ∷ rest else rest

  pub count-select :
      (f p : A → Bool) (xs : List A) → count p (select f xs) ≡ count (λ x. f x && p x) xs
  unfolding count select
  count-select f p [] = refl
  count-select f p (x ∷ xs) = elim (Bool-cases (f x)) [
    | inl in_list ↦ rw (select, count, in_list) (ground (arith, count-select f p xs))
    | inr out ↦ rw (select, count, out) (count-select f p xs)
  ]

  pub All-select : (P : A → Type 0) (f : A → Bool) (xs : List A) → All P xs → All P (select f xs)
  unfolding select
  All-select P f [] all = tt
  All-select P f (x ∷ xs) (here, all) = elim (Bool-cases (f x)) [
    | inl in_list ↦ rw (select, in_list) (here, All-select P f xs all)
    | inr out ↦ rw (select, out) (All-select P f xs all)
  ]

-- The hit of a record with score 0.
abbrev pub zero_hit : FileRecord → SearchHit
zero_hit r = record { score = 0; record_of = r }

module _ (on_windows : Bool) (passes : Query → FileRecord → Bool)
    (score : Query → FileRecord → Option ℕ) (q : Query) where
  -- The hits of the records that nothing in the delta shadows.
  unfoldable pub live_hits : Option Delta → List FileRecord → List SearchHit
  live_hits delta [] = []
  live_hits delta (r ∷ records) =
      let rest = live_hits delta records in
      if is_shadowed delta r
      then rest
      else elim (candidate on_windows passes score q r) [ none ↦ rest | some hit ↦ hit ∷ rest ]

  pub base_loop-hits :
      (delta : Option Delta) (base : List FileRecord) (s : LeaderRound)
      → ((base_loop on_windows passes score q delta base s).kept
          ≡ push_all (comes_before on_windows q.sort) q.limit s.kept (live_hits delta base))
        × ((base_loop on_windows passes score q delta base s).from_base
            ≡ s.from_base + length (live_hits delta base))
  unfolding base_loop live_hits push_all
  base_loop-hits delta [] s = (refl, omega arith)
  base_loop-hits delta (r ∷ base) s = elim (Bool-cases (is_shadowed delta r)) [
    | inl gone ↦
        rw (base_loop, live_hits, gone)
          (base_loop-hits delta base record s { shadowed = s.shadowed + 1 })
    | inr live ↦ elim (Option-cases (candidate on_windows passes score q r)) [
      | inl no_hit ↦ rw (base_loop, live_hits, live, no_hit) (base_loop-hits delta base s)
      | inr (hit, is_hit) ↦
          let s1 : LeaderRound = record {
            kept = push_ranked (comes_before on_windows q.sort) q.limit hit s.kept;
            from_base = s.from_base + 1;
            shadowed = s.shadowed;
          } in
          let (kept, counted) = base_loop-hits delta base s1 in
          rw (base_loop, live_hits, live, is_hit) (kept, omega (arith, counted))
    ]
  ]

  pub upsert_loop-hits :
      (upserts : List FileRecord) (kept : List SearchHit) (added : ℕ)
      → (upsert_loop on_windows passes score q upserts (kept, added)).0
        ≡ push_all (comes_before on_windows q.sort) q.limit kept (live_hits none upserts)
  unfolding upsert_loop live_hits push_all is_shadowed
  upsert_loop-hits [] kept added = refl
  upsert_loop-hits (r ∷ upserts) kept added =
      elim (Option-cases (candidate on_windows passes score q r)) [
        | inl no_hit ↦ rw (upsert_loop, live_hits, no_hit) (upsert_loop-hits upserts kept added)
        | inr (hit, is_hit) ↦
            rw (upsert_loop, live_hits, is_hit)
              (upsert_loop-hits upserts
                (push_ranked (comes_before on_windows q.sort) q.limit hit kept) (added + 1))
      ]

  -- The test that makes a record a hit, where every record scores 0.
  unfoldable pub counts : Option Delta → SearchHit → Bool
  counts delta hit = not (is_shadowed delta hit.record_of) && passes q hit.record_of

  pub live_hits-select :
      (delta : Option Delta) (records : List FileRecord)
      → ((r : FileRecord) → score q r ≡ some 0)
      → live_hits delta records ≡ select (counts delta) (map zero_hit records)
  unfolding live_hits select counts candidate
  live_hits-select delta [] free = refl
  live_hits-select delta (r ∷ records) free = elim (Bool-cases (is_shadowed delta r)) [
    | inl gone ↦ rw (live_hits, select, gone) (live_hits-select delta records free)
    | inr live ↦ elim (Bool-cases (passes q r)) [
      | inl passed ↦
          rw (live_hits, select, live, candidate, passed, free r)
            (ap (λ t. zero_hit r ∷ t) (live_hits-select delta records free))
      | inr failed ↦
          rw (live_hits, select, live, candidate, failed) (live_hits-select delta records free)
    ]
  ]
