-- ===== src/Search/Leaders/Exact.antt =====
-- Where `search` answers from the leaders, the answer is exact.
use neutrasearch.Search.Leaders.Page.{
  page_hits_all, AreSorted, new_hits, AreLeaders, page_hits, hits_from, all_hits,
}
use neutrasearch.Base.Sorting.{flip-IsOrder, sort_by-AreDescending, sort_by}
use neutrasearch.Base.{
  Option-cases, not, sym, Bool-cases, ap, ◌∙◌, ℕ, Bool, true, false, ◌&&◌, List, [], ◌∷◌, ◌≡◌, refl,
  Option, none, some, length, ltb, inl, inr, ◌||◌, ◌==◌,
}
use neutrasearch.Search.Leaders.{
  is_none, leaders_of, SearchStats, Lists, base_loop, page, upsert_loop, upserts_of, Delta, keep,
  search, LeaderRound,
}
use neutrasearch.Query.Types.{
  size_desc, mtime_desc, relevance, name_asc, name_desc, size_asc, mtime_asc, path_asc, path_desc,
  Query, SortKey,
}
use neutrasearch.Search.Top.{IsTop-sort, IsTop}
use neutrasearch.Search.Top.Heap.{push_all-append, push_all}
use neutrasearch.Search.Leaders.Counts.{base_loop-hits, upsert_loop-hits}
use neutrasearch.Search.Compare.Order.{comes_before-IsOrder}
use neutrasearch.Query.Filters.{is_empty}
use native.Mathlib.Nat.{zero-add}
use mathlib.Core.Option.{some-injective}
use neutrasearch.Record.{FileRecord}
use neutrasearch.Search.Compare.{SearchHit, comes_before}

module _ (on_windows : Bool) (passes : Query → FileRecord → Bool)
    (score : Query → FileRecord → Option ℕ) where
  module _ (q : Query) (delta : Option Delta) (free : (r : FileRecord) → score q r ≡ some 0) where
    abbrev less : SearchHit → SearchHit → Bool
    less = comes_before on_windows q.sort

    -- The state behind both loops.
    abbrev looped : List FileRecord → LeaderRound
    looped leaders =
        base_loop on_windows passes score q delta leaders
          record { kept = []; from_base = 0; shadowed = 0 }

    pushed_kept :
        (leaders : List FileRecord)
        → (upsert_loop on_windows passes score q (upserts_of delta) ((looped leaders).kept, 0)).0
          ≡ page_hits on_windows passes score q delta free leaders
    unfolding page_hits
    pushed_kept leaders =
        upsert_loop-hits on_windows passes score q (upserts_of delta) (looped leaders).kept 0
        ∙ ap (λ t. push_all less q.limit t (new_hits on_windows passes score q delta free))
            (base_loop-hits on_windows passes score q delta leaders
              record { kept = []; from_base = 0; shadowed = 0 }).0
        ∙ push_all-append less q.limit [] (hits_from on_windows passes score q delta free leaders)
            (new_hits on_windows passes score q delta free)

    -- A page comes from the loops, where the test for enough leaders held.
    page-some :
        (lists : Lists) (leaders : List FileRecord) {hits : List SearchHit} {stats : SearchStats}
        → page on_windows passes score lists leaders q delta ≡ some (hits, stats)
        → ((ltb (length (hits_from on_windows passes score q delta free leaders)) q.limit
              && ltb (length leaders) lists.total)
            ≡ false)
          × (hits
              ≡ sort_by (λ a b. less b a) (page_hits on_windows passes score q delta free leaders))
    unfolding page
    page-some lists leaders e =
        let counted : (looped leaders).from_base
            ≡ length (hits_from on_windows passes score q delta free leaders) =
          (base_loop-hits on_windows passes score q delta leaders
            record { kept = []; from_base = 0; shadowed = 0 }).1
          ∙ zero-add (length (hits_from on_windows passes score q delta free leaders)) in
        elim (Bool-cases
          (ltb (looped leaders).from_base q.limit && ltb (length leaders) lists.total)) [
            | inl short ↦ let never = rw (page, short) at e in cc
            | inr exact ↦
                let found = rw (page, exact) at e in
                (
                  rw counted at exact,
                  ap (λ (t : List SearchHit × SearchStats). t.0) (sym (some-injective _ _ found))
                      ∙ ap (sort_by (λ a b. less b a)) (pushed_kept leaders),
                )
          ]

    page-IsTop :
        (lists : Lists) (leaders base : List FileRecord) {hits : List SearchHit}
        {stats : SearchStats}
        → AreLeaders on_windows passes score q.sort lists.total leaders base
        → page on_windows passes score lists leaders q delta ≡ some (hits, stats)
        → IsTop less q.limit hits (all_hits on_windows passes score q delta base)
          × AreSorted on_windows passes score q.sort hits
    page-IsTop lists leaders base h e =
        let (exact, is) = page-some lists leaders e in
        rw is (
          IsTop-sort less (λ a b. less b a) q.limit
              (page_hits on_windows passes score q delta free leaders)
              (all_hits on_windows passes score q delta base)
              (page_hits_all on_windows passes score q delta free leaders base lists.total h exact),
          sort_by-AreDescending (λ a b. less b a)
              (flip-IsOrder less (comes_before-IsOrder on_windows q.sort))
              (page_hits on_windows passes score q delta free leaders),
        )

  -- The leaders of both lists are right.
  pub record AreCurrent (lists : Lists) (base : List FileRecord) : Type 0 where
    pub newest : AreLeaders on_windows passes score mtime_desc lists.total lists.newest base
    pub largest : AreLeaders on_windows passes score size_desc lists.total lists.largest base

  leaders-AreLeaders :
      (lists : Lists) (base leaders : List FileRecord) (sort : SortKey)
      → AreCurrent lists base
      → leaders_of on_windows passes score lists sort ≡ some leaders
      → AreLeaders on_windows passes score sort lists.total leaders base
  unfolding leaders_of
  leaders-AreLeaders lists base leaders mtime_desc h e =
      rw (sym (some-injective lists.newest leaders e)) h.newest
  leaders-AreLeaders lists base leaders size_desc h e =
      rw (sym (some-injective lists.largest leaders e)) h.largest
  leaders-AreLeaders lists base leaders relevance h e = cc
  leaders-AreLeaders lists base leaders name_asc h e = cc
  leaders-AreLeaders lists base leaders name_desc h e = cc
  leaders-AreLeaders lists base leaders size_asc h e = cc
  leaders-AreLeaders lists base leaders mtime_asc h e = cc
  leaders-AreLeaders lists base leaders path_asc h e = cc
  leaders-AreLeaders lists base leaders path_desc h e = cc

  neither : (a b : Bool) → (a || b) ≡ false → (a ≡ false) × (b ≡ false)
  neither true b h = cc
  neither false b h = (refl, h)

  empty_list : {A : Type 0} (xs : List A) → not (is_empty xs) ≡ false → xs ≡ []
  empty_list [] h = refl
  empty_list (x ∷ xs) h = cc

  nothing : {A : Type 0} (o : Option A) → not (is_none o) ≡ false → o ≡ none
  nothing none h = refl
  nothing (some a) h = cc

  -- Where the lists have the leaders of the base, and a query without terms and pattern scores 0, a page
  -- that `search` answers from the lists is exact: it has the first hits, as many as the limit allows, of
  -- all the records of the base that the delta does not shadow and of all those of the delta, in order.
  pub search-IsTop :
      (lists : Lists) (base : List FileRecord) (q : Query) (delta : Option Delta)
      (hits : List SearchHit) (stats : SearchStats)
      → AreCurrent lists base
      → (q.terms ≡ [] → q.regex ≡ none → (r : FileRecord) → score q r ≡ some 0)
      → search on_windows passes score lists q delta ≡ some (hits, stats)
      → IsTop
          (comes_before on_windows q.sort)
          q.limit
          hits
          (all_hits on_windows passes score q delta base)
        × AreSorted on_windows passes score q.sort hits
  unfolding search
  search-IsTop lists base q delta hits stats h free e =
      elim (Bool-cases
        (not (is_empty q.terms) || not (is_none q.regex) || q.limit == 0 || ltb keep q.limit)) [
          | inl refused ↦ let never = rw (search, refused) at e in cc
          | inr allowed ↦
              let (front, _) =
                neither (not (is_empty q.terms) || not (is_none q.regex) || q.limit == 0)
                  (ltb keep q.limit) allowed in
              let (both, _) =
                neither (not (is_empty q.terms) || not (is_none q.regex)) (q.limit == 0) front in
              let (no_terms, no_regex) =
                neither (not (is_empty q.terms)) (not (is_none q.regex)) both in
              elim (Option-cases (leaders_of on_windows passes score lists q.sort)) [
                | inl other ↦ let never = rw (search, allowed, other) at e in cc
                | inr (leaders, found) ↦
                    page-IsTop q delta
                      (free (empty_list q.terms no_terms) (nothing q.regex no_regex)) lists leaders
                      base (leaders-AreLeaders lists base leaders q.sort h found)
                      (rw (search, allowed, found) at e)
              ]
        ]
