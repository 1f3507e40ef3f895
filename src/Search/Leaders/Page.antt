-- ===== src/Search/Leaders/Page.antt =====
-- The page that the leaders give is the first of the whole search.
use neutrasearch.Search.Top.{AreBehind-AreAhead, AreAhead-AreBehind, ahead_append, IsTop, AreBehind}
use neutrasearch.Search.Compare.Order.{comes_before-IsOrder}
use neutrasearch.Base.{
  length-map, nil_of_length, ◌⊎◌, ℕ, ◌≤◌, min, Bool, true, false, ◌&&◌, List, [], ◌∷◌, ◌++◌, ◌≡◌,
  refl, Option, none, some, length, length-append, ltb, ltb→ge, map, arith, All, inl, inr,
}
use neutrasearch.Search.Top.Heap.{push_all-IsTop, push_all}
use neutrasearch.Search.Top.Pool.{pool_behind}
use neutrasearch.Search.Leaders.Counts.{
  All-select, count-select, live_hits-select, zero_hit, live_hits, select, counts,
}
use neutrasearch.Search.Leaders.{upserts_of, Delta, keep}
use neutrasearch.Base.Sorting.{count-append, HaveSameItems, HaveSameItems-length, AreDescending}
use neutrasearch.Record.{FileRecord}
use neutrasearch.Query.Types.{Query, SortKey}
use neutrasearch.Search.Compare.{SearchHit, comes_before}

module _ (on_windows : Bool) (passes : Query → FileRecord → Bool)
    (score : Query → FileRecord → Option ℕ) where
  -- The leaders of a sort key: the first of the base, which has no more records than the index.
  pub record AreLeaders (sort : SortKey) (total : ℕ) (leaders base : List FileRecord) : Type 0 where
    pub top : IsTop (comes_before on_windows sort) keep (map zero_hit leaders) (map zero_hit base)
    pub in_total : length base ≤ total

  -- What a search of base and delta has to choose from.
  abbrev pub all_hits : Query → Option Delta → List FileRecord → List SearchHit
  all_hits q delta base =
      live_hits on_windows passes score q delta base
      ++ live_hits on_windows passes score q none (upserts_of delta)

  -- No hit comes before an earlier one.
  abbrev pub AreSorted : SortKey → List SearchHit → Type 0
  AreSorted sort hits = AreDescending (λ a b. comes_before on_windows sort b a) hits

  module _ (q : Query) (delta : Option Delta) (free : (r : FileRecord) → score q r ≡ some 0) where
    abbrev less : SearchHit → SearchHit → Bool
    less = comes_before on_windows q.sort

    abbrev pub hits_from : List FileRecord → List SearchHit
    hits_from = live_hits on_windows passes score q delta

    abbrev pub new_hits : List SearchHit
    new_hits = live_hits on_windows passes score q none (upserts_of delta)

    abbrev test : SearchHit → Bool
    test = counts on_windows passes score q delta

    -- The hits of the base are those of the leaders and those of what the leaders leave out.
    base-split :
        (leaders base : List FileRecord) (dropped : List SearchHit)
        → HaveSameItems (map zero_hit leaders ++ dropped) (map zero_hit base)
        → HaveSameItems (hits_from leaders ++ select test dropped) (hits_from base)
    base-split leaders base dropped same p =
        rw
          (
            live_hits-select on_windows passes score q delta leaders free,
            live_hits-select on_windows passes score q delta base free,
          )
          (omega (
            arith,
            count-append p (select test (map zero_hit leaders)) (select test dropped),
            count-select test p (map zero_hit leaders),
            count-select test p dropped,
            count-select test p (map zero_hit base),
            same (λ x. test x && p x),
            count-append (λ x. test x && p x) (map zero_hit leaders) dropped,
          ))

    unfoldable pub page_hits : List FileRecord → List SearchHit
    page_hits leaders = push_all less q.limit [] (hits_from leaders ++ new_hits)

    page_hits-IsTop :
        (leaders : List FileRecord)
        → IsTop less q.limit (page_hits leaders) (hits_from leaders ++ new_hits)
    unfolding page_hits
    page_hits-IsTop leaders =
        push_all-IsTop less (comes_before-IsOrder on_windows q.sort) q.limit
          (hits_from leaders ++ new_hits)

    -- What is behind the leaders is behind those of them that count.
    behind_selected :
        (leaders : List FileRecord) (ds : List SearchHit)
        → AreBehind less ds (map zero_hit leaders)
        → AreBehind less ds (hits_from leaders)
    behind_selected leaders [] behind = tt
    behind_selected leaders (d ∷ ds) (here, behind) = (
      rw (live_hits-select on_windows passes score q delta leaders free)
          (All-select (λ (k : SearchHit). less d k ≡ false) test (map zero_hit leaders) here),
      behind_selected leaders ds behind,
    )

    -- With as many leaders as the index has records, none is left out.
    none_dropped :
        (leaders base : List FileRecord) (total : ℕ) (h : AreLeaders q.sort total leaders base)
        → total ≤ length leaders
        → h.top.dropped ≡ []
    none_dropped leaders base total h all =
        let whole =
          HaveSameItems-length (map zero_hit leaders ++ h.top.dropped) (map zero_hit base)
            h.top.same in
        nil_of_length h.top.dropped (
          omega (
            arith,
            whole,
            length-append (map zero_hit leaders) h.top.dropped,
            length-map zero_hit leaders,
            length-map zero_hit base,
            h.in_total,
            all,
          ))

    either : (a b : Bool) → (a && b) ≡ false → (a ≡ false) ⊎ (b ≡ false)
    either true b h = inr h
    either false b h = inl refl

    -- What the leaders leave out stands behind the page: there are enough leaders, or nothing is left out.
    rest_behind :
        (leaders base : List FileRecord) (total : ℕ) (h : AreLeaders q.sort total leaders base)
        → (ltb (length (hits_from leaders)) q.limit && ltb (length leaders) total) ≡ false
        → AreBehind less (select test h.top.dropped) (page_hits leaders)
    unfolding select
    rest_behind leaders base total h exact =
        elim (either (ltb (length (hits_from leaders)) q.limit) (ltb (length leaders) total)
          exact) [
            | inl filled ↦
                pool_behind less (comes_before-IsOrder on_windows q.sort) q.limit
                  (page_hits leaders) (hits_from leaders ++ new_hits) (hits_from leaders) new_hits
                  (select test h.top.dropped) (λ p. refl)
                  (ltb→ge (length (hits_from leaders)) q.limit filled) (page_hits-IsTop leaders)
                  (behind_selected leaders (select test h.top.dropped) (
                    All-select
                      (λ (d : SearchHit).
                        All (λ (k : SearchHit). less d k ≡ false) (map zero_hit leaders))
                      test h.top.dropped
                      (AreAhead-AreBehind less (map zero_hit leaders) h.top.dropped h.top.ahead)))
            | inr whole ↦
                rw (none_dropped leaders base total h (ltb→ge (length leaders) total whole)) tt
          ]

    -- As many hits as the whole search allows.
    page_full :
        (leaders base : List FileRecord) (total : ℕ) (h : AreLeaders q.sort total leaders base)
        → (ltb (length (hits_from leaders)) q.limit && ltb (length leaders) total) ≡ false
        → length (page_hits leaders) ≡ min q.limit (length (all_hits q delta base))
    unfolding select
    page_full leaders base total h exact =
        let full = (page_hits-IsTop leaders).full in
        let split =
          HaveSameItems-length (hits_from leaders ++ select test h.top.dropped) (hits_from base)
            (base-split leaders base h.top.dropped h.top.same) in
        let apart = length-append (hits_from leaders) (select test h.top.dropped) in
        let pushed = length-append (hits_from leaders) new_hits in
        let whole_hits = length-append (hits_from base) new_hits in
        elim (either (ltb (length (hits_from leaders)) q.limit) (ltb (length leaders) total)
          exact) [
            | inl filled ↦ omega (
              arith,
              full,
              split,
              apart,
              pushed,
              whole_hits,
              ltb→ge (length (hits_from leaders)) q.limit filled,
            )
            | inr whole ↦
                let none =
                  none_dropped leaders base total h (ltb→ge (length leaders) total whole) in
                let nothing : length (select test h.top.dropped) ≡ 0 = rw none refl in
                omega (arith, full, split, apart, pushed, whole_hits, nothing)
          ]

    pub page_hits_all :
        (leaders base : List FileRecord) (total : ℕ) (h : AreLeaders q.sort total leaders base)
        → (ltb (length (hits_from leaders)) q.limit && ltb (length leaders) total) ≡ false
        → IsTop less q.limit (page_hits leaders) (all_hits q delta base)
    page_hits_all leaders base total h exact =
        let top = page_hits-IsTop leaders in
        let left = select test h.top.dropped in
        record {
          dropped = top.dropped ++ left;
          same = λ p. omega (
            arith,
            count-append p (page_hits leaders) (top.dropped ++ left),
            count-append p top.dropped left,
            top.same p,
            count-append p (page_hits leaders) top.dropped,
            count-append p (hits_from leaders) new_hits,
            count-append p (hits_from base) new_hits,
            base-split leaders base h.top.dropped h.top.same p,
            count-append p (hits_from leaders) left,
          );
          ahead = ahead_append less (page_hits leaders) top.dropped left top.ahead (
              AreBehind-AreAhead less (page_hits leaders) left
                (rest_behind leaders base total h exact));
          full = page_full leaders base total h exact;
        }
