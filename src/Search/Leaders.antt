-- ===== src/Search/Leaders.antt =====
-- crates/neutra-core/src/ranked.rs: pages of the newest and the largest records from the kept leaders.
-- `passes` and `score` are those of the query; reading the delta is not modelled, nor its errors.
pub mod Counts
pub mod Page
pub mod Exact
use neutrasearch.Base.{
  ℕ, ◌+◌, Bool, true, false, not, ◌&&◌, ◌||◌, List, [], ◌∷◌, Option, none, some, length, ltb, ◌==◌,
  if◌then◌else◌, Bytes,
}
use neutrasearch.Base.Sorting.{sort_by}
use neutrasearch.Record.{FileRecord}
use neutrasearch.Query.Types.{Query, SortKey, mtime_desc, size_desc}
use neutrasearch.Query.Filters.{is_empty}
use neutrasearch.Search.Compare.{SearchHit, comes_before}
use neutrasearch.Search.Top.Heap.{push_ranked}

abbrev pub keep : ℕ
keep = 20000

pub record Lists : Type 0 where
  pub total : ℕ
  pub newest : List FileRecord
  pub largest : List FileRecord

-- `DeltaIndex`: the paths whose record in the base counts no more, and the records that it has.
pub record Delta : Type 0 where
  pub shadows : Bytes → Bool
  pub upserts : List FileRecord

pub record SearchStats : Type 0 where
  pub scanned : ℕ
  pub matched : ℕ

-- The variables of the loop over the leaders.
pub record LeaderRound : Type 0 where
  pub kept : List SearchHit
  pub from_base : ℕ
  pub shadowed : ℕ

unfoldable pub is_shadowed : Option Delta → FileRecord → Bool
is_shadowed none r = false
is_shadowed (some d) r = d.shadows r.path

abbrev pub upserts_of : Option Delta → List FileRecord
upserts_of none = []
upserts_of (some d) = d.upserts

abbrev pub is_none : {A : Type 0} → Option A → Bool
is_none none = true
is_none (some a) = false

module _ (on_windows : Bool) (passes : Query → FileRecord → Bool)
    (score : Query → FileRecord → Option ℕ) where
  -- The hit of a record that passes the filters and has a score.
  unfoldable pub candidate : Query → FileRecord → Option SearchHit
  candidate q r =
      if passes q r
      then elim (score q r) [ none ↦ none | some s ↦ some record { score = s; record_of = r } ]
      else none

  unfoldable pub base_loop : Query → Option Delta → List FileRecord → LeaderRound → LeaderRound
  base_loop q delta [] s = s
  base_loop q delta (r ∷ base) s =
      if is_shadowed delta r
      then base_loop q delta base record s { shadowed = s.shadowed + 1 }
      else elim (candidate q r) [
        | none ↦ base_loop q delta base s
        | some hit ↦ base_loop q delta base record {
          kept = push_ranked (comes_before on_windows q.sort) q.limit hit s.kept;
          from_base = s.from_base + 1;
          shadowed = s.shadowed;
        }
      ]

  -- `for_each_upsert`; with the hits it counts what it added.
  unfoldable pub upsert_loop : Query → List FileRecord → List SearchHit × ℕ → List SearchHit × ℕ
  upsert_loop q [] s = s
  upsert_loop q (r ∷ upserts) (kept, added) = elim (candidate q r) [
    | none ↦ upsert_loop q upserts (kept, added)
    | some hit ↦
        upsert_loop q upserts
          (push_ranked (comes_before on_windows q.sort) q.limit hit kept, added + 1)
  ]

  -- The list of the sort key.
  unfoldable pub leaders_of : Lists → SortKey → Option (List FileRecord)
  leaders_of lists mtime_desc = some lists.newest
  leaders_of lists size_desc = some lists.largest
  leaders_of lists _ = none

  unfoldable pub unfiltered : Query → Bool
  unfiltered q =
      is_empty q.kinds
      && is_empty q.exts
      && is_empty q.fss
      && is_none q.min_size
      && is_none q.max_size
      && is_none q.under
      && is_empty q.scope_roots
      && not q.executable_only
      && is_empty q.exclude_roots

  -- From the list on.
  unfoldable pub page :
      Lists → List FileRecord → Query → Option Delta → Option (List SearchHit × SearchStats)
  page lists base q delta =
      let s = base_loop q delta base record { kept = []; from_base = 0; shadowed = 0 } in
      let (kept, added) = upsert_loop q (upserts_of delta) (s.kept, 0) in
      let matched =
        if unfiltered q || s.from_base + s.shadowed == length base
        then lists.total + added
        else s.from_base + added in
      if ltb s.from_base q.limit && ltb (length base) lists.total
      then none
      else some (
        sort_by (λ a b. comes_before on_windows q.sort b a) kept,
        record { scanned = lists.total + added; matched = matched },
      )

  unfoldable pub search : Lists → Query → Option Delta → Option (List SearchHit × SearchStats)
  search lists q delta =
      if not (is_empty q.terms) || not (is_none q.regex) || q.limit == 0 || ltb keep q.limit
      then none
      else elim (leaders_of lists q.sort) [ none ↦ none | some base ↦ page lists base q delta ]
