-- ===== src/Search/Top.antt =====
-- The first items of a list in an order, as a limit keeps them: what a search promises. `less a b` says
-- that `a` comes before `b`.
pub mod Pool
pub mod Heap
use neutrasearch.Base.{
  ℕ, ◌+◌, min, Bool, true, false, List, [], ◌∷◌, ◌++◌, ◌≡◌, refl, sym, ◌∙◌, length, All, All-append,
}
use neutrasearch.Base.Sorting.{
  HaveSameItems, count, count-append, sort_by, All-sort_by, sort_by-HaveSameItems,
  HaveSameItems-length,
}

module _ {A : Type 0} (less : A → A → Bool) where
  -- No item of the second list comes before one of the first.
  abbrev pub AreAhead : List A → List A → Type 0
  AreAhead kept dropped = All (λ (k : A). All (λ (d : A). less d k ≡ false) dropped) kept

  -- The candidates are what is kept and what is dropped; nothing dropped comes before what is kept, and
  -- as many are kept as the limit allows.
  pub record IsTop (limit : ℕ) (kept candidates : List A) : Type 0 where
    pub dropped : List A
    pub same : HaveSameItems (kept ++ dropped) candidates
    pub ahead : AreAhead kept dropped
    pub full : length kept ≡ min limit (length candidates)

  pub IsTop-same :
      (limit : ℕ) (kept candidates candidates' : List A)
      → HaveSameItems candidates candidates'
      → IsTop limit kept candidates
      → IsTop limit kept candidates'
  IsTop-same limit kept candidates candidates' same top = record {
    dropped = top.dropped;
    same = λ p. top.same p ∙ same p;
    ahead = top.ahead;
    full = rw (← HaveSameItems-length candidates candidates' same) top.full;
  }

  -- What is kept may stand in any order.
  pub IsTop-sort :
      (other_less : A → A → Bool) (limit : ℕ) (kept candidates : List A)
      → IsTop limit kept candidates
      → IsTop limit (sort_by other_less kept) candidates
  IsTop-sort other_less limit kept candidates top = record {
    dropped = top.dropped;
    same = λ p.
        count-append p (sort_by other_less kept) top.dropped
        ∙ (rw (sort_by-HaveSameItems other_less kept p) (sym (count-append p kept top.dropped)))
        ∙ top.same p;
    ahead =
        All-sort_by other_less (λ (k : A). All (λ (d : A). less d k ≡ false) top.dropped) kept
          top.ahead;
    full =
        HaveSameItems-length (sort_by other_less kept) kept (sort_by-HaveSameItems other_less kept)
        ∙ top.full;
  }

  -- The same, from the side of what is dropped.
  abbrev pub AreBehind : List A → List A → Type 0
  AreBehind dropped kept = All (λ (d : A). All (λ (k : A). less d k ≡ false) kept) dropped

  pub ahead_nil : (kept : List A) → AreAhead kept []
  ahead_nil [] = tt
  ahead_nil (k ∷ kept) = (tt, ahead_nil kept)

  pub ahead_cons :
      (kept dropped : List A) (d : A)
      → All (λ (k : A). less d k ≡ false) kept
      → AreAhead kept dropped
      → AreAhead kept (d ∷ dropped)
  ahead_cons [] dropped d new old = tt
  ahead_cons (k ∷ kept) dropped d (here, new) (first, old) =
      ((here, first), ahead_cons kept dropped d new old)

  pub AreBehind-AreAhead : (kept dropped : List A) → AreBehind dropped kept → AreAhead kept dropped
  AreBehind-AreAhead kept [] behind = ahead_nil kept
  AreBehind-AreAhead kept (d ∷ dropped) (here, behind) =
      ahead_cons kept dropped d here (AreBehind-AreAhead kept dropped behind)

  heads_behind :
      (kept dropped : List A) (d : A)
      → AreAhead kept (d ∷ dropped)
      → All (λ (k : A). less d k ≡ false) kept
  heads_behind [] dropped d ahead = tt
  heads_behind (k ∷ kept) dropped d ((here, more), ahead) =
      (here, heads_behind kept dropped d ahead)

  tails_ahead :
      (kept dropped : List A) (d : A) → AreAhead kept (d ∷ dropped) → AreAhead kept dropped
  tails_ahead [] dropped d ahead = tt
  tails_ahead (k ∷ kept) dropped d ((here, more), ahead) = (more, tails_ahead kept dropped d ahead)

  pub AreAhead-AreBehind : (kept dropped : List A) → AreAhead kept dropped → AreBehind dropped kept
  AreAhead-AreBehind kept [] ahead = tt
  AreAhead-AreBehind kept (d ∷ dropped) ahead = (
    heads_behind kept dropped d ahead,
    AreAhead-AreBehind kept dropped (tails_ahead kept dropped d ahead),
  )

  pub ahead_append :
      (kept dropped others : List A)
      → AreAhead kept dropped
      → AreAhead kept others
      → AreAhead kept (dropped ++ others)
  ahead_append [] dropped others h k = tt
  ahead_append (x ∷ kept) dropped others (h, hs) (k, ks) = (
    All-append (λ (d : A). less d x ≡ false) dropped others h k,
    ahead_append kept dropped others hs ks,
  )
