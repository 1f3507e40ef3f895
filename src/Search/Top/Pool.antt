-- ===== src/Search/Top/Pool.antt =====
-- Where enough candidates come no later than an item, the item is ahead of nothing that is kept.
use neutrasearch.Search.Top.{AreBehind-AreAhead, ahead_append, AreAhead-AreBehind, AreBehind, IsTop}
use neutrasearch.Base.{
  min, append_assoc, ℕ, ◌+◌, ◌≤◌, Bool, true, false, List, [], ◌∷◌, ◌++◌, ◌≡◌, refl, sym, ◌∙◌,
  length, length-append, All, arith, Bool-cases, inl, inr,
}
use neutrasearch.Base.Sorting.{HaveSameItems-length, HaveSameItems, count, count-append, IsOrder}

module _ {A : Type 0} (less : A → A → Bool) (order : IsOrder less) where
  less-itself : (a : A) → less a a ≡ false
  less-itself a = elim (Bool-cases (less a a)) [
    | inl before ↦ order.asymmetric a a before
    | inr after ↦ after
  ]

  count-le : (p : A → Bool) (xs : List A) → count p xs ≤ length xs
  unfolding count
  count-le p [] = omega arith
  count-le p (x ∷ xs) = ground (arith, count-le p xs)

  count-none : (p : A → Bool) (xs : List A) → All (λ (x : A). p x ≡ false) xs → count p xs ≡ 0
  unfolding count
  count-none p [] all = refl
  count-none p (x ∷ xs) (here, all) = rw (count, here) (count-none p xs all)

  count-every :
      (p : A → Bool) (xs : List A) → All (λ (x : A). p x ≡ true) xs → count p xs ≡ length xs
  unfolding count
  count-every p [] all = refl
  count-every p (x ∷ xs) (here, all) = rw (count, here) (omega (arith, count-every p xs all))

  -- Items that come no later than `d` come before what `d` comes before.
  pool_before :
      (d k : A) (pool : List A)
      → less d k ≡ true
      → All (λ (l : A). less d l ≡ false) pool
      → All (λ (l : A). less l k ≡ true) pool
  pool_before d k [] h all = tt
  pool_before d k (l ∷ pool) h (here, all) = (
    elim (Bool-cases (less l k)) [
      | inl before ↦ before
      | inr after ↦ let never = order.comparable d l k here after in cc
    ],
    pool_before d k pool h all,
  )

  module _ (limit : ℕ) (out candidates pool others : List A) (d : A)
      (same : HaveSameItems candidates (pool ++ others)) (enough : limit ≤ length pool)
      (no_later : All (λ (l : A). less d l ≡ false) pool)
      (top : IsTop less limit out candidates) where
    -- Counting what comes before `k`: the pool alone would fill the limit without `k`.
    one_ahead :
        (before after : List A) (k : A)
        → out ≡ before ++ k ∷ after
        → All (λ (x : A). less x k ≡ false) top.dropped
        → less d k ≡ false
    unfolding count
    one_ahead before after k is ahead = elim (Bool-cases (less d k)) [
      | inr not_before ↦ not_before
      | inl is_before ↦
          let p : A → Bool = λ x. less x k in
          let pooled : count p pool ≡ length pool =
            count-every p pool (pool_before d k pool is_before no_later) in
          let total = top.same p ∙ same p in
          let none_dropped = count-none p top.dropped ahead in
          let self = less-itself k in
          let split : count p out ≡ count p before + count p after =
            rw is (count-append p before (k ∷ after) ∙ (rw (count, self) refl)) in
          let size : length out ≡ length before + (length after + 1) =
            rw is (omega (arith, length-append before (k ∷ after))) in
          absurd (
            omega (
              arith,
              pooled,
              total,
              none_dropped,
              split,
              size,
              enough,
              top.full,
              count-append p out top.dropped,
              count-append p pool others,
              count-le p before,
              count-le p after,
            ))
    ]

    later_ahead :
        (before after : List A)
        → out ≡ before ++ after
        → All (λ (k : A). All (λ (x : A). less x k ≡ false) top.dropped) after
        → All (λ (k : A). less d k ≡ false) after
    later_ahead before [] is ahead = tt
    later_ahead before (k ∷ after) is (here, ahead) = (
      one_ahead before after k is here,
      later_ahead (before ++ k ∷ []) after (is ∙ sym (append_assoc before (k ∷ []) after)) ahead,
    )

    -- Nothing kept comes after `d`.
    pub pool_ahead : All (λ (k : A). less d k ≡ false) out
    pool_ahead = later_ahead [] out refl top.ahead

  -- Nothing of `ds` comes before what is kept, where the pool that it stands behind fills the limit.
  pub pool_behind :
      (limit : ℕ) (out candidates pool others ds : List A)
      → HaveSameItems candidates (pool ++ others)
      → limit ≤ length pool
      → IsTop less limit out candidates
      → AreBehind less ds pool
      → AreBehind less ds out
  pool_behind limit out candidates pool others [] same enough top behind = tt
  pool_behind limit out candidates pool others (d ∷ ds) same enough top (here, behind) = (
    pool_ahead limit out candidates pool others d same enough here top,
    pool_behind limit out candidates pool others ds same enough top behind,
  )

  -- What one of two parts drops stands behind the first of both, since it drops only what is too much.
  part_behind :
      (limit : ℕ) (out candidates pool others ds : List A) (size : ℕ)
      → HaveSameItems candidates (pool ++ others)
      → length pool ≡ min limit size
      → length pool + length ds ≡ size
      → IsTop less limit out candidates
      → AreBehind less ds pool
      → AreBehind less ds out
  part_behind limit out candidates pool others [] size same full whole top behind = tt
  part_behind limit out candidates pool others (d ∷ ds) size same full whole top behind =
      pool_behind limit out candidates pool others (d ∷ ds) same (omega (arith, full, whole)) top
        behind

  part_size :
      (limit : ℕ) (kept seen : List A) (top : IsTop less limit kept seen)
      → length kept + length top.dropped ≡ length seen
  part_size limit kept seen top =
      sym (length-append kept top.dropped)
      ∙ HaveSameItems-length (kept ++ top.dropped) seen top.same

  -- The first of the first of two parts are the first of both.
  pub IsTop-join :
      (limit : ℕ) (out kept1 seen1 kept2 seen2 : List A)
      → IsTop less limit kept1 seen1
      → IsTop less limit kept2 seen2
      → IsTop less limit out (kept1 ++ kept2)
      → IsTop less limit out (seen1 ++ seen2)
  IsTop-join limit out kept1 seen1 kept2 seen2 top1 top2 top =
      let size1 = part_size limit kept1 seen1 top1 in
      let size2 = part_size limit kept2 seen2 top2 in
      let left =
        part_behind limit out (kept1 ++ kept2) kept1 kept2 top1.dropped (length seen1) (λ p. refl)
          top1.full size1 top (AreAhead-AreBehind less kept1 top1.dropped top1.ahead) in
      let right =
        part_behind limit out (kept1 ++ kept2) kept2 kept1 top2.dropped (length seen2)
          (λ p. omega (arith, count-append p kept1 kept2, count-append p kept2 kept1)) top2.full
          size2 top (AreAhead-AreBehind less kept2 top2.dropped top2.ahead) in
      record {
        dropped = top.dropped ++ (top1.dropped ++ top2.dropped);
        same = λ p. omega (
          arith,
          count-append p out (top.dropped ++ (top1.dropped ++ top2.dropped)),
          count-append p top.dropped (top1.dropped ++ top2.dropped),
          count-append p top1.dropped top2.dropped,
          top.same p,
          count-append p out top.dropped,
          count-append p kept1 kept2,
          top1.same p,
          count-append p kept1 top1.dropped,
          top2.same p,
          count-append p kept2 top2.dropped,
          count-append p seen1 seen2,
        );
        ahead = ahead_append less out top.dropped (top1.dropped ++ top2.dropped) top.ahead (
            ahead_append less out top1.dropped top2.dropped
              (AreBehind-AreAhead less out top1.dropped left)
              (AreBehind-AreAhead less out top2.dropped right));
        full = omega (
          arith,
          top.full,
          length-append kept1 kept2,
          length-append seen1 seen2,
          top1.full,
          top2.full,
        );
      }
