-- ===== src/Search/Top/Heap.antt =====
-- A bounded heap keeps the first items. The list of a `BinaryHeap` has the greatest item first, the one
-- that `peek` and `pop` take.
use neutrasearch.Search.Top.{ahead_nil, ahead_cons, IsTop-same, IsTop}
use neutrasearch.Base.{
  nil_of_length, append-nil, ◌≤◌, ◌<◌, ℕ, ◌+◌, Bool, true, false, List, [], ◌∷◌, ◌++◌, ◌≡◌, refl,
  sym, ◌∙◌, ap, length, length-append, ltb, ltb→lt, ltb→ge, if◌then◌else◌, All, arith, Bool-cases,
  inl, inr,
}
use neutrasearch.Base.Sorting.{
  HaveSameItems, HaveSameItems-length, count, count-append, IsOrder, insert_by, count-insert_by,
  All-insert_by, All-not_less, AreDescending, insert_by-AreDescending,
}

module _ {A : Type 0} (less : A → A → Bool) where
  -- `push_ranked` of crates/neutra-core/src/ranked.rs
  unfoldable pub push_ranked : ℕ → A → List A → List A
  push_ranked limit hit kept =
      if ltb (length kept) limit then insert_by less hit kept else elim kept [
        | [] ↦ []
        | worst ∷ rest ↦ if less hit worst then insert_by less hit rest else worst ∷ rest
      ]

  -- The hits in order, pushed one by one.
  unfoldable pub push_all : ℕ → List A → List A → List A
  push_all limit kept [] = kept
  push_all limit kept (hit ∷ hits) = push_all limit (push_ranked limit hit kept) hits

  pub push_all-append :
      (limit : ℕ) (kept hits later : List A)
      → push_all limit (push_all limit kept hits) later ≡ push_all limit kept (hits ++ later)
  unfolding push_all
  push_all-append limit kept [] later = refl
  push_all-append limit kept (hit ∷ hits) later =
      push_all-append limit (push_ranked limit hit kept) hits later

  length-insert_by : (x : A) (ys : List A) → length (insert_by less x ys) ≡ length ys + 1
  length-insert_by x ys = omega (
    arith,
    HaveSameItems-length (insert_by less x ys) (x ∷ ys) (λ p. count-insert_by less p x ys),
  )

  -- The counts of a longer list, as sums.
  count-cons :
      (p : A → Bool) (x : A) (ys : List A) → count p (x ∷ ys) ≡ count p (x ∷ []) + count p ys
  count-cons p x ys = count-append p (x ∷ []) ys

  count-nil : (p : A → Bool) → count p [] ≡ 0
  unfolding count
  count-nil p = refl

  module _ (order : IsOrder less) (limit : ℕ) where
    -- The heap as it stands when the hits of `seen` were pushed.
    pub record IsHeap (kept seen : List A) : Type 0 where
      pub descending : AreDescending less kept
      pub top : IsTop less limit kept seen

    -- There is room, and so nothing was dropped.
    push_room :
        (hit : A) (kept seen : List A)
        → length kept < limit
        → IsHeap kept seen
        → IsHeap (insert_by less hit kept) (hit ∷ seen)
    push_room hit kept seen room h =
        let top = h.top in
        let sizes : length kept + length top.dropped ≡ length seen =
          sym (length-append kept top.dropped)
          ∙ HaveSameItems-length (kept ++ top.dropped) seen top.same in
        let none : top.dropped ≡ [] =
          nil_of_length top.dropped (omega (arith, sizes, top.full, room)) in
        record {
          descending = insert_by-AreDescending less order hit kept h.descending;
          top = record {
            dropped = [];
            same = λ p. omega (
              arith,
              count-append p (insert_by less hit kept) [],
              count-insert_by less p hit kept,
              count-cons p hit kept,
              count-cons p hit seen,
              top.same p,
              count-append p kept top.dropped,
              ap (count p) none,
              count-nil p,
            );
            ahead = ahead_nil less (insert_by less hit kept);
            full = omega (arith, length-insert_by hit kept, sizes, top.full, room);
          };
        }

    -- The worst hit gives way.
    push_replace :
        (hit worst : A) (rest seen : List A)
        → limit ≤ length (worst ∷ rest)
        → less hit worst ≡ true
        → IsHeap (worst ∷ rest) seen
        → IsHeap (insert_by less hit rest) (hit ∷ seen)
    push_replace hit worst rest seen room before h =
        let top = h.top in
        let (first, sorted) = h.descending in
        let (worst_ahead, rest_ahead) = top.ahead in
        let swapped = order.asymmetric hit worst before in
        record {
          descending = insert_by-AreDescending less order hit rest sorted;
          top = record {
            dropped = worst ∷ top.dropped;
            same = λ p. omega (
              arith,
              count-append p (insert_by less hit rest) (worst ∷ top.dropped),
              count-insert_by less p hit rest,
              count-cons p hit rest,
              count-cons p worst top.dropped,
              count-cons p worst rest,
              count-cons p hit seen,
              top.same p,
              count-append p (worst ∷ rest) top.dropped,
            );
            ahead =
                ahead_cons less (insert_by less hit rest) top.dropped worst
                  (All-insert_by less (λ (k : A). less worst k ≡ false) hit rest swapped first)
                  (All-insert_by less (λ (k : A). All (λ (d : A). less d k ≡ false) top.dropped) hit
                    rest (behind_worst hit worst top.dropped swapped worst_ahead) rest_ahead);
            full = omega (arith, length-insert_by hit rest, top.full, room);
          };
        }
      where
        behind_worst :
            (hit worst : A) (ds : List A)
            → less worst hit ≡ false
            → All (λ (d : A). less d worst ≡ false) ds
            → All (λ (d : A). less d hit ≡ false) ds
        behind_worst hit worst [] swapped all = tt
        behind_worst hit worst (d ∷ ds) swapped (here, all) =
            (order.comparable d worst hit here swapped, behind_worst hit worst ds swapped all)

    -- The new hit is no better than the worst.
    push_keep :
        (hit worst : A) (rest seen : List A)
        → limit ≤ length (worst ∷ rest)
        → less hit worst ≡ false
        → IsHeap (worst ∷ rest) seen
        → IsHeap (worst ∷ rest) (hit ∷ seen)
    push_keep hit worst rest seen room after h =
        let top = h.top in
        let (first, sorted) = h.descending in
        record {
          descending = h.descending;
          top = record {
            dropped = hit ∷ top.dropped;
            same = λ p. omega (
              arith,
              count-append p (worst ∷ rest) (hit ∷ top.dropped),
              count-cons p hit top.dropped,
              count-cons p hit seen,
              top.same p,
              count-append p (worst ∷ rest) top.dropped,
            );
            ahead =
                ahead_cons less (worst ∷ rest) top.dropped hit
                  (after, All-not_less less order hit worst rest after first) top.ahead;
            full = omega (arith, top.full, room);
          };
        }

    push_ranked-IsHeap :
        (hit : A) (kept seen : List A)
        → IsHeap kept seen
        → IsHeap (push_ranked limit hit kept) (hit ∷ seen)
    unfolding push_ranked
    push_ranked-IsHeap hit kept seen h = elim (Bool-cases (ltb (length kept) limit)) [
      | inl room ↦ rw room (push_room hit kept seen (ltb→lt (length kept) limit room) h)
      | inr filled ↦ rw filled (full_heap kept (ltb→ge (length kept) limit filled) h)
    ]
      where
        full_heap :
            (ks : List A)
            → limit ≤ length ks
            → IsHeap ks seen
            → IsHeap
                (elim ks [
                  | [] ↦ []
                  | worst ∷ rest ↦ if less hit worst then insert_by less hit rest else worst ∷ rest
                ])
                (hit ∷ seen)
        full_heap [] room h = record {
          descending = tt;
          top = record {
            dropped = hit ∷ h.top.dropped;
            same = λ p.
                omega (arith, count-cons p hit h.top.dropped, count-cons p hit seen, h.top.same p);
            ahead = tt;
            full = omega (arith, room);
          };
        }
        full_heap (worst ∷ rest) room h = elim (Bool-cases (less hit worst)) [
          | inl before ↦ rw before (push_replace hit worst rest seen room before h)
          | inr after ↦ rw after (push_keep hit worst rest seen room after h)
        ]

    push_all-IsHeap :
        (hits kept seen : List A)
        → IsHeap kept seen
        → (seen' : List A) × IsHeap (push_all limit kept hits) seen'
          × HaveSameItems seen' (seen ++ hits)
    unfolding push_all
    push_all-IsHeap [] kept seen h = (seen, h, λ p. ap (count p) (sym (append-nil seen)))
    push_all-IsHeap (hit ∷ hits) kept seen h =
        let (seen', heap, same) =
          push_all-IsHeap hits (push_ranked limit hit kept) (hit ∷ seen)
            (push_ranked-IsHeap hit kept seen h) in
        (
          seen',
          heap,
          λ p. omega (
            arith,
            same p,
            count-append p (hit ∷ seen) hits,
            count-cons p hit seen,
            count-append p seen (hit ∷ hits),
            count-cons p hit hits,
          ),
        )

    -- Pushed one by one onto an empty heap of a limit, hits leave the first of them.
    pub push_all-IsTop : (hits : List A) → IsTop less limit (push_all limit [] hits) hits
    push_all-IsTop hits =
        let start : IsHeap [] [] = record {
          descending = tt;
          top = record { dropped = []; same = λ p. refl; ahead = tt; full = omega arith };
        } in
        let (seen', heap, same) = push_all-IsHeap hits [] [] start in
        IsTop-same less limit (push_all limit [] hits) seen' hits same heap.top
