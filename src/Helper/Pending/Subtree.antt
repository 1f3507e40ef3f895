-- ===== src/Helper/Pending/Subtree.antt =====
-- The leaves that the removal of a subtree keeps.
use neutrasearch.Base.{
  ℕ, Bool, true, false, not, ◌&&◌, ◌||◌, [], ◌∷◌, ◌++◌, ltb, ◌==◌, Bytes, List, equal, ◌+◌, ◌≡◌,
  refl, arith, inl, inr, Bool-cases,
}
use neutrasearch.Base.Text.{strip_prefix}
use neutrasearch.Base.Sorting.{HaveSameItems, count, count-append}
use neutrasearch.Delta.Record.{DeltaChange}
use neutrasearch.Portable.{starts_with}
use neutrasearch.Helper.Pending.{
  remove_subtree, trim_slashes_end, bytes_less, leaves_where, path_of,
}

less-nil : (q : Bytes) → bytes_less q [] ≡ false
unfolding bytes_less
less-nil [] = refl
less-nil (b ∷ q) = refl

starts_with-cons :
    (x c : ℕ) (r q : Bytes) → starts_with (c ∷ q) (x ∷ r) ≡ ((x == c) && starts_with q r)
unfolding starts_with strip_prefix
starts_with-cons x c r q = elim (Bool-cases (x == c)) [
  | inl same ↦ rw (starts_with, strip_prefix, same) refl
  | inr other ↦ rw (starts_with, strip_prefix, other) refl
]

starts_with-nil : (q : Bytes) → starts_with q [] ≡ true
unfolding starts_with strip_prefix
starts_with-nil q = refl

starts_with-empty : (x : ℕ) (r : Bytes) → starts_with [] (x ∷ r) ≡ false
unfolding starts_with strip_prefix
starts_with-empty x r = refl

-- The first bytes decide, or those behind them do.
range_step :
    (x c : ℕ) (low high : Bool)
    → ((x == c) && (not low && high))
      ≡ (not (ltb c x || (c == x && low)) && (ltb c x || (c == x && high)))
range_step x c low high = ground arith

-- `0` is the byte behind `/`.
range_last :
    (c : ℕ)
    → ((b'/' == c) && true)
      ≡ (not (ltb c b'/' || (c == b'/' && false)) && (ltb c b'0' || (c == b'0' && false)))
range_last c = ground arith

-- The range from `r/` to `r0` is the paths that start with `r/`.
in_range :
    (r q : Bytes)
    → starts_with q (r ++ b'/' ∷ [])
      ≡ (not (bytes_less q (r ++ b'/' ∷ [])) && bytes_less q (r ++ b'0' ∷ []))
unfolding bytes_less
in_range [] [] = starts_with-empty b'/' []
in_range [] (c ∷ q) =
    rw (starts_with-cons b'/' c [] q, starts_with-nil q, less-nil q) (range_last c)
in_range (x ∷ r) [] = starts_with-empty x (r ++ b'/' ∷ [])
in_range (x ∷ r) (c ∷ q) =
    rw (starts_with-cons x c (r ++ b'/' ∷ []) q, in_range r q)
      (range_step x c (bytes_less q (r ++ b'/' ∷ [])) (bytes_less q (r ++ b'0' ∷ [])))

-- What a filter keeps, counted.
pub count-leaves_where :
    (p : DeltaChange → Bool) (keep : Bytes → Bool) (leaves : List DeltaChange)
    → count p (leaves_where keep leaves) ≡ count (λ leaf. keep (path_of leaf) && p leaf) leaves
unfolding count leaves_where
count-leaves_where p keep [] = refl
count-leaves_where p keep (leaf ∷ leaves) = elim (Bool-cases (keep (path_of leaf))) [
  | inl kept ↦ rw kept (rw (count, count-leaves_where p keep leaves) refl)
  | inr out ↦ rw out (count-leaves_where p keep leaves)
]

abbrev of_bool : Bool → ℕ
of_bool true = 1
of_bool false = 0

-- Two tests that part what a third takes.
count-part :
    (f g h : DeltaChange → Bool) (leaves : List DeltaChange)
    → ((leaf : DeltaChange) → of_bool (f leaf) + of_bool (g leaf) ≡ of_bool (h leaf))
    → count f leaves + count g leaves ≡ count h leaves
unfolding count
count-part f g h [] part = refl
count-part f g h (leaf ∷ leaves) part =
    let rest = count-part f g h leaves part in let here = part leaf in ground (arith, rest, here)

-- What is not in the range is before it or behind it.
outside :
    (at low high p : Bool)
    → of_bool (at && (low && p)) + of_bool (at && (not low && (not high && p)))
      ≡ of_bool ((at && not (not low && high)) && p)
outside true true high p = omega arith
outside true false true p = refl
outside true false false p = omega arith
outside false low high p = refl

-- The leaf is neither at the root nor below it.
unfoldable pub is_kept : Bytes → Bytes → Bool
is_kept root path =
    not (equal path root) && not (starts_with path (trim_slashes_end root ++ b'/' ∷ []))

-- Removing a subtree keeps the leaves that are neither at the root nor below it.
pub remove_subtree-HaveSameItems :
    (root : Bytes) (leaves : List DeltaChange)
    → HaveSameItems (remove_subtree root leaves) (leaves_where (is_kept root) leaves)
unfolding remove_subtree is_kept
remove_subtree-HaveSameItems root leaves p =
    rw
      (
        count-append, count-leaves_where, count-leaves_where, count-leaves_where,
        count-leaves_where, count-leaves_where, count-leaves_where,
      )
      (count-part _ _ _ leaves λ leaf.
        rw (is_kept, in_range (trim_slashes_end root) (path_of leaf))
          (outside _ (bytes_less (path_of leaf) (trim_slashes_end root ++ b'/' ∷ []))
            (bytes_less (path_of leaf) (trim_slashes_end root ++ b'0' ∷ [])) (p leaf)))
