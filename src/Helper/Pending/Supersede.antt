-- ===== src/Helper/Pending/Supersede.antt =====
-- What a newer change leaves of the changes that wait.
use neutrasearch.Base.{
  Bool, true, false, not, ◌&&◌, ◌||◌, [], ◌∷◌, Bytes, List, equal, if◌then◌else◌, ◌≡◌, refl, ◌∙◌,
  inl, inr, Bool-cases,
}
use neutrasearch.Base.Sorting.{HaveSameItems, count}
use neutrasearch.Delta.Record.{DeltaChange}
use neutrasearch.Helper.Pending.{
  Pending, path_of, leaves_where, remove_subtree, remove_subtrees, is_subtree, is_conflict,
  part_roots, supersede, is_nil,
}
use neutrasearch.Helper.Pending.Subtree.{is_kept, count-leaves_where, remove_subtree-HaveSameItems}

-- The leaf is not in the subtree of a root that is in conflict with the change.
unfoldable pub survives : DeltaChange → List Bytes → Bytes → Bool
survives newer [] path = true
survives newer (root ∷ roots) path =
    (not (is_conflict newer root) || is_kept root path) && survives newer roots path

-- The change does not replace the leaf.
unfoldable pub outlives : DeltaChange → Bytes → Bool
outlives newer path =
    if is_subtree newer then is_kept (path_of newer) path else not (equal path (path_of newer))

unfoldable pub has_conflict : DeltaChange → List Bytes → Bool
has_conflict newer [] = false
has_conflict newer (root ∷ roots) = is_conflict newer root || has_conflict newer roots

survives_all : List Bytes → Bytes → Bool
survives_all [] path = true
survives_all (root ∷ roots) path = is_kept root path && survives_all roots path

survives-part_roots :
    (newer : DeltaChange) (roots : List Bytes) (path : Bytes)
    → survives_all (part_roots newer roots).1 path ≡ survives newer roots path
unfolding part_roots survives survives_all
survives-part_roots newer [] path = refl
survives-part_roots newer (root ∷ roots) path = elim (Bool-cases (is_conflict newer root)) [
  | inl conflict ↦ rw conflict (rw (survives_all, survives-part_roots newer roots path) refl)
  | inr none ↦ rw none (survives-part_roots newer roots path)
]

has_conflict-part_roots :
    (newer : DeltaChange) (roots : List Bytes)
    → not (is_nil (part_roots newer roots).1) ≡ has_conflict newer roots
unfolding part_roots has_conflict
has_conflict-part_roots newer [] = refl
has_conflict-part_roots newer (root ∷ roots) = elim (Bool-cases (is_conflict newer root)) [
  | inl conflict ↦ rw conflict refl
  | inr none ↦ rw none (has_conflict-part_roots newer roots)
]

count-ext :
    (f g : DeltaChange → Bool) (leaves : List DeltaChange)
    → ((leaf : DeltaChange) → f leaf ≡ g leaf)
    → count f leaves ≡ count g leaves
unfolding count
count-ext f g [] same = refl
count-ext f g (leaf ∷ leaves) same = rw (count, same leaf, count-ext f g leaves same) refl

-- One test after another is both.
count-and :
    (p : DeltaChange → Bool) (a b : Bytes → Bool) (leaves : List DeltaChange)
    → count (λ leaf. a (path_of leaf) && (b (path_of leaf) && p leaf)) leaves
      ≡ count p (leaves_where (λ path. a path && b path) leaves)
count-and p a b leaves =
    rw count-leaves_where
      (count-ext _ _ leaves λ leaf. and_assoc (a (path_of leaf)) (b (path_of leaf)) (p leaf))
  where
    and_assoc : (a b c : Bool) → (a && (b && c)) ≡ ((a && b) && c)
    and_assoc true b c = refl
    and_assoc false b c = refl

remove_subtrees-HaveSameItems :
    (roots : List Bytes) (leaves : List DeltaChange)
    → HaveSameItems (remove_subtrees roots leaves) (leaves_where (survives_all roots) leaves)
unfolding remove_subtrees survives_all
remove_subtrees-HaveSameItems [] leaves p = rw count-leaves_where refl
remove_subtrees-HaveSameItems (root ∷ roots) leaves p =
    remove_subtrees-HaveSameItems roots (remove_subtree root leaves) p
    ∙ count-leaves_where p (survives_all roots) (remove_subtree root leaves)
    ∙ remove_subtree-HaveSameItems root leaves _
    ∙ count-leaves_where _ (is_kept root) leaves
    ∙ count-and p (is_kept root) (survives_all roots) leaves

-- What `supersede` does to the leaves when the conflicts are gone.
outlives-HaveSameItems :
    (newer : DeltaChange) (leaves : List DeltaChange)
    → HaveSameItems
        (if is_subtree newer
          then remove_subtree (path_of newer) leaves
          else leaves_where (λ path. not (equal path (path_of newer))) leaves)
        (leaves_where (outlives newer) leaves)
unfolding outlives
outlives-HaveSameItems newer leaves p = elim (Bool-cases (is_subtree newer)) [
  | inl subtree ↦ rw subtree (
      remove_subtree-HaveSameItems (path_of newer) leaves p
      ∙ (rw (count-leaves_where, count-leaves_where)
          (count-ext _ _ leaves λ leaf. rw (outlives, subtree) refl)))
  | inr single ↦
      rw (single, count-leaves_where, count-leaves_where)
        (count-ext _ _ leaves λ leaf. rw (outlives, single) refl)
]

-- A newer change keeps exactly the leaves that it does not replace and that are in no removed subtree in
-- conflict with it, and asks for a retry where there is such a conflict or one was asked for.

pub supersede-HaveSameItems :
    (newer : DeltaChange) (pending : Pending)
    → HaveSameItems (supersede newer pending).leaves (
        leaves_where
          (λ path. survives newer pending.prefixes path && outlives newer path)
          pending.leaves)
      × ((supersede newer pending).retry ≡ (pending.retry || has_conflict newer pending.prefixes))
unfolding supersede
supersede-HaveSameItems newer pending = (
  (λ p.
      let conflicts = (part_roots newer pending.prefixes).1 in
      let leaves = remove_subtrees conflicts pending.leaves in
      outlives-HaveSameItems newer leaves p
      ∙ count-leaves_where p (outlives newer) leaves
      ∙ remove_subtrees-HaveSameItems conflicts pending.leaves _
      ∙ count-leaves_where _ (survives_all conflicts) pending.leaves
      ∙ count-ext _ _ pending.leaves
          (λ leaf. rw (survives-part_roots newer pending.prefixes (path_of leaf)) refl)
      ∙ count-and p (survives newer pending.prefixes) (outlives newer) pending.leaves),
  rw has_conflict-part_roots refl,
)
