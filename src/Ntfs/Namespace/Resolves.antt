-- ===== src/Ntfs/Namespace/Resolves.antt =====
-- The paths of directories by their parents, and what it is for a cache to hold them.
use neutrasearch.Base.{
  ℕ, ◌≡◌, ◌≢◌, refl, arith, true, false, [], some, ◌==◌, ==_iff, Bytes, Bool-cases, inl, inr,
}
use mathlib.Core.Path.{subst₂}
use mathlib.Core.Option.{some-injective}
use neutrasearch.Base.Table.{Table, find, insert, find-insert}
use neutrasearch.Ntfs.Records.{Entry, append_component}
use neutrasearch.Ntfs.Namespace.{matches}

pub ne_of_test : (a b : ℕ) → (a == b) ≡ false → a ≢ b
ne_of_test a b h = ground arith

module _ (entries : Table Entry) (root_sequence : ℕ) where
  -- Directory `id`, at the sequence number expected of it (0 for any), lies at `path`.
  pub data Resolves : ℕ → ℕ → Bytes → Type 0 where
    root :
        {id expected : ℕ} {path : Bytes}
        → id ≡ 5
        → matches expected root_sequence ≡ true
        → path ≡ []
        → Resolves id expected path
    below :
        {id expected : ℕ} {path : Bytes} (entry : Entry) (up : Bytes)
        → id ≢ 5
        → find id entries ≡ some entry
        → matches expected entry.sequence ≡ true
        → entry.dir ≡ true
        → Resolves entry.parent entry.parent_sequence up
        → path ≡ append_component up entry.name
        → Resolves id expected path

  -- Every cached path is right.
  abbrev pub IsSound : Table Bytes → Type 0
  IsSound cache = (id : ℕ) (path : Bytes) → find id cache ≡ some path → Resolves id 0 path

  -- The directory has a path, and the cache holds it; the root's path needs no entry.
  abbrev pub IsReached : ℕ → ℕ → Table Bytes → Type 0
  IsReached id expected cache =
      (path : Bytes) × Resolves id expected path × (id ≢ 5 → find id cache ≡ some path)

  pub Resolves-any :
      (id expected : ℕ) (path : Bytes) → Resolves id expected path → Resolves id 0 path
  Resolves-any id expected path (root e m p) = root e refl p
  Resolves-any id expected path (below entry up n f m d r p) = below entry up n f refl d r p

  pub Resolves-matching :
      (id expected : ℕ) (path : Bytes) (entry : Entry)
      → id ≢ 5
      → find id entries ≡ some entry
      → matches expected entry.sequence ≡ true
      → Resolves id 0 path
      → Resolves id expected path
  Resolves-matching id expected path entry n f m (root e _ p) = absurd (n e)
  Resolves-matching id expected path entry n f m (below other up n' f' _ d r p) =
      below other up n' f' (ground arith) d r p

  pub Resolves-root :
      (id expected : ℕ) (path : Bytes) → id ≡ 5 → Resolves id expected path → path ≡ []
  Resolves-root id expected path e (root _ m p) = p
  Resolves-root id expected path e (below entry up n f m d r p) = absurd (n e)

  pub insert-IsSound :
      (id : ℕ) (path : Bytes) (cache : Table Bytes)
      → Resolves id 0 path
      → IsSound cache
      → IsSound (insert id path cache)
  insert-IsSound id path cache r h j q e = elim (Bool-cases (id == j)) [
    | inl same ↦
        let there : path ≡ q =
          some-injective path q (rw (find-insert id j path cache, same) at e) in
        subst₂ (λ k p. Resolves k 0 p) ((==_iff id j).0 same) there r
    | inr other ↦ h j q (rw (find-insert id j path cache, other) at e)
  ]
