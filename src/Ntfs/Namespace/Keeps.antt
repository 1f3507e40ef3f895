-- ===== src/Ntfs/Namespace/Keeps.antt =====
-- `ensure_dir_path` takes no directory out of the cache.
use neutrasearch.Ntfs.Namespace.Resolves.{root, insert-IsSound, IsReached, IsSound}
use neutrasearch.Ntfs.Namespace.Sound.{ensure_dir_path-IsReached}
use neutrasearch.Base.{
  suc, ℕ, ◌≡◌, refl, List, [], ◌∷◌, some, length, ◌==◌, Bytes, ok, inl, inr, Bool-cases,
  Option-cases, ensure_ok, unwrap_ok, >>=-eq-ok, ok-injective,
}
use mathlib.Core.Path.{subst}
use neutrasearch.Base.Table.{Table, find, insert, find-insert}
use neutrasearch.Ntfs.Records.{Entry, append_component}
use neutrasearch.Ntfs.Namespace.{
  matches, sequence_matches, climb, fill, cached_path, resolve, ensure_dir_path,
}

-- The key is in the table.
abbrev pub IsHeld : ℕ → Table Bytes → Type 0
IsHeld k cache = (path : Bytes) × (find k cache ≡ some path)

pub insert-IsHeld :
    (k j : ℕ) (path : Bytes) (cache : Table Bytes) → IsHeld k cache → IsHeld k (insert j path cache)
insert-IsHeld k j path cache (held, here) = elim (Bool-cases (j == k)) [
  | inl same ↦ (path, rw (find-insert j k path cache, same) refl)
  | inr other ↦ (held, rw (find-insert j k path cache, other) here)
]

module _ (entries : Table Entry) (root_sequence k : ℕ) where
  fill-IsHeld :
      (chain : List ℕ) (path : Bytes) (cache : Table Bytes) {cache' : Table Bytes}
      → IsHeld k cache
      → fill entries root_sequence chain path cache ≡ ok cache'
      → IsHeld k cache'
  unfolding fill
  fill-IsHeld [] path cache h e = subst (IsHeld k) (ok-injective e) h
  fill-IsHeld (id ∷ chain) path cache h e =
      let (entry, found, e1) = unwrap_ok (find id entries) _ e in
      let path' = append_component path entry.name in
      fill-IsHeld chain path' (insert id path' cache) (insert-IsHeld k id path' cache h) e1

  resolve-IsHeld :
      (id expected : ℕ) (cache : Table Bytes) {cache' : Table Bytes}
      → IsHeld k cache
      → resolve entries root_sequence id expected cache ≡ ok cache'
      → IsHeld k cache'
  unfolding resolve
  resolve-IsHeld id expected cache h e =
      let (s, _, e1) =
        >>=-eq-ok (climb entries root_sequence (suc (length entries)) cache id expected [] []) _
          e in
      fill-IsHeld s.1 (cached_path entries root_sequence s.0 cache) cache h e1

  -- What the cache holds, it still holds after `ensure_dir_path`.
  pub ensure_dir_path-IsHeld :
      (id expected : ℕ) (cache : Table Bytes) {cache' : Table Bytes}
      → IsHeld k cache
      → ensure_dir_path entries root_sequence id expected cache ≡ ok cache'
      → IsHeld k cache'
  unfolding ensure_dir_path sequence_matches
  ensure_dir_path-IsHeld id expected cache h e = elim (Bool-cases (id == 5)) [
    | inl five ↦
        let (_, same) = ensure_ok (matches expected root_sequence) _ _ (rw five at e) in
        subst (IsHeld k) (ok-injective same) h
    | inr deep ↦ elim (Option-cases (find id entries)) [
      | inl absent ↦ resolve-IsHeld id expected cache h (rw (deep, absent) at e)
      | inr (entry, found) ↦
          let (_, e1) = ensure_ok (matches expected entry.sequence) _ _ (rw (deep, found) at e) in
          elim (Option-cases (find id cache)) [
            | inl absent ↦ resolve-IsHeld id expected cache h (rw absent at e1)
            | inr (path, here) ↦ elim (Bool-cases entry.dir) [
              | inl dir ↦ subst (IsHeld k) (ok-injective (rw (here, dir) at e1)) h
              | inr file ↦ let never = rw (here, file) at e1 in cc
            ]
          ]
    ]
  ]

module _ (entries : Table Entry) (root_sequence : ℕ) where
  -- The cache is right and holds the root.
  pub record IsReady (cache : Table Bytes) : Type 0 where
    pub sound : IsSound entries root_sequence cache
    pub rooted : IsHeld 5 cache

  pub insert_root-IsReady :
      (cache : Table Bytes) → IsSound entries root_sequence cache → IsReady (insert 5 [] cache)
  insert_root-IsReady cache h = record {
    sound = insert-IsSound entries root_sequence 5 [] cache (root refl refl refl) h;
    rooted = ([], rw (find-insert 5 5 [] cache) refl);
  }

  pub ensure_dir_path-IsReady :
      (id expected : ℕ) (cache : Table Bytes) {cache' : Table Bytes}
      → IsReady cache
      → ensure_dir_path entries root_sequence id expected cache ≡ ok cache'
      → IsReady cache' × IsReached entries root_sequence id expected cache'
  ensure_dir_path-IsReady id expected cache h ran =
      let (sound, reached) =
        ensure_dir_path-IsReached entries root_sequence id expected cache h.sound ran in
      (
        record {
          sound = sound;
          rooted = ensure_dir_path-IsHeld entries root_sequence 5 id expected cache h.rooted ran;
        },
        reached,
      )
