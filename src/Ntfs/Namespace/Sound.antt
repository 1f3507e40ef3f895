-- ===== src/Ntfs/Namespace/Sound.antt =====
-- What `ensure_dir_path` promises: the cache holds, for each directory, the names from the root down.
use neutrasearch.Ntfs.Namespace.{
  matches, sequence_matches, climb, fill, cached_path, resolve, ensure_dir_path, sequence, missing,
}
use neutrasearch.Base.{
  ℕ, zero, suc, ◌≡◌, ◌≢◌, refl, sym, arith, true, false, not, List, [], ◌∷◌, some, length, ◌==◌,
  ==_iff, if◌then◌else◌, Bytes, ok, Bool-cases, Option-cases, inl, inr, ensure_ok, context_ok,
  ok-injective, ◌∙◌, ◌>>=◌, ◌>>◌, context, ensure, >>=-eq-ok, ==_refl,
}
use mathlib.Core.Path.{subst}
use neutrasearch.Ntfs.Namespace.Resolves.{
  ne_of_test, Resolves, root, below, IsSound, IsReached, Resolves-any, Resolves-matching,
  Resolves-root, insert-IsSound,
}
use neutrasearch.Base.Table.{Table, find, insert, find-insert, contains}
use neutrasearch.Ntfs.Records.{Entry, append_component}

module _ (entries : Table Entry) (root_sequence : ℕ) where
  -- The branch of the loop at a cached directory.
  climb_cached :
      (current expected : ℕ) (chain : List ℕ) (path : Bytes) {s : ℕ × List ℕ}
      → (current == 5) ≡ false
      → Resolves entries root_sequence current 0 path
      → (if expected == 0 then ok (current, chain) else do
        entry ← context (find current entries) (missing current)
        ensure (entry.sequence == expected) (sequence current expected entry.sequence)
        ok (current, chain))
        ≡ ok s
      → Resolves entries root_sequence current expected path × ((current, chain) ≡ s)
  climb_cached current expected chain path deep r e = elim (Bool-cases (expected == 0)) [
    | inl any ↦ (rw ((==_iff expected 0).0 any) r, ok-injective (rw any at e))
    | inr exact ↦
        let (entry, found, e1) = context_ok (find current entries) _ _ (rw exact at e) in
        let (m, e2) = ensure_ok (entry.sequence == expected) _ _ e1 in
        (
          Resolves-matching entries root_sequence current expected path entry
              (ne_of_test current 5 deep) found (ground arith) r,
          ok-injective e2,
        )
  ]

  module _ (target wanted : ℕ) where
    -- Once `current` has its path, what is left of the chain leads to the target.
    abbrev IsReady : ℕ → ℕ → List ℕ → Type 0
    IsReady current expected chain =
        (path : Bytes) (cache : Table Bytes)
        → IsSound entries root_sequence cache
        → Resolves entries root_sequence current expected path
        → (current ≢ 5 → find current cache ≡ some path)
        → (cache' : Table Bytes) × (fill entries root_sequence chain path cache ≡ ok cache')
          × IsSound entries root_sequence cache'
          × IsReached entries root_sequence target wanted cache'

    IsReady-start : IsReady target wanted []
    unfolding fill
    IsReady-start path cache h r c = (cache, refl, h, (path, r, c))

    IsReady-cons :
        (current expected : ℕ) (chain : List ℕ) (entry : Entry)
        → current ≢ 5
        → find current entries ≡ some entry
        → matches expected entry.sequence ≡ true
        → entry.dir ≡ true
        → IsReady current expected chain
        → IsReady entry.parent entry.parent_sequence (current ∷ chain)
    unfolding fill
    IsReady-cons current expected chain entry n f m d ready path cache h r c =
        let path' = append_component path entry.name in
        let here = below entry path n f m d r refl in
        rw f (
          ready path' (insert current path' cache)
            (insert-IsSound entries root_sequence current path' cache
              (Resolves-any entries root_sequence current expected path' here) h)
            here (λ _. rw (find-insert current current path' cache, ==_refl current)))

    -- Where the climb stops there is a path already, and the chain leads down to the target.
    record IsTop (cache : Table Bytes) (top : ℕ) (chain : List ℕ) : Type 0 where
      expected : ℕ
      resolves :
          Resolves entries root_sequence top expected (cached_path entries root_sequence top cache)
      held : top ≢ 5 → find top cache ≡ some (cached_path entries root_sequence top cache)
      ready : IsReady top expected chain

    IsTop-root :
        (cache : Table Bytes) (top expected : ℕ) (chain : List ℕ)
        → IsSound entries root_sequence cache
        → top ≡ 5
        → matches expected root_sequence ≡ true
        → IsReady top expected chain
        → IsTop cache top chain
    unfolding cached_path
    IsTop-root cache top expected chain h five m ready = record {
      expected = expected;
      resolves = root five m (elim (Option-cases (find top cache)) [
        | inl absent ↦ rw (absent, cached_path)
        | inr (path, here) ↦
            rw (here, cached_path)
              (Resolves-root entries root_sequence top 0 path five (h top path here))
      ]);
      held = λ n. absurd (n five);
      ready = ready;
    }

    IsTop-cached :
        (cache : Table Bytes) (top expected : ℕ) (chain : List ℕ) (path : Bytes)
        → find top cache ≡ some path
        → Resolves entries root_sequence top expected path
        → IsReady top expected chain
        → IsTop cache top chain
    unfolding cached_path
    IsTop-cached cache top expected chain path here r ready = record {
      expected = expected;
      resolves = rw (here, cached_path) r;
      held = λ _. rw (here, cached_path);
      ready = ready;
    }

    climb-IsTop :
        (fuel : ℕ) (cache : Table Bytes) (current expected : ℕ) (seen chain : List ℕ) {top : ℕ}
        {chain' : List ℕ}
        → IsSound entries root_sequence cache
        → IsReady current expected chain
        → climb entries root_sequence fuel cache current expected seen chain ≡ ok (top, chain')
        → IsTop cache top chain'
    unfolding climb sequence_matches
    climb-IsTop zero cache current expected seen chain h ready e = cc
    climb-IsTop (suc fuel) cache current expected seen chain {top} {chain'} h ready e =
        elim (Bool-cases (current == 5)) [
          | inl five ↦
              let (m, same) = ensure_ok (matches expected root_sequence) _ _ (rw five at e) in
              subst (λ (s : ℕ × List ℕ). IsTop cache s.0 s.1) (ok-injective same)
                (IsTop-root cache current expected chain h ((==_iff current 5).0 five) m ready)
          | inr deep ↦ elim (Option-cases (find current cache)) [
            | inr (path, here) ↦
                let (r, same) =
                  climb_cached current expected chain path deep (h current path here)
                    (rw (deep, here, climb) at e) in
                subst (λ (s : ℕ × List ℕ). IsTop cache s.0 s.1) same
                  (IsTop-cached cache current expected chain path here r ready)
            | inl absent ↦
                let (new, e1) =
                  ensure_ok (not (contains current seen)) _ _ (rw (deep, absent, climb) at e) in
                let (entry, found, e2) = context_ok (find current entries) _ _ e1 in
                let (m, e3) = ensure_ok (matches expected entry.sequence) _ _ e2 in
                let (d, e4) = ensure_ok entry.dir _ _ e3 in
                climb-IsTop fuel cache entry.parent entry.parent_sequence (current ∷ seen)
                  (current ∷ chain) h
                  (IsReady-cons current expected chain entry (ne_of_test current 5 deep) found m d
                    ready)
                  e4
          ]
        ]

  -- A climb that succeeds is followed by a fill that succeeds.
  pub fill-climb :
      (fuel id expected : ℕ) (cache : Table Bytes) (top : ℕ) (chain : List ℕ)
      → IsSound entries root_sequence cache
      → climb entries root_sequence fuel cache id expected [] [] ≡ ok (top, chain)
      → (cache' : Table Bytes) × (fill entries root_sequence chain
            (cached_path entries root_sequence top cache)
            cache
          ≡ ok cache')
        × IsSound entries root_sequence cache'
        × IsReached entries root_sequence id expected cache'
  fill-climb fuel id expected cache top chain h climbed =
      let t =
        climb-IsTop id expected fuel cache id expected [] [] h (IsReady-start id expected)
          climbed in
      t.ready (cached_path entries root_sequence top cache) cache h t.resolves t.held

  resolve-IsReached :
      (id expected : ℕ) (cache : Table Bytes) {cache' : Table Bytes}
      → IsSound entries root_sequence cache
      → resolve entries root_sequence id expected cache ≡ ok cache'
      → IsSound entries root_sequence cache' × IsReached entries root_sequence id expected cache'
  unfolding resolve
  resolve-IsReached id expected cache h e =
      let ((top, chain), climbed, filled) =
        >>=-eq-ok (climb entries root_sequence (suc (length entries)) cache id expected [] []) _
          e in
      let (cache'', done, sound, reached) =
        fill-climb (suc (length entries)) id expected cache top chain h climbed in
      subst (λ c. IsSound entries root_sequence c × IsReached entries root_sequence id expected c)
        (ok-injective (sym done ∙ filled)) (sound, reached)

  -- From a cache of right paths, a successful `ensure_dir_path` keeps every cached path right, and leaves the directory that it was
  -- asked for in the cache, at the path of its names from the root down, with the sequence number of
  -- it and of each parent as expected. The root itself needs no entry.
  pub ensure_dir_path-IsReached :
      (id expected : ℕ) (cache : Table Bytes) {cache' : Table Bytes}
      → IsSound entries root_sequence cache
      → ensure_dir_path entries root_sequence id expected cache ≡ ok cache'
      → IsSound entries root_sequence cache' × IsReached entries root_sequence id expected cache'
  unfolding ensure_dir_path sequence_matches
  ensure_dir_path-IsReached id expected cache h e = elim (Bool-cases (id == 5)) [
    | inl five ↦
        let (m, same) = ensure_ok (matches expected root_sequence) _ _ (rw five at e) in
        subst (λ c. IsSound entries root_sequence c × IsReached entries root_sequence id expected c)
          (ok-injective same)
          (h, ([], root ((==_iff id 5).0 five) m refl, λ n. absurd (n ((==_iff id 5).0 five))))
    | inr deep ↦ elim (Option-cases (find id entries)) [
      | inl absent ↦ resolve-IsReached id expected cache h (rw (deep, absent) at e)
      | inr (entry, found) ↦
          let (m, e1) = ensure_ok (matches expected entry.sequence) _ _ (rw (deep, found) at e) in
          elim (Option-cases (find id cache)) [
            | inl absent ↦ resolve-IsReached id expected cache h (rw absent at e1)
            | inr (path, here) ↦ elim (Bool-cases entry.dir) [
              | inl d ↦
                  let r =
                    Resolves-matching entries root_sequence id expected path entry
                      (ne_of_test id 5 deep) found m (h id path here) in
                  subst
                    (λ c.
                      IsSound entries root_sequence c
                      × IsReached entries root_sequence id expected c)
                    (ok-injective (rw (here, d) at e1)) (h, (path, r, λ _. here))
              | inr plain ↦ cc (rw (here, plain) at e1)
            ]
          ]
    ]
  ]
