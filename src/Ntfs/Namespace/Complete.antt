-- ===== src/Ntfs/Namespace/Complete.antt =====
-- `ensure_dir_path` ends, and finds a path for every directory that has one.
use neutrasearch.Base.{
  ℕ, zero, suc, ◌+◌, ◌<◌, ◌≤◌, ◌≡◌, ◌∙◌, refl, sym, arith, false, not, List, [], ◌∷◌, some, length,
  ◌==◌, Bytes, Option-cases, inl, inr, IsReported, ok-IsReported, err-IsReported, ensure_step,
  context_step, if_step, >>=-IsReported, Bool-cases, true, ◌≢◌, ok, ap,
}
use neutrasearch.Base.Table.{Table, find, contains, IsDistinct, AreKeys, length-le_of_keys}
use neutrasearch.Ntfs.Records.{Entry}
use neutrasearch.Ntfs.Namespace.{matches, sequence_matches, climb, resolve, ensure_dir_path}
use neutrasearch.Ntfs.Namespace.Resolves.{Resolves, root, below, IsSound}
use neutrasearch.Ntfs.Namespace.Sound.{fill-climb}

five_test : (a : ℕ) → a ≡ 5 → (a == 5) ≡ true
five_test a h = ground arith

deep_test : (a : ℕ) → a ≢ 5 → (a == 5) ≡ false
deep_test a h = ground arith

exact_test : (a b : ℕ) → matches a b ≡ true → (a == 0) ≡ false → (b == a) ≡ true
exact_test a b h k = ground arith

module _ (entries : Table Entry) (root_sequence : ℕ) where
  -- The records seen are distinct entries, and the fuel covers those that are left.
  record IsFueled (fuel : ℕ) (seen : List ℕ) : Type 0 where
    distinct : IsDistinct seen
    keys : AreKeys seen entries
    enough : length entries < fuel + length seen

  IsFueled-next :
      (fuel : ℕ) (seen : List ℕ) (current : ℕ) (entry : Entry)
      → contains current seen ≡ false
      → find current entries ≡ some entry
      → IsFueled (suc fuel) seen
      → IsFueled fuel (current ∷ seen)
  IsFueled-next fuel seen current entry new found f = record {
    distinct = (new, f.distinct);
    keys = ((entry, found), f.keys);
    enough = omega (arith, f.enough);
  }

  climb-IsReported :
      (fuel : ℕ) (cache : Table Bytes) (current expected : ℕ) (seen chain : List ℕ)
      → IsFueled fuel seen
      → IsReported (climb entries root_sequence fuel cache current expected seen chain)
  unfolding climb sequence_matches
  climb-IsReported zero cache current expected seen chain f =
      absurd (omega (arith, f.enough, length-le_of_keys seen entries f.distinct f.keys))
  climb-IsReported (suc fuel) cache current expected seen chain f =
      if_step (current == 5)
        (λ five. ensure_step (matches expected root_sequence) _ λ _. ok-IsReported _)
        λ deep. elim (Option-cases (find current cache)) [
          | inr (path, here) ↦ rw here (
              if_step (expected == 0) (λ _. ok-IsReported _)
                λ _.
                  context_step (find current entries) _
                    λ entry _. ensure_step (entry.sequence == expected) _ λ _. ok-IsReported _)
          | inl absent ↦ rw absent (
              ensure_step (not (contains current seen)) _ λ new.
                context_step (find current entries) _ λ entry found.
                  ensure_step (matches expected entry.sequence) _ λ _. ensure_step entry.dir _ λ _.
                    climb-IsReported fuel cache entry.parent entry.parent_sequence (current ∷ seen)
                      (current ∷ chain)
                      (IsFueled-next fuel seen current entry (ground arith) found f))
        ]

  IsFueled-start : IsFueled (suc (length entries)) []
  IsFueled-start = record { distinct = tt; keys = tt; enough = omega arith }

  resolve-IsReported :
      (id expected : ℕ) (cache : Table Bytes)
      → IsSound entries root_sequence cache
      → IsReported (resolve entries root_sequence id expected cache)
  unfolding resolve
  resolve-IsReported id expected cache h =
      >>=-IsReported (climb entries root_sequence (suc (length entries)) cache id expected [] []) _
        (climb-IsReported (suc (length entries)) cache id expected [] [] IsFueled-start)
        λ s climbed.
          let (cache', done, _, _) =
            fill-climb entries root_sequence (suc (length entries)) id expected cache s.0 s.1 h
              climbed in
          rw done (ok-IsReported cache')

  -- From a cache of right paths, on any table of entries, cycles included, `ensure_dir_path` ends and
  -- reports.
  pub ensure_dir_path-IsReported :
      (id expected : ℕ) (cache : Table Bytes)
      → IsSound entries root_sequence cache
      → IsReported (ensure_dir_path entries root_sequence id expected cache)
  unfolding ensure_dir_path sequence_matches
  ensure_dir_path-IsReported id expected cache h =
      if_step (id == 5)
        (λ five. ensure_step (matches expected root_sequence) _ λ _. ok-IsReported _)
        λ deep. elim (Option-cases (find id entries)) [
          | inl absent ↦ rw absent (resolve-IsReported id expected cache h)
          | inr (entry, found) ↦ rw found (
              ensure_step (matches expected entry.sequence) _ λ m.
                elim (Option-cases (find id cache)) [
                  | inl absent ↦ rw absent (resolve-IsReported id expected cache h)
                  | inr (path, here) ↦
                      rw here (if_step entry.dir (λ _. ok-IsReported _) λ _. err-IsReported _)
                ])
        ]

  -- How far below the root a directory lies; the record alone decides it.
  depth : {id expected : ℕ} {path : Bytes} → Resolves entries root_sequence id expected path → ℕ
  depth (root _ _ _) = 0
  depth (below entry up _ _ _ _ r _) = suc (depth r)

  depth_unique :
      {id expected : ℕ} {path : Bytes} {id' expected' : ℕ} {path' : Bytes}
      (d : Resolves entries root_sequence id expected path)
      (d' : Resolves entries root_sequence id' expected' path')
      → id ≡ id'
      → depth d ≡ depth d'
  unfolding depth
  depth_unique (root _ _ _) (root _ _ _) e = refl
  depth_unique (root five _ _) (below _ _ n _ _ _ _ _) e = absurd (n (sym e ∙ five))
  depth_unique (below _ _ n _ _ _ _ _) (root five _ _) e = absurd (n (e ∙ five))
  depth_unique (below entry _ _ f _ _ r _) (below entry' _ _ f' _ _ r' _) e =
      ap suc (depth_unique r r' (cc (f, f', e)))

  -- All records seen lie below `level`, and so no parent at that level was seen.
  abbrev AreDeeper : ℕ → List ℕ → Type 0
  AreDeeper level [] = Unit
  AreDeeper level (x ∷ xs) =
      ((expected : ℕ) × (path : Bytes) × (d : Resolves entries root_sequence x expected path)
        × (level < depth d))
      × AreDeeper level xs

  AreDeeper-le : (a b : ℕ) (seen : List ℕ) → a ≤ b → AreDeeper b seen → AreDeeper a seen
  AreDeeper-le a b [] h s = tt
  AreDeeper-le a b (x ∷ xs) h ((e, p, d, l), s) = ((e, p, d, omega arith), AreDeeper-le a b xs h s)

  contains_deeper :
      {current expected : ℕ} {path : Bytes}
      (d : Resolves entries root_sequence current expected path) (seen : List ℕ)
      → AreDeeper (depth d) seen
      → contains current seen ≡ false
  unfolding contains
  contains_deeper d [] s = refl
  contains_deeper {current} d (x ∷ xs) ((e, p, d', l), s) =
      ground (arith, depth_unique d' d, contains_deeper d xs s)

  climb_complete :
      (fuel : ℕ) (cache : Table Bytes) (seen chain : List ℕ) {current expected : ℕ} {path : Bytes}
      (d : Resolves entries root_sequence current expected path)
      → IsFueled fuel seen
      → AreDeeper (depth d) seen
      → (s : ℕ × List ℕ) × (climb entries root_sequence fuel cache current expected seen chain
          ≡ ok s)
  unfolding climb sequence_matches depth
  climb_complete zero cache seen chain d f a =
      absurd (omega (arith, f.enough, length-le_of_keys seen entries f.distinct f.keys))
  climb_complete (suc fuel) cache seen chain {current} (root five m _) f a =
      ((current, chain), rw (five_test current five, m))
  climb_complete (suc fuel) cache seen chain {current} {expected} {path}
        (below entry up n found m dir r p) f a =
      elim (Option-cases (find current cache)) [
        | inr (held, here) ↦ (
          (current, chain),
          rw (deep_test current n, here)
              (elim (Bool-cases (expected == 0)) [
                | inl any ↦ rw any
                | inr exact ↦ rw (exact, found, exact_test expected entry.sequence m exact)
              ]),
        )
        | inl absent ↦
            let new = contains_deeper (below {path = path} entry up n found m dir r p) seen a in
            rw (deep_test current n, absent, new, found, m, dir)
              (climb_complete fuel cache (current ∷ seen) (current ∷ chain) r
                (IsFueled-next fuel seen current entry new found f)
                (
                  (expected, path, below entry up n found m dir r p, omega arith),
                  AreDeeper-le (depth r) (suc (depth r)) seen (omega arith) a,
                ))
      ]

  resolve_complete :
      (cache : Table Bytes) {id expected : ℕ} {path : Bytes}
      → IsSound entries root_sequence cache
      → Resolves entries root_sequence id expected path
      → (cache' : Table Bytes) × (resolve entries root_sequence id expected cache ≡ ok cache')
  unfolding resolve
  resolve_complete cache {id} {expected} h d =
      let ((top, chain), climbed) =
        climb_complete (suc (length entries)) cache [] [] d IsFueled-start tt in
      let (cache', done, _, _) =
        fill-climb entries root_sequence (suc (length entries)) id expected cache top chain h
          climbed in
      (cache', rw (climbed, done))

  -- From a cache of right paths, `ensure_dir_path` succeeds for every directory that has a path with
  -- matching sequence numbers: it never takes such a chain of parents for a cycle.
  pub ensure_dir_path_complete :
      (cache : Table Bytes) {id expected : ℕ} {path : Bytes}
      → IsSound entries root_sequence cache
      → Resolves entries root_sequence id expected path
      → (cache' : Table Bytes) × (ensure_dir_path entries root_sequence id expected cache
          ≡ ok cache')
  unfolding ensure_dir_path sequence_matches
  ensure_dir_path_complete cache {id} h (root five m p) = (cache, rw (five_test id five, m))
  ensure_dir_path_complete cache {id} {expected} {path} h (below entry up n found m dir r p) =
      elim (Option-cases (find id cache)) [
        | inr (held, here) ↦ (cache, rw (deep_test id n, found, m, here, dir))
        | inl absent ↦
            let (cache', done) =
              resolve_complete cache {path = path} h (below entry up n found m dir r p) in
            (cache', rw (deep_test id n, found, m, absent) done)
      ]
