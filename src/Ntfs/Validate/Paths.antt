-- ===== src/Ntfs/Validate/Paths.antt =====
-- What a volume is that `validate` accepts.
use neutrasearch.Ntfs.Namespace.Keeps.{ensure_dir_path-IsReady, insert_root-IsReady, IsReady}
use neutrasearch.Base.{
  ensure_ok, ◌↔◌, Bool, ℕ, ◌≡◌, refl, true, false, List, [], ◌∷◌, All, ◌==◌, Bytes, ok, inl, inr,
  Bool-cases, >>=-eq-ok, map_err, map_err_ok, ok-injective,
}
use neutrasearch.Ntfs.Validate.{
  alias_no_path, validate_aliases, validate_names, validate, Rejection, record_no_path,
  directory_no_path, validate_directory, validate_entries, has_names,
}
use neutrasearch.Base.Table.{insert, Table}
use mathlib.Core.Path.{subst}
use neutrasearch.Ntfs.Records.{Entry, Alias}
use neutrasearch.Ntfs.Namespace.{Failure, ensure_dir_path}
use neutrasearch.Ntfs.Namespace.Resolves.{Resolves, IsSound}
use neutrasearch.Ntfs.Namespace.Complete.{ensure_dir_path_complete}

module _ (entries : Table Entry) (root_sequence : ℕ) where
  abbrev pub HasPath : ℕ → ℕ → Type 0
  HasPath id expected = (path : Bytes) × Resolves entries root_sequence id expected path

  -- The parent of a record has a path, and a directory has one itself. The root is no matter.
  abbrev pub IsPlaced : ℕ × Entry → Type 0
  IsPlaced (id, entry) =
      (id == 5) ≡ false
      → HasPath entry.parent entry.parent_sequence × (entry.dir ≡ true → HasPath id entry.sequence)

  -- The parents of the other names of a file have a path.
  abbrev pub IsNamed : ℕ × List Alias → Type 0
  IsNamed (id, names) =
      has_names entries root_sequence id ≡ true
      → All (λ (alias : Alias). HasPath alias.parent alias.parent_sequence) names

  -- A call of `ensure_dir_path`, in both directions.
  call-HasPath :
      (f : Failure → Rejection) (id expected : ℕ) (cache : Table Bytes) {cache' : Table Bytes}
      → IsReady entries root_sequence cache
      → map_err f (ensure_dir_path entries root_sequence id expected cache) ≡ ok cache'
      → IsReady entries root_sequence cache' × HasPath id expected
  call-HasPath f id expected cache h e =
      let (sound, (path, resolves, _)) =
        ensure_dir_path-IsReady entries root_sequence id expected cache h
          (map_err_ok f (ensure_dir_path entries root_sequence id expected cache) e) in
      (sound, (path, resolves))

  call_succeeds :
      (f : Failure → Rejection) (id expected : ℕ) (cache : Table Bytes)
      → IsReady entries root_sequence cache
      → HasPath id expected
      → (cache' : Table Bytes) × (map_err f
            (ensure_dir_path entries root_sequence id expected cache)
          ≡ ok cache')
        × IsReady entries root_sequence cache'
  call_succeeds f id expected cache h (path, resolves) =
      let (cache', ran) = ensure_dir_path_complete entries root_sequence cache h.sound resolves in
      (
        cache',
        rw ran refl,
        (ensure_dir_path-IsReady entries root_sequence id expected cache h ran).0,
      )

  validate_directory-HasPath :
      (id : ℕ) (entry : Entry) (cache : Table Bytes) {cache' : Table Bytes}
      → IsReady entries root_sequence cache
      → validate_directory entries root_sequence id entry cache ≡ ok cache'
      → IsReady entries root_sequence cache' × (entry.dir ≡ true → HasPath id entry.sequence)
  unfolding validate_directory
  validate_directory-HasPath id entry cache h e = elim (Bool-cases entry.dir) [
    | inl dir ↦
        let (sound, has) =
          call-HasPath (directory_no_path id) id entry.sequence cache h (rw dir at e) in
        (sound, λ _. has)
    | inr file ↦ (subst (IsReady entries root_sequence) (ok-injective (rw file at e)) h, λ dir. cc)
  ]

  validate_directory_succeeds :
      (id : ℕ) (entry : Entry) (cache : Table Bytes)
      → IsReady entries root_sequence cache
      → (entry.dir ≡ true → HasPath id entry.sequence)
      → (cache' : Table Bytes) × (validate_directory entries root_sequence id entry cache
          ≡ ok cache')
        × IsReady entries root_sequence cache'
  unfolding validate_directory
  validate_directory_succeeds id entry cache h has = elim (Bool-cases entry.dir) [
    | inl dir ↦
        let (cache', ran, sound) =
          call_succeeds (directory_no_path id) id entry.sequence cache h (has dir) in
        (cache', rw dir ran, sound)
    | inr file ↦ (cache, rw file refl, h)
  ]

  validate_entries-IsPlaced :
      (rest : Table Entry) (cache : Table Bytes) {cache' : Table Bytes}
      → IsReady entries root_sequence cache
      → validate_entries entries root_sequence rest cache ≡ ok cache'
      → IsReady entries root_sequence cache' × All IsPlaced rest
  unfolding validate_entries
  validate_entries-IsPlaced [] cache h e =
      (subst (IsReady entries root_sequence) (ok-injective e) h, tt)
  validate_entries-IsPlaced ((id, entry) ∷ rest) cache h e = elim (Bool-cases (id == 5)) [
    | inl five ↦
        let (sound, all) =
          validate_entries-IsPlaced rest cache h (rw (validate_entries, five) at e) in
        (sound, ((λ deep. cc), all))
    | inr deep ↦
        let (cache1, e1, rest1) =
          >>=-eq-ok
            (map_err (record_no_path id)
              (ensure_dir_path entries root_sequence entry.parent entry.parent_sequence cache))
            _ (rw (validate_entries, deep) at e) in
        let (sound1, parent) =
          call-HasPath (record_no_path id) entry.parent entry.parent_sequence cache h e1 in
        let (cache2, e2, rest2) =
          >>=-eq-ok (validate_directory entries root_sequence id entry cache1) _ rest1 in
        let (sound2, own) = validate_directory-HasPath id entry cache1 sound1 e2 in
        let (sound, all) = validate_entries-IsPlaced rest cache2 sound2 rest2 in
        (sound, ((λ _. (parent, own)), all))
  ]

  validate_entries_succeeds :
      (rest : Table Entry) (cache : Table Bytes)
      → IsReady entries root_sequence cache
      → All IsPlaced rest
      → (cache' : Table Bytes) × (validate_entries entries root_sequence rest cache ≡ ok cache')
        × IsReady entries root_sequence cache'
  unfolding validate_entries
  validate_entries_succeeds [] cache h all = (cache, refl, h)
  validate_entries_succeeds ((id, entry) ∷ rest) cache h (placed, all) =
      elim (Bool-cases (id == 5)) [
        | inl five ↦
            let (cache', ran, sound) = validate_entries_succeeds rest cache h all in
            (cache', rw (validate_entries, five) ran, sound)
        | inr deep ↦
            let (parent, own) = placed deep in
            let (cache1, ran1, sound1) =
              call_succeeds (record_no_path id) entry.parent entry.parent_sequence cache h parent in
            let (cache2, ran2, sound2) = validate_directory_succeeds id entry cache1 sound1 own in
            let (cache', ran, sound) = validate_entries_succeeds rest cache2 sound2 all in
            (cache', rw (validate_entries, deep, ran1, ran2) ran, sound)
      ]

  validate_names-HasPath :
      (id : ℕ) (names : List Alias) (cache : Table Bytes) {cache' : Table Bytes}
      → IsReady entries root_sequence cache
      → validate_names entries root_sequence id names cache ≡ ok cache'
      → IsReady entries root_sequence cache'
        × All (λ (alias : Alias). HasPath alias.parent alias.parent_sequence) names
  unfolding validate_names
  validate_names-HasPath id [] cache h e =
      (subst (IsReady entries root_sequence) (ok-injective e) h, tt)
  validate_names-HasPath id (alias ∷ names) cache h e =
      let (cache1, e1, rest1) =
        >>=-eq-ok
          (map_err (alias_no_path id)
            (ensure_dir_path entries root_sequence alias.parent alias.parent_sequence cache))
          _ e in
      let (sound1, has) =
        call-HasPath (alias_no_path id) alias.parent alias.parent_sequence cache h e1 in
      let (sound, all) = validate_names-HasPath id names cache1 sound1 rest1 in (sound, (has, all))

  validate_names_succeeds :
      (id : ℕ) (names : List Alias) (cache : Table Bytes)
      → IsReady entries root_sequence cache
      → All (λ (alias : Alias). HasPath alias.parent alias.parent_sequence) names
      → (cache' : Table Bytes) × (validate_names entries root_sequence id names cache ≡ ok cache')
        × IsReady entries root_sequence cache'
  unfolding validate_names
  validate_names_succeeds id [] cache h all = (cache, refl, h)
  validate_names_succeeds id (alias ∷ names) cache h (has, all) =
      let (cache1, ran1, sound1) =
        call_succeeds (alias_no_path id) alias.parent alias.parent_sequence cache h has in
      let (cache', ran, sound) = validate_names_succeeds id names cache1 sound1 all in
      (cache', rw ran1 ran, sound)

  validate_aliases-IsNamed :
      (rest : Table (List Alias)) (cache : Table Bytes) {cache' : Table Bytes}
      → IsReady entries root_sequence cache
      → validate_aliases entries root_sequence rest cache ≡ ok cache'
      → IsReady entries root_sequence cache' × All IsNamed rest
  unfolding validate_aliases
  validate_aliases-IsNamed [] cache h e =
      (subst (IsReady entries root_sequence) (ok-injective e) h, tt)
  validate_aliases-IsNamed ((id, names) ∷ rest) cache h e =
      elim (Bool-cases (has_names entries root_sequence id)) [
        | inl counts ↦
            let (cache1, e1, rest1) =
              >>=-eq-ok (validate_names entries root_sequence id names cache) _
                (rw (validate_aliases, counts) at e) in
            let (sound1, has) = validate_names-HasPath id names cache h e1 in
            let (sound, all) = validate_aliases-IsNamed rest cache1 sound1 rest1 in
            (sound, ((λ _. has), all))
        | inr passed ↦
            let (sound, all) =
              validate_aliases-IsNamed rest cache h (rw (validate_aliases, passed) at e) in
            (sound, ((λ counts. cc), all))
      ]

  validate_aliases_succeeds :
      (rest : Table (List Alias)) (cache : Table Bytes)
      → IsReady entries root_sequence cache
      → All IsNamed rest
      → (cache' : Table Bytes) × (validate_aliases entries root_sequence rest cache ≡ ok cache')
        × IsReady entries root_sequence cache'
  unfolding validate_aliases
  validate_aliases_succeeds [] cache h all = (cache, refl, h)
  validate_aliases_succeeds ((id, names) ∷ rest) cache h (named, all) =
      elim (Bool-cases (has_names entries root_sequence id)) [
        | inl counts ↦
            let (cache1, ran1, sound1) = validate_names_succeeds id names cache h (named counts) in
            let (cache', ran, sound) = validate_aliases_succeeds rest cache1 sound1 all in
            (cache', rw (validate_aliases, counts, ran1) ran, sound)
        | inr passed ↦
            let (cache', ran, sound) = validate_aliases_succeeds rest cache h all in
            (cache', rw (validate_aliases, passed) ran, sound)
      ]

  -- What `validate` asks of a volume.
  pub record IsValid (aliases : Table (List Alias)) (root_allocated root_dir : Bool) : Type 0 where
    pub allocated : root_allocated ≡ true
    pub directory : root_dir ≡ true
    pub placed : All IsPlaced entries
    pub named : All IsNamed aliases

  pub validate_succeeds :
      (aliases : Table (List Alias)) (root_allocated root_dir : Bool) (cache : Table Bytes)
      → IsSound entries root_sequence cache
      → IsValid aliases root_allocated root_dir
      → (cache' : Table Bytes) × (validate entries root_sequence aliases root_allocated root_dir
            cache
          ≡ ok cache')
        × IsReady entries root_sequence cache'
  unfolding validate
  validate_succeeds aliases root_allocated root_dir cache h valid =
      let (cache1, ran1, ready1) =
        validate_entries_succeeds entries (insert 5 [] cache)
          (insert_root-IsReady entries root_sequence cache h) valid.placed in
      let (cache', ran, ready) = validate_aliases_succeeds aliases cache1 ready1 valid.named in
      (cache', rw (valid.allocated, valid.directory, ran1) ran, ready)

  -- From a cache of right paths, `validate` succeeds exactly where the root is an allocated directory,
  -- each other record has a parent with a path of matching sequence numbers, each other directory has
  -- one itself, and so has the parent of each further name of a file.
  pub validate_iff :
      (aliases : Table (List Alias)) (root_allocated root_dir : Bool) (cache : Table Bytes)
      → IsSound entries root_sequence cache
      → ((cache' : Table Bytes) × (validate entries root_sequence aliases root_allocated root_dir
              cache
            ≡ ok cache'))
        ↔ IsValid aliases root_allocated root_dir
  unfolding validate
  validate_iff aliases root_allocated root_dir cache h = (
    (λ (cache', e).
        let (allocated, e1) = ensure_ok root_allocated _ _ e in
        let (directory, e2) = ensure_ok root_dir _ _ e1 in
        let (cache1, e3, e4) =
          >>=-eq-ok (validate_entries entries root_sequence entries (insert 5 [] cache)) _ e2 in
        let (sound1, placed) =
          validate_entries-IsPlaced entries (insert 5 [] cache)
            (insert_root-IsReady entries root_sequence cache h) e3 in
        let (_, named) = validate_aliases-IsNamed aliases cache1 sound1 e4 in
        record { allocated = allocated; directory = directory; placed = placed; named = named }),
    λ valid.
        let (cache', ran, _) = validate_succeeds aliases root_allocated root_dir cache h valid in
        (cache', ran),
  )
