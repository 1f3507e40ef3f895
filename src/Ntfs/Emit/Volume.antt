-- ===== src/Ntfs/Emit/Volume.antt =====
-- What the sink of a whole scan is handed: the records of the entries, then those of the other names.
use neutrasearch.Ntfs.Emit.{
  file_path, alias_failed, record_of, Emitter, emit_names, trim_prefix, emit_aliases, emit_volume,
}
use neutrasearch.Ntfs.Emit.Records.{parent_found, emit_entries_succeeds, Emits, file_path-component}
use neutrasearch.Ntfs.Records.{append_component, Alias, Entry}
use neutrasearch.Ntfs.Namespace.Keeps.{IsReady}
use neutrasearch.Ntfs.Namespace.Resolves.{IsSound, Resolves}
use neutrasearch.Ntfs.Validate.{has_names}
use neutrasearch.Base.Table.{find, Table}
use neutrasearch.Base.{
  ℕ, ◌∷◌, ◌++◌, ok, some, List, [], ◌≡◌, refl, sym, ◌∙◌, Bool, Bytes, false, inl, inr, Bool-cases,
  Option-cases, ◌+◌, append-nil, append_assoc, All,
}
use neutrasearch.Record.{FileRecord, file}
use neutrasearch.Ntfs.Validate.Paths.{IsNamed, IsValid, validate_succeeds, HasPath}

module _ (prefix : Bytes) (entries : Table Entry) (root_sequence : ℕ) where
  -- The records of the further names of file `id`, in order.
  pub data EmitsNames (id : ℕ) (entry : Entry) : List Alias → List FileRecord → Type 0 where
    no_names : EmitsNames id entry [] []
    one_name :
        {alias : Alias} {names : List Alias} {records : List FileRecord} (up : Bytes)
        → Resolves entries root_sequence alias.parent alias.parent_sequence up
        → EmitsNames id entry names records
        → EmitsNames id entry (alias ∷ names) (
            record_of (prefix ++ b'/' ∷ append_component up alias.name) entry file id alias.parent
            ∷ records)

  -- The same for the whole map; names of a record that is no entry or a directory count for nothing.
  pub data EmitsAliases : Table (List Alias) → List FileRecord → Type 0 where
    no_alias : EmitsAliases [] []
    ignored :
        {id : ℕ} {names : List Alias} {rest : Table (List Alias)} {records : List FileRecord}
        → has_names entries root_sequence id ≡ false
        → EmitsAliases rest records
        → EmitsAliases ((id, names) ∷ rest) records
    aliased :
        {id : ℕ} {names : List Alias} {rest : Table (List Alias)} {records later : List FileRecord}
        (entry : Entry)
        → find id entries ≡ some entry
        → entry.dir ≡ false
        → EmitsNames id entry names records
        → EmitsAliases rest later
        → EmitsAliases ((id, names) ∷ rest) (records ++ later)

  emit_names_succeeds :
      (id : ℕ) (entry : Entry) (names : List Alias) (s : Emitter)
      → All
          (λ (alias : Alias). HasPath entries root_sequence alias.parent alias.parent_sequence)
          names
      → IsReady entries root_sequence s.dir_paths
      → (s' : Emitter) × (emit_names prefix entries root_sequence id entry names s ≡ ok s')
        × IsReady entries root_sequence s'.dir_paths
        × ((records : List FileRecord) × (s'.sunk ≡ s.sunk ++ records)
            × EmitsNames id entry names records)
  unfolding emit_names
  emit_names_succeeds id entry [] s has h = (s, refl, h, ([], sym (append-nil s.sunk), no_names))
  emit_names_succeeds id entry (alias ∷ names) s (path, has) h =
      let (cache, ran1, ready1, (up, r, here)) =
        parent_found prefix entries root_sequence (alias_failed id) alias.parent
          alias.parent_sequence s.dir_paths h path in
      let s1 : Emitter = record {
        dir_paths = cache;
        sunk = s.sunk ++ record_of (file_path prefix up alias.name) entry file id alias.parent ∷ [];
        stats = record {
          records = s.stats.records + 1;
          files = s.stats.files + 1;
          dirs = s.stats.dirs;
        };
      } in
      let (s', ran, ready, (records, sunk, emits)) =
        emit_names_succeeds id entry names s1 has ready1 in
      (
        s',
        rw (ran1, here) ran,
        ready,
        (
          record_of (prefix ++ b'/' ∷ append_component up alias.name) entry file id alias.parent
              ∷ records,
          rw (sunk, append_assoc, file_path-component prefix up alias.name) refl,
          one_name up r emits,
        ),
      )

  -- The step of the loop at the names of a file.
  emit_aliases_file :
      (id : ℕ) (entry : Entry) (names : List Alias) (rest : Table (List Alias)) (s s1 : Emitter)
      → find id entries ≡ some entry
      → entry.dir ≡ false
      → emit_names prefix entries root_sequence id entry names s ≡ ok s1
      → emit_aliases prefix entries root_sequence ((id, names) ∷ rest) s
        ≡ emit_aliases prefix entries root_sequence rest s1
  unfolding emit_aliases
  emit_aliases_file id entry names rest s s1 found is_file ran =
      rw (emit_aliases, found, ran, is_file) refl

  emit_aliases_succeeds :
      (rest : Table (List Alias)) (s : Emitter)
      → All (IsNamed entries root_sequence) rest
      → IsReady entries root_sequence s.dir_paths
      → (s' : Emitter) × (emit_aliases prefix entries root_sequence rest s ≡ ok s')
        × ((records : List FileRecord) × (s'.sunk ≡ s.sunk ++ records) × EmitsAliases rest records)
  unfolding emit_aliases has_names
  emit_aliases_succeeds [] s named h = (s, refl, ([], sym (append-nil s.sunk), no_alias))
  emit_aliases_succeeds ((id, names) ∷ rest) s (name, named) h =
      elim (Option-cases (find id entries)) [
        | inl absent ↦
            let (s', ran, (records, sunk, emits)) = emit_aliases_succeeds rest s named h in
            (
              s',
              rw (emit_aliases, absent) ran,
              (records, sunk, ignored (rw (has_names, absent) refl) emits),
            )
        | inr (entry, found) ↦ elim (Bool-cases entry.dir) [
          | inl is_dir ↦
              let (s', ran, (records, sunk, emits)) = emit_aliases_succeeds rest s named h in
              (
                s',
                rw (emit_aliases, found, is_dir) ran,
                (records, sunk, ignored (rw (has_names, found, is_dir) refl) emits),
              )
          | inr is_file ↦
              let (s1, ran1, ready1, (records, sunk1, names_emit)) =
                emit_names_succeeds id entry names s (name (rw (has_names, found, is_file) refl))
                  h in
              let (s', ran, (later, sunk, emits)) = emit_aliases_succeeds rest s1 named ready1 in
              (
                s',
                emit_aliases_file id entry names rest s s1 found is_file ran1 ∙ ran,
                (
                  records ++ later,
                  rw (sunk, sunk1, append_assoc) refl,
                  aliased entry found is_file names_emit emits,
                ),
              )
        ]
      ]

  no_paths-IsSound : IsSound entries root_sequence []
  unfolding find
  no_paths-IsSound id path e = cc

-- On a valid volume whose table holds each record once, the end of the scan succeeds: it hands over
-- the record of each entry but the root, and then one for each further name of a file, every path
-- being the prefix without separators at its end, a slash and the names from the root down.
pub emit_volume_succeeds :
    (prefix : Bytes) (entries : Table Entry) (root_sequence : ℕ) (aliases : Table (List Alias))
    (root_allocated root_dir : Bool)
    → All (λ p. find p.0 entries ≡ some p.1) entries
    → IsValid entries root_sequence aliases root_allocated root_dir
    → (s : Emitter) × (emit_volume prefix entries root_sequence aliases root_allocated root_dir
        ≡ ok s)
      × ((records : List FileRecord) × (later : List FileRecord) × (s.sunk ≡ records ++ later)
          × Emits (trim_prefix prefix) entries root_sequence entries records
          × EmitsAliases (trim_prefix prefix) entries root_sequence aliases later)
unfolding emit_volume
emit_volume_succeeds prefix entries root_sequence aliases root_allocated root_dir m valid =
    let (cache, ran1, ready1) =
      validate_succeeds entries root_sequence aliases root_allocated root_dir []
        (no_paths-IsSound prefix entries root_sequence) valid in
    let start : Emitter = record {
      dir_paths = cache;
      sunk = [];
      stats = record { records = 0; files = 0; dirs = 0 };
    } in
    let (s1, ran2, ready2, (records, sunk1, emits)) =
      emit_entries_succeeds (trim_prefix prefix) entries root_sequence entries start m valid.placed
        ready1 in
    let (s, ran3, (later, sunk, emits_aliases)) =
      emit_aliases_succeeds (trim_prefix prefix) entries root_sequence aliases s1 valid.named
        ready2 in
    (s, rw (ran1, ran2) ran3, (records, later, rw (sunk, sunk1) refl, emits, emits_aliases))
