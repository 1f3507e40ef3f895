-- ===== src/Ntfs/Emit/Records.antt =====
-- What the sink of a scan is handed.
use neutrasearch.Base.{
  append_assoc, append-nil, sym, All, map_err, ◌≢◌, [], ◌≡◌, List, Bool, Bytes, ℕ, if◌then◌else◌,
  ◌∷◌, ◌++◌, ok, some, refl, inl, inr, Bool-cases, ==_iff, ◌==◌,
}
use neutrasearch.Ntfs.Emit.{
  record_failed, emit_entries, record_of, Emitter, dir_path, sink_entry, file_path,
}
use neutrasearch.Ntfs.Validate.Paths.{IsPlaced, HasPath}
use neutrasearch.Ntfs.Namespace.Keeps.{ensure_dir_path-IsReady, IsReady, insert-IsHeld}
use neutrasearch.Ntfs.Namespace.Resolves.{
  ne_of_test, Resolves-root, below, insert-IsSound, Resolves,
}
use neutrasearch.Ntfs.Namespace.Complete.{ensure_dir_path_complete}
use neutrasearch.Record.{file, dir, FileRecord, FileKind}
use neutrasearch.Base.Table.{find, Table}
use neutrasearch.Ntfs.Namespace.{ensure_dir_path, Failure}
use neutrasearch.Ntfs.Validate.{Rejection}
use neutrasearch.Ntfs.Records.{Entry, append_component}

abbrev kind_of : Bool → FileKind
kind_of is_dir = if is_dir then dir else file

module _ (prefix : Bytes) where
  -- The records of the entries, in order: each lies at its name below the path of its parent.
  pub data Emits (entries : Table Entry) (root_sequence : ℕ)
      : Table Entry → List FileRecord → Type 0 where
    finished : Emits entries root_sequence [] []
    passed :
        {id : ℕ} {entry : Entry} {rest : Table Entry} {records : List FileRecord}
        → id ≡ 5
        → Emits entries root_sequence rest records
        → Emits entries root_sequence ((id, entry) ∷ rest) records
    emitted :
        {id : ℕ} {entry : Entry} {rest : Table Entry} {records : List FileRecord} (up : Bytes)
        → Resolves entries root_sequence entry.parent entry.parent_sequence up
        → Emits entries root_sequence rest records
        → Emits entries root_sequence ((id, entry) ∷ rest) (
            record_of
              (prefix ++ b'/' ∷ append_component up entry.name)
              entry
              (kind_of entry.dir)
              id
              entry.parent
            ∷ records)

  pub file_path-component :
      (up name : Bytes) → file_path prefix up name ≡ prefix ++ b'/' ∷ append_component up name
  unfolding file_path append_component
  file_path-component [] name = refl
  file_path-component (c ∷ up) name = refl

  module _ (entries : Table Entry) (root_sequence : ℕ) where
    -- A directory with a path is looked up after `ensure_dir_path`, which succeeds.
    pub parent_found :
        (f : Failure → Rejection) (id expected : ℕ) (cache : Table Bytes)
        → IsReady entries root_sequence cache
        → HasPath entries root_sequence id expected
        → (cache' : Table Bytes) × (map_err f
              (ensure_dir_path entries root_sequence id expected cache)
            ≡ ok cache')
          × IsReady entries root_sequence cache'
          × ((up : Bytes) × Resolves entries root_sequence id expected up
              × (find id cache' ≡ some up))
    parent_found f id expected cache h (path, resolves) =
        let (cache', ran) = ensure_dir_path_complete entries root_sequence cache h.sound resolves in
        let (ready, (up, r, held)) =
          ensure_dir_path-IsReady entries root_sequence id expected cache h ran in
        (
          cache',
          rw ran refl,
          ready,
          elim (Bool-cases (id == 5)) [
            | inl five ↦
                let same = (==_iff id 5).0 five in
                let (top, here) = ready.rooted in
                let top_nil =
                  Resolves-root entries root_sequence 5 0 top refl (ready.sound 5 top here) in
                let up_nil = Resolves-root entries root_sequence id expected up same r in
                (up, r, cc (same, here, top_nil, up_nil))
            | inr deep ↦ (up, r, held (ne_of_test id 5 deep))
          ],
        )

    -- A record is handed over; the cache stays right.
    sink_entry-Emits :
        (id : ℕ) (entry : Entry) (up : Bytes) (s : Emitter)
        → id ≢ 5
        → find id entries ≡ some entry
        → Resolves entries root_sequence entry.parent entry.parent_sequence up
        → IsReady entries root_sequence s.dir_paths
        → IsReady entries root_sequence (sink_entry prefix id entry up s).dir_paths
          × ((sink_entry prefix id entry up s).sunk
              ≡ s.sunk
                ++ record_of
                    (prefix ++ b'/' ∷ append_component up entry.name)
                    entry
                    (kind_of entry.dir)
                    id
                    entry.parent
                  ∷ [])
    unfolding sink_entry dir_path
    sink_entry-Emits id entry up s n found r h = elim (Bool-cases entry.dir) [
      | inl is_dir ↦
          let path = append_component up entry.name in
          rw is_dir (
            record {
              sound =
                  insert-IsSound entries root_sequence id path s.dir_paths
                    (below entry up n found refl is_dir r refl) h.sound;
              rooted = insert-IsHeld 5 id path s.dir_paths h.rooted;
            },
            refl,
          )
      | inr is_file ↦ rw (is_file, file_path-component up entry.name) (h, refl)
    ]

    -- `emit_entries` succeeds and hands over the records of the entries, in order.
    pub emit_entries_succeeds :
        (rest : Table Entry) (s : Emitter)
        → All (λ p. find p.0 entries ≡ some p.1) rest
        → All (IsPlaced entries root_sequence) rest
        → IsReady entries root_sequence s.dir_paths
        → (s' : Emitter) × (emit_entries prefix entries root_sequence rest s ≡ ok s')
          × IsReady entries root_sequence s'.dir_paths
          × ((records : List FileRecord) × (s'.sunk ≡ s.sunk ++ records)
              × Emits entries root_sequence rest records)
    unfolding emit_entries
    emit_entries_succeeds [] s m placed h = (s, refl, h, ([], sym (append-nil s.sunk), finished))
    emit_entries_succeeds ((id, entry) ∷ rest) s (found, m) (place, placed) h =
        elim (Bool-cases (id == 5)) [
          | inl five ↦
              let (s', ran, ready, (records, sunk, emits)) =
                emit_entries_succeeds rest s m placed h in
              (
                s',
                rw (emit_entries, five) ran,
                ready,
                (records, sunk, passed ((==_iff id 5).0 five) emits),
              )
          | inr deep ↦
              let (cache, ran1, ready1, (up, r, here)) =
                parent_found (record_failed id) entry.parent entry.parent_sequence s.dir_paths h
                  (place deep).0 in
              let s1 : Emitter = record { dir_paths = cache; sunk = s.sunk; stats = s.stats } in
              let (ready2, sunk1) =
                sink_entry-Emits id entry up s1 (ne_of_test id 5 deep) found r ready1 in
              let (s', ran, ready, (records, sunk, emits)) =
                emit_entries_succeeds rest (sink_entry prefix id entry up s1) m placed ready2 in
              (
                s',
                rw (emit_entries, deep, ran1, here) ran,
                ready,
                (
                  record_of (prefix ++ b'/' ∷ append_component up entry.name) entry
                        (kind_of entry.dir) id entry.parent
                      ∷ records,
                  rw (sunk, sunk1, append_assoc) refl,
                  emitted up r emits,
                ),
              )
        ]
