-- ===== src/Delta/Wal/Replay.antt =====
-- What `replay_frames` makes of a log, whole or torn.
use neutrasearch.Delta.Wal.{
  Codec, Overlay, OverlayCursor, flush, finish, push, replay_loop, replay_frames, replay_batch,
}
use neutrasearch.Base.{
  ℕ, suc, ◌+◌, ◌<◌, ◌≡◌, ◌∙◌, refl, sym, ap, arith, false, List, [], ◌∷◌, ◌++◌, length,
  length-append, ◌==◌, Bytes, ok, inl, inr, append_assoc, append-nil, zero, Bool-cases,
}
use neutrasearch.Delta.Wal.Rounds.{IsCodec, torn_end, whole_frame}
use neutrasearch.Delta.Wal.Frames.{frame, IsTorn, length-frame, IsLog}
use neutrasearch.Delta.Record.{DeltaChange}

-- A store that takes each batch whole, behind what it has, with the cursor.
pub record IsStore {Store : Type 0} (overlay : Overlay Store) : Type 0 where
  pub contents : Store → List DeltaChange
  pub cursor : Store → ℕ
  pub applies :
      (changes : List DeltaChange) (at : OverlayCursor) (store : Store)
      → (store' : Store) × (overlay.apply_batch changes at store ≡ ok store')
        × (contents store' ≡ contents store ++ changes)
        × (cursor store' ≡ at.wal_bytes)

module _ (codec : Codec) (lawful : IsCodec codec) {Store : Type 0} (overlay : Overlay Store)
    (kept : IsStore overlay) (generation : ℕ) where
  -- The store `after` has these changes behind those of `before`, and its cursor stands at `verified`.
  pub record IsApplied (before after : Store) (changes : List DeltaChange) (verified : ℕ)
      : Type 0 where
    pub has : kept.contents after ≡ kept.contents before ++ changes
    pub stands : kept.cursor after ≡ verified

  finish-IsApplied :
      (changes : List DeltaChange) (verified : ℕ) (store : Store)
      → (changes ≡ [] → kept.cursor store ≡ verified)
      → (store' : Store) × (finish codec overlay false generation changes verified store
          ≡ ok (store', verified))
        × IsApplied store store' changes verified
  unfolding finish flush
  finish-IsApplied [] verified store at =
      (store, refl, record { has = sym (append-nil (kept.contents store)); stands = at refl })
  finish-IsApplied (c ∷ changes) verified store at =
      let (store', ran, has, stands) =
        kept.applies (c ∷ changes)
          record { generation = generation; wal_bytes = verified; legacy_frames = false } store in
      (store', rw ran refl, record { has = has; stands = stands })

  -- A whole log in front of a torn frame.
  replay_loop-IsApplied :
      (changes : List DeltaChange) (log tail : Bytes) (fuel : ℕ) (batch : List DeltaChange)
      (verified : ℕ) (store : Store)
      → IsLog codec changes log
      → IsTorn codec tail
      → length log < fuel
      → length batch < replay_batch
      → (batch ≡ [] → kept.cursor store ≡ verified)
      → (store' : Store) × (replay_loop codec overlay false generation fuel
            (log ++ tail)
            batch
            verified
            store
          ≡ ok (store', verified + length log))
        × IsApplied store store' (batch ++ changes) (verified + length log)
  unfolding push flush
  replay_loop-IsApplied changes log tail zero batch verified store h torn enough room at =
      absurd (omega arith)
  replay_loop-IsApplied [] log tail (suc fuel) batch verified store h torn enough room at =
      let still : verified + length {A = ℕ} [] ≡ verified = omega arith in
      rw
        (
          h,
          torn_end codec overlay generation fuel tail batch verified store torn,
          still,
          append-nil batch,
        )
        (finish-IsApplied batch verified store at)
  replay_loop-IsApplied (c ∷ changes) log tail (suc fuel) batch verified store
        (payload, rest, whole, parts, h) torn enough room at =
      let sizes = length-append (frame codec payload) rest in
      let size = length-frame codec payload in
      let moved : verified + 8 + length payload + length rest ≡ verified + length log =
        omega (arith, ap length parts) in
      let shape : log ++ tail ≡ frame codec payload ++ (rest ++ tail) =
        ap (λ t. t ++ tail) parts ∙ append_assoc (frame codec payload) rest tail in
      let verified' : ℕ = verified + 8 + length payload in
      let snoc : length (batch ++ c ∷ []) ≡ suc (length batch) =
        omega (arith, length-append batch (c ∷ [])) in
      elim (Bool-cases (length (batch ++ c ∷ []) == replay_batch)) [
        | inl full ↦
            let (store1, flushed, has, stands) =
              kept.applies (batch ++ c ∷ [])
                record { generation = generation; wal_bytes = verified'; legacy_frames = false }
                store in
            let (store', ran, applied) =
              replay_loop-IsApplied changes rest tail fuel [] verified' store1 h torn
                (omega (arith, ap length parts)) (omega arith) (λ _. stands) in
            (
              store',
              rw
                  (
                    shape,
                    whole_frame codec overlay generation lawful fuel c payload (rest ++ tail) batch
                        verified store whole,
                    push,
                    full,
                    flush,
                    flushed,
                    ran,
                    moved,
                  )
                  refl,
              record {
                has =
                    applied.has
                    ∙ ap (λ t. t ++ changes) has
                    ∙ append_assoc (kept.contents store) (batch ++ c ∷ []) changes
                    ∙ ap (λ t. kept.contents store ++ t) (append_assoc batch (c ∷ []) changes);
                stands = applied.stands ∙ moved;
              },
            )
        | inr open_batch ↦
            let (store', ran, applied) =
              replay_loop-IsApplied changes rest tail fuel (batch ++ c ∷ []) verified' store h torn
                (omega (arith, ap length parts)) (ground (arith, snoc))
                (λ empty. absurd (omega (arith, ap length empty, snoc))) in
            (
              store',
              rw
                  (
                    shape,
                    whole_frame codec overlay generation lawful fuel c payload (rest ++ tail) batch
                        verified store whole,
                    push,
                    open_batch,
                    ran,
                    moved,
                  )
                  refl,
              rw (append_assoc batch (c ∷ []) changes, moved) at applied,
            )
      ]

  -- With a codec that reads back what it wrote and a store that takes each batch whole and stands at
  -- `verified`, `replay_frames` of a log of the present layout whose last frame is torn, of which no
  -- byte may be left, applies the changes of the whole frames, in order and behind what the store
  -- holds; `verified_bytes` and the cursor of the store end behind the last whole frame.
  pub replay_frames-IsApplied :
      (changes : List DeltaChange) (log tail : Bytes) (verified : ℕ) (store : Store)
      → IsLog codec changes log
      → IsTorn codec tail
      → kept.cursor store ≡ verified
      → (store' : Store) × (replay_frames codec overlay false generation
            (log ++ tail)
            verified
            store
          ≡ ok (store', verified + length log))
        × IsApplied store store' changes (verified + length log)
  unfolding replay_frames
  replay_frames-IsApplied changes log tail verified store h torn at =
      replay_loop-IsApplied changes log tail (suc (length (log ++ tail))) [] verified store h torn
        (omega (arith, length-append log tail)) (omega arith) (λ _. at)
