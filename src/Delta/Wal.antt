-- ===== src/Delta/Wal.antt =====
-- crates/neutra-core/src/delta/wal.rs: the frames of the log. A frame is the length of its payload
-- and the checksum of it, four bytes each, and the payload.
--
-- A reader is the bytes ahead of it; of its errors, only the early end is modelled. `Codec` stands
-- for the crates bincode and crc32fast, `Overlay` for the store that takes the changes
-- (delta/storage.rs) in one transaction a batch.
pub mod Frames
pub mod Rounds
pub mod Replay
pub mod Verify
mod Examples
use neutrasearch.Base.{
  ℕ, zero, suc, ◌+◌, ◌-◌, ◌*◌, ◌/◌, ◌%◌, Bool, true, false, not, ◌||◌, List, [], ◌∷◌, ◌++◌, Option,
  none, some, length, take, drop, equal, min, ltb, leb, ◌==◌, if◌then◌else◌, Bytes, Outcome, ok,
  err, fault, ◌>>=◌, ◌>>◌, ensure, context, u32_mod,
}
use neutrasearch.Ntfs.Words.{le_value}
use neutrasearch.Delta.Record.{DeltaChange, OldDeltaChange, upgrade}

pub data Damage : Type 0 where
  not_a_log other_generation early_end frame_too_long codec_error : Damage
  before_header inside_header inside_frame bad_checksum off_boundary : Damage
  overlay_error : Damage

abbrev pub header_bytes : ℕ
header_bytes = 16

abbrev pub max_frame : ℕ
max_frame = 16 * 1024 * 1024

abbrev pub replay_batch : ℕ
replay_batch = 4096

-- The functions of the two crates. A hasher is its state.
pub record Codec : Type 0 where
  pub serialize : DeltaChange → Option Bytes
  pub deserialize : Bytes → Option DeltaChange
  pub deserialize_old : Bytes → Option OldDeltaChange
  pub hash : Bytes → ℕ
  pub hasher : ℕ
  pub update : ℕ → Bytes → ℕ
  pub finalize : ℕ → ℕ

-- What `overlay_cursor` keeps of the log, less the identity of its file.
pub record OverlayCursor : Type 0 where
  pub generation : ℕ
  pub wal_bytes : ℕ
  pub legacy_frames : Bool

pub record Overlay (Store : Type 0) : Type 0 where
  pub apply_batch : List DeltaChange → OverlayCursor → Store → Outcome Damage Store

-- `to_le_bytes` of a number of `n` bytes.
unfoldable pub le_bytes : ℕ → ℕ → Bytes
le_bytes zero v = []
le_bytes (suc n) v = v % 256 ∷ le_bytes n (v / 256)

-- `read_exact`: the bytes read and those ahead.
unfoldable pub read_exact : ℕ → Bytes → Option (Bytes × Bytes)
read_exact n reader = if leb n (length reader) then some (take n reader, drop n reader) else none

-- b"NEUTDLT" and a digit
unfoldable pub magic : ℕ → Bytes
magic digit = 78 ∷ 69 ∷ 85 ∷ 84 ∷ 68 ∷ 76 ∷ 84 ∷ digit ∷ []

-- Whether the log is of version 1, and the reader behind the header.
unfoldable pub read_header : Bytes → ℕ → Outcome Damage (Bool × Bytes)
read_header reader generation = do
  (found, reader') ← context (read_exact 8 reader) early_end
  let current = equal found (magic b'4') || equal found (magic b'3') || equal found (magic b'2')
  let old = equal found (magic b'1')
  ensure (current || old) not_a_log
  (stored, reader'') ← context (read_exact 8 reader') early_end
  ensure (le_value stored == generation) other_generation
  ok (not current, reader'')

module _ (codec : Codec) where
  unfoldable pub decode_change : Bool → Bytes → Option DeltaChange
  decode_change false payload = codec.deserialize payload
  decode_change true payload = elim (codec.deserialize_old payload) [
    | none ↦ none
    | some change ↦ some (upgrade change)
  ]

  -- The log behind the frame, and the bytes that the frame takes.
  unfoldable pub append_frame : Bytes → DeltaChange → Outcome Damage (Bytes × ℕ)
  append_frame writer change = do
    payload ← context (codec.serialize change) codec_error
    ensure (not (ltb max_frame (length payload))) frame_too_long
    ok (
      writer
          ++ (le_bytes 4 (length payload % u32_mod)
              ++ (le_bytes 4 (codec.hash payload) ++ payload)),
      length payload + 8,
    )

  -- `while remaining > 0`, on fuel: the payload goes through the hasher in pieces.
  unfoldable pub hash_pieces : ℕ → ℕ → ℕ → Bytes → Outcome Damage (ℕ × Bytes)
  hash_pieces zero crc remaining reader = fault
  hash_pieces (suc fuel) crc remaining reader = if remaining == 0 then ok (crc, reader) else do
    (piece, reader') ← context (read_exact (min remaining (64 * 1024)) reader) early_end
    hash_pieces fuel (codec.update crc piece) (remaining - min remaining (64 * 1024)) reader'

  -- `while verified < end`, on fuel.
  unfoldable pub verify_loop : ℕ → ℕ → ℕ → Bytes → Outcome Damage (Unit {0})
  verify_loop zero end verified reader = fault
  verify_loop (suc fuel) end verified reader =
      if not (ltb verified end) then ensure (verified == end) off_boundary else do
        ensure (not (ltb (end - verified) 8)) inside_header
        (frame_header, reader') ← context (read_exact 8 reader) early_end
        let len = le_value (take 4 frame_header)
        let expected = le_value (drop 4 frame_header)
        ensure (not (ltb max_frame len || ltb (end - verified - 8) len)) inside_frame
        (crc, reader'') ← hash_pieces (suc len) codec.hasher len reader'
        ensure (codec.finalize crc == expected) bad_checksum
        verify_loop fuel end (verified + 8 + len) reader''

  -- Each round takes eight bytes at least. `log` is the whole file.
  unfoldable pub verify_frame_prefix : Bytes → ℕ → Outcome Damage (Unit {0})
  verify_frame_prefix log end = do
    ensure (not (ltb end header_bytes)) before_header
    verify_loop (suc end) end header_bytes (drop header_bytes log)

  module _ {Store : Type 0} (overlay : Overlay Store) (wal_v1 : Bool) (generation : ℕ) where
    -- The batch that is full, or what is left at the end.
    unfoldable pub flush : List DeltaChange → ℕ → Store → Outcome Damage Store
    flush changes verified store =
        overlay.apply_batch changes
          record { generation = generation; wal_bytes = verified; legacy_frames = wal_v1 } store

    -- Behind the loop.
    unfoldable pub finish : List DeltaChange → ℕ → Store → Outcome Damage (Store × ℕ)
    finish [] verified store = ok (store, verified)
    finish (c ∷ changes) verified store = do
      store' ← flush (c ∷ changes) verified store
      ok (store', verified)

    -- The batch and the store after a change.
    unfoldable pub push : List DeltaChange → ℕ → Store → Outcome Damage (List DeltaChange × Store)
    push changes verified store =
        if length changes == replay_batch
        then (do store' ← flush changes verified store; ok ([], store'))
        else ok (changes, store)

    -- `loop`, on fuel. A frame that the log ends in ends the loop.
    unfoldable pub replay_loop :
        ℕ → Bytes → List DeltaChange → ℕ → Store → Outcome Damage (Store × ℕ)
    replay_loop zero reader changes verified store = fault
    replay_loop (suc fuel) reader changes verified store = elim (read_exact 4 reader) [
      | none ↦ finish changes verified store
      | some (head, reader1) ↦
          ensure (not (ltb max_frame (le_value head))) frame_too_long
          >> (elim (read_exact 4 reader1) [
            | none ↦ finish changes verified store
            | some (expected, reader2) ↦ elim (read_exact (le_value head) reader2) [
              | none ↦ finish changes verified store
              | some (payload, reader3) ↦ do
                ensure (codec.hash payload == le_value expected) bad_checksum
                change ← context (decode_change wal_v1 payload) codec_error
                let verified' = verified + 8 + le_value head
                (changes', store') ← push (changes ++ change ∷ []) verified' store
                replay_loop fuel reader3 changes' verified' store'
            ]
          ])
    ]

    -- Each round takes eight bytes at least. The result is the store and `verified_bytes`.
    unfoldable pub replay_frames : Bytes → ℕ → Store → Outcome Damage (Store × ℕ)
    replay_frames reader verified store = replay_loop (suc (length reader)) reader [] verified store
