-- ===== src/Delta/Wal/Examples.antt =====
-- The theorems on the log with a codec for removals and a sum for a checksum.
use neutrasearch.Base.{
  ℕ, ◌+◌, ◌%◌, ◌==◌, if◌then◌else◌, ◌≡◌, refl, arith, [], ◌∷◌, ◌++◌, List, Option, some, none,
  Bytes, ok, false, length, u32_mod,
}
use neutrasearch.Delta.Record.{DeltaChange, upsert, remove, remove_prefix}
use neutrasearch.Delta.Wal.{
  Codec, Overlay, le_bytes, append_frame, replay_frames, verify_frame_prefix,
}
use neutrasearch.Delta.Wal.Frames.{IsPayload, IsLog, IsTorn, append_frame-IsLog}
use neutrasearch.Delta.Wal.Rounds.{IsCodec}
use neutrasearch.Delta.Wal.Replay.{IsStore, IsApplied, replay_frames-IsApplied}
use neutrasearch.Delta.Wal.Verify.{IsHasher, verify_frame_prefix-IsLog}

abbrev write : DeltaChange → Option Bytes
write (remove path) = some (1 ∷ path)
write (upsert r) = none
write (remove_prefix path) = none

abbrev parse : Bytes → Option DeltaChange
parse [] = none
parse (b ∷ path) = if b == 1 then some (remove path) else none

abbrev sum : Bytes → ℕ
sum [] = 0
sum (x ∷ xs) = x + sum xs

abbrev codec : Codec
codec = record {
  serialize = write;
  deserialize = parse;
  deserialize_old = λ _. none;
  hash = λ bytes. (0 + sum bytes) % u32_mod;
  hasher = 0;
  update = λ crc bytes. crc + sum bytes;
  finalize = λ crc. crc % u32_mod;
}

reads_back : (c : DeltaChange) (payload : Bytes) → write c ≡ some payload → parse payload ≡ some c
reads_back (remove path) payload e = cc
reads_back (upsert r) payload e = cc
reads_back (remove_prefix path) payload e = cc

sum-append : (a b : Bytes) → sum (a ++ b) ≡ sum a + sum b
sum-append [] b = omega arith
sum-append (x ∷ a) b = omega (arith, sum-append a b)

codec-IsCodec : IsCodec codec
codec-IsCodec = record { read_back = reads_back; hash_small = λ payload. omega arith }

codec-IsHasher : IsHasher codec
codec-IsHasher = record {
  update_none = λ crc. omega arith;
  update_more = λ crc a b. omega (arith, sum-append a b);
  hash_is = λ bytes. refl;
  hash_small = λ bytes. omega arith;
}

abbrev overlay : Overlay (List DeltaChange × ℕ)
overlay = record { apply_batch = λ changes at store. ok (store.0 ++ changes, at.wal_bytes) }

abbrev overlay-IsStore : IsStore overlay
overlay-IsStore = record {
  contents = λ store. store.0;
  cursor = λ store. store.1;
  applies = λ changes at store. ((store.0 ++ changes, at.wal_bytes), refl, refl, refl);
}

abbrev payload : Bytes
payload = 1 ∷ 97 ∷ []

abbrev change : DeltaChange
change = remove (97 ∷ [])

abbrev log : Bytes
log = 2 ∷ 0 ∷ 0 ∷ 0 ∷ 98 ∷ 0 ∷ 0 ∷ 0 ∷ payload

payload-IsPayload : IsPayload codec change payload
payload-IsPayload = record { serialized = refl; bounded = omega arith }

log-IsLog : IsLog codec (change ∷ []) log
unfolding le_bytes
log-IsLog = (payload, [], payload-IsPayload, refl, refl)

tail-IsTorn : IsTorn codec (2 ∷ 0 ∷ [])
unfolding le_bytes
tail-IsTorn = record {
  change = change;
  payload = payload;
  whole = payload-IsPayload;
  missing = 0 ∷ 0 ∷ 98 ∷ 0 ∷ 0 ∷ 0 ∷ payload;
  lost = omega arith;
  prefix = refl;
}

replay_frames-IsApplied_example :
    (store' : List DeltaChange × ℕ) × (replay_frames codec overlay false 3
        (log ++ 2 ∷ 0 ∷ [])
        16
        ([], 16)
      ≡ ok (store', 26))
    × IsApplied codec codec-IsCodec overlay overlay-IsStore 3 ([], 16) store' (change ∷ []) 26
replay_frames-IsApplied_example =
    replay_frames-IsApplied codec codec-IsCodec overlay overlay-IsStore 3 (change ∷ []) log
      (2 ∷ 0 ∷ []) 16 ([], 16) log-IsLog tail-IsTorn refl

append_frame-IsLog_example :
    (log' : Bytes) × (written : ℕ) × (append_frame codec log change ≡ ok (log', written))
    × IsLog codec (change ∷ change ∷ []) log'
    × (length log' ≡ 10 + written)
append_frame-IsLog_example =
    append_frame-IsLog codec (change ∷ []) log change payload log-IsLog payload-IsPayload

verify_frame_prefix-IsLog_example :
    verify_frame_prefix codec
      ((0 ∷ 0 ∷ 0 ∷ 0 ∷ 0 ∷ 0 ∷ 0 ∷ 0 ∷ 0 ∷ 0 ∷ 0 ∷ 0 ∷ 0 ∷ 0 ∷ 0 ∷ 0 ∷ []) ++ (log ++ 5 ∷ []))
      26
    ≡ ok tt
verify_frame_prefix-IsLog_example =
    verify_frame_prefix-IsLog codec codec-IsHasher
      (0 ∷ 0 ∷ 0 ∷ 0 ∷ 0 ∷ 0 ∷ 0 ∷ 0 ∷ 0 ∷ 0 ∷ 0 ∷ 0 ∷ 0 ∷ 0 ∷ 0 ∷ 0 ∷ []) (change ∷ []) log
      (5 ∷ []) refl log-IsLog
