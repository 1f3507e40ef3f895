-- ===== src/Delta/Wal/Rounds.antt =====
-- What single rounds of `replay_frames` do, on a whole frame and on one that the log ends in.
use neutrasearch.Base.{
  ℕ, suc, ◌+◌, ◌≤◌, ◌<◌, ◌≡◌, ◌∙◌, refl, sym, ap, arith, false, List, [], ◌∷◌, ◌++◌, some, length,
  length-append, ltb, ==_refl, ◌>>=◌, Bytes, inl, inr, append_assoc, u32_mod,
}
use neutrasearch.Ntfs.Words.{le_value}
use neutrasearch.Delta.Record.{DeltaChange}
use neutrasearch.Delta.Wal.{
  Codec, Overlay, le_bytes, max_frame, decode_change, finish, push, replay_loop,
}
use neutrasearch.Delta.Wal.Frames.{
  length-le_bytes, le_value-le_bytes, read_exact-append, read_exact-cases, append-split, frame,
  IsPayload, IsTorn,
}

-- What the log relies on: bincode reads back what it wrote, and a checksum is a `u32`.
pub record IsCodec (codec : Codec) : Type 0 where
  pub read_back :
      (c : DeltaChange) (payload : Bytes)
      → codec.serialize c ≡ some payload
      → codec.deserialize payload ≡ some c
  pub hash_small : (payload : Bytes) → codec.hash payload < u32_mod

module _ (codec : Codec) {Store : Type 0} (overlay : Overlay Store) (generation : ℕ) where
  -- A frame that the log ends in is left out.
  pub torn_end :
      (fuel : ℕ) (tail : Bytes) (changes : List DeltaChange) (verified : ℕ) (store : Store)
      → IsTorn codec tail
      → replay_loop codec overlay false generation (suc fuel) tail changes verified store
        ≡ finish codec overlay false generation changes verified store
  unfolding replay_loop
  torn_end fuel tail changes verified store torn =
      let payload = torn.payload in
      let n : ℕ = length payload in
      let bounded : n ≤ max_frame = torn.whole.bounded in
      elim (read_exact-cases 4 tail) [
        | inl short ↦ rw (replay_loop, short) refl
        | inr (a, r1, got, parts, four) ↦
            let (head, ahead) =
              append-split a (le_bytes 4 n) (r1 ++ torn.missing)
                (le_bytes 4 (codec.hash payload) ++ payload) (four ∙ sym (length-le_bytes 4 n))
                (sym (append_assoc a r1 torn.missing)
                  ∙ ap (λ t. t ++ torn.missing) (sym parts)
                  ∙ torn.prefix) in
            let value : le_value a ≡ n = ap le_value head ∙ le_value-le_bytes n (omega arith) in
            let fits : ltb max_frame n ≡ false = ground arith in
            rw (replay_loop, got, value, fits)
              (elim (read_exact-cases 4 r1) [
                | inl short ↦ rw short refl
                | inr (b, r2, got2, parts2, four2) ↦
                    let (_, behind) =
                      append-split b (le_bytes 4 (codec.hash payload)) (r2 ++ torn.missing) payload
                        (four2 ∙ sym (length-le_bytes 4 (codec.hash payload)))
                        (sym (append_assoc b r2 torn.missing)
                          ∙ ap (λ t. t ++ torn.missing) (sym parts2)
                          ∙ ahead) in
                    elim (read_exact-cases (le_value a) r2) [
                      | inl short ↦ rw (got2, short) refl
                      | inr (c, r3, _, parts3, size) ↦ absurd (
                          omega (
                            arith,
                            value,
                            ap length behind,
                            ap length parts3,
                            length-append r2 torn.missing,
                            length-append c r3,
                            torn.lost,
                          ))
                    ]
              ])
      ]

  -- A round on a whole frame.
  pub whole_frame :
      (lawful : IsCodec codec) (fuel : ℕ) (change : DeltaChange) (payload rest : Bytes)
      (changes : List DeltaChange) (verified : ℕ) (store : Store)
      → IsPayload codec change payload
      → replay_loop codec overlay false generation
          (suc fuel)
          (frame codec payload ++ rest)
          changes
          verified
          store
        ≡ (push codec overlay false generation
              (changes ++ change ∷ [])
              (verified + 8 + length payload)
              store
            >>= λ out.
                replay_loop codec overlay false generation fuel rest out.0
                  (verified + 8 + length payload)
                  out.1)
  unfolding replay_loop decode_change
  whole_frame lawful fuel change payload rest changes verified store whole =
      let n : ℕ = length payload in
      let bounded : n ≤ max_frame = whole.bounded in
      let crc = le_bytes 4 (codec.hash payload) in
      let head = le_bytes 4 n in
      let value : le_value head ≡ n = le_value-le_bytes n (omega arith) in
      let sum : le_value crc ≡ codec.hash payload =
        le_value-le_bytes (codec.hash payload) (lawful.hash_small payload) in
      let fits : ltb max_frame n ≡ false = ground arith in
      let shape : frame codec payload ++ rest ≡ head ++ (crc ++ (payload ++ rest)) =
        append_assoc head (crc ++ payload) rest
        ∙ ap (λ t. head ++ t) (append_assoc crc payload rest) in
      ap (λ t. replay_loop codec overlay false generation (suc fuel) t changes verified store) shape
      ∙ rw
          (
            replay_loop,
            read_exact-append 4 head (crc ++ (payload ++ rest)) (length-le_bytes 4 n),
            value,
            fits,
            read_exact-append 4 crc (payload ++ rest) (length-le_bytes 4 (codec.hash payload)),
            value,
            read_exact-append n payload rest refl,
            sum,
            ==_refl (codec.hash payload),
            lawful.read_back change payload whole.serialized,
            value,
          )
          refl
