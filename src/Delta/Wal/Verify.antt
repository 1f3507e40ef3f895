-- ===== src/Delta/Wal/Verify.antt =====
-- `verify_frame_prefix` on a log.
use neutrasearch.Base.{
  ℕ, zero, suc, ◌+◌, ◌-◌, ◌*◌, ◌≤◌, ◌<◌, ◌≡◌, ◌∙◌, refl, sym, ap, arith, true, false, List, [], ◌∷◌,
  ◌++◌, length, length-append, length-drop, take, drop, take-append, drop-append, min, ltb, ◌==◌,
  ==_refl, Bytes, ok, append_assoc, u32_mod, length-take_of_le, take-drop,
}
use neutrasearch.Ntfs.Words.{le_value}
use neutrasearch.Delta.Record.{DeltaChange}
use neutrasearch.Delta.Wal.{
  Codec, le_bytes, read_exact, max_frame, header_bytes, hash_pieces, verify_loop,
  verify_frame_prefix,
}
use neutrasearch.Delta.Wal.Frames.{
  length-le_bytes, le_value-le_bytes, read_exact-append, frame, IsLog, length-frame,
}

-- The hasher of crc32fast: pieces add up, and the checksum of some bytes is what it ends with.
pub record IsHasher (codec : Codec) : Type 0 where
  pub update_none : (crc : ℕ) → codec.update crc [] ≡ crc
  pub update_more :
      (crc : ℕ) (a b : Bytes) → codec.update (codec.update crc a) b ≡ codec.update crc (a ++ b)
  pub hash_is :
      (bytes : Bytes) → codec.hash bytes ≡ codec.finalize (codec.update codec.hasher bytes)
  pub hash_small : (bytes : Bytes) → codec.hash bytes < u32_mod

module _ (codec : Codec) (lawful : IsHasher codec) where
  hash_pieces-update :
      (fuel crc : ℕ) (payload rest : Bytes)
      → length payload < fuel
      → hash_pieces codec fuel crc (length payload) (payload ++ rest)
        ≡ ok (codec.update crc payload, rest)
  unfolding hash_pieces
  hash_pieces-update zero crc payload rest h = absurd (omega arith)
  hash_pieces-update (suc fuel) crc [] rest h = rw (lawful.update_none crc) refl
  hash_pieces-update (suc fuel) crc (x ∷ xs) rest h =
      let payload : Bytes = x ∷ xs in
      let k : ℕ = min (length payload) (64 * 1024) in
      let a : Bytes = take k payload in
      let b : Bytes = drop k payload in
      let split : payload ≡ a ++ b = take-drop k payload in
      let size : length a ≡ k = length-take_of_le k payload (omega arith) in
      let left : length payload - k ≡ length b = sym (length-drop k payload) in
      let shape : payload ++ rest ≡ a ++ (b ++ rest) =
        ap (λ t. t ++ rest) split ∙ append_assoc a b rest in
      let got = ap (read_exact k) shape ∙ read_exact-append k a (b ++ rest) size in
      let more : (length payload == 0) ≡ false = ground arith in
      rw
        (
          more,
          got,
          left,
          hash_pieces-update fuel (codec.update crc a) b rest
              (omega (arith, length-drop k payload)),
          lawful.update_more crc a b,
          sym split,
        )
        refl

  verify_loop-IsLog :
      (changes : List DeltaChange) (log rest : Bytes) (fuel verified : ℕ)
      → IsLog codec changes log
      → length log < fuel
      → verify_loop codec fuel (verified + length log) verified (log ++ rest) ≡ ok tt
  unfolding verify_loop
  verify_loop-IsLog changes log rest zero verified h enough = absurd (omega arith)
  verify_loop-IsLog [] log rest (suc fuel) verified h enough =
      let none_left : length log ≡ 0 = ap length h in
      let still : verified + length log ≡ verified = omega arith in
      let stop : ltb verified verified ≡ false = ground arith in
      rw (still, stop, ==_refl verified) refl
  verify_loop-IsLog (c ∷ changes) log rest (suc fuel) verified (payload, later, whole, parts, h)
        enough =
      let n : ℕ = length payload in
      let bounded : n ≤ max_frame = whole.bounded in
      let crc = le_bytes 4 (codec.hash payload) in
      let head = le_bytes 4 n in
      let total : length log ≡ n + 8 + length later = omega (
        arith,
        ap length parts,
        length-append (frame codec payload) later,
        length-frame codec payload,
      ) in
      let fields : Bytes = head ++ crc in
      let four = length-le_bytes 4 n in
      let four' = length-le_bytes 4 (codec.hash payload) in
      let eight : length fields ≡ 8 = omega (arith, length-append head crc, four, four') in
      let behind : Bytes = payload ++ (later ++ rest) in
      let shape : log ++ rest ≡ fields ++ behind =
        ap (λ t. t ++ rest)
          (parts
            ∙ ap (λ t. t ++ later) (sym (append_assoc head crc payload))
            ∙ append_assoc fields payload later)
        ∙ append_assoc fields (payload ++ later) rest
        ∙ ap (λ t. fields ++ t) (append_assoc payload later rest) in
      let first : le_value (take 4 fields) ≡ n =
        ap (λ m. le_value (take m fields)) (sym four)
        ∙ ap le_value (take-append head crc)
        ∙ le_value-le_bytes n (omega arith) in
      let second : le_value (drop 4 fields) ≡ codec.hash payload =
        ap (λ m. le_value (drop m fields)) (sym four)
        ∙ ap le_value (drop-append head crc)
        ∙ le_value-le_bytes (codec.hash payload) (lawful.hash_small payload) in
      let open_range : ltb verified (verified + length log) ≡ true = ground arith in
      let width : verified + length log - verified ≡ length log = omega arith in
      let header_fits : ltb (length log) 8 ≡ false = ground arith in
      let small : ltb max_frame n ≡ false = ground arith in
      let inside : ltb (length log - 8) n ≡ false = ground arith in
      let moved : verified + length log ≡ verified + 8 + n + length later = omega arith in
      rw
        (
          open_range,
          width,
          header_fits,
          ap (read_exact 8) shape,
          read_exact-append 8 fields behind eight,
          first,
          small,
          inside,
          hash_pieces-update (suc n) codec.hasher payload (later ++ rest) (omega arith),
          sym (lawful.hash_is payload),
          second,
          ==_refl (codec.hash payload),
          moved,
        )
        (verify_loop-IsLog changes later rest fuel (verified + 8 + n) h (omega arith))

  -- With a hasher whose pieces add up, in a file with a log behind its header, whatever follows it, `verify_frame_prefix` accepts the end
  -- of the log.
  pub verify_frame_prefix-IsLog :
      (header : Bytes) (changes : List DeltaChange) (log rest : Bytes)
      → length header ≡ header_bytes
      → IsLog codec changes log
      → verify_frame_prefix codec (header ++ (log ++ rest)) (header_bytes + length log) ≡ ok tt
  unfolding verify_frame_prefix
  verify_frame_prefix-IsLog header changes log rest size h =
      let inside : ltb (header_bytes + length log) header_bytes ≡ false = ground arith in
      let behind : drop header_bytes (header ++ (log ++ rest)) ≡ log ++ rest =
        ap (λ m. drop m (header ++ (log ++ rest))) (sym size) ∙ drop-append header (log ++ rest) in
      rw (inside, behind)
        (verify_loop-IsLog changes log rest (suc (header_bytes + length log)) header_bytes h
          (omega arith))
