-- ===== src/Compact/Postings/RoundTrip.antt =====
-- The differences of an ascending list of blocks, and that `decode_posting` reads the list back.
use neutrasearch.Base.{
  ℕ, zero, suc, ◌+◌, ◌-◌, ◌≤◌, ◌<◌, ◌≡◌, refl, sym, ap, ◌∙◌, arith, true, false, List, [], ◌∷◌,
  ◌++◌, length, drop, drop-append, drop-drop, length-drop, length-append, slice-middle, leb, ltb,
  Bytes, ok, append_assoc, append-nil, u32_mod, ◌^◌,
}
use neutrasearch.Compact.Codec.RoundTrip.{groups, length-groups, get_varint-drop}
use neutrasearch.Compact.Codec.{checked}
use neutrasearch.Compact.Postings.{decode_loop, decode_posting}

-- Blocks from `lo` on, not descending, that fit a `u32`.
abbrev pub IsAscending : ℕ → List ℕ → Type 0
IsAscending lo [] = Unit
IsAscending lo (b ∷ bs) = (lo ≤ b) × (b < u32_mod) × IsAscending b bs

abbrev pub deltas : ℕ → List ℕ → Bytes
deltas previous [] = []
deltas previous (b ∷ bs) = groups 4 (b - previous) ++ deltas b bs

abbrev pub last_of : ℕ → List ℕ → ℕ
last_of previous [] = previous
last_of previous (b ∷ bs) = last_of b bs

pub deltas-snoc :
    (previous : ℕ) (bs : List ℕ) (b : ℕ)
    → deltas previous (bs ++ b ∷ []) ≡ deltas previous bs ++ groups 4 (b - last_of previous bs)
deltas-snoc previous [] b = append-nil _
deltas-snoc previous (c ∷ bs) b =
    rw (deltas-snoc c bs b) (sym (append_assoc (groups 4 (c - previous)) (deltas c bs) _))

pub IsAscending-snoc :
    (lo : ℕ) (bs : List ℕ) (b : ℕ)
    → IsAscending lo bs
    → last_of lo bs ≤ b
    → b < u32_mod
    → IsAscending lo (bs ++ b ∷ [])
IsAscending-snoc lo [] b h k s = (k, s, tt)
IsAscending-snoc lo (c ∷ bs) b (p, q, h) k s = (p, q, IsAscending-snoc c bs b h k s)

pub last_of-snoc : (lo : ℕ) (bs : List ℕ) (b : ℕ) → last_of lo (bs ++ b ∷ []) ≡ b
last_of-snoc lo [] b = refl
last_of-snoc lo (c ∷ bs) b = last_of-snoc c bs b

decode_loop-deltas :
    (bs : List ℕ) (fuel : ℕ) (bytes : Bytes) (p id : ℕ) (out : List ℕ)
    → length (deltas id bs) < fuel
    → IsAscending id bs
    → drop p bytes ≡ deltas id bs
    → decode_loop fuel bytes p id out ≡ ok (out ++ bs)
unfolding decode_loop
decode_loop-deltas bs zero bytes p id out h k e = absurd (omega arith)
decode_loop-deltas [] (suc fuel) bytes p id out h k e =
    let done : leb (length bytes) p ≡ true = ground (arith, length-drop p bytes, ap length e) in
    rw (done, append-nil out) refl
decode_loop-deltas (b ∷ bs) (suc fuel) bytes p id out h (lo, small, k) e =
    let piece = groups 4 (b - id) in
    let sizes = length-groups 4 (b - id) in
    let joined = length-append piece (deltas b bs) in
    let more : leb (length bytes) p ≡ false = ground (arith, length-drop p bytes, ap length e) in
    let step = get_varint-drop (b - id) bytes (deltas b bs) p (omega arith) e in
    let sum : id + (b - id) ≡ b = omega arith in
    let fits : ltb b u32_mod ≡ true = ground arith in
    let after : drop (p + length piece) bytes ≡ deltas b bs =
      drop-drop p (length piece) bytes
      ∙ ap (drop (length piece)) e
      ∙ drop-append piece (deltas b bs) in
    rw
      (
        more,
        step,
        sum,
        fits,
        decode_loop-deltas bs fuel bytes (p + length piece) b (out ++ b ∷ []) (omega arith) k after,
      )
      (ap ok (append_assoc out (b ∷ []) bs))

-- `decode_posting` reads back an ascending list of blocks from a file that holds its differences.
pub decode_posting-deltas :
    (bs : List ℕ) (before after : Bytes) (gram : ℕ)
    → IsAscending 0 bs
    → length before + length (deltas 0 bs) < 2 ^ 64
    → decode_posting
        (before ++ (deltas 0 bs ++ after))
        record { gram = gram; len = length (deltas 0 bs); offset = length before }
      ≡ ok bs
unfolding decode_posting checked
decode_posting-deltas bs before after gram h fits =
    let bound : ltb (length before + length (deltas 0 bs)) (2 ^ 64) ≡ true = ground arith in
    rw (bound, slice-middle before (deltas 0 bs) after)
      (decode_loop-deltas bs (suc (length (deltas 0 bs))) (deltas 0 bs) 0 0 [] (omega arith) h refl)
