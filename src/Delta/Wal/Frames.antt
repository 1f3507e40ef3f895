-- ===== src/Delta/Wal/Frames.antt =====
-- Frames, logs of them, and what reading does with them.
use neutrasearch.Base.{
  ℕ, zero, suc, ◌+◌, ◌/◌, ◌%◌, ◌≤◌, ◌<◌, ◌≡◌, ◌⊎◌, ◌∙◌, refl, sym, ap, arith, true, false, List, [],
  ◌∷◌, ◌++◌, some, none, length, length-append, take, drop, take-append, drop-append, leb, ltb,
  Bytes, ok, inl, inr, Bool-cases, append_assoc, append-nil, u32_mod, length-take_of_le, take-drop,
}
use native.Mathlib.Nat.{mod-eq_of_lt}
use neutrasearch.Ntfs.Words.{le_value}
use neutrasearch.Delta.Record.{DeltaChange}
use neutrasearch.Delta.Wal.{Codec, le_bytes, read_exact, append_frame, max_frame}

pub length-le_bytes : (n v : ℕ) → length (le_bytes n v) ≡ n
unfolding le_bytes
length-le_bytes zero v = refl
length-le_bytes (suc n) v = omega (arith, length-le_bytes n (v / 256))

-- A `u32` is read back.
pub le_value-le_bytes : (v : ℕ) → v < u32_mod → le_value (le_bytes 4 v) ≡ v
unfolding le_value le_bytes
le_value-le_bytes v h = omega arith

pub read_exact-append : (n : ℕ) (a b : Bytes) → length a ≡ n → read_exact n (a ++ b) ≡ some (a, b)
unfolding read_exact
read_exact-append n a b h =
    let enough : leb (length a) (length (a ++ b)) ≡ true = ground (arith, length-append a b) in
    rw (sym h, enough, take-append a b, drop-append a b) refl

-- `read_exact` meets the end, or splits what is ahead.
pub read_exact-cases :
    (n : ℕ) (reader : Bytes)
    → (read_exact n reader ≡ none)
      ⊎ ((a : Bytes) × (b : Bytes) × (read_exact n reader ≡ some (a, b))
          × (reader ≡ a ++ b)
          × (length a ≡ n))
unfolding read_exact
read_exact-cases n reader = elim (Bool-cases (leb n (length reader))) [
  | inl enough ↦ inr (
    take n reader,
    drop n reader,
    rw enough refl,
    take-drop n reader,
    length-take_of_le n reader (ground arith),
  )
  | inr short ↦ inl (rw short refl)
]

-- Lists that agree split alike.
pub append-split : (a b x y : Bytes) → length a ≡ length b → a ++ x ≡ b ++ y → (a ≡ b) × (x ≡ y)
append-split [] [] x y h e = (refl, e)
append-split [] (d ∷ b) x y h e = absurd (omega arith)
append-split (c ∷ a) [] x y h e = absurd (omega arith)
append-split (c ∷ a) (d ∷ b) x y h e =
    let (tails, rest) = append-split a b x y (omega arith) (cc) in
    let heads : c ≡ d = cc in (rw (heads, tails) refl, rest)

module _ (codec : Codec) where
  -- The frame of a payload.
  abbrev pub frame : Bytes → Bytes
  frame payload = le_bytes 4 (length payload) ++ (le_bytes 4 (codec.hash payload) ++ payload)

  -- The payload of a change, which a frame may hold.
  pub record IsPayload (change : DeltaChange) (payload : Bytes) : Type 0 where
    pub serialized : codec.serialize change ≡ some payload
    pub bounded : length payload ≤ max_frame

  -- The bytes are the frames of these changes.
  abbrev pub IsLog : List DeltaChange → Bytes → Type 0
  IsLog [] log = log ≡ []
  IsLog (c ∷ changes) log =
      (payload : Bytes) × (rest : Bytes) × IsPayload c payload
      × (log ≡ frame payload ++ rest)
      × IsLog changes rest

  -- The bytes start a frame that they do not hold in full.
  pub record IsTorn (tail : Bytes) : Type 0 where
    pub change : DeltaChange
    pub payload : Bytes
    pub whole : IsPayload change payload
    pub missing : Bytes
    pub lost : 1 ≤ length missing
    pub prefix : tail ++ missing ≡ frame payload

  pub length-frame : (payload : Bytes) → length (frame payload) ≡ length payload + 8
  length-frame payload = omega (
    arith,
    length-append (le_bytes 4 (length payload)) (le_bytes 4 (codec.hash payload) ++ payload),
    length-append (le_bytes 4 (codec.hash payload)) payload,
    length-le_bytes 4 (length payload),
    length-le_bytes 4 (codec.hash payload),
  )

  IsLog-snoc :
      (changes : List DeltaChange) (log : Bytes) (c : DeltaChange) (payload : Bytes)
      → IsLog changes log
      → IsPayload c payload
      → IsLog (changes ++ c ∷ []) (log ++ frame payload)
  IsLog-snoc [] log c payload h p = (payload, [], p, rw (h, append-nil (frame payload)) refl, refl)
  IsLog-snoc (d ∷ changes) log c payload (first, rest, q, e, h) p = (
    first,
    rest ++ frame payload,
    q,
    ap (λ t. t ++ frame payload) e ∙ append_assoc (frame first) rest (frame payload),
    IsLog-snoc changes rest c payload h p,
  )

  -- On the log of some changes, `append_frame` of a change whose payload a frame may hold succeeds,
  -- with the log of these and the new one, and returns the number of bytes that the log grew by.
  pub append_frame-IsLog :
      (changes : List DeltaChange) (log : Bytes) (change : DeltaChange) (payload : Bytes)
      → IsLog changes log
      → IsPayload change payload
      → (log' : Bytes) × (written : ℕ) × (append_frame codec log change ≡ ok (log', written))
        × IsLog (changes ++ change ∷ []) log'
        × (length log' ≡ length log + written)
  unfolding append_frame
  append_frame-IsLog changes log change payload h p =
      let bound = p.bounded in
      let fits : ltb max_frame (length payload) ≡ false = ground arith in
      let small : length payload % u32_mod ≡ length payload = mod-eq_of_lt (omega arith) in
      (
        log ++ frame payload,
        length payload + 8,
        rw (p.serialized, fits, small) refl,
        IsLog-snoc changes log change payload h p,
        omega (arith, length-append log (frame payload), length-frame payload),
      )
