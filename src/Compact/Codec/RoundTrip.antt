-- ===== src/Compact/Codec/RoundTrip.antt =====
-- What `put_varint` writes, and that `get_varint` reads it back.
use neutrasearch.Base.{
  ℕ, zero, suc, ◌+◌, ◌*◌, ◌/◌, ◌%◌, ◌^◌, ◌≤◌, ◌<◌, ◌≡◌, refl, ap, arith, bit_and, bit_or, false, [],
  ◌∷◌, ◌++◌, some, get_elem?, drop, length, leb, if◌then◌else◌, Bytes, ok, inl, inr, Bool-cases,
  u32_mod, append_assoc, length-append, drop-append, ◌∙◌,
}
use neutrasearch.Compact.Codec.{put_varint_loop, get_varint_loop, put_varint, get_varint}
use native.Mathlib.Nat.{pow-suc, mod-eq_of_lt}
use neutrasearch.Base.Bits.{bit_or-fields, low_seven_bits, top_bit, set_top_bit, pow-add}

-- The groups of seven bits of `n`, the lowest first, in `rounds` + 1 bytes at most.
unfoldable pub groups : ℕ → ℕ → Bytes
groups zero n = n ∷ []
groups (suc rounds) n =
    let rest = groups rounds (n / 128) in if leb 128 n then (n % 128 + 128) ∷ rest else n ∷ []

marked : (n : ℕ) → bit_or (n % 256) 0x80 ≡ n % 128 + 128
marked n = rw (set_top_bit (n % 256) (omega arith)) (omega arith)

put_varint_loop-groups :
    (rounds n : ℕ) (out : Bytes)
    → n < 128 ^ suc rounds
    → put_varint_loop rounds n out ≡ out ++ groups rounds n
unfolding put_varint_loop groups
put_varint_loop-groups zero n out h = let e : n % 256 ≡ n = omega arith in rw e refl
put_varint_loop-groups (suc rounds) n out h = elim (Bool-cases (leb 128 n)) [
  | inl more ↦
      rw
        (
          more,
          marked n,
          put_varint_loop-groups rounds (n / 128) (out ++ (n % 128 + 128) ∷ [])
              (omega (arith, pow-suc 128 (suc rounds))),
          append_assoc out ((n % 128 + 128) ∷ []) (groups rounds (n / 128)),
        )
        refl
  | inr last ↦ rw last (let e : n % 256 ≡ n = ground arith in rw e refl)
]

get_elem?-drop :
    (p : ℕ) (bytes rest : Bytes) (x : ℕ)
    → drop p bytes ≡ x ∷ rest
    → (get_elem? bytes p ≡ some x) × (drop (suc p) bytes ≡ rest)
get_elem?-drop zero [] rest x e = cc
get_elem?-drop zero (y ∷ bytes) rest x e = (cc, cc)
get_elem?-drop (suc p) [] rest x e = cc
get_elem?-drop (suc p) (y ∷ bytes) rest x e = get_elem?-drop p bytes rest x e

-- The parts of the last byte and of one with its top bit set.
final_bits : (n : ℕ) → n < 128 → bit_and n 0x7f ≡ n
final_bits n h = rw (low_seven_bits n (omega arith)) (omega arith)

final_top : (n : ℕ) → n < 128 → bit_and n 0x80 ≡ 0
final_top n h = rw (top_bit n (omega arith)) (omega arith)

more_bits : (n : ℕ) → bit_and (n % 128 + 128) 0x7f ≡ n % 128
more_bits n = rw (low_seven_bits (n % 128 + 128) (omega arith)) (omega arith)

more_top : (n : ℕ) → bit_and (n % 128 + 128) 0x80 ≡ 128
more_top n = rw (top_bit (n % 128 + 128) (omega arith)) (omega arith)

split_product : (n k : ℕ) → n * k ≡ n % 128 * k + n / 128 * (k * 128)
split_product n k =
    let parts : n ≡ n % 128 + n / 128 * 128 = omega arith in
    omega (arith, ap (λ (t : ℕ). t * k) parts)

group_bound : (m k : ℕ) → m < 128 → m * k + k ≤ k * 128
group_bound m k h = grind arith

-- Where the bytes from `p` on start with the groups of `n`, the loop reads them on top of what it has.
get_varint_loop-groups :
    (rounds fuel n acc shift : ℕ) (bytes rest : Bytes) (p : ℕ)
    → rounds < fuel
    → n < 128 ^ suc rounds
    → shift + rounds * 7 ≤ 28
    → acc < 2 ^ shift
    → n * 2 ^ shift < u32_mod
    → drop p bytes ≡ groups rounds n ++ rest
    → get_varint_loop fuel acc shift bytes p
      ≡ ok (acc + n * 2 ^ shift, p + length (groups rounds n))
unfolding get_varint_loop groups
get_varint_loop-groups rounds zero n acc shift bytes rest p h k s a w e = absurd (omega arith)
get_varint_loop-groups zero (suc fuel) n acc shift bytes rest p h k s a w e =
    let (here, _) = get_elem?-drop p bytes rest n e in
    rw (here, final_bits n k, final_top n k, mod-eq_of_lt w, bit_or-fields shift acc n a)
      (ground arith)
get_varint_loop-groups (suc rounds) (suc fuel) n acc shift bytes rest p h k s a w e =
    elim (Bool-cases (leb 128 n)) [
      | inl more ↦
          let (here, after) =
            get_elem?-drop p bytes (groups rounds (n / 128) ++ rest) (n % 128 + 128)
              (rw more at e) in
          let double : 2 ^ (shift + 7) ≡ 2 ^ shift * 128 = pow-add shift 7 in
          let split : n * 2 ^ shift ≡ n % 128 * 2 ^ shift + n / 128 * (2 ^ shift * 128) =
            split_product n (2 ^ shift) in
          let ih =
            get_varint_loop-groups rounds fuel (n / 128) (acc + n % 128 * 2 ^ shift) (shift + 7)
              bytes rest (suc p) (omega arith) (omega (arith, pow-suc 128 (suc rounds)))
              (omega arith)
              (rw double (omega (arith, group_bound (n % 128) (2 ^ shift) (omega arith))))
              (rw double (omega (arith, split))) after in
          let low : n % 128 * 2 ^ shift < u32_mod = omega (arith, split) in
          let open_shift : leb 32 shift ≡ false = ground arith in
          let next : p + 1 ≡ suc p = omega arith in
          rw
            (
              here,
              more_bits n,
              more_top n,
              mod-eq_of_lt low,
              bit_or-fields shift acc (n % 128) a,
              open_shift,
              next,
              more,
              ih,
              double,
              split,
            )
            (ground arith)
      | inr last ↦
          let (here, _) = get_elem?-drop p bytes rest n (rw last at e) in
          rw
            (
              here,
              final_bits n (ground arith),
              final_top n (ground arith),
              mod-eq_of_lt w,
              bit_or-fields shift acc n a,
              last,
            )
            (ground arith)
    ]

pub put_varint-groups : (n : ℕ) (out : Bytes) → n < u32_mod → put_varint n out ≡ out ++ groups 4 n
unfolding put_varint
put_varint-groups n out h = put_varint_loop-groups 4 n out (omega arith)

-- Where the bytes from `p` on start with what `put_varint` writes for a `u32`, `get_varint` returns
-- it and the position behind it.
pub get_varint-drop :
    (n : ℕ) (bytes rest : Bytes) (p : ℕ)
    → n < u32_mod
    → drop p bytes ≡ groups 4 n ++ rest
    → get_varint bytes p ≡ ok (n, p + length (groups 4 n))
unfolding get_varint
get_varint-drop n bytes rest p h e =
    get_varint_loop-groups 4 6 n 0 0 bytes rest p (omega arith) (omega arith) (omega arith)
      (omega arith) (omega arith) e
    ∙ ap ok (ap (λ (v : ℕ). (v, p + length (groups 4 n))) (omega arith))

-- A `u32` takes one to five bytes.
pub length-groups :
    (rounds n : ℕ) → (1 ≤ length (groups rounds n)) × (length (groups rounds n) ≤ suc rounds)
unfolding groups
length-groups zero n = (omega arith, omega arith)
length-groups (suc rounds) n = ground (arith, length-groups rounds (n / 128))

-- `get_varint` reads back any `u32` that `put_varint` appends to some bytes, whatever follows it, and
-- leaves the position behind it.
pub get_varint-put_varint :
    (n : ℕ) (before after : Bytes)
    → n < u32_mod
    → get_varint (put_varint n before ++ after) (length before)
      ≡ ok (n, length (put_varint n before))
get_varint-put_varint n before after h =
    rw
      (
        put_varint-groups n before h,
        append_assoc before (groups 4 n) after,
        length-append before (groups 4 n),
      )
      (get_varint-drop n _ after (length before) h (drop-append before (groups 4 n ++ after)))
