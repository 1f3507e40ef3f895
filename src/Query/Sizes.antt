-- ===== src/Query/Sizes.antt =====
-- The sizes of crates/neutra-core/src/query/syntax.rs. `trim` is that of the standard library.
pub mod Values
use neutrasearch.Base.{
  ℕ, ◌+◌, ◌-◌, ◌*◌, ◌^◌, Bool, ◌&&◌, ◌||◌, [], ◌∷◌, Option, none, some, length, take, leb, ltb,
  ◌==◌, if◌then◌else◌, Bytes, u64_mod,
}
use neutrasearch.Base.Options.{◌>>=◌}
use neutrasearch.Base.Text.{codes, strip_prefix, split_once}
use neutrasearch.Query.Paths.{last}
use neutrasearch.Query.Types.{Query}

abbrev pub is_digit : ℕ → Bool
is_digit b = leb b'0' b && leb b b'9'

-- The digits of `parse::<u64>`, behind those that `n` stands for.
unfoldable pub parse_digits : ℕ → Bytes → Option ℕ
parse_digits n [] = some n
parse_digits n (b ∷ digits) =
    let rest = parse_digits (n * 10 + (b - b'0')) digits in
    if is_digit b && ltb (n * 10 + (b - b'0')) u64_mod then rest else none

-- One plus sign is allowed in front.
unfoldable pub without_plus : Bytes → Bytes
without_plus [] = []
without_plus (b ∷ s) = if b == b'+' then s else b ∷ s

-- `parse::<u64>`
unfoldable pub parse_u64 : Bytes → Option ℕ
parse_u64 s = elim (without_plus s) [ [] ↦ none | b ∷ digits ↦ parse_digits 0 (b ∷ digits) ]

-- The power of two that a suffix stands for.
unfoldable pub multiplier : ℕ → Option ℕ
multiplier c =
    if c == b'k' || c == b'K'
    then some (2 ^ 10)
    else if c == b'm' || c == b'M'
    then some (2 ^ 20)
    else if c == b'g' || c == b'G'
    then some (2 ^ 30)
    else if c == b't' || c == b'T'
    then some (2 ^ 40)
    else none

-- `checked_mul`
unfoldable pub scaled : Bytes → ℕ → Option ℕ
scaled digits mult = do
  n ← parse_u64 digits
  if ltb (n * mult) u64_mod then some (n * mult) else none

-- What the last character decides.
unfoldable pub size_at : ℕ → Bytes → Option ℕ
size_at c s = elim (multiplier c) [
  | some mult ↦ scaled (take (length s - 1) s) mult
  | none ↦ scaled s 1
]

module _ (trim : Bytes → Bytes) where
  unfoldable pub parse_size_num : Bytes → Option ℕ
  parse_size_num s = do c ← last (trim s); size_at c (trim s)

  unfoldable pub parse_size : Bytes → Query → Query
  parse_size spec q = elim (split_once (codes "..") spec) [
    | some (a, b) ↦ record q { min_size = parse_size_num a; max_size = parse_size_num b }
    | none ↦ elim (strip_prefix (codes ">") spec) [
      | some rest ↦ record q { min_size = parse_size_num rest }
      | none ↦ elim (strip_prefix (codes "<") spec) [
        | some rest ↦ record q { max_size = parse_size_num rest }
        | none ↦ record q { min_size = parse_size_num spec }
      ]
    ]
  ]
