-- ===== src/Base/Text.antt =====
-- Strings as their bytes: literals, and what the standard library does with a prefix, a separator and a
-- pattern.
use Prim.Native.Nat.{ℕ, zero, suc, ◌-◌}
use Prim.Native.String.{String}
use Prim.Native.Char.{code}
use mathlib.Core.List.{List, [], ◌∷◌, ◌++◌, map}
use mathlib.Core.Bool.{Bool, false, ◌||◌}
use mathlib.Core.Option.{Option, none, some}
use mathlib.Core.Option
use neutrasearch.Base.Tests.{◌==◌, if◌then◌else◌}
use neutrasearch.Base.Lists.{length, equal}

-- The bytes of an ASCII literal.
abbrev pub codes : String → List ℕ
codes String.[] = []
codes (String.◌∷◌ c s) = code c ∷ codes s

-- A `match` on string literals.
abbrev pub is : List ℕ → String → Bool
is s literal = equal s (codes literal)

abbrev pub is_one_of : List ℕ → List String → Bool
is_one_of s [] = false
is_one_of s (literal ∷ literals) = is s literal || is_one_of s literals

unfoldable pub strip_prefix : List ℕ → List ℕ → Option (List ℕ)
strip_prefix [] s = some s
strip_prefix (p ∷ prefix) [] = none
strip_prefix (p ∷ prefix) (c ∷ s) =
    let rest = strip_prefix prefix s in if p == c then rest else none

-- `split_once`, at the first place of the separator.
unfoldable pub split_once : List ℕ → List ℕ → Option (List ℕ × List ℕ)
split_once separator [] = Option.map (λ rest. ([], rest)) (strip_prefix separator [])
split_once separator (c ∷ s) =
    let later = split_once separator s in
    elim (strip_prefix separator (c ∷ s)) [
      | some rest ↦ some ([], rest)
      | none ↦ Option.map (λ p. (c ∷ p.0, p.1)) later
    ]

-- The loop of `replace`; it passes over `skip` bytes that a place found has taken.
unfoldable pub replace_loop : List ℕ → List ℕ → ℕ → List ℕ → List ℕ
replace_loop pattern with skip [] = []
replace_loop pattern with (suc skip) (c ∷ s) = replace_loop pattern with skip s
replace_loop pattern with zero (c ∷ s) = elim (strip_prefix pattern (c ∷ s)) [
  | some rest ↦ with ++ replace_loop pattern with (length pattern - 1) s
  | none ↦ c ∷ replace_loop pattern with zero s
]

-- `replace`, for a pattern that is not empty.
unfoldable pub replace : List ℕ → List ℕ → List ℕ → List ℕ
unfolding replace_loop
replace pattern with s = replace_loop pattern with 0 s

-- `split`, at the characters of `separator`.
unfoldable pub split : (ℕ → Bool) → List ℕ → List (List ℕ)
split separator [] = [] ∷ []
split separator (b ∷ path) =
    let rest = split separator path in
    if separator b then [] ∷ rest else elim rest [ [] ↦ (b ∷ []) ∷ [] | c ∷ cs ↦ (b ∷ c) ∷ cs ]

-- The front up to the first character of `separator`: the first part of `split`.
unfoldable pub front : (ℕ → Bool) → List ℕ → List ℕ
front separator [] = []
front separator (b ∷ s) = let rest = front separator s in if separator b then [] else b ∷ rest

-- What follows the last `c`.
unfoldable pub after_last : ℕ → List ℕ → Option (List ℕ)
after_last c [] = none
after_last c (b ∷ s) = elim (after_last c s) [
  | some rest ↦ some rest
  | none ↦ if b == c then some s else none
]

unfoldable pub non_empty : List (List ℕ) → List (List ℕ)
non_empty [] = []
non_empty ([] ∷ parts) = non_empty parts
non_empty ((c ∷ part) ∷ parts) = (c ∷ part) ∷ non_empty parts

module _ (is_whitespace : ℕ → Bool) where
  unfoldable pub split_whitespace : List ℕ → List (List ℕ)
  split_whitespace s = non_empty (split is_whitespace s)

  unfoldable pub trim_start : List ℕ → List ℕ
  trim_start [] = []
  trim_start (c ∷ s) = let rest = trim_start s in if is_whitespace c then rest else c ∷ s

  unfoldable pub trim_end : List ℕ → List ℕ
  trim_end [] = []
  trim_end (c ∷ s) =
      let rest = trim_end s in
      elim rest [ [] ↦ if is_whitespace c then [] else c ∷ [] | d ∷ ds ↦ c ∷ d ∷ ds ]

-- A line without the carriage return at its end.
unfoldable pub drop_return : List ℕ → List ℕ
drop_return [] = []
drop_return (c ∷ []) = if c == 13 then [] else c ∷ []
drop_return (c ∷ d ∷ s) = c ∷ drop_return (d ∷ s)

-- What follows the last newline is no line where it is empty.
unfoldable pub drop_empty_end : List (List ℕ) → List (List ℕ)
drop_empty_end [] = []
drop_empty_end ([] ∷ []) = []
drop_empty_end ((c ∷ line) ∷ []) = (c ∷ line) ∷ []
drop_empty_end (line ∷ next ∷ parts) = line ∷ drop_empty_end (next ∷ parts)

unfoldable pub lines : List ℕ → List (List ℕ)
lines s = map drop_return (drop_empty_end (split (λ b. b == 10) s))
