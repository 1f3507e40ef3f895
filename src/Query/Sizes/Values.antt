-- ===== src/Query/Sizes/Values.antt =====
-- What the numbers of sizes stand for.
use neutrasearch.Base.{
  ◌⊎◌, ap, ◌∙◌, take-init, ℕ, ◌^◌, Bool, ◌&&◌, Option, ◌+◌, ◌-◌, ◌*◌, ◌<◌, ◌≤◌, true, false, [],
  ◌∷◌, ◌++◌, ◌≡◌, ◌≢◌, refl, none, some, length, take, ltb, lt→ltb, ltb→lt, ltb→ge, ◌==◌,
  if◌then◌else◌, Bytes, All, u64_mod, inl, inr, Bool-cases, arith,
}
use neutrasearch.Query.Sizes.{
  size_at, is_digit, parse_digits, without_plus, parse_u64, multiplier, scaled, parse_size_num,
}
use native.Mathlib.Nat.{mul-le-mul_left}
use neutrasearch.Query.Paths.{last}

-- The number that decimal digits stand for, behind those of `n`.
pub value_from : ℕ → Bytes → ℕ
value_from n [] = n
value_from n (b ∷ digits) = value_from (n * 10 + (b - b'0')) digits

value_from-ge : (n : ℕ) (digits : Bytes) → n ≤ value_from n digits
unfolding value_from
value_from-ge n [] = omega arith
value_from-ge n (b ∷ digits) = omega (arith, value_from-ge (n * 10 + (b - b'0')) digits)

ltb_of_ge : (a b : ℕ) → b ≤ a → ltb a b ≡ false
ltb_of_ge a b h = ground arith

-- The digits are read up to the first place where the number passes 2^64, if there is one.
parse_digits-value :
    (n : ℕ) (digits : Bytes)
    → All (λ b. is_digit b ≡ true) digits
    → n < u64_mod
    → parse_digits n digits
      ≡ (if ltb (value_from n digits) u64_mod then some (value_from n digits) else none)
unfolding parse_digits value_from
parse_digits-value n [] all small = rw (lt→ltb n u64_mod small) refl
parse_digits-value n (b ∷ digits) (digit, all) small =
    let next : ℕ = n * 10 + (b - b'0') in
    elim (Bool-cases (ltb next u64_mod)) [
      | inl fits ↦
          rw (parse_digits, digit, fits)
            (parse_digits-value next digits all (ltb→lt next u64_mod fits))
      | inr over ↦
          let too_large =
            ltb_of_ge (value_from next digits) u64_mod
              (omega (arith, value_from-ge next digits, ltb→ge next u64_mod over)) in
          rw (parse_digits, digit, over, too_large) refl
    ]

without_plus-digit :
    (b : ℕ) (digits : Bytes) → is_digit b ≡ true → without_plus (b ∷ digits) ≡ b ∷ digits
unfolding without_plus
without_plus-digit b digits h = let other : (b == b'+') ≡ false = ground arith in rw other refl

parse_u64-value :
    (digits : Bytes)
    → digits ≢ []
    → All (λ b. is_digit b ≡ true) digits
    → parse_u64 digits
      ≡ (if ltb (value_from 0 digits) u64_mod then some (value_from 0 digits) else none)
unfolding parse_u64
parse_u64-value [] n all = absurd (n refl)
parse_u64-value (b ∷ digits) n all =
    rw (parse_u64, without_plus-digit b digits all.0)
      (parse_digits-value 0 (b ∷ digits) all (omega arith))

scaled-value :
    (digits : Bytes) (mult : ℕ)
    → digits ≢ []
    → All (λ b. is_digit b ≡ true) digits
    → 1 ≤ mult
    → scaled digits mult ≡ (
        if ltb (value_from 0 digits * mult) u64_mod
        then some (value_from 0 digits * mult)
        else none)
unfolding scaled
scaled-value digits mult n all positive = elim (Bool-cases (ltb (value_from 0 digits) u64_mod)) [
  | inl fits ↦ rw (parse_u64-value digits n all, fits) refl
  | inr over ↦
      let large : u64_mod ≤ value_from 0 digits = ltb→ge (value_from 0 digits) u64_mod over in
      let grows : value_from 0 digits * 1 ≤ value_from 0 digits * mult =
        mul-le-mul_left (value_from 0 digits) positive in
      rw
        (
          parse_u64-value digits n all,
          over,
          ltb_of_ge (value_from 0 digits * mult) u64_mod (omega arith),
        )
        refl
]

-- The letters for powers of two: k, m, g and t, small or capital.
abbrev pub IsUnit : ℕ → ℕ → Type 0
IsUnit c e =
    (((c ≡ 107) ⊎ (c ≡ 75)) × (e ≡ 10))
    ⊎ (((c ≡ 109) ⊎ (c ≡ 77)) × (e ≡ 20))
    ⊎ (((c ≡ 103) ⊎ (c ≡ 71)) × (e ≡ 30))
    ⊎ (((c ≡ 116) ⊎ (c ≡ 84)) × (e ≡ 40))

multiplier-IsUnit : (c e : ℕ) → IsUnit c e → multiplier c ≡ some (2 ^ e)
unfolding multiplier
multiplier-IsUnit c e h = ground arith

multiplier-none : (c : ℕ) → ((e : ℕ) → ¬ IsUnit c e) → multiplier c ≡ none
unfolding multiplier
multiplier-none c h = ground (arith, h 10, h 20, h 30, h 40)

multiplier-digit : (c : ℕ) → is_digit c ≡ true → multiplier c ≡ none
unfolding multiplier
multiplier-digit c h = ground arith

last-append : (digits : Bytes) (c : ℕ) → last (digits ++ c ∷ []) ≡ some c
last-append [] c = refl
last-append (b ∷ []) c = refl
last-append (b ∷ d ∷ digits) c = last-append (d ∷ digits) c

last-digit :
    (digits : Bytes)
    → digits ≢ []
    → All (λ b. is_digit b ≡ true) digits
    → (c : ℕ) × (last digits ≡ some c) × (is_digit c ≡ true)
last-digit [] n all = absurd (n refl)
last-digit (b ∷ []) n (digit, all) = (b, refl, digit)
last-digit (b ∷ d ∷ digits) n (digit, all) = last-digit (d ∷ digits) (λ e. cc) all

size_at-plain : (c : ℕ) (s : Bytes) → is_digit c ≡ true → size_at c s ≡ scaled s 1
unfolding size_at
size_at-plain c s digit = rw (size_at, multiplier-digit c digit) refl

size_at-suffix :
    (c mult : ℕ) (s : Bytes)
    → multiplier c ≡ some mult
    → size_at c s ≡ scaled (take (length s - 1) s) mult
unfolding size_at
size_at-suffix c mult s e = rw (size_at, e) refl

abbrev pub IsDigit : ℕ → Type 0
IsDigit b = (48 ≤ b) × (b ≤ 57)

digit-test : (b : ℕ) → IsDigit b → is_digit b ≡ true
digit-test b h = ground arith

other-test : (b : ℕ) → ¬ IsDigit b → is_digit b ≡ false
other-test b h = ground arith

digits-test : (digits : Bytes) → All IsDigit digits → All (λ b. is_digit b ≡ true) digits
digits-test [] all = tt
digits-test (b ∷ digits) (digit, all) = (digit-test b digit, digits-test digits all)

-- A character that is no digit stops the reading.
parse_digits-other :
    (n c : ℕ) (digits : Bytes) → is_digit c ≡ false → parse_digits n (digits ++ c ∷ []) ≡ none
unfolding parse_digits
parse_digits-other n c [] other = rw (parse_digits, other) refl
parse_digits-other n c (b ∷ digits) other =
    rw (parse_digits, parse_digits-other (n * 10 + (b - b'0')) c digits other)
      (if_same (is_digit b && ltb (n * 10 + (b - b'0')) u64_mod) none)
  where
    if_same : (b : Bool) (o : Option ℕ) → (if b then o else o) ≡ o
    if_same true o = refl
    if_same false o = refl

scaled-other :
    (c mult : ℕ) (digits : Bytes)
    → digits ≢ []
    → All (λ b. is_digit b ≡ true) digits
    → is_digit c ≡ false
    → scaled (digits ++ c ∷ []) mult ≡ none
unfolding scaled parse_u64
scaled-other c mult [] n all other = absurd (n refl)
scaled-other c mult (b ∷ digits) n all other =
    rw
      (
        scaled,
        parse_u64,
        without_plus-digit b (digits ++ c ∷ []) all.0,
        parse_digits-other 0 c (b ∷ digits) other,
      )
      refl

size_at-other : (c : ℕ) (s : Bytes) → ((e : ℕ) → ¬ IsUnit c e) → size_at c s ≡ scaled s 1
unfolding size_at
size_at-other c s other = rw (size_at, multiplier-none c other) refl

-- The number where it fits in 64 bits.
abbrev pub fitting : ℕ → Option ℕ
fitting n = if ltb n u64_mod then some n else none

unit-positive : (c e : ℕ) → IsUnit c e → 1 ≤ 2 ^ e
unit-positive c e h = ground arith

module _ (trim : Bytes → Bytes) where
  -- Digits are read as their number; with one of the letters k, m, g and t behind them, small or capital, as
  -- their number times 2^10, 2^20, 2^30 or 2^40; both are rejected where the result does not fit in 64
  -- bits. With any other character behind them they are rejected.
  pub parse_size_num-value :
      (s digits : Bytes)
      → digits ≢ []
      → All IsDigit digits
      → (trim s ≡ digits → parse_size_num trim s ≡ fitting (value_from 0 digits))
        × ((c e : ℕ)
            → IsUnit c e
            → trim s ≡ digits ++ c ∷ []
            → parse_size_num trim s ≡ fitting (value_from 0 digits * 2 ^ e))
        × ((c : ℕ)
            → ¬ IsDigit c
            → ((e : ℕ) → ¬ IsUnit c e)
            → trim s ≡ digits ++ c ∷ []
            → parse_size_num trim s ≡ none)
  unfolding parse_size_num
  parse_size_num-value s digits n all_digits =
      let all = digits-test digits all_digits in
      (
        (λ trimmed.
            let (c, is_last, digit) = last-digit digits n all in
            let once : value_from 0 digits * 1 ≡ value_from 0 digits = omega arith in
            rw (trimmed, is_last)
              (size_at-plain c digits digit
                ∙ scaled-value digits 1 n all (omega arith)
                ∙ ap fitting once)),
        (λ c e is_unit trimmed.
            rw (trimmed, last-append digits c)
              (size_at-suffix c (2 ^ e) (digits ++ c ∷ []) (multiplier-IsUnit c e is_unit)
                ∙ ap (λ t. scaled t (2 ^ e)) (take-init digits c)
                ∙ scaled-value digits (2 ^ e) n all (unit-positive c e is_unit))),
        λ c other no_unit trimmed.
            rw (trimmed, last-append digits c)
              (size_at-other c (digits ++ c ∷ []) no_unit
                ∙ scaled-other c 1 digits n all (other-test c other)),
      )
