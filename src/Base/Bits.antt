-- ===== src/Base/Bits.antt =====
-- Masks and disjoint fields as arithmetic. The native `bit_and` and `bit_or` have no laws at
-- variables but their definition by binary digits.
use Prim.Native.Nat.{
  ℕ, zero, suc, ◌+◌, ◌-◌, ◌*◌, ◌/◌, ◌%◌, ◌^◌, ◌≤◌, ◌<◌, min, max, bit_and, bit_or, digits,
  bit_and-bitwise, bit_or-bitwise,
}
use mathlib.Core.Path.{◌≡◌, refl, ap}
use mathlib.Core.Bool.{Bool, true, ◌&&◌}
use native.Mathlib.Nat.{
  pow-suc, one-le-pow, add-zero, add-suc, mod-lt, mod-eq_of_lt, div-add-mod',
  add-mul-mod_self_right,
}
use native.Mathlib.Omega.{arith}
use neutrasearch.Base.Tests.{◌==◌}

-- The digit recursion does not depend on its fuel, once that covers the first operand.
module _ (rest : ℕ → ℕ) (op : ℕ → ℕ → ℕ) where
  digits-fuel : (n m a b : ℕ) → a ≤ n → a ≤ m → digits rest op n a b ≡ digits rest op m a b
  digits-fuel n m zero b p q = zeros n m
    where
      zeros : (n m : ℕ) → digits rest op n zero b ≡ digits rest op m zero b
      zeros zero zero = refl
      zeros zero (suc m) = refl
      zeros (suc n) zero = refl
      zeros (suc n) (suc m) = refl
  digits-fuel zero m (suc a) b p q = absurd (omega arith)
  digits-fuel (suc n) zero (suc a) b p q = absurd (omega arith)
  digits-fuel (suc n) (suc m) (suc a) b p q =
      rw (digits-fuel n m (suc a / 2) (b / 2) (omega arith) (omega arith))

-- The lowest binary digit and the rest.
pub bit_or-halves : (a b : ℕ) → bit_or a b ≡ bit_or (a / 2) (b / 2) * 2 + max (a % 2) (b % 2)
bit_or-halves zero b = omega (arith, bit_or-bitwise 0 b, bit_or-bitwise 0 (b / 2))
bit_or-halves (suc a) b = omega (
  arith,
  bit_or-bitwise (suc a) b,
  bit_or-bitwise (suc a / 2) (b / 2),
  digits-fuel (λ y. y) max a (suc a / 2) (suc a / 2) (b / 2) (omega arith) (omega arith),
)

pub bit_and-halves : (a b : ℕ) → bit_and a b ≡ bit_and (a / 2) (b / 2) * 2 + min (a % 2) (b % 2)
bit_and-halves zero b = omega (arith, bit_and-bitwise 0 b, bit_and-bitwise 0 (b / 2))
bit_and-halves (suc a) b = omega (
  arith,
  bit_and-bitwise (suc a) b,
  bit_and-bitwise (suc a / 2) (b / 2),
  digits-fuel (λ y. 0) min a (suc a / 2) (suc a / 2) (b / 2) (omega arith) (omega arith),
)

double_pow : (k q : ℕ) → q * 2 ^ suc k ≡ 2 * (q * 2 ^ k)
double_pow k q = omega (arith, ap (λ (t : ℕ). q * t) (pow-suc 2 k))

zero-bit_or : (b : ℕ) → bit_or 0 b ≡ b
zero-bit_or b = bit_or-bitwise 0 b

-- `a | (b << k)` is a sum where `a` fits the low `k` bits.
pub bit_or-fields : (k a b : ℕ) → a < 2 ^ k → bit_or a (b * 2 ^ k) ≡ a + b * 2 ^ k
bit_or-fields zero zero b h = omega (arith, zero-bit_or (b * 2 ^ 0))
bit_or-fields zero (suc a) b h = absurd (omega arith)
bit_or-fields (suc k) a b h = omega (
  arith,
  bit_or-halves a (b * 2 ^ suc k),
  double_pow k b,
  pow-suc 2 k,
  ap (λ (t : ℕ). bit_or (a / 2) t) half,
  bit_or-fields k (a / 2) b (omega (arith, pow-suc 2 k)),
)
  where
    half : b * 2 ^ suc k / 2 ≡ b * 2 ^ k
    half = omega (arith, double_pow k b)

bit_and-zero_bound : (n a : ℕ) → a ≤ n → bit_and a 0 ≡ 0
bit_and-zero_bound n zero h = bit_and-bitwise 0 0
bit_and-zero_bound zero (suc a) h = absurd (omega arith)
bit_and-zero_bound (suc n) (suc a) h =
    omega (arith, bit_and-halves (suc a) 0, bit_and-zero_bound n (suc a / 2) (omega arith))

pub bit_and-zero : (a : ℕ) → bit_and a 0 ≡ 0
bit_and-zero a = bit_and-zero_bound a a (omega arith)

-- The mask of the low `k` bits, by its binary digits.
abbrev ones : ℕ → ℕ
ones zero = 0
ones (suc k) = ones k * 2 + 1

ones-pow : (k : ℕ) → ones k + 1 ≡ 2 ^ k
ones-pow zero = refl
ones-pow (suc k) = omega (arith, ones-pow k, pow-suc 2 k)

pub mod-eq_of_split : {a m r : ℕ} (q : ℕ) → a ≡ r + q * m → r < m → a % m ≡ r
mod-eq_of_split {m = m} {r = r} q e h = rw (e, add-mul-mod_self_right r q m) (mod-eq_of_lt h)

bit_and-ones : (k a : ℕ) → bit_and a (ones k) ≡ a % 2 ^ k
bit_and-ones zero a = omega (arith, bit_and-zero a)
bit_and-ones (suc k) a = omega (
  arith,
  bit_and-halves a (ones (suc k)),
  ap (λ (t : ℕ). bit_and (a / 2) t) half,
  bit_and-ones k (a / 2),
  low_digit,
)
  where
    half : ones (suc k) / 2 ≡ ones k
    half = omega arith

    digits_below : a ≡ (a / 2 % 2 ^ k * 2 + a % 2) + a / 2 / 2 ^ k * 2 ^ suc k
    digits_below =
        omega (arith, div-add-mod' (a / 2) (2 ^ k), div-add-mod' a 2, double_pow k (a / 2 / 2 ^ k))

    low_digit : a % 2 ^ suc k ≡ a / 2 % 2 ^ k * 2 + a % 2
    low_digit =
        mod-eq_of_split (a / 2 / 2 ^ k) digits_below
          (omega (arith, pow-suc 2 k, mod-lt (a / 2) (one-le-pow k 2 (omega arith))))

-- A mask of `k` ones is the remainder by `2 ^ k`.
pub bit_and-mask : (k m a : ℕ) → m + 1 ≡ 2 ^ k → bit_and a m ≡ a % 2 ^ k
bit_and-mask k m a h = let e : m ≡ ones k = omega (arith, ones-pow k) in rw e (bit_and-ones k a)

-- Over a small range, every value is checked by evaluation.
agrees_below : ℕ → (ℕ → ℕ) → (ℕ → ℕ) → Bool
agrees_below zero f g = true
agrees_below (suc n) f g = f n == g n && agrees_below n f g

agrees_below_sound : (n : ℕ) (f g : ℕ → ℕ) (x : ℕ) → agrees_below n f g ≡ true → x < n → f x ≡ g x
unfolding agrees_below
agrees_below_sound zero f g x e h = absurd (omega arith)
agrees_below_sound (suc n) f g x e h = ground (arith, agrees_below_sound n f g x)

pub low_seven_bits : (b : ℕ) → b < 256 → bit_and b 0x7f ≡ b % 128
unfolding agrees_below
low_seven_bits b = agrees_below_sound 256 (λ x. bit_and x 0x7f) (λ x. x % 128) b refl

pub top_bit : (b : ℕ) → b < 256 → bit_and b 0x80 ≡ b / 128 * 128
unfolding agrees_below
top_bit b = agrees_below_sound 256 (λ x. bit_and x 0x80) (λ x. x / 128 * 128) b refl

pub set_top_bit : (b : ℕ) → b < 256 → bit_or b 0x80 ≡ b % 128 + 128
unfolding agrees_below
set_top_bit b = agrees_below_sound 256 (λ x. bit_or x 0x80) (λ x. x % 128 + 128) b refl

pub pow-add : (a b : ℕ) → 2 ^ (a + b) ≡ 2 ^ a * 2 ^ b
pow-add a zero = rw add-zero (omega arith)
pow-add a (suc b) = rw add-suc (
    omega
      (arith, pow-suc 2 (a + b), pow-suc 2 b, pow-add a b, ap (λ (t : ℕ). 2 ^ a * t) (pow-suc 2 b)))

pub pow-le-pow : (a b : ℕ) → a ≤ b → 2 ^ a ≤ 2 ^ b
pow-le-pow a b h =
    let split : b ≡ a + (b - a) = omega arith in
    rw (split, pow-add a (b - a)) (grind (arith, one-le-pow (b - a) 2 (omega arith)))

-- One more byte.
pub pow_byte : (i : ℕ) → 2 ^ (suc i * 8) ≡ 256 * 2 ^ (i * 8)
pow_byte i = let e : suc i * 8 ≡ i * 8 + 8 = omega arith in rw (e, pow-add (i * 8) 8) (omega arith)
