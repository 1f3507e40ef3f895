-- ===== src/Base/Checked.antt =====
-- The checked arithmetic of Rust's `u64`: `none` stands for a result that does not fit.
use Prim.Native.Nat.{ℕ, ◌+◌, ◌*◌, ◌^◌, ◌<◌}
use mathlib.Core.Path.{◌≡◌}
use mathlib.Core.Option.{Option, none, some}
use native.Mathlib.Omega.{arith}
use neutrasearch.Base.Tests.{ltb, if◌then◌else◌}

abbrev pub checked_add : ℕ → ℕ → Option ℕ
checked_add a b = if ltb (a + b) (2 ^ 64) then some (a + b) else none

abbrev pub checked_mul : ℕ → ℕ → Option ℕ
checked_mul a b = if ltb (a * b) (2 ^ 64) then some (a * b) else none

-- A checked sum or product that exists is the sum or product, and fits.
pub checked_add-some : (a b : ℕ) {c : ℕ} → checked_add a b ≡ some c → (c ≡ a + b) × (c < 2 ^ 64)
checked_add-some a b e = ground arith

pub checked_mul-some : (a b : ℕ) {c : ℕ} → checked_mul a b ≡ some c → (c ≡ a * b) × (c < 2 ^ 64)
checked_mul-some a b e = ground arith
