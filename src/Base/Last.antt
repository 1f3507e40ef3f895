-- ===== src/Base/Last.antt =====
-- What stands behind the last of a character.
use Prim.Native.Nat.{ℕ}
use mathlib.Core.Path.{◌≡◌, refl}
use mathlib.Core.Bool.{false}
use mathlib.Core.Option.{none, some}
use mathlib.Core.List.{List, [], ◌∷◌, ◌++◌}
use native.Mathlib.Omega.{arith}
use neutrasearch.Base.Tests.{◌==◌, ==_refl}
use neutrasearch.Base.Table.{contains}
use neutrasearch.Base.Text.{after_last}

pub after_last-absent : (c : ℕ) (s : List ℕ) → contains c s ≡ false → after_last c s ≡ none
unfolding after_last contains
after_last-absent c [] n = refl
after_last-absent c (b ∷ s) n =
    let (here, there) : ((b == c) ≡ false) × (contains c s ≡ false) = ground arith in
    rw (after_last-absent c s there, here) refl

pub after_last-found :
    (c : ℕ) (before s : List ℕ) → contains c s ≡ false → after_last c (before ++ c ∷ s) ≡ some s
unfolding after_last
after_last-found c [] s n = rw (after_last-absent c s n, ==_refl c) refl
after_last-found c (b ∷ before) s n = rw (after_last-found c before s n) refl
