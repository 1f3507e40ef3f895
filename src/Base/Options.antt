-- ===== src/Base/Options.antt =====
-- `?` on an `Option`.
use mathlib.Core.Path.{◌≡◌, refl}
use mathlib.Core.Option.{Option, none, some}

infixl 5 ◌>>=◌
abbrev pub ◌>>=◌ : {A B : Type 0} → Option A → (A → Option B) → Option B
none >>= f = none
some a >>= f = f a

-- A block that has a result had one at its first step.
pub >>=-eq-some :
    {A B : Type 0} (step : Option A) (rest : A → Option B) {out : B}
    → (step >>= rest) ≡ some out
    → (got : A) × (step ≡ some got) × (rest got ≡ some out)
>>=-eq-some none rest ran = cc
>>=-eq-some (some got) rest ran = (got, refl, ran)
