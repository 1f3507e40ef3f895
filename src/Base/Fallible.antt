-- ===== src/Base/Fallible.antt =====
-- The result of fallible Rust code: a value, a reported error, or a fault, which no Rust value
-- stands for: a panic (an index out of range, an `unwrap` of `None`, an overflow that the code does
-- not check) or a loop that used up the model's fuel.
use mathlib.Core.Path.{◌≡◌, refl}
use mathlib.Core.Logic.{◌≢◌}
use mathlib.Core.Option.{Option, none, some}
use mathlib.Core.Bool.{Bool, true, false}
use neutrasearch.Base.Tests.{if◌then◌else◌}

pub data Outcome {ℓ} (E : Type 0) (A : Type ℓ) : Type ℓ where
  ok : A → Outcome E A
  err : E → Outcome E A
  fault : Outcome E A

-- `map_err`
abbrev pub map_err {ℓ} : {E F : Type 0} {A : Type ℓ} → (E → F) → Outcome E A → Outcome F A
map_err f (ok a) = ok a
map_err f (err e) = err (f e)
map_err f fault = fault

pub map_err_ok {ℓ} :
    {E F : Type 0} {A : Type ℓ} (f : E → F) (m : Outcome E A) {a : A}
    → map_err f m ≡ ok a
    → m ≡ ok a
map_err_ok f (ok b) h = cc
map_err_ok f (err e) h = cc
map_err_ok f fault h = cc

module _ {E : Type 0} where
  infixl 5 ◌>>=◌ ◌>>◌
  abbrev pub ◌>>=◌ {ℓ κ} : {A : Type ℓ} {B : Type κ} → Outcome E A → (A → Outcome E B) → Outcome E B
  ok a >>= f = f a
  err e >>= f = err e
  fault >>= f = fault

  abbrev pub ◌>>◌ {κ} : {B : Type κ} → Outcome E (Unit {0}) → Outcome E B → Outcome E B
  m >> k = m >>= λ _. k

  -- `bail!` when the test fails.
  abbrev pub ensure : Bool → E → Outcome E (Unit {0})
  ensure true e = ok tt
  ensure false e = err e

  -- `.context(e)?` and `.ok_or(e)?` on an `Option`.
  abbrev pub context {ℓ} : {A : Type ℓ} → Option A → E → Outcome E A
  context (some a) e = ok a
  context none e = err e

  -- `.unwrap()` and indexing: `none` is a panic.
  abbrev pub unwrap {ℓ} : {A : Type ℓ} → Option A → Outcome E A
  unwrap (some a) = ok a
  unwrap none = fault

  -- The code returned a value or reported an error.
  pub record IsReported {ℓ} {A : Type ℓ} (m : Outcome E A) : Type ℓ where
    pub no_fault : m ≢ fault

  pub ok-IsReported {ℓ} : {A : Type ℓ} (a : A) → IsReported (ok a)
  ok-IsReported a = record { no_fault = λ e. cc }

  pub err-IsReported {ℓ} : {A : Type ℓ} (e : E) → IsReported {A = A} (err e)
  err-IsReported e = record { no_fault = λ p. cc }

  -- A block that ended well had a first step that ended well.
  pub >>=-eq-ok {ℓ κ} :
      {A : Type ℓ} {B : Type κ} (step : Outcome E A) (rest : A → Outcome E B) {out : B}
      → (step >>= rest) ≡ ok out
      → (got : A) × (step ≡ ok got) × (rest got ≡ ok out)
  >>=-eq-ok fault rest ran = cc
  >>=-eq-ok (err failure) rest ran = cc
  >>=-eq-ok (ok got) rest ran = (got, refl, ran)

  pub >>=-IsReported {ℓ κ} :
      {A : Type ℓ} {B : Type κ} (m : Outcome E A) (f : A → Outcome E B)
      → IsReported m
      → ((a : A) → m ≡ ok a → IsReported (f a))
      → IsReported (m >>= f)
  >>=-IsReported (ok a) f h k = k a refl
  >>=-IsReported (err e) f h k = err-IsReported e
  >>=-IsReported fault f h k = absurd (h.no_fault refl)

  -- The rules by which a `do` block is shown to report: one for each kind of step.
  pub ensure_step {κ} :
      {B : Type κ} (b : Bool) (e : E) {k : Outcome E B}
      → (b ≡ true → IsReported k)
      → IsReported (ensure b e >> k)
  ensure_step true e h = h refl
  ensure_step false e h = err-IsReported e

  pub context_step {ℓ κ} :
      {A : Type ℓ} {B : Type κ} (o : Option A) (e : E) {f : A → Outcome E B}
      → ((a : A) → o ≡ some a → IsReported (f a))
      → IsReported (context o e >>= f)
  context_step none e h = err-IsReported e
  context_step (some a) e h = h a refl

  pub unwrap_step {ℓ κ} :
      {A : Type ℓ} {B : Type κ} (o : Option A) {f : A → Outcome E B}
      → (a : A) × (o ≡ some a)
      → ((a : A) → o ≡ some a → IsReported (f a))
      → IsReported (unwrap o >>= f)
  unwrap_step none (a, e) h = cc
  unwrap_step (some a) e h = h a refl

  pub if_step {κ} :
      {B : Type κ} (b : Bool) {m k : Outcome E B}
      → (b ≡ true → IsReported m)
      → (b ≡ false → IsReported k)
      → IsReported (if b then m else k)
  if_step true h l = h refl
  if_step false h l = l refl

  pub ok-injective : {A : Type 0} {a b : A} → ◌≡◌ {A = Outcome E A} (ok a) (ok b) → a ≡ b
  ok-injective e = cc

  -- What a successful `do` block went through, step by step.
  pub ensure_ok {κ} :
      {B : Type κ} (b : Bool) (e : E) (k : Outcome E B) {x : B}
      → (ensure b e >> k) ≡ ok x
      → (b ≡ true) × (k ≡ ok x)
  ensure_ok true e k h = (refl, h)
  ensure_ok false e k h = cc

  pub unwrap_ok {ℓ κ} :
      {A : Type ℓ} {B : Type κ} (o : Option A) (f : A → Outcome E B) {x : B}
      → (unwrap o >>= f) ≡ ok x
      → (a : A) × (o ≡ some a) × (f a ≡ ok x)
  unwrap_ok none f h = cc
  unwrap_ok (some a) f h = (a, refl, h)

  pub context_ok {ℓ κ} :
      {A : Type ℓ} {B : Type κ} (o : Option A) (e : E) (f : A → Outcome E B) {x : B}
      → (context o e >>= f) ≡ ok x
      → (a : A) × (o ≡ some a) × (f a ≡ ok x)
  context_ok none e f h = cc
  context_ok (some a) e f h = (a, refl, h)
