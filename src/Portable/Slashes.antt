-- ===== src/Portable/Slashes.antt =====
-- Slashes at the end of a path, and the loop that removes them.
use neutrasearch.Base.{
  ℕ, zero, suc, ◌-◌, false, [], ◌∷◌, ◌≡◌, refl, length, take, Bytes, arith, ◌==◌, lt→ltb,
  append_assoc, take-init, Bool, true, ◌&&◌, ◌||◌, ◌++◌, leb, if◌then◌else◌, ap, ◌∙◌, sym,
  length-append, ltb, not,
}
use neutrasearch.Portable.{ends_with_slash, is_windows_drive_root, has_separator, pop_separators}

abbrev pub slashes_of : ℕ → Bytes
slashes_of zero = []
slashes_of (suc n) = b'/' ∷ slashes_of n

-- A letter with a colon behind it.
abbrev pub is_drive : Bytes → Bool
is_drive (l ∷ c ∷ []) = ((leb 65 l && leb l 90) || (leb 97 l && leb l 122)) && c == b':'
is_drive _ = false

-- What becomes of a path that ends in so many slashes: `/` alone and a drive's root keep one.
abbrev pub normal : Bytes → ℕ → Bytes
normal stem zero = stem
normal [] (suc n) = b'/' ∷ []
normal (c ∷ stem) (suc n) = if is_drive (c ∷ stem) then (c ∷ stem) ++ b'/' ∷ [] else c ∷ stem

slashes_of-snoc : (n : ℕ) → slashes_of (suc n) ≡ slashes_of n ++ b'/' ∷ []
slashes_of-snoc zero = refl
slashes_of-snoc (suc n) = ap (λ t. b'/' ∷ t) (slashes_of-snoc n)

pub length-slashes_of : (n : ℕ) → length (slashes_of n) ≡ n
length-slashes_of zero = refl
length-slashes_of (suc n) = omega (arith, length-slashes_of n)

-- One slash less.
take-slashes :
    (stem : Bytes) (n : ℕ)
    → take (length (stem ++ slashes_of (suc n)) - 1) (stem ++ slashes_of (suc n))
      ≡ stem ++ slashes_of n
take-slashes stem n =
    let last : stem ++ slashes_of (suc n) ≡ (stem ++ slashes_of n) ++ b'/' ∷ [] =
      ap (λ t. stem ++ t) (slashes_of-snoc n)
      ∙ sym (append_assoc stem (slashes_of n) (b'/' ∷ [])) in
    rw last (take-init (stem ++ slashes_of n) b'/')

pub ends-slashes : (stem : Bytes) (n : ℕ) → ends_with_slash (stem ++ slashes_of (suc n)) ≡ true
unfolding ends_with_slash
ends-slashes [] zero = refl
ends-slashes [] (suc n) = ends-slashes [] n
ends-slashes (c ∷ []) n = ends-slashes [] n
ends-slashes (c ∷ d ∷ stem) n = ends-slashes (d ∷ stem) n

-- A drive's root has one slash.
drive-slashes :
    (c : ℕ) (stem : Bytes) (n : ℕ)
    → is_windows_drive_root ((c ∷ stem) ++ slashes_of (suc n)) ≡ (is_drive (c ∷ stem) && n == 0)
unfolding is_windows_drive_root
drive-slashes c [] zero = refl
drive-slashes c [] (suc zero) = ground arith
drive-slashes c [] (suc (suc n)) = refl
drive-slashes c (d ∷ []) zero = ground arith
drive-slashes c (d ∷ []) (suc n) = ground arith
drive-slashes c (d ∷ e ∷ []) n = refl
drive-slashes c (d ∷ e ∷ f ∷ stem) n = refl

pub has_separator-slashes :
    (c : ℕ) (stem : Bytes) (n : ℕ)
    → has_separator ((c ∷ stem) ++ slashes_of (suc n)) ≡ not (is_drive (c ∷ stem) && n == 0)
unfolding has_separator
has_separator-slashes c stem n =
    let long : ltb 1 (length ((c ∷ stem) ++ slashes_of (suc n))) ≡ true =
      lt→ltb 1 _ (omega (arith, length-append stem (slashes_of (suc n)))) in
    rw (has_separator, long, ends-slashes (c ∷ stem) n, drive-slashes c stem n) refl

pub pop-once :
    (fuel : ℕ) (stem : Bytes) (n : ℕ)
    → has_separator (stem ++ slashes_of (suc n)) ≡ true
    → pop_separators (suc fuel) (stem ++ slashes_of (suc n))
      ≡ pop_separators fuel (stem ++ slashes_of n)
unfolding pop_separators
pop-once fuel stem n goes_on =
    rw (pop_separators, goes_on) (ap (pop_separators fuel) (take-slashes stem n))

pub has_separator-plain : (stem : Bytes) → ends_with_slash stem ≡ false → has_separator stem ≡ false
unfolding has_separator
has_separator-plain stem plain = rw (has_separator, plain) (both (ltb 1 (length stem)))
  where
    both : (b : Bool) → ((b && false) && not (is_windows_drive_root stem)) ≡ false
    both true = refl
    both false = refl

pub has_separator-one : has_separator (b'/' ∷ []) ≡ false
unfolding has_separator
has_separator-one = refl

no_drive : (n : ℕ) → is_windows_drive_root (slashes_of (suc (suc n))) ≡ false
unfolding is_windows_drive_root
no_drive zero = refl
no_drive (suc zero) = refl
no_drive (suc (suc n)) = refl

pub has_separator-many : (n : ℕ) → has_separator (slashes_of (suc (suc n))) ≡ true
unfolding has_separator
has_separator-many n =
    let long : ltb 1 (length (slashes_of (suc (suc n)))) ≡ true = lt→ltb 1 _ (omega arith) in
    rw (has_separator, long, ends-slashes [] (suc n), no_drive n) refl

pub suc_not_zero : (n : ℕ) → (suc n == 0) ≡ false
suc_not_zero n = ground arith
