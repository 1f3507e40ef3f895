-- ===== src/Portable/Normal.antt =====
-- What `portable_root_prefix` makes of a root.
use neutrasearch.Portable.Slashes.{
  slashes_of, is_drive, normal, length-slashes_of, ends-slashes, has_separator-slashes, pop-once,
  has_separator-plain, has_separator-one, has_separator-many, suc_not_zero,
}
use neutrasearch.Base.{
  ◌≢◌, ℕ, zero, suc, ◌-◌, ◌≤◌, false, [], ◌∷◌, ◌≡◌, refl, length, take, Bytes, All, All-take, inl,
  inr, Bool-cases, arith, ◌==◌, map, length-take, append-nil, ◌+◌, ==_iff, true, ◌++◌,
  if◌then◌else◌, ap, ◌∙◌, length-append,
}
use neutrasearch.Portable.{
  ends_with_slash, has_separator, pop_separators, slash_of, portable_root_prefix,
}

pop_separators-stops :
    (fuel : ℕ) (value : Bytes)
    → length value ≤ fuel
    → has_separator (pop_separators fuel value) ≡ false
unfolding pop_separators has_separator
pop_separators-stops zero [] h = refl
pop_separators-stops zero (b ∷ value) h = absurd (omega arith)
pop_separators-stops (suc fuel) value h = elim (Bool-cases (has_separator value)) [
  | inl goes_on ↦
      rw (pop_separators, goes_on)
        (pop_separators-stops fuel (take (length value - 1) value)
          (omega (arith, length-take (length value - 1) value)))
  | inr stops ↦ rw (pop_separators, stops) stops
]

All-pop_separators :
    (P : ℕ → Type 0) (fuel : ℕ) (value : Bytes) → All P value → All P (pop_separators fuel value)
unfolding pop_separators
All-pop_separators P zero value h = h
All-pop_separators P (suc fuel) value h = elim (Bool-cases (has_separator value)) [
  | inl goes_on ↦
      rw (pop_separators, goes_on)
        (All-pop_separators P fuel (take (length value - 1) value)
          (All-take P (length value - 1) value h))
  | inr stops ↦ rw (pop_separators, stops) h
]

slashes : (root : Bytes) → All (λ b. (b == 92) ≡ false) (map slash_of root)
slashes [] = tt
slashes (b ∷ root) = (
  elim (Bool-cases (b == 92)) [ inl same ↦ rw same refl | inr other ↦ rw other other ],
  slashes root,
)

map-slash_of : (value : Bytes) → All (λ b. (b == 92) ≡ false) value → map slash_of value ≡ value
map-slash_of [] h = refl
map-slash_of (b ∷ value) (here, h) = rw (here, map-slash_of value h) refl

pop_separators-stopped :
    (fuel : ℕ) (value : Bytes) → has_separator value ≡ false → pop_separators fuel value ≡ value
unfolding pop_separators
pop_separators-stopped zero value h = refl
pop_separators-stopped (suc fuel) value h = rw (pop_separators, h) refl

pop_separators-normal :
    (fuel : ℕ) (stem : Bytes) (n : ℕ)
    → ends_with_slash stem ≡ false
    → length stem + n ≤ fuel
    → pop_separators fuel (stem ++ slashes_of n) ≡ normal stem n
pop_separators-normal fuel stem zero plain enough =
    rw (append-nil stem) (pop_separators-stopped fuel stem (has_separator-plain stem plain))
pop_separators-normal zero stem (suc n) plain enough = absurd (omega arith)
pop_separators-normal (suc fuel) [] (suc zero) plain enough =
    pop_separators-stopped (suc fuel) (b'/' ∷ []) has_separator-one
pop_separators-normal (suc fuel) [] (suc (suc n)) plain enough =
    pop-once fuel [] (suc n) (has_separator-many n)
    ∙ pop_separators-normal fuel [] (suc n) plain (omega arith)
pop_separators-normal (suc fuel) (c ∷ stem) (suc n) plain enough =
    let rest = pop_separators-normal fuel (c ∷ stem) n plain (omega arith) in
    elim (Bool-cases (is_drive (c ∷ stem))) [
      | inl drive ↦ at_drive n drive rest
      | inr folder ↦
          pop-once fuel (c ∷ stem) n (rw (has_separator-slashes c stem n, folder) refl)
          ∙ rest
          ∙ in_folder n folder
    ]
  where
    at_drive :
        (n : ℕ)
        → is_drive (c ∷ stem) ≡ true
        → pop_separators fuel ((c ∷ stem) ++ slashes_of n) ≡ normal (c ∷ stem) n
        → pop_separators (suc fuel) ((c ∷ stem) ++ slashes_of (suc n)) ≡ normal (c ∷ stem) (suc n)
    at_drive zero drive rest = rw drive (
        pop_separators-stopped (suc fuel) ((c ∷ stem) ++ slashes_of 1)
          (rw (has_separator-slashes c stem 0, drive) refl))
    at_drive (suc n) drive rest =
        pop-once fuel (c ∷ stem) (suc n)
          (rw (has_separator-slashes c stem (suc n), drive, suc_not_zero n) refl)
        ∙ rest

    in_folder :
        (n : ℕ) → is_drive (c ∷ stem) ≡ false → normal (c ∷ stem) n ≡ normal (c ∷ stem) (suc n)
    in_folder zero folder = rw folder refl
    in_folder (suc n) folder = rw folder refl

split_slashes :
    (value : Bytes)
    → (stem : Bytes) × (n : ℕ) × (ends_with_slash stem ≡ false) × (value ≡ stem ++ slashes_of n)
unfolding ends_with_slash
split_slashes [] = ([], 0, refl, refl)
split_slashes (c ∷ value) = longer (split_slashes value)
  where
    longer :
        (stem : Bytes) × (n : ℕ) × (ends_with_slash stem ≡ false) × (value ≡ stem ++ slashes_of n)
        → (stem : Bytes) × (n : ℕ) × (ends_with_slash stem ≡ false)
          × (c ∷ value ≡ stem ++ slashes_of n)
    longer (d ∷ stem, n, plain, same) = (c ∷ d ∷ stem, n, plain, ap (λ t. c ∷ t) same)
    longer ([], n, plain, same) = elim (Bool-cases (c == b'/')) [
      | inl slash ↦ ([], suc n, refl, rw ((==_iff c b'/').0 slash) (ap (λ t. b'/' ∷ t) same))
      | inr other ↦ (c ∷ [], n, other, ap (λ t. c ∷ t) same)
    ]

no_slash : (stem : Bytes) → ends_with_slash stem ≡ false → (s : Bytes) → stem ≢ s ++ b'/' ∷ []
no_slash stem plain s same =
    let ends = ends-slashes s 0 in let never = ap ends_with_slash same in cc

-- The slashed form of a root is some text that does not end in a slash and some slashes, and of these
-- `portable_root_prefix` leaves the text alone, but for `/` and a drive's root, which keep one slash. It
-- leaves no backslash, and it changes nothing when it is applied again.
pub portable_root_prefix-IsNormal :
    (root : Bytes)
    → ((stem : Bytes) × (n : ℕ) × ((s : Bytes) → stem ≢ s ++ b'/' ∷ [])
        × (map (λ b. if b == 92 then 47 else b) root ≡ stem ++ slashes_of n)
        × (portable_root_prefix root ≡ normal stem n))
      × All (λ b. (b == 92) ≡ false) (portable_root_prefix root)
      × (portable_root_prefix (portable_root_prefix root) ≡ portable_root_prefix root)
unfolding portable_root_prefix
portable_root_prefix-IsNormal root =
    let value = map slash_of root in
    let (stem, n, plain, same) = split_slashes value in
    let ends = All-pop_separators (λ b. (b == 92) ≡ false) (length value) value (slashes root) in
    let stops = pop_separators-stops (length value) value (omega arith) in
    (
      (
        stem,
        n,
        no_slash stem plain,
        same,
        ap (pop_separators (length value)) same
            ∙ pop_separators-normal (length value) stem n plain (
                omega
                  (arith, ap length same, length-append stem (slashes_of n), length-slashes_of n)),
      ),
      ends,
      rw (map-slash_of (pop_separators (length value) value) ends) (
          pop_separators-stopped (length (pop_separators (length value) value))
            (pop_separators (length value) value) stops),
    )
