-- ===== src/Query/Filters/Admitted.antt =====
-- What a record that passes the filters is.
use neutrasearch.Base.{
  ℕ, Bool, true, false, not, ◌&&◌, ◌||◌, List, [], ◌∷◌, ◌≡◌, ◌≢◌, refl, Option, none, some, ◌≤◌,
  leb→le, Bytes, All, inl, inr, Bool-cases, equal, equal_iff, ◌==◌, arith, ◌⊎◌,
}
use neutrasearch.Base.Text.{codes, split}
use neutrasearch.Base.Table.{contains}
use neutrasearch.Record.{FileRecord, disk_bytes}
use neutrasearch.Query.Types.{Query}
use neutrasearch.Query.Paths.{
  slash, any_dots, backslash, safe_absolute_path, is_windows_path, path_is_under,
}
use neutrasearch.Query.Paths.Under.{IsUnder, path_is_under_iff}
use neutrasearch.Query.Filters.{any, is_empty, at_least, at_most, in_scope, passes_filters}

-- Some element has the property.
abbrev pub Any {ℓ} : {A : Type ℓ} → (A → Type 0) → List A → Type 0
Any P [] = ⊥
Any P (x ∷ xs) = P x ⊎ Any P xs

-- No component of the path leaves the directory that it stands in.
abbrev pub IsPlain : Bytes → Type 0
IsPlain component = (component ≢ codes ".") × (component ≢ codes "..")

pub record IsAdmitted (q : Query) (r : FileRecord) : Type 0 where
  pub no_zero : contains 0 r.path ≡ false
  pub plain : All IsPlain (split (λ b. b == slash) r.path)
  pub min : (n : ℕ) → q.min_size ≡ some n → n ≤ disk_bytes r
  pub max : (n : ℕ) → q.max_size ≡ some n → disk_bytes r ≤ n
  pub scope : q.scope_roots ≢ [] → Any (IsUnder r.path) q.scope_roots
  pub excluded : All (λ root. ¬ IsUnder r.path root) q.exclude_roots

-- Both factors of a test that holds.
parts : (a b : Bool) → (a && b) ≡ true → (a ≡ true) × (b ≡ true)
parts true true h = (refl, refl)
parts true false h = cc
parts false b h = cc

split-ext : (f g : ℕ → Bool) → ((b : ℕ) → f b ≡ g b) → (path : Bytes) → split f path ≡ split g path
unfolding split
split-ext f g same [] = refl
split-ext f g same (b ∷ path) = rw (split, same b, split-ext f g same path) refl

false_of_not : (b : Bool) → not b ≡ true → b ≡ false
false_of_not false h = refl
false_of_not true h = cc

at_slash : (b : ℕ) → (b == slash || (false && b == backslash)) ≡ (b == slash)
at_slash b = elim (Bool-cases (b == slash)) [ inl same ↦ rw same refl | inr other ↦ rw other refl ]

any_dots-IsPlain : (cs : List Bytes) → any_dots cs ≡ false → All IsPlain cs
unfolding any_dots
any_dots-IsPlain [] h = tt
any_dots-IsPlain (c ∷ cs) h =
    let one : equal c (codes ".") ≡ false = ground arith in
    let two : equal c (codes "..") ≡ false = ground arith in
    let later : any_dots cs ≡ false = ground arith in
    (
      (
        (λ e. let never = (equal_iff c (codes ".")).1 e in cc),
        λ e. let never = (equal_iff c (codes "..")).1 e in cc,
      ),
      any_dots-IsPlain cs later,
    )

safe_absolute_path-IsPlain :
    (path : Bytes)
    → is_windows_path false path ≡ false
    → safe_absolute_path false path ≡ true
    → (contains 0 path ≡ false) × All IsPlain (split (λ b. b == slash) path)
unfolding safe_absolute_path
safe_absolute_path-IsPlain path plain h =
    let (more, no_dots) = parts _ _ (rw plain at h) in
    let (no_zero, absolute) = parts _ _ more in
    (
      false_of_not (contains 0 path) no_zero,
      rw (← split-ext _ _ at_slash path) (any_dots-IsPlain _ (false_of_not _ no_dots)),
    )

at_least-le :
    (bound : Option ℕ) (n size : ℕ) → bound ≡ some n → at_least bound size ≡ true → n ≤ size
unfolding at_least
at_least-le none n size e h = cc
at_least-le (some min) n size e h = let same : min ≡ n = cc in rw same at (leb→le min size h)

at_most-le : (bound : Option ℕ) (n size : ℕ) → bound ≡ some n → at_most bound size ≡ true → size ≤ n
unfolding at_most
at_most-le none n size e h = cc
at_most-le (some max) n size e h = let same : max ≡ n = cc in rw same at (leb→le size max h)

module _ (to_lowercase : Bytes → Bytes) where
  any-IsUnder :
      (path : Bytes) (roots : List Bytes)
      → is_windows_path false path ≡ false
      → All (λ root. is_windows_path false root ≡ false) roots
      → any (in_scope to_lowercase false true path) roots ≡ true
      → Any (IsUnder path) roots
  unfolding any in_scope
  any-IsUnder path [] plain all h = cc
  any-IsUnder path (root ∷ roots) plain (plain_root, all) h =
      elim (Bool-cases (path_is_under to_lowercase false path root)) [
        | inl here ↦ inl ((path_is_under_iff to_lowercase path root plain_root plain).0 here)
        | inr not_here ↦ inr (any-IsUnder path roots plain all (rw (any, not_here) at h))
      ]

  none-IsUnder :
      (path : Bytes) (roots : List Bytes)
      → is_windows_path false path ≡ false
      → All (λ root. is_windows_path false root ≡ false) roots
      → any (in_scope to_lowercase false true path) roots ≡ false
      → All (λ root. ¬ IsUnder path root) roots
  unfolding any in_scope
  none-IsUnder path [] plain all h = tt
  none-IsUnder path (root ∷ roots) plain (plain_root, all) h =
      elim (Bool-cases (path_is_under to_lowercase false path root)) [
        | inl here ↦ let never = rw (any, here) at h in cc
        | inr not_here ↦ (
          (λ under.
              let here = (path_is_under_iff to_lowercase path root plain_root plain).1 under in cc),
          none-IsUnder path roots plain all (rw (any, not_here) at h),
        )
      ]

  scope-Any :
      (path : Bytes) (roots : List Bytes)
      → is_windows_path false path ≡ false
      → All (λ root. is_windows_path false root ≡ false) roots
      → (is_empty roots || any (in_scope to_lowercase false true path) roots) ≡ true
      → roots ≢ []
      → Any (IsUnder path) roots
  scope-Any path [] plain all h n = absurd (n refl)
  scope-Any path (root ∷ roots) plain all h n = any-IsUnder path (root ∷ roots) plain all h

  -- With case-sensitive scopes, and where no path is a Windows path, a record that passes the filters of a
  -- query has a path without a zero byte and without the components `.` and `..`, a size in the bounds of
  -- the query, lies at or under one of the scope roots if there are any, and under no excluded root.
  pub passes_filters-IsAdmitted :
      (q : Query) (r : FileRecord)
      → q.scope_case_sensitive ≡ true
      → is_windows_path false r.path ≡ false
      → All (λ root. is_windows_path false root ≡ false) q.scope_roots
      → All (λ root. is_windows_path false root ≡ false) q.exclude_roots
      → passes_filters to_lowercase false q r ≡ true
      → IsAdmitted q r
  unfolding passes_filters
  passes_filters-IsAdmitted q r sensitive plain plain_scopes plain_excluded h =
      let (h8, excluded) = parts _ _ (rw sensitive at h) in
      let (h7, scope) = parts _ _ h8 in
      let (h6, under) = parts _ _ h7 in
      let (h5, max) = parts _ _ h6 in
      let (h4, min) = parts _ _ h5 in
      let (h3, exts) = parts _ _ h4 in
      let (h2, fs) = parts _ _ h3 in
      let (h1, executable) = parts _ _ h2 in
      let (safe, kind) = parts _ _ h1 in
      let (no_zero, plain_path) = safe_absolute_path-IsPlain r.path plain safe in
      record {
        no_zero = no_zero;
        plain = plain_path;
        min = λ n e. at_least-le q.min_size n (disk_bytes r) e min;
        max = λ n e. at_most-le q.max_size n (disk_bytes r) e max;
        scope = scope-Any r.path q.scope_roots plain plain_scopes scope;
        excluded =
            none-IsUnder r.path q.exclude_roots plain plain_excluded (false_of_not _ excluded);
      }
