-- ===== src/Portable/Under.antt =====
-- `path_in_portable_root` and the test of scopes in a query.
use neutrasearch.Base.{
  length-append, lt→ltb, ltb, length, get_elem?, arith, ℕ, Bool, true, false, ◌&&◌, [], ◌∷◌, ◌++◌,
  ◌≡◌, ◌↔◌, ◌∙◌, refl, sym, ap, some, none, Bytes, inl, inr, Bool-cases, Option-cases, ◌==◌, ==_iff,
  ==_refl, equal, equal_iff, append-nil, if◌then◌else◌,
}
use neutrasearch.Query.Paths.Under.{path_is_under_iff, IsUnder, get_elem?-behind}
use neutrasearch.Query.Paths.{path_is_under, is_windows_path, slash, last}
use mathlib.Core.Option.{Option, some-injective}
use neutrasearch.Base.Text.{strip_prefix}
use neutrasearch.Portable.{ends_with_slash, starts_with, path_in_portable_root}

strip_prefix-append : (prefix rest : Bytes) → strip_prefix prefix (prefix ++ rest) ≡ some rest
unfolding strip_prefix
strip_prefix-append [] rest = refl
strip_prefix-append (p ∷ prefix) rest = rw (==_refl p) (strip_prefix-append prefix rest)

strip_prefix-some :
    (prefix path : Bytes) {rest : Bytes}
    → strip_prefix prefix path ≡ some rest
    → path ≡ prefix ++ rest
unfolding strip_prefix
strip_prefix-some [] path e = cc
strip_prefix-some (p ∷ prefix) [] e = cc
strip_prefix-some (p ∷ prefix) (c ∷ path) {rest} e = elim (Bool-cases (p == c)) [
  | inl same ↦
      let later : strip_prefix prefix path ≡ some rest = rw (strip_prefix, same) at e in
      rw ((==_iff p c).0 same) (ap (λ t. c ∷ t) (strip_prefix-some prefix path later))
  | inr other ↦ let never = rw (strip_prefix, other) at e in cc
]

ends_with_slash_iff : (root : Bytes) → (ends_with_slash root ≡ true) ↔ (last root ≡ some slash)
unfolding ends_with_slash
ends_with_slash_iff [] = (λ h. cc, λ h. cc)
ends_with_slash_iff (b ∷ []) = (
  λ h. ap some ((==_iff b slash).0 h),
  λ h. let same : b ≡ slash = some-injective b slash h in rw same (==_refl slash),
)
ends_with_slash_iff (b ∷ c ∷ root) = ends_with_slash_iff (c ∷ root)

-- The test where the root does not end in a separator.
starts_with-inside :
    (path root : Bytes) → starts_with path root ≡ true → (rest : Bytes) × (path ≡ root ++ rest)
unfolding starts_with
starts_with-inside path root h = elim (Option-cases (strip_prefix root path)) [
  | inl absent ↦ let never = rw (starts_with, absent) at h in cc
  | inr (rest, found) ↦ (rest, strip_prefix-some root path found)
]

both : (a b c : Bool) → (a && b && c) ≡ true → (b ≡ true) × (c ≡ true)
both a b c h = ground arith

slash_at : (o : Option ℕ) → elim o [ none ↦ false | some b ↦ b == b'/' ] ≡ true → o ≡ some slash
slash_at none h = cc
slash_at (some b) h = ap some ((==_iff b slash).0 h)

same_test : (a b : Bool) → (a ≡ true → b ≡ true) → (b ≡ true → a ≡ true) → a ≡ b
same_test true b to from = sym (to refl)
same_test false true to from = from refl
same_test false false to from = refl

in_portable_root-IsUnder :
    (path root : Bytes) → path_in_portable_root path root ≡ true → IsUnder path root
unfolding path_in_portable_root
in_portable_root-IsUnder path root h = elim (Bool-cases (equal path root)) [
  | inl same ↦ ([], (equal_iff path root).0 same ∙ sym (append-nil root), inl refl)
  | inr other ↦ elim (Bool-cases (ends_with_slash root)) [
    | inl ends ↦
        let (rest, is) = starts_with-inside path root (rw (other, ends) at h) in
        (rest, is, inr (inl ((ends_with_slash_iff root).0 ends)))
    | inr open_end ↦
        let (starts, next) = both _ _ _ (rw (other, open_end) at h) in
        let (rest, is) = starts_with-inside path root starts in
        let here = slash_at (get_elem? path (length root)) next in
        let there : get_elem? (root ++ rest) (length root) ≡ some slash = rw is at here in
        (rest, is, inr (inr (sym (get_elem?-behind root rest) ∙ there)))
  ]
]

starts_with_append : (root rest : Bytes) → starts_with (root ++ rest) root ≡ true
unfolding starts_with
starts_with_append root rest = rw (starts_with, strip_prefix-append root rest) refl

-- The test on a root and what follows it.
in_portable_root_open :
    (root rest : Bytes)
    → get_elem? rest 0 ≡ some slash
    → (if ends_with_slash root
        then starts_with (root ++ rest) root
        else ltb (length root) (length (root ++ rest))
          && starts_with (root ++ rest) root
          && elim (get_elem? (root ++ rest) (length root)) [ none ↦ false | some b ↦ b == b'/' ])
      ≡ true
in_portable_root_open root [] h = cc
in_portable_root_open root (b ∷ rest) h = elim (Bool-cases (ends_with_slash root)) [
  | inl ends ↦ rw ends (starts_with_append root (b ∷ rest))
  | inr open_end ↦
      let longer : ltb (length root) (length (root ++ b ∷ rest)) ≡ true =
        lt→ltb (length root) (length (root ++ b ∷ rest))
          (omega (arith, length-append root (b ∷ rest))) in
      let next = get_elem?-behind root (b ∷ rest) ∙ h in
      rw (open_end, longer, starts_with_append root (b ∷ rest), next) refl
]

IsUnder-in_portable_root :
    (path root : Bytes) → IsUnder path root → path_in_portable_root path root ≡ true
unfolding path_in_portable_root
IsUnder-in_portable_root path root (rest, is, how) =
    rw is (elim (Bool-cases (equal (root ++ rest) root)) [
      | inl same ↦ rw same refl
      | inr other ↦ rw other (elim how [
        | inl whole ↦
            let never =
              (equal_iff (root ++ rest) root).1 (ap (λ t. root ++ t) whole ∙ append-nil root) in
            cc
        | inr more ↦ elim more [
          | inl ends ↦ rw ((ends_with_slash_iff root).1 ends) (starts_with_append root rest)
          | inr starts ↦ in_portable_root_open root rest starts
        ]
      ])
    ])

-- `path_in_portable_root` holds exactly for the root itself, for what follows a root that ends in a slash,
-- and for what a slash separates from the root; so it decides as the scopes of a query do where no path is
-- a Windows path.
pub path_in_portable_root_iff :
    (path root : Bytes)
    → ((path_in_portable_root path root ≡ true) ↔ IsUnder path root)
      × ((to_lowercase : Bytes → Bytes)
          → is_windows_path false root ≡ false
          → is_windows_path false path ≡ false
          → path_in_portable_root path root ≡ path_is_under to_lowercase false path root)
path_in_portable_root_iff path root = (
  (in_portable_root-IsUnder path root, IsUnder-in_portable_root path root),
  λ to_lowercase plain_root plain_path.
      let (to, from) = path_is_under_iff to_lowercase path root plain_root plain_path in
      same_test _ _ (λ h. from (in_portable_root-IsUnder path root h))
        (λ h. IsUnder-in_portable_root path root (to h)),
)
