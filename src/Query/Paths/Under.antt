-- ===== src/Query/Paths/Under.antt =====
-- `path_is_under` where no path is a Windows path.
use neutrasearch.Base.{
  ℕ, ◌+◌, ◌≡◌, ◌∙◌, ◌↔◌, ◌⊎◌, inl, inr, sym, ap, refl, arith, Bool, true, false, ◌||◌, [], ◌∷◌,
  ◌++◌, some, none, Option, length, length-append, length-take_of_le, take, drop, take-drop,
  get_elem?, slice, slice-middle, Bool-cases, ◌-◌, slice_inside, ◌==◌, ==_iff, ==_refl, Bytes,
  Option-cases, append_assoc, append-nil,
}
use mathlib.Core.Path.{subst}
use mathlib.Core.Option.{some-injective}
use neutrasearch.Query.Paths.{
  slash, last, is_path_separator, same_byte, same_prefix, component_path_is_under, path_is_under,
  is_windows_path,
}

-- `path` is `root`, or goes on below it.
abbrev pub IsUnder : Bytes → Bytes → Type 0
IsUnder path root =
    (rest : Bytes) × (path ≡ root ++ rest)
    × ((rest ≡ []) ⊎ ((last root ≡ some slash) ⊎ (get_elem? rest 0 ≡ some slash)))

same_prefix-eq : (a b : Bytes) → length a ≡ length b → same_prefix false true a b ≡ true → a ≡ b
unfolding same_prefix same_byte
same_prefix-eq [] [] size same = refl
same_prefix-eq [] (y ∷ b) size same = absurd (omega arith)
same_prefix-eq (x ∷ a) [] size same = absurd (omega arith)
same_prefix-eq (x ∷ a) (y ∷ b) size same =
    let (here, there) : ((x == y) ≡ true) × (same_prefix false true a b ≡ true) = ground arith in
    let head : x ≡ y = (==_iff x y).0 here in rw (head, same_prefix-eq a b (omega arith) there) refl

same_prefix_refl : (a : Bytes) → same_prefix false true a a ≡ true
unfolding same_prefix same_byte
same_prefix_refl [] = refl
same_prefix_refl (x ∷ a) = rw (==_refl x, same_prefix_refl a) refl

pub get_elem?-behind : (a b : Bytes) → get_elem? (a ++ b) (length a) ≡ get_elem? b 0
get_elem?-behind [] b = refl
get_elem?-behind (x ∷ a) b = get_elem?-behind a b

separator_iff : (o : Option ℕ) → (is_path_separator o false ≡ true) ↔ (o ≡ some slash)
unfolding is_path_separator
separator_iff none = (λ h. cc, λ h. cc)
separator_iff (some b) = (
  λ h. ap some ((==_iff b slash).0 (ground arith)),
  λ h. let same : b ≡ slash = some-injective b slash h in rw (same, ==_refl slash) refl,
)

whole_iff : (root rest : Bytes) → ((length (root ++ rest) == length root) ≡ true) ↔ (rest ≡ [])
whole_iff root [] = (λ h. refl, λ h. rw (append-nil root) (==_refl (length root)))
whole_iff root (b ∷ rest) = (
  (λ h.
      let same = (==_iff (length (root ++ b ∷ rest)) (length root)).0 h in
      absurd (omega (arith, same, length-append root (b ∷ rest)))),
  λ h. cc,
)

any_of : (a b c : Bool) → ((a || b || c) ≡ true) ↔ ((a ≡ true) ⊎ ((b ≡ true) ⊎ (c ≡ true)))
any_of true b c = (λ h. inl refl, λ h. refl)
any_of false true c = (λ h. inr (inl refl), λ h. refl)
any_of false false c = (
  λ h. inr (inr h),
  λ (h : (false ≡ true) ⊎ ((false ≡ true) ⊎ (c ≡ true))). elim h [
    | inl never ↦ cc
    | inr more ↦ elim more [ inl never ↦ cc | inr yes_c ↦ yes_c ]
  ],
)

slice-front : (root rest : Bytes) → slice (root ++ rest) 0 (length root) ≡ some root
slice-front root rest =
    let whole : 0 + length root ≡ length root = omega arith in
    rw whole at (slice-middle [] root rest)

-- A slice from the front is what the path starts with.
slice_front_inside :
    (path prefix : Bytes) (n : ℕ)
    → slice path 0 n ≡ some prefix
    → (prefix ≡ take n path) × (length prefix ≡ n)
slice_front_inside path prefix n cut =
    let (is, _, inside) = slice_inside path 0 n cut in
    let whole : n - 0 ≡ n = omega arith in
    let starts : prefix ≡ take n path = rw whole at is in
    (starts, ap length starts ∙ length-take_of_le n path inside)

-- What stands between the root and the path, in two parts.
joined :
    (root middle rest rest' : Bytes)
    → middle ≡ root ++ rest'
    → ((rest ≡ []) ⊎ ((last middle ≡ some slash) ⊎ (get_elem? rest 0 ≡ some slash)))
    → ((rest' ≡ []) ⊎ ((last root ≡ some slash) ⊎ (get_elem? rest' 0 ≡ some slash)))
    → ((rest' ++ rest ≡ [])
        ⊎ ((last root ≡ some slash) ⊎ (get_elem? (rest' ++ rest) 0 ≡ some slash)))
joined root middle rest [] is how how' =
    subst (λ t. (rest ≡ []) ⊎ ((last t ≡ some slash) ⊎ (get_elem? rest 0 ≡ some slash)))
      (is ∙ append-nil root) how
joined root middle rest (b ∷ rest') is how (inl none_left) = cc
joined root middle rest (b ∷ rest') is how (inr (inl ends)) = inr (inl ends)
joined root middle rest (b ∷ rest') is how (inr (inr starts)) = inr (inr starts)

module _ (to_lowercase : Bytes → Bytes) where
  -- The test behind the comparison of the prefix.
  under-test :
      (root rest : Bytes)
      → component_path_is_under to_lowercase (root ++ rest) root false true ≡ (
          length (root ++ rest) == length root
          || is_path_separator (last root) false
          || is_path_separator (get_elem? rest 0) false)
  unfolding component_path_is_under
  under-test root rest =
      rw
        (
          component_path_is_under,
          slice-front root rest,
          same_prefix_refl root,
          get_elem?-behind root rest,
        )
        refl

  under-prefix :
      (path root : Bytes)
      → component_path_is_under to_lowercase path root false true ≡ true
      → path ≡ root ++ drop (length root) path
  unfolding component_path_is_under
  under-prefix path root h = elim (Option-cases (slice path 0 (length root))) [
    | inl short ↦ let never = rw (component_path_is_under, short) at h in cc
    | inr (prefix, cut) ↦
        let (is, size) = slice_front_inside path prefix (length root) cut in
        elim (Bool-cases (same_prefix false true prefix root)) [
          | inl same ↦
              take-drop (length root) path
              ∙ ap (λ t. t ++ drop (length root) path)
                  (sym is ∙ same_prefix-eq prefix root size same)
          | inr other ↦ let never = rw (component_path_is_under, cut, other) at h in cc
        ]
  ]

  -- The test means what its three parts say.
  under-parts :
      (root rest : Bytes)
      → ((length (root ++ rest) == length root
            || is_path_separator (last root) false
            || is_path_separator (get_elem? rest 0) false)
          ≡ true)
        ↔ ((rest ≡ []) ⊎ ((last root ≡ some slash) ⊎ (get_elem? rest 0 ≡ some slash)))
  under-parts root rest =
      let parts =
        any_of (length (root ++ rest) == length root) (is_path_separator (last root) false)
          (is_path_separator (get_elem? rest 0) false) in
      (
        (λ h. elim (parts.0 h) [
          | inl whole ↦ inl ((whole_iff root rest).0 whole)
          | inr more ↦ elim more [
            | inl ends ↦ inr (inl ((separator_iff (last root)).0 ends))
            | inr starts ↦ inr (inr ((separator_iff (get_elem? rest 0)).0 starts))
          ]
        ]),
        λ (h : (rest ≡ []) ⊎ ((last root ≡ some slash) ⊎ (get_elem? rest 0 ≡ some slash))). elim h [
          | inl whole ↦ parts.1 (inl ((whole_iff root rest).1 whole))
          | inr more ↦ elim more [
            | inl ends ↦ parts.1 (inr (inl ((separator_iff (last root)).1 ends)))
            | inr starts ↦ parts.1 (inr (inr ((separator_iff (get_elem? rest 0)).1 starts)))
          ]
        ],
      )

  -- Where neither is a Windows path, `path_is_under` holds exactly for the root itself, for what follows
  -- a root that ends in a slash, and for what a slash separates from the root.
  pub path_is_under_iff :
      (path root : Bytes)
      → is_windows_path false root ≡ false
      → is_windows_path false path ≡ false
      → (path_is_under to_lowercase false path root ≡ true) ↔ IsUnder path root
  unfolding path_is_under
  path_is_under_iff path root plain_root plain_path = (
    (λ h.
        let under : component_path_is_under to_lowercase path root false true ≡ true =
          rw (plain_root, plain_path) at h in
        let starts = under-prefix path root under in
        let rest = drop (length root) path in
        (
          rest,
          starts,
          (under-parts root rest).0 (
              sym (under-test root rest)
              ∙ ap (λ t. component_path_is_under to_lowercase t root false true) (sym starts)
              ∙ under),
        )),
    λ (rest, starts, how).
        rw (plain_root, plain_path)
          (ap (λ t. component_path_is_under to_lowercase t root false true) starts
            ∙ under-test root rest
            ∙ (under-parts root rest).1 how),
  )

  -- Where none is a Windows path, a path under one that is under `root` is under `root`.
  path_is_under_trans :
      (path middle root : Bytes)
      → is_windows_path false root ≡ false
      → is_windows_path false middle ≡ false
      → is_windows_path false path ≡ false
      → path_is_under to_lowercase false path middle ≡ true
      → path_is_under to_lowercase false middle root ≡ true
      → path_is_under to_lowercase false path root ≡ true
  path_is_under_trans path middle root plain_root plain_middle plain_path h k =
      let (rest, is, how) = (path_is_under_iff path middle plain_middle plain_path).0 h in
      let (rest', is', how') = (path_is_under_iff middle root plain_root plain_middle).0 k in
      (path_is_under_iff path root plain_root plain_path).1 (
        rest' ++ rest,
        is ∙ ap (λ t. t ++ rest) is' ∙ append_assoc root rest' rest,
        joined root middle rest rest' is' how how',
      )
