-- ===== src/Query/Paths.antt =====
-- The paths of crates/neutra-core/src/query/syntax.rs. `on_windows` is `cfg!(target_os = "windows")`,
-- and `to_lowercase` the case fold of the standard library. A path is its bytes.
pub mod Under
mod Examples
use neutrasearch.Base.{
  ℕ, zero, suc, ◌+◌, Bool, true, false, not, ◌&&◌, ◌||◌, List, [], ◌∷◌, Option, none, some, length,
  get_elem?, slice, ltb, leb, ◌==◌, if◌then◌else◌, Bytes, equal,
}
use neutrasearch.Base.Table.{contains}
use neutrasearch.Base.Text.{split}

abbrev pub slash : ℕ
slash = b'/'

abbrev pub backslash : ℕ
backslash = 92

abbrev is_ascii_alphabetic : ℕ → Bool
is_ascii_alphabetic b = (leb 65 b && leb b 90) || (leb 97 b && leb b 122)

-- A letter, a colon and a separator.
unfoldable pub has_drive : Bytes → Bool
has_drive (a ∷ b ∷ c ∷ rest) = is_ascii_alphabetic a && b == b':' && (c == slash || c == backslash)
has_drive _ = false

-- `starts_with("\\\\")`
unfoldable pub is_unc : Bytes → Bool
is_unc (a ∷ b ∷ rest) = a == backslash && b == backslash
is_unc _ = false

unfoldable pub is_windows_path : Bool → Bytes → Bool
is_windows_path on_windows path = on_windows || has_drive path || is_unc path

unfoldable pub any_dots : List Bytes → Bool
any_dots [] = false
any_dots (c ∷ cs) = equal c (b'.' ∷ []) || equal c (b'.' ∷ b'.' ∷ []) || any_dots cs

abbrev starts_with_slash : Bytes → Bool
starts_with_slash [] = false
starts_with_slash (b ∷ path) = b == slash

unfoldable pub safe_absolute_path : Bool → Bytes → Bool
safe_absolute_path on_windows path =
    let portable_absolute = starts_with_slash path || has_drive path || is_unc path in
    let windows = is_windows_path on_windows path in
    not (contains 0 path)
    && portable_absolute
    && not (any_dots (split (λ b. b == slash || (windows && b == backslash)) path))

unfoldable pub is_path_separator : Option ℕ → Bool → Bool
is_path_separator none windows = false
is_path_separator (some b) windows = b == slash || (windows && b == backslash)

abbrev pub to_ascii_lowercase : ℕ → ℕ
to_ascii_lowercase b = if leb 65 b && leb b 90 then b + 32 else b

-- The closure of `all`.
unfoldable pub same_byte : Bool → Bool → ℕ → ℕ → Bool
same_byte windows case_sensitive left right =
    if windows
      && not (left == right)
      && (left == slash || left == backslash)
      && (right == slash || right == backslash)
    then true
    else if case_sensitive
    then left == right
    else to_ascii_lowercase left == to_ascii_lowercase right

-- `prefix.iter().zip(root).all(..)`
unfoldable pub same_prefix : Bool → Bool → Bytes → Bytes → Bool
same_prefix windows case_sensitive (l ∷ left) (r ∷ right) =
    same_byte windows case_sensitive l r && same_prefix windows case_sensitive left right
same_prefix windows case_sensitive _ _ = true

unfoldable pub is_ascii : Bytes → Bool
is_ascii [] = true
is_ascii (b ∷ bytes) = ltb b 128 && is_ascii bytes

abbrev pub last : Bytes → Option ℕ
last [] = none
last (b ∷ []) = some b
last (b ∷ c ∷ bytes) = last (c ∷ bytes)

module _ (to_lowercase : Bytes → Bytes) where
  unfoldable pub component_path_is_under : Bytes → Bytes → Bool → Bool → Bool
  component_path_is_under path root windows case_sensitive =
      let path' = if case_sensitive || is_ascii path then path else to_lowercase path in
      let root' = if case_sensitive || is_ascii root then root else to_lowercase root in
      elim (slice path' 0 (length root')) [
        | none ↦ false
        | some prefix ↦
            if not (same_prefix windows case_sensitive prefix root')
            then false
            else length path' == length root'
              || is_path_separator (last root') windows
              || is_path_separator (get_elem? path' (length root')) windows
      ]

  unfoldable pub path_is_under : Bool → Bytes → Bytes → Bool
  path_is_under on_windows path root =
      component_path_is_under path root
        (is_windows_path on_windows root || is_windows_path on_windows path) true

  unfoldable pub path_is_under_ci : Bool → Bytes → Bytes → Bool
  path_is_under_ci on_windows path lower_root =
      component_path_is_under path lower_root
        (is_windows_path on_windows lower_root || is_windows_path on_windows path) false
