-- ===== src/Portable.antt =====
-- The portable paths of crates/neutra-core/src/paths.rs. A path is its bytes.
pub mod Slashes
pub mod Normal
pub mod Under
mod Examples
use neutrasearch.Base.{
  ℕ, zero, suc, ◌-◌, Bool, true, false, not, ◌&&◌, ◌||◌, [], ◌∷◌, some, none, length, get_elem?,
  take, ltb, ◌==◌, if◌then◌else◌, Bytes, equal, map,
}
use neutrasearch.Base.Text.{strip_prefix}

abbrev is_ascii_alphabetic : ℕ → Bool
is_ascii_alphabetic b = (not (ltb b 65) && ltb b 91) || (not (ltb b 97) && ltb b 123)

unfoldable pub is_windows_drive_root : Bytes → Bool
is_windows_drive_root (a ∷ b ∷ c ∷ []) = is_ascii_alphabetic a && b == b':' && c == b'/'
is_windows_drive_root _ = false

-- `ends_with('/')`
unfoldable pub ends_with_slash : Bytes → Bool
ends_with_slash [] = false
ends_with_slash (b ∷ []) = b == b'/'
ends_with_slash (b ∷ c ∷ value) = ends_with_slash (c ∷ value)

unfoldable pub starts_with : Bytes → Bytes → Bool
starts_with path root = elim (strip_prefix root path) [ none ↦ false | some rest ↦ true ]

-- The condition of the loop.
unfoldable pub has_separator : Bytes → Bool
has_separator value =
    ltb 1 (length value) && ends_with_slash value && not (is_windows_drive_root value)

-- `while .. { value.pop(); }`, on fuel: each round makes the value shorter.
unfoldable pub pop_separators : ℕ → Bytes → Bytes
pop_separators zero value = value
pop_separators (suc fuel) value =
    let rest = pop_separators fuel (take (length value - 1) value) in
    if has_separator value then rest else value

abbrev pub slash_of : ℕ → ℕ
slash_of b = if b == 92 then b'/' else b

unfoldable pub portable_root_prefix : Bytes → Bytes
portable_root_prefix root = let value = map slash_of root in pop_separators (length value) value

unfoldable pub path_in_portable_root : Bytes → Bytes → Bool
path_in_portable_root path root =
    if equal path root
    then true
    else if ends_with_slash root
    then starts_with path root
    else ltb (length root) (length path)
      && starts_with path root
      && elim (get_elem? path (length root)) [ none ↦ false | some b ↦ b == b'/' ]
