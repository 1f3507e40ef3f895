-- ===== src/Portable/Examples.antt =====
-- The theorems at `/a`, `/a/b` and a Windows root.
use neutrasearch.Portable.Under.{path_in_portable_root_iff}
use neutrasearch.Query.Paths.{path_is_under, is_windows_path}
use neutrasearch.Portable.{
  is_windows_drive_root, ends_with_slash, has_separator, pop_separators, portable_root_prefix,
  path_in_portable_root,
}
use neutrasearch.Portable.Normal.{portable_root_prefix-IsNormal}
use neutrasearch.Portable.Slashes.{normal, slashes_of}
use neutrasearch.Base.{
  ℕ, ◌≢◌, ◌++◌, [], ◌∷◌, map, if◌then◌else◌, true, false, ◌≡◌, ◌↔◌, refl, Bytes, All, ◌==◌,
}
use neutrasearch.Query.Paths.Under.{IsUnder}
use neutrasearch.Base.Text.{codes}

abbrev windows_root : Bytes
windows_root = codes "C:\\Users\\alex\\"

prefix_test : portable_root_prefix windows_root ≡ codes "C:/Users/alex"
unfolding portable_root_prefix pop_separators has_separator ends_with_slash is_windows_drive_root
prefix_test = refl

drive_test : portable_root_prefix (codes "C:\\\\") ≡ codes "C:/"
unfolding portable_root_prefix pop_separators has_separator ends_with_slash is_windows_drive_root
drive_test = refl

root_test : portable_root_prefix (codes "//") ≡ codes "/"
unfolding portable_root_prefix pop_separators has_separator ends_with_slash is_windows_drive_root
root_test = refl

portable_root_prefix-IsNormal_example :
    ((stem : Bytes) × (n : ℕ) × ((s : Bytes) → stem ≢ s ++ b'/' ∷ [])
      × (map (λ b. if b == 92 then 47 else b) windows_root ≡ stem ++ slashes_of n)
      × (portable_root_prefix windows_root ≡ normal stem n))
    × All (λ b. (b == 92) ≡ false) (portable_root_prefix windows_root)
    × (portable_root_prefix (portable_root_prefix windows_root) ≡ portable_root_prefix windows_root)
portable_root_prefix-IsNormal_example = portable_root_prefix-IsNormal windows_root

path_in_portable_root_iff_example :
    ((path_in_portable_root (codes "/a/b") (codes "/a") ≡ true)
      ↔ IsUnder (codes "/a/b") (codes "/a"))
    × ((to_lowercase : Bytes → Bytes)
        → is_windows_path false (codes "/a") ≡ false
        → is_windows_path false (codes "/a/b") ≡ false
        → path_in_portable_root (codes "/a/b") (codes "/a")
          ≡ path_is_under to_lowercase false (codes "/a/b") (codes "/a"))
path_in_portable_root_iff_example = path_in_portable_root_iff (codes "/a/b") (codes "/a")
