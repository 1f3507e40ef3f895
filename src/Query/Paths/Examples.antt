-- ===== src/Query/Paths/Examples.antt =====
-- `/a/b` below `/a`.
use neutrasearch.Base.{◌≡◌, ◌↔◌, refl, [], ◌∷◌, Bytes, true, false}
use neutrasearch.Query.Paths.{path_is_under, is_windows_path, has_drive, is_unc}
use neutrasearch.Query.Paths.Under.{IsUnder, path_is_under_iff}

abbrev a : Bytes
a = b'/' ∷ 97 ∷ []

abbrev a_b : Bytes
a_b = b'/' ∷ 97 ∷ b'/' ∷ 98 ∷ []

path_is_under_iff_example : (path_is_under (λ t. t) false a_b a ≡ true) ↔ IsUnder a_b a
unfolding is_windows_path has_drive is_unc
path_is_under_iff_example = path_is_under_iff (λ t. t) a_b a refl refl
