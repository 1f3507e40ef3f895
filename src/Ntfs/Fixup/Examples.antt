-- ===== src/Ntfs/Fixup/Examples.antt =====
-- The theorems on `apply_fixup` at a record of two sectors of 20 bytes.
use neutrasearch.Base.{◌+◌, ◌*◌, slice, ◌≡◌, refl, [], ◌∷◌, Bytes, ok, arith, IsReported, length}
use neutrasearch.Ntfs.Words.{u16le, le_value}
use neutrasearch.Ntfs.Fixup.{apply_fixup, usa_fits, fixup_loop, fix_sector}
use neutrasearch.Ntfs.Fixup.Reported.{apply_fixup-IsReported}
use neutrasearch.Ntfs.Fixup.Patches.{IsPatched, apply_fixup-IsPatched}

-- The array of three entries at byte 8: the signature 7, 9 and the bytes 1, 2 and 3, 4.
abbrev torn : Bytes
torn =
    0 ∷ 0 ∷ 0 ∷ 0 ∷ 8 ∷ 0 ∷ 3 ∷ 0 ∷ 7 ∷ 9 ∷ 1 ∷ 2 ∷ 3 ∷ 4 ∷ 0 ∷ 0 ∷ 0 ∷ 0 ∷ 7 ∷ 9 ∷ 0 ∷ 0 ∷ 0 ∷ 0
    ∷ 0 ∷ 0 ∷ 0 ∷ 0 ∷ 0 ∷ 0 ∷ 0 ∷ 0 ∷ 0 ∷ 0 ∷ 0 ∷ 0 ∷ 0 ∷ 0 ∷ 7 ∷ 9 ∷ []

abbrev whole : Bytes
whole =
    0 ∷ 0 ∷ 0 ∷ 0 ∷ 8 ∷ 0 ∷ 3 ∷ 0 ∷ 7 ∷ 9 ∷ 1 ∷ 2 ∷ 3 ∷ 4 ∷ 0 ∷ 0 ∷ 0 ∷ 0 ∷ 1 ∷ 2 ∷ 0 ∷ 0 ∷ 0 ∷ 0
    ∷ 0 ∷ 0 ∷ 0 ∷ 0 ∷ 0 ∷ 0 ∷ 0 ∷ 0 ∷ 0 ∷ 0 ∷ 0 ∷ 0 ∷ 0 ∷ 0 ∷ 3 ∷ 4 ∷ []

fixed : apply_fixup torn 20 ≡ ok whole
unfolding slice apply_fixup usa_fits fixup_loop fix_sector u16le le_value
fixed = refl

apply_fixup-IsReported_example : IsReported (apply_fixup torn 20)
apply_fixup-IsReported_example = apply_fixup-IsReported torn 20

apply_fixup-IsPatched_example : IsPatched 7 9 torn whole 8 20 1 3 × (3 * 20 ≡ length torn + 20)
unfolding slice u16le le_value
apply_fixup-IsPatched_example =
    apply_fixup-IsPatched torn 20 8 3 7 9 refl refl refl refl (omega arith) fixed
