-- ===== src/Mounts/Escapes.antt =====
-- The escapes of mountinfo. The kernel writes a space, a tab, a newline and a backslash of a path as a
-- backslash and three octal digits.
use neutrasearch.Base.{
  ℕ, Bool, true, false, List, [], ◌∷◌, ◌++◌, ◌≡◌, refl, sym, ◌==◌, if◌then◌else◌, Bytes, inl, inr,
  Bool-cases, ==_iff, map, ap, ◌∙◌, arith, All,
}
use neutrasearch.Base.Text.{codes, replace, replace_loop, strip_prefix}
use neutrasearch.Mounts.{source_unescape, space_code}

pub data Sign : Type 0 where
  space tab newline backslash : Sign
  plain : (c : ℕ) → (c == 92) ≡ false → Sign

-- The sign of a character.
unfoldable pub sign_from : (c : ℕ) (b : Bool) → (c == 92) ≡ b → Sign
sign_from c true e = backslash
sign_from c false e =
    if c == 32 then space else if c == 9 then tab else if c == 10 then newline else plain c e

unfoldable pub sign : ℕ → Sign
unfolding sign_from
sign c = sign_from c (c == 92) refl

-- What the text has for a sign when the first codes are decoded.
unfoldable pub all_coded : Sign → Bytes
all_coded space = codes "\\040"
all_coded tab = codes "\\011"
all_coded newline = codes "\\012"
all_coded backslash = codes "\\134"
all_coded (plain c n) = c ∷ []

no_space : Sign → Bytes
no_space space = 32 ∷ []
no_space tab = codes "\\011"
no_space newline = codes "\\012"
no_space backslash = codes "\\134"
no_space (plain c n) = c ∷ []

no_tab : Sign → Bytes
no_tab space = 32 ∷ []
no_tab tab = 9 ∷ []
no_tab newline = codes "\\012"
no_tab backslash = codes "\\134"
no_tab (plain c n) = c ∷ []

no_newline : Sign → Bytes
no_newline space = 32 ∷ []
no_newline tab = 9 ∷ []
no_newline newline = 10 ∷ []
no_newline backslash = codes "\\134"
no_newline (plain c n) = c ∷ []

decoded : Sign → Bytes
decoded space = 32 ∷ []
decoded tab = 9 ∷ []
decoded newline = 10 ∷ []
decoded backslash = 92 ∷ []
decoded (plain c n) = c ∷ []

unfoldable pub spell : (Sign → Bytes) → List Sign → Bytes
spell f [] = []
spell f (s ∷ signs) = f s ++ spell f signs

-- A path as the kernel writes it.
unfoldable pub escape : Bytes → Bytes
unfolding spell all_coded sign
escape path = spell all_coded (map sign path)

-- A pattern that turns each sign's text turns the whole text.
spell-replace :
    (pattern with : Bytes) (f g : Sign → Bytes)
    → ((s : Sign) (rest : Bytes)
        → replace_loop pattern with 0 (f s ++ rest) ≡ g s ++ replace_loop pattern with 0 rest)
    → (signs : List Sign) → replace pattern with (spell f signs) ≡ spell g signs
unfolding replace replace_loop spell
spell-replace pattern with f g step [] = refl
spell-replace pattern with f g step (s ∷ signs) =
    step s (spell f signs) ∙ ap (λ t. g s ++ t) (spell-replace pattern with f g step signs)

-- No pattern is found at a character that is no backslash.
plain_step :
    (pattern with : Bytes) (c : ℕ) (rest : Bytes)
    → (c == 92) ≡ false
    → replace_loop (92 ∷ pattern) with 0 (c ∷ rest) ≡ c ∷ replace_loop (92 ∷ pattern) with 0 rest
unfolding replace_loop strip_prefix
plain_step pattern with c rest n =
    let other : (92 == c) ≡ false = ground arith in rw (replace_loop, strip_prefix, other) refl

space_step :
    (s : Sign) (rest : Bytes)
    → replace_loop (codes "\\040") (32 ∷ []) 0 (all_coded s ++ rest)
      ≡ no_space s ++ replace_loop (codes "\\040") (32 ∷ []) 0 rest
unfolding replace_loop strip_prefix all_coded no_space
space_step space rest = refl
space_step tab rest = refl
space_step newline rest = refl
space_step backslash rest = refl
space_step (plain c n) rest = plain_step (codes "040") (32 ∷ []) c rest n

tab_step :
    (s : Sign) (rest : Bytes)
    → replace_loop (codes "\\011") (9 ∷ []) 0 (no_space s ++ rest)
      ≡ no_tab s ++ replace_loop (codes "\\011") (9 ∷ []) 0 rest
unfolding replace_loop strip_prefix no_tab no_space
tab_step space rest = refl
tab_step tab rest = refl
tab_step newline rest = refl
tab_step backslash rest = refl
tab_step (plain c n) rest = plain_step (codes "011") (9 ∷ []) c rest n

newline_step :
    (s : Sign) (rest : Bytes)
    → replace_loop (codes "\\012") (10 ∷ []) 0 (no_tab s ++ rest)
      ≡ no_newline s ++ replace_loop (codes "\\012") (10 ∷ []) 0 rest
unfolding replace_loop strip_prefix no_tab no_newline
newline_step space rest = refl
newline_step tab rest = refl
newline_step newline rest = refl
newline_step backslash rest = refl
newline_step (plain c n) rest = plain_step (codes "012") (10 ∷ []) c rest n

backslash_step :
    (s : Sign) (rest : Bytes)
    → replace_loop (codes "\\134") (92 ∷ []) 0 (no_newline s ++ rest)
      ≡ decoded s ++ replace_loop (codes "\\134") (92 ∷ []) 0 rest
unfolding replace_loop strip_prefix decoded no_newline
backslash_step space rest = refl
backslash_step tab rest = refl
backslash_step newline rest = refl
backslash_step backslash rest = refl
backslash_step (plain c n) rest = plain_step (codes "134") (92 ∷ []) c rest n

decoded-sign_from : (c : ℕ) (b : Bool) (e : (c == 92) ≡ b) → decoded (sign_from c b e) ≡ c ∷ []
unfolding decoded sign_from
decoded-sign_from c true e = ap (λ t. t ∷ []) (sym ((==_iff c 92).0 e))
decoded-sign_from c false e = elim (Bool-cases (c == 32)) [
  | inl is_space ↦ rw is_space (ap (λ t. t ∷ []) (sym ((==_iff c 32).0 is_space)))
  | inr not_space ↦ elim (Bool-cases (c == 9)) [
    | inl is_tab ↦ rw (not_space, is_tab) (ap (λ t. t ∷ []) (sym ((==_iff c 9).0 is_tab)))
    | inr not_tab ↦ elim (Bool-cases (c == 10)) [
      | inl is_newline ↦
          rw (not_space, not_tab, is_newline) (ap (λ t. t ∷ []) (sym ((==_iff c 10).0 is_newline)))
      | inr not_newline ↦ rw (not_space, not_tab, not_newline) refl
    ]
  ]
]

decoded-sign : (c : ℕ) → decoded (sign c) ≡ c ∷ []
unfolding sign
decoded-sign c = decoded-sign_from c (c == 92) refl

spell-decoded : (path : Bytes) → spell decoded (map sign path) ≡ path
unfolding spell
spell-decoded [] = refl
spell-decoded (c ∷ path) = rw (decoded-sign c) (ap (λ t. c ∷ t) (spell-decoded path))

-- `source_unescape` gives back every path that the kernel has escaped, whatever characters it has.
pub source_unescape-escape : (path : Bytes) → source_unescape (escape path) ≡ path
unfolding source_unescape escape
source_unescape-escape path =
    let signs = map sign path in
    rw
      (
        spell-replace (codes "\\040") (32 ∷ []) all_coded no_space space_step signs,
        spell-replace (codes "\\011") (9 ∷ []) no_space no_tab tab_step signs,
        spell-replace (codes "\\012") (10 ∷ []) no_tab no_newline newline_step signs,
        spell-replace (codes "\\134") (92 ∷ []) no_newline decoded backslash_step signs,
      )
      (spell-decoded path)

-- A character that is no tab, no newline and no backslash.
abbrev pub IsPlain : ℕ → Type 0
IsPlain c = ((c == 9) ≡ false) × ((c == 10) ≡ false) × ((c == 92) ≡ false)

no_space-sign_from :
    (c : ℕ) (b : Bool) (e : (c == 92) ≡ b) → IsPlain c → no_space (sign_from c b e) ≡ c ∷ []
unfolding no_space sign_from
no_space-sign_from c true e (not_tab, not_newline, not_backslash) = cc
no_space-sign_from c false e (not_tab, not_newline, not_backslash) = elim (Bool-cases (c == 32)) [
  | inl is_space ↦ rw is_space (ap (λ t. t ∷ []) (sym ((==_iff c 32).0 is_space)))
  | inr not_space ↦ rw (not_space, not_tab, not_newline) refl
]

spell-no_space : (path : Bytes) → All IsPlain path → spell no_space (map sign path) ≡ path
unfolding spell sign
spell-no_space [] all = refl
spell-no_space (c ∷ path) (fine, all) =
    rw (no_space-sign_from c (c == 92) refl fine) (ap (λ t. c ∷ t) (spell-no_space path all))

-- The code of a space is all that a path without tabs, newlines and backslashes needs.
pub replace-escape :
    (path : Bytes) → All IsPlain path → replace space_code (b' ' ∷ []) (escape path) ≡ path
unfolding escape
replace-escape path all =
    spell-replace (codes "\\040") (32 ∷ []) all_coded no_space space_step (map sign path)
    ∙ spell-no_space path all
