-- ===== src/Query/Tokens/RoundTrip.antt =====
-- Quoted tokens come back.
use neutrasearch.Base.{
  ◌&&◌, ℕ, ◌≡◌, sym, ap, arith, Bool, true, false, List, [], ◌∷◌, ◌++◌, ◌==◌, All, append_assoc,
  append-nil,
}
use neutrasearch.Query.Tokens.{Chars, push_token, tokenize_loop, tokenize}

-- A token that can be quoted: not empty, and no quote in it.
abbrev pub IsToken : Chars → Type 0
IsToken [] = ⊥
IsToken (c ∷ cs) = All (λ (d : ℕ). (d == b'"') ≡ false) (c ∷ cs)

-- Each token in quotes, and a space.
unfoldable pub render : List Chars → Chars
render [] = []
render (t ∷ ts) = b'"' ∷ (t ++ (b'"' ∷ 32 ∷ render ts))

module _ (is_whitespace : ℕ → Bool) (blank : is_whitespace 32 ≡ true) where
  tokenize_loop-quoted :
      (t cur rest : Chars) (out : List Chars)
      → All (λ (d : ℕ). (d == b'"') ≡ false) t
      → tokenize_loop is_whitespace true cur out (t ++ rest)
        ≡ tokenize_loop is_whitespace true (cur ++ t) out rest
  unfolding tokenize_loop
  tokenize_loop-quoted [] cur rest out h =
      ap (λ c. tokenize_loop is_whitespace true c out rest) (sym (append-nil cur))
  tokenize_loop-quoted (c ∷ t) cur rest out (plain, h) =
      let outside : (is_whitespace c && false) ≡ false = ground arith in
      rw (plain, outside, tokenize_loop-quoted t (cur ++ c ∷ []) rest out h)
        (ap (λ d. tokenize_loop is_whitespace true d out rest) (append_assoc cur (c ∷ []) t))

  tokenize_loop-render :
      (ts : List Chars) (out : List Chars)
      → All IsToken ts
      → tokenize_loop is_whitespace false [] out (render ts) ≡ out ++ ts
  unfolding tokenize_loop render push_token
  tokenize_loop-render [] out h = sym (append-nil out)
  tokenize_loop-render ([] ∷ ts) out (h, k) = absurd h
  tokenize_loop-render ((c ∷ cs) ∷ ts) out (h, k) =
      rw
        (
          tokenize_loop-quoted (c ∷ cs) [] (b'"' ∷ 32 ∷ render ts) out h,
          blank,
          tokenize_loop-render ts (out ++ (c ∷ cs) ∷ []) k,
        )
        (append_assoc out ((c ∷ cs) ∷ []) ts)

  -- Where a space is whitespace, `tokenize` returns any tokens that are not empty and have no quote in
  -- them from the string with each in quotes, whitespace in them included.
  pub tokenize-render : (ts : List Chars) → All IsToken ts → tokenize is_whitespace (render ts) ≡ ts
  unfolding tokenize
  tokenize-render ts h = tokenize_loop-render ts [] h
