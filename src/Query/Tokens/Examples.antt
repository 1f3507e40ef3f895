-- ===== src/Query/Tokens/Examples.antt =====
-- Two tokens, one with a space.
use neutrasearch.Base.{◌≡◌, ◌==◌, refl, [], ◌∷◌}
use neutrasearch.Query.Tokens.{tokenize}
use neutrasearch.Query.Tokens.RoundTrip.{render, tokenize-render}

tokenize-render_example :
    tokenize (λ c. c == 32) (render ((97 ∷ 32 ∷ 98 ∷ []) ∷ (99 ∷ []) ∷ []))
    ≡ (97 ∷ 32 ∷ 98 ∷ []) ∷ (99 ∷ []) ∷ []
tokenize-render_example =
    tokenize-render (λ c. c == 32) refl ((97 ∷ 32 ∷ 98 ∷ []) ∷ (99 ∷ []) ∷ [])
      ((refl, (refl, (refl, tt))), ((refl, tt), tt))
