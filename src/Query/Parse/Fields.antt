-- ===== src/Query/Parse/Fields.antt =====
-- Which fields of a query its text can set.
use neutrasearch.Base.{
  ℕ, Bool, List, [], ◌∷◌, ◌++◌, Option, none, ◌≡◌, ◌∙◌, refl, sym, ap, Bytes, map, append-nil,
  append_assoc, inl, inr, Option-cases,
}
use neutrasearch.Base.Text.{codes, split_once, strip_prefix}
use neutrasearch.Query.Types.{Query, default_query}
use neutrasearch.Query.Tokens.{Chars, tokenize}
use neutrasearch.Query.Sizes.{parse_size}
use neutrasearch.Query.Parse.{
  Token, ext, kind, fs, size, under, term, nothing, classify, apply_token, parse_tokens, parse,
}

-- The query without what its text says.
pub without_text : Query → Query
without_text q = record q {
  terms = [];
  exts = [];
  kinds = [];
  fss = [];
  min_size = none;
  max_size = none;
  under = none;
}

-- The search terms of a token.
pub terms_of : Token → List Bytes
terms_of (term tok) = tok ∷ []
terms_of _ = []

pub terms_of_all : List Bytes → List Bytes
unfolding terms_of
terms_of_all [] = []
terms_of_all (tok ∷ toks) = terms_of (classify tok) ++ terms_of_all toks

module _ (to_lowercase trim : Bytes → Bytes) where
  -- A field that `parse_size` does not set.
  parse_size-keeps :
      {A : Type 0} (field : Query → A)
      → ((q : Query) (a b : Option ℕ) → field (record q { min_size = a; max_size = b }) ≡ field q)
      → (spec : Bytes) (q : Query) → field (parse_size trim spec q) ≡ field q
  unfolding parse_size
  parse_size-keeps field same spec q = elim (Option-cases (split_once (codes "..") spec)) [
    | inr (parts, found) ↦ rw (parse_size, found) (same q _ _)
    | inl single ↦ elim (Option-cases (strip_prefix (codes ">") spec)) [
      | inr (rest, greater) ↦ rw (parse_size, single, greater) (same q _ q.max_size)
      | inl not_greater ↦ elim (Option-cases (strip_prefix (codes "<") spec)) [
        | inr (rest, less) ↦ rw (parse_size, single, not_greater, less) (same q q.min_size _)
        | inl bare ↦ rw (parse_size, single, not_greater, bare) (same q _ q.max_size)
      ]
    ]
  ]

  apply_token-trusted :
      (t : Token) (q : Query) → without_text (apply_token to_lowercase trim t q) ≡ without_text q
  unfolding apply_token without_text
  apply_token-trusted (ext rest) q = refl
  apply_token-trusted (kind rest) q = refl
  apply_token-trusted (fs rest) q = refl
  apply_token-trusted (size rest) q = parse_size-keeps without_text (λ q a b. refl) rest q
  apply_token-trusted (under rest) q = refl
  apply_token-trusted (term tok) q = refl
  apply_token-trusted nothing q = refl

  apply_token-terms :
      (t : Token) (q : Query) → (apply_token to_lowercase trim t q).terms ≡ q.terms ++ terms_of t
  unfolding apply_token terms_of
  apply_token-terms (ext rest) q = sym (append-nil q.terms)
  apply_token-terms (kind rest) q = sym (append-nil q.terms)
  apply_token-terms (fs rest) q = sym (append-nil q.terms)
  apply_token-terms (size rest) q =
      parse_size-keeps (λ q. q.terms) (λ q a b. refl) rest q ∙ sym (append-nil q.terms)
  apply_token-terms (under rest) q = sym (append-nil q.terms)
  apply_token-terms (term tok) q = refl
  apply_token-terms nothing q = sym (append-nil q.terms)

  parse_tokens-trusted :
      (toks : List Bytes) (q : Query)
      → without_text (parse_tokens to_lowercase trim toks q) ≡ without_text q
  unfolding parse_tokens
  parse_tokens-trusted [] q = refl
  parse_tokens-trusted (tok ∷ toks) q =
      parse_tokens-trusted toks (apply_token to_lowercase trim (classify tok) q)
      ∙ apply_token-trusted (classify tok) q

  parse_tokens-terms :
      (toks : List Bytes) (q : Query)
      → (parse_tokens to_lowercase trim toks q).terms ≡ q.terms ++ terms_of_all toks
  unfolding parse_tokens terms_of_all
  parse_tokens-terms [] q = sym (append-nil q.terms)
  parse_tokens-terms (tok ∷ toks) q =
      parse_tokens-terms toks (apply_token to_lowercase trim (classify tok) q)
      ∙ ap (λ t. t ++ terms_of_all toks) (apply_token-terms (classify tok) q)
      ∙ append_assoc q.terms (terms_of (classify tok)) (terms_of_all toks)

  -- Whatever its text says, a parsed query has the default value in every field but the terms, the
  -- filters of the language and the path prefix: text sets no scope, no excluded root, no pattern and no
  -- limit. Its terms are the tokens that are no filters, in order.
  pub parse-without_text :
      (is_whitespace : ℕ → Bool) (encode : Chars → Bytes) (input : Chars)
      → (without_text (parse to_lowercase trim is_whitespace encode input) ≡ default_query)
        × ((parse to_lowercase trim is_whitespace encode input).terms
            ≡ terms_of_all (map encode (tokenize is_whitespace input)))
  unfolding parse without_text
  parse-without_text is_whitespace encode input =
      let toks = map encode (tokenize is_whitespace input) in
      (parse_tokens-trusted toks default_query, parse_tokens-terms toks default_query)
