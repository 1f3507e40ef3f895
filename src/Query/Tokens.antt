-- ===== src/Query/Tokens.antt =====
-- `tokenize` of crates/neutra-core/src/query/syntax.rs. A string is its code points, and
-- `is_whitespace` the test of the standard library.
pub mod RoundTrip
mod Examples
use neutrasearch.Base.{ℕ, Bool, true, false, not, ◌&&◌, List, [], ◌∷◌, ◌++◌, ◌==◌, if◌then◌else◌}

abbrev pub Chars : Type 0
Chars = List ℕ

-- `if !cur.is_empty() { out.push(cur) }`
unfoldable pub push_token : Chars → List Chars → List Chars
push_token [] out = out
push_token (c ∷ cur) out = out ++ (c ∷ cur) ∷ []

module _ (is_whitespace : ℕ → Bool) where
  -- The loop, from the variables `in_quotes`, `cur` and `out` on.
  unfoldable pub tokenize_loop : Bool → Chars → List Chars → Chars → List Chars
  tokenize_loop in_quotes cur out [] = push_token cur out
  tokenize_loop in_quotes cur out (c ∷ input) =
      let quote = tokenize_loop (not in_quotes) cur out input in
      let blank = tokenize_loop in_quotes [] (push_token cur out) input in
      let other = tokenize_loop in_quotes (cur ++ c ∷ []) out input in
      if c == b'"' then quote else if is_whitespace c && not in_quotes then blank else other

  unfoldable pub tokenize : Chars → List Chars
  tokenize input = tokenize_loop false [] [] input
