-- ===== src/Query/Parse.antt =====
-- `Query::parse` of crates/neutra-core/src/query.rs. `encode` is the UTF-8 of a string of code points;
-- `to_lowercase` and `trim` are those of the standard library.
pub mod Fields
use neutrasearch.Base.{
  ℕ, Bool, List, [], ◌∷◌, ◌++◌, Option, none, some, ◌==◌, if◌then◌else◌, Bytes, map,
}
use neutrasearch.Base.Text.{codes, is_one_of, strip_prefix, split, non_empty}
use neutrasearch.Record.{FileKind, FsKind, file, dir, symlink}
use neutrasearch.Mounts.{from_fstype, filter_map}
use neutrasearch.Query.Types.{Query, default_query}
use neutrasearch.Query.Tokens.{Chars, tokenize}
use neutrasearch.Query.Sizes.{parse_size}

-- What a token is for.
pub data Token : Type 0 where
  ext kind fs size under : Bytes → Token
  term : Bytes → Token
  nothing : Token

-- The first of the prefixes that a token has decides.
unfoldable pub classify : Bytes → Token
classify tok = elim (strip_prefix (codes "ext:") tok) [
  | some rest ↦ ext rest
  | none ↦ elim (strip_prefix (codes "kind:") tok) [
    | some rest ↦ kind rest
    | none ↦ elim (strip_prefix (codes "fs:") tok) [
      | some rest ↦ fs rest
      | none ↦ elim (strip_prefix (codes "size:") tok) [
        | some rest ↦ size rest
        | none ↦ elim (strip_prefix (codes "under:") tok) [
          | some rest ↦ under rest
          | none ↦ elim tok [ [] ↦ nothing | c ∷ cs ↦ term (c ∷ cs) ]
        ]
      ]
    ]
  ]
]

-- `trim_start_matches('.')`
unfoldable pub trim_dots : Bytes → Bytes
trim_dots [] = []
trim_dots (b ∷ s) = let rest = trim_dots s in if b == b'.' then rest else b ∷ s

unfoldable pub kind_named : Bytes → Option FileKind
kind_named k =
    if is_one_of k ("file" ∷ "f" ∷ [])
    then some file
    else if is_one_of k ("dir" ∷ "d" ∷ "folder" ∷ [])
    then some dir
    else if is_one_of k ("link" ∷ "symlink" ∷ "l" ∷ [])
    then some symlink
    else none

abbrev pub at_commas : Bytes → List Bytes
at_commas s = split (λ b. b == b',') s

module _ (to_lowercase trim : Bytes → Bytes) where
  unfoldable pub apply_token : Token → Query → Query
  apply_token (ext rest) q = record q {
    exts = q.exts ++ map (λ s. to_lowercase (trim_dots s)) (non_empty (at_commas rest));
  }
  apply_token (kind rest) q = record q { kinds = q.kinds ++ filter_map kind_named (at_commas rest) }
  apply_token (fs rest) q = record q { fss = q.fss ++ map from_fstype (non_empty (at_commas rest)) }
  apply_token (size rest) q = parse_size trim rest q
  apply_token (under rest) q = record q { under = some (to_lowercase rest) }
  apply_token (term tok) q = record q { terms = q.terms ++ tok ∷ [] }
  apply_token nothing q = q

  -- `for tok in ..`
  unfoldable pub parse_tokens : List Bytes → Query → Query
  parse_tokens [] q = q
  parse_tokens (tok ∷ toks) q = parse_tokens toks (apply_token (classify tok) q)

  unfoldable pub parse : (ℕ → Bool) → (Chars → Bytes) → Chars → Query
  parse is_whitespace encode input =
      parse_tokens (map encode (tokenize is_whitespace input)) default_query
