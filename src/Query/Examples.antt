-- ===== src/Query/Examples.antt =====
-- The theorems on sizes, parsed texts and filters at concrete inputs.
use neutrasearch.Base.{
  arith, ℕ, Bool, true, [], ◌∷◌, ◌++◌, ◌≡◌, refl, none, some, ◌*◌, ◌^◌, Bytes, ◌==◌, map, slice,
}
use neutrasearch.Query.Filters.Admitted.{passes_filters-IsAdmitted, IsAdmitted}
use neutrasearch.Query.Paths.{
  is_path_separator, same_byte, same_prefix, component_path_is_under, path_is_under, any_dots,
  safe_absolute_path, is_unc, has_drive, is_windows_path,
}
use neutrasearch.Query.Filters.{is_under, at_most, at_least, in_scope, any, passes_filters}
use neutrasearch.Query.Sizes.{
  parse_size, parse_digits, without_plus, parse_u64, multiplier, scaled, size_at, parse_size_num,
}
use neutrasearch.Base.Text.{strip_prefix, codes, split, split_once}
use neutrasearch.Query.Tokens.{push_token, tokenize_loop, tokenize, Chars}
use neutrasearch.Query.Parse.Fields.{parse-without_text, terms_of_all, without_text}
use neutrasearch.Query.Sizes.Values.{parse_size_num-value, value_from, fitting, IsUnit, IsDigit}
use neutrasearch.Query.Parse.{classify, apply_token, parse_tokens, parse}
use neutrasearch.Record.{ext4, file, FileRecord}
use neutrasearch.Query.Types.{default_query, Query}
use neutrasearch.Base.Int.{pos}
use neutrasearch.Base.Table.{contains}

abbrev no_trim : Bytes → Bytes
no_trim s = s

parse_size_num-value_example :
    (no_trim (codes "12k") ≡ codes "12"
      → parse_size_num no_trim (codes "12k") ≡ fitting (value_from 0 (codes "12")))
    × ((c e : ℕ)
        → IsUnit c e
        → no_trim (codes "12k") ≡ codes "12" ++ c ∷ []
        → parse_size_num no_trim (codes "12k") ≡ fitting (value_from 0 (codes "12") * 2 ^ e))
    × ((c : ℕ)
        → ¬ IsDigit c
        → ((e : ℕ) → ¬ IsUnit c e)
        → no_trim (codes "12k") ≡ codes "12" ++ c ∷ []
        → parse_size_num no_trim (codes "12k") ≡ none)
parse_size_num-value_example =
    parse_size_num-value no_trim (codes "12k") (codes "12") (λ e. cc)
      ((omega arith, omega arith), ((omega arith, omega arith), tt))

size_test : parse_size_num no_trim (codes "12M") ≡ some (12 * 2 ^ 20)
unfolding parse_size_num size_at scaled parse_u64 without_plus parse_digits multiplier
size_test = refl

-- 2^24 terabytes are 2^64 bytes.
overflow_test : parse_size_num no_trim (codes "16777216T") ≡ none
unfolding parse_size_num size_at scaled parse_u64 without_plus parse_digits multiplier
overflow_test = refl

is_blank : ℕ → Bool
is_blank c = c == b' '

abbrev text : Chars
text = codes "kind:dir report size:>4k under:/Home"

parse-without_text_example :
    (without_text (parse no_trim no_trim is_blank no_trim text) ≡ default_query)
    × ((parse no_trim no_trim is_blank no_trim text).terms
        ≡ terms_of_all (map no_trim (tokenize is_blank text)))
parse-without_text_example = parse-without_text no_trim no_trim is_blank no_trim text

terms_test : (parse no_trim no_trim is_blank no_trim text).terms ≡ codes "report" ∷ []
unfolding parse parse_tokens apply_token classify tokenize tokenize_loop push_token is_blank
    strip_prefix parse_size split_once
terms_test = refl

sizes_test : (parse no_trim no_trim is_blank no_trim text).min_size ≡ some 4096
unfolding parse parse_tokens apply_token classify tokenize tokenize_loop push_token is_blank
    strip_prefix parse_size split_once parse_size_num size_at scaled parse_u64 without_plus
    parse_digits multiplier
sizes_test = refl

abbrev scoped : Query
scoped = record default_query {
  scope_roots = codes "/home" ∷ [];
  scope_case_sensitive = true;
  exclude_roots = codes "/home/tmp" ∷ [];
}

abbrev report : FileRecord
report = record {
  path = codes "/home/report.txt";
  size = 10;
  disk = 4096;
  mtime = pos 0;
  mode = 0;
  kind = file;
  fs = ext4;
  native_id = 12;
  native_parent = 2;
  source = 0;
}

passes_filters-IsAdmitted_example : IsAdmitted scoped report
unfolding passes_filters any in_scope is_windows_path has_drive is_unc safe_absolute_path any_dots
    contains split at_least at_most is_under path_is_under component_path_is_under same_prefix
    same_byte is_path_separator slice
passes_filters-IsAdmitted_example =
    passes_filters-IsAdmitted no_trim scoped report refl refl (refl, tt) (refl, tt) refl
