-- ===== src/Compact/Postings.antt =====
-- crates/neutra-core/src/compact_merge/postings.rs and `decode_posting` of compact/search.rs: for each
-- gram, a list of block numbers in ascending order, written as the differences of neighbours.
--
-- A file is the bytes written to it so far; a write that fails is not modelled.
pub mod RoundTrip
pub mod Rounds
pub mod Written
mod Examples
use neutrasearch.Base.{
  ℕ, zero, suc, ◌+◌, ◌-◌, ◌/◌, ◌%◌, Bool, true, false, List, [], ◌∷◌, ◌++◌, Option, none, some,
  length, ltb, leb, ◌==◌, if◌then◌else◌, Bytes, Outcome, ok, fault, ◌>>=◌, ◌>>◌, ensure, context,
  unwrap, checked_add, u32_mod,
}
use neutrasearch.Compact.Codec.{
  Invalid, delta_overflow, list_too_large, put_varint, get_varint, checked,
}

pub record DictEntry : Type 0 where
  pub gram : ℕ
  pub len : ℕ
  pub offset : ℕ

-- `while p < bytes.len()`, on fuel.
unfoldable pub decode_loop : ℕ → Bytes → ℕ → ℕ → List ℕ → Outcome Invalid (List ℕ)
decode_loop zero bytes p id out = fault
decode_loop (suc fuel) bytes p id out = if leb (length bytes) p then ok out else do
  (delta, p') ← get_varint bytes p
  ensure (ltb (id + delta) u32_mod) delta_overflow
  decode_loop fuel bytes p' (id + delta) (out ++ (id + delta) ∷ [])

-- Each round takes a byte at least.
unfoldable pub decode_posting : Bytes → DictEntry → Outcome Invalid (List ℕ)
decode_posting map d = do
  bytes ← checked map d.offset d.len
  decode_loop (suc (length bytes)) bytes 0 0 []

-- The file, the entry, and the offset behind it.
unfoldable pub finish_posting : Bytes → ℕ → Bytes → ℕ → Outcome Invalid (Bytes × DictEntry × ℕ)
finish_posting file gram encoded offset = do
  ensure (ltb (length encoded) u32_mod) list_too_large
  offset' ← unwrap (checked_add offset (length encoded))
  ok (file ++ encoded, record { gram = gram; len = length encoded; offset = offset }, offset')

-- The variables of the loop of `write_postings_from_pairs`.
pub record Writer : Type 0 where
  pub file : Bytes
  pub dict : List DictEntry
  pub current_gram : Option ℕ
  pub encoded : Bytes
  pub previous : ℕ
  pub offset : ℕ

-- `if let Some(previous_gram) = current_gram`
unfoldable pub close : Writer → Outcome Invalid Writer
close w = elim w.current_gram [
  | none ↦ ok w
  | some gram ↦ do
    (file', entry, offset') ← finish_posting w.file gram w.encoded w.offset
    ok record {
      file = file';
      dict = w.dict ++ entry ∷ [];
      current_gram = w.current_gram;
      encoded = w.encoded;
      previous = w.previous;
      offset = offset';
    }
]

-- Closes the list of the gram before, if `gram` is another.
unfoldable pub turn : ℕ → Writer → Outcome Invalid Writer
turn gram w = if elim w.current_gram [ none ↦ false | some g ↦ g == gram ] then ok w else do
  c ← close w
  ok record {
    file = c.file;
    dict = c.dict;
    current_gram = some gram;
    encoded = [];
    previous = 0;
    offset = c.offset;
  }

-- `block - previous` faults where it would be negative.
unfoldable pub delta_of : Bytes → ℕ → ℕ → Outcome Invalid ℕ
delta_of [] previous block = ok block
delta_of (x ∷ encoded) previous block = if ltb block previous then fault else ok (block - previous)

-- One round of the loop.
unfoldable pub push_pair : ℕ → Writer → Outcome Invalid Writer
push_pair pair w = do
  t ← turn (pair / u32_mod) w
  delta ← delta_of t.encoded t.previous (pair % u32_mod)
  ok record {
    file = t.file;
    dict = t.dict;
    current_gram = t.current_gram;
    encoded = put_varint delta t.encoded;
    previous = pair % u32_mod;
    offset = t.offset;
  }

unfoldable pub write_loop : List (Outcome Invalid ℕ) → Writer → Outcome Invalid Writer
write_loop [] w = close w
write_loop (next ∷ pairs) w = do pair ← next; w' ← push_pair pair w; write_loop pairs w'

-- The dictionary, and the file with the postings behind what it held.
unfoldable pub write_postings_from_pairs :
    List (Outcome Invalid ℕ) → Bytes → Outcome Invalid (List DictEntry × Bytes)
write_postings_from_pairs pairs file = do
  w ← write_loop pairs record {
    file = file;
    dict = [];
    current_gram = none;
    encoded = [];
    previous = 0;
    offset = length file;
  }
  ok (w.dict, w.file)
