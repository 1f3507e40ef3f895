-- ===== src/Compact/Postings/Written.antt =====
-- What `write_postings_from_pairs` writes for sorted pairs of a gram and a block.
use neutrasearch.Compact.Postings.RoundTrip.{
  deltas, last_of, deltas-snoc, last_of-snoc, decode_posting-deltas, IsAscending-snoc, IsAscending,
}
use neutrasearch.Compact.Postings.Rounds.{
  state, entry, IsRoomy, close-state, push_pair-same, push_pair-other, deltas-one, first_pair,
}
use neutrasearch.Compact.Postings.{
  DictEntry, Writer, decode_posting, close, write_postings_from_pairs, write_loop,
}
use neutrasearch.Base.{
  ℕ, ◌+◌, ◌-◌, ◌*◌, ◌/◌, ◌%◌, ◌≤◌, ◌<◌, ◌≡◌, refl, arith, List, [], ◌∷◌, ◌++◌, length,
  length-append, ◌==◌, if◌then◌else◌, Bytes, ok, append-nil, u32_mod, u64_mod, append_assoc,
  Bool-cases, Outcome, ==_iff, inr, inl, map, ◌∙◌,
}
use mathlib.Core.Path.{subst}
use neutrasearch.Compact.Codec.{Invalid}
use neutrasearch.Compact.Codec.RoundTrip.{groups, length-groups}

-- Pairs from `lo` on, in ascending order, below 2^64.
abbrev pub IsSorted : ℕ → List ℕ → Type 0
IsSorted lo [] = Unit
IsSorted lo (x ∷ xs) = (lo ≤ x) × (x < u64_mod) × IsSorted x xs

-- The blocks of neighbouring pairs with the same gram, behind the `seen` blocks of gram `g`.
abbrev pub grouped : ℕ → List ℕ → List ℕ → List (ℕ × List ℕ)
grouped g seen [] = (g, seen) ∷ []
grouped g seen (x ∷ xs) =
    let same = grouped g (seen ++ x % u32_mod ∷ []) xs in
    let other = grouped (x / u32_mod) (x % u32_mod ∷ []) xs in
    if g == x / u32_mod then same else (g, seen) ∷ other

-- For each gram of the pairs, its blocks.
abbrev pub postings : List ℕ → List (ℕ × List ℕ)
postings [] = []
postings (x ∷ xs) = grouped (x / u32_mod) (x % u32_mod ∷ []) xs

-- The entries of the dictionary lead to these postings, one by one, in the file `whole`.
abbrev pub IsEncoded : Bytes → List DictEntry → List (ℕ × List ℕ) → Type 0
IsEncoded whole [] [] = Unit
IsEncoded whole (d ∷ dict) ((g, blocks) ∷ rest) =
    (d.gram ≡ g) × (decode_posting whole d ≡ ok blocks) × IsEncoded whole dict rest
IsEncoded whole [] (p ∷ rest) = ⊥
IsEncoded whole (d ∷ dict) [] = ⊥

-- What room is left after a pair.
module _ (file : Bytes) (seen : List ℕ) (x y : ℕ) (pairs : List ℕ)
    (room : IsRoomy file (deltas 0 seen) (x ∷ pairs)) where
  room-now : IsRoomy file (deltas 0 seen) []
  room-now = record { list = omega (arith, room.list); all = omega (arith, room.all) }

  room-same : IsRoomy file (deltas 0 (seen ++ y ∷ [])) pairs
  room-same =
      let size : length (deltas 0 (seen ++ y ∷ [])) ≤ length (deltas 0 seen) + 5 =
        rw (deltas-snoc 0 seen y, length-append (deltas 0 seen) (groups 4 (y - last_of 0 seen)))
          (omega (arith, length-groups 4 (y - last_of 0 seen))) in
      record { list = omega (arith, room.list, size); all = omega (arith, room.all, size) }

  room-other : IsRoomy (file ++ deltas 0 seen) (deltas 0 (y ∷ [])) pairs
  room-other =
      let size : length (deltas 0 (y ∷ [])) ≤ 5 = rw (deltas-one y) (length-groups 4 y).1 in
      record {
        list = omega (arith, room.list, size);
        all = rw (length-append file (deltas 0 seen)) (omega (arith, room.all, size));
      }

-- The loop from a state on: what it appends to the file and to the dictionary.
record IsWritten (start : Outcome Invalid Writer) (file : Bytes) (dict : List DictEntry)
    (expected : List (ℕ × List ℕ)) : Type 0 where
  more : Bytes
  entries : List DictEntry
  final : Writer
  ran : start ≡ ok final
  file_is : final.file ≡ file ++ more
  dict_is : final.dict ≡ dict ++ entries
  encoded : IsEncoded (file ++ more) entries expected

write_loop-IsWritten :
    (pairs : List ℕ) (file : Bytes) (dict : List DictEntry) (g b : ℕ) (bs : List ℕ)
    → IsAscending 0 (b ∷ bs)
    → IsSorted (g * u32_mod + last_of b bs) pairs
    → IsRoomy file (deltas 0 (b ∷ bs)) pairs
    → IsWritten
        (write_loop (map ok pairs) (state file dict g (b ∷ bs)))
        file
        dict
        (grouped g (b ∷ bs) pairs)
unfolding write_loop
write_loop-IsWritten [] file dict g b bs up sorted room = record {
  more = deltas 0 (b ∷ bs);
  entries = entry file g (b ∷ bs) ∷ [];
  final = _;
  ran = close-state file dict g (b ∷ bs) room;
  file_is = refl;
  dict_is = refl;
  encoded = (
    refl,
    subst (λ t. decode_posting (file ++ t) (entry file g (b ∷ bs)) ≡ ok (b ∷ bs))
        (append-nil (deltas 0 (b ∷ bs)))
        (decode_posting-deltas (b ∷ bs) file [] g up (omega (arith, room.all))),
    tt,
  );
}
write_loop-IsWritten (x ∷ pairs) file dict g b bs up (above, small, sorted) room =
    elim (Bool-cases (g == x / u32_mod)) [
      | inl same ↦
          let gram : g ≡ x / u32_mod = (==_iff g (x / u32_mod)).0 same in
          let later : last_of b bs ≤ x % u32_mod = omega arith in
          let whole : g * u32_mod + x % u32_mod ≡ x = omega arith in
          rw (same, push_pair-same file dict g b bs x same later)
            (write_loop-IsWritten pairs file dict g b (bs ++ x % u32_mod ∷ [])
              (IsAscending-snoc 0 (b ∷ bs) (x % u32_mod) up later (omega arith))
              (rw (last_of-snoc b bs (x % u32_mod), whole) sorted)
              (room-same file (b ∷ bs) x (x % u32_mod) pairs room))
      | inr other ↦
          let back : x / u32_mod * u32_mod + x % u32_mod ≡ x = omega arith in
          let ih =
            write_loop-IsWritten pairs (file ++ deltas 0 (b ∷ bs))
              (dict ++ entry file g (b ∷ bs) ∷ []) (x / u32_mod) (x % u32_mod) []
              (omega arith, omega arith, tt) (rw back sorted)
              (room-other file (b ∷ bs) x (x % u32_mod) pairs room) in
          rw
            (
              other,
              push_pair-other file dict g (b ∷ bs) x other (room-now file (b ∷ bs) x 0 pairs room),
            )
            record {
              more = deltas 0 (b ∷ bs) ++ ih.more;
              entries = entry file g (b ∷ bs) ∷ ih.entries;
              final = ih.final;
              ran = ih.ran;
              file_is = ih.file_is ∙ append_assoc file (deltas 0 (b ∷ bs)) ih.more;
              dict_is = ih.dict_is ∙ append_assoc dict (entry file g (b ∷ bs) ∷ []) ih.entries;
              encoded = (
                refl,
                decode_posting-deltas (b ∷ bs) file ih.more g up (omega (arith, room.all)),
                subst (λ t. IsEncoded t ih.entries (grouped (x / u32_mod) (x % u32_mod ∷ []) pairs))
                    (append_assoc file (deltas 0 (b ∷ bs)) ih.more) ih.encoded,
              );
            }
    ]

-- For sorted pairs that fit (at five bytes a pair, 2^32 bytes for them and 2^64 for the file),
-- `write_postings_from_pairs` succeeds: it appends to the file, and the entries of its dictionary lead,
-- in the order of the grams, to the blocks of each gram, which `decode_posting` reads back.
pub write_postings_from_pairs-IsEncoded :
    (pairs : List ℕ) (file : Bytes)
    → IsSorted 0 pairs
    → length pairs * 5 < u32_mod
    → length file + length pairs * 5 < u64_mod
    → (dict : List DictEntry) × (more : Bytes) × (write_postings_from_pairs (map ok pairs) file
        ≡ ok (dict, file ++ more))
      × IsEncoded (file ++ more) dict (postings pairs)
unfolding write_postings_from_pairs write_loop close
write_postings_from_pairs-IsEncoded [] file h small fits = ([], [], rw (append-nil file) refl, tt)
write_postings_from_pairs-IsEncoded (x ∷ pairs) file (_, low, h) small fits =
    let back : x / u32_mod * u32_mod + x % u32_mod ≡ x = omega arith in
    let size : length (deltas 0 (x % u32_mod ∷ [])) ≤ 5 =
      rw (deltas-one (x % u32_mod)) (length-groups 4 (x % u32_mod)).1 in
    let done =
      write_loop-IsWritten pairs file [] (x / u32_mod) (x % u32_mod) []
        (omega arith, omega arith, tt) (rw back h)
        record { list = omega (arith, size); all = omega (arith, size) } in
    (
      done.entries,
      done.more,
      rw (first_pair file x, done.ran, done.file_is, done.dict_is) refl,
      done.encoded,
    )
