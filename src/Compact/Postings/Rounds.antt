-- ===== src/Compact/Postings/Rounds.antt =====
-- What single rounds of `write_postings_from_pairs` do to its variables.
use neutrasearch.Base.{
  ℕ, ◌+◌, ◌-◌, ◌*◌, ◌/◌, ◌%◌, ◌≤◌, ◌<◌, ◌≡◌, refl, sym, arith, true, false, List, [], ◌∷◌, ◌++◌,
  some, length, length-append, ◌==◌, ltb, Bytes, ok, append-nil, u32_mod, u64_mod, none, ◌∙◌, ap,
}
use neutrasearch.Compact.Codec.RoundTrip.{groups, length-groups, put_varint-groups}
use neutrasearch.Compact.Postings.RoundTrip.{deltas, last_of, deltas-snoc, last_of-snoc}
use neutrasearch.Compact.Postings.{
  DictEntry, Writer, finish_posting, close, turn, delta_of, push_pair,
}

-- The variables of the loop while the blocks of gram `g` are `seen`.
abbrev pub state : Bytes → List DictEntry → ℕ → List ℕ → Writer
state file dict g seen = record {
  file = file;
  dict = dict;
  current_gram = some g;
  encoded = deltas 0 seen;
  previous = last_of 0 seen;
  offset = length file;
}

abbrev pub entry : Bytes → ℕ → List ℕ → DictEntry
entry file g seen = record { gram = g; len = length (deltas 0 seen); offset = length file }

-- There is room for what is to be written: five bytes for each pair.
pub record IsRoomy (file encoded : Bytes) (rest : List ℕ) : Type 0 where
  pub list : length encoded + length rest * 5 < u32_mod
  pub all : length file + (length encoded + length rest * 5) < u64_mod

pub close-state :
    (file : Bytes) (dict : List DictEntry) (g : ℕ) (seen : List ℕ)
    → IsRoomy file (deltas 0 seen) []
    → close (state file dict g seen)
      ≡ ok record {
        file = file ++ deltas 0 seen;
        dict = dict ++ entry file g seen ∷ [];
        current_gram = some g;
        encoded = deltas 0 seen;
        previous = last_of 0 seen;
        offset = length file + length (deltas 0 seen);
      }
unfolding close finish_posting
close-state file dict g seen room =
    let short : ltb (length (deltas 0 seen)) u32_mod ≡ true = ground (arith, room.list) in
    let fits : ltb (length file + length (deltas 0 seen)) u64_mod ≡ true =
      ground (arith, room.all) in
    rw (short, fits) refl

delta_of-some :
    (encoded : Bytes) (previous block : ℕ)
    → 1 ≤ length encoded
    → previous ≤ block
    → delta_of encoded previous block ≡ ok (block - previous)
unfolding delta_of
delta_of-some [] previous block h k = absurd (omega arith)
delta_of-some (x ∷ encoded) previous block h k = ground arith

deltas-length : (lo b : ℕ) (bs : List ℕ) → 1 ≤ length (deltas lo (b ∷ bs))
deltas-length lo b bs =
    omega (arith, length-groups 4 (b - lo), length-append (groups 4 (b - lo)) (deltas b bs))

pub deltas-one : (b : ℕ) → deltas 0 (b ∷ []) ≡ groups 4 b
deltas-one b = let e : b - 0 ≡ b = omega arith in append-nil (groups 4 (b - 0)) ∙ ap (groups 4) e

pub push_pair-same :
    (file : Bytes) (dict : List DictEntry) (g b : ℕ) (bs : List ℕ) (x : ℕ)
    → (g == x / u32_mod) ≡ true
    → last_of b bs ≤ x % u32_mod
    → push_pair x (state file dict g (b ∷ bs)) ≡ ok (state file dict g (b ∷ bs ++ x % u32_mod ∷ []))
unfolding push_pair turn
push_pair-same file dict g b bs x same h =
    let one =
      delta_of-some (deltas 0 (b ∷ bs)) (last_of b bs) (x % u32_mod) (deltas-length 0 b bs) h in
    rw
      (
        same,
        one,
        put_varint-groups (x % u32_mod - last_of b bs) (deltas 0 (b ∷ bs)) (omega arith),
        sym (deltas-snoc 0 (b ∷ bs) (x % u32_mod)),
        last_of-snoc 0 (b ∷ bs) (x % u32_mod),
      )
      refl

pub push_pair-other :
    (file : Bytes) (dict : List DictEntry) (g : ℕ) (seen : List ℕ) (x : ℕ)
    → (g == x / u32_mod) ≡ false
    → IsRoomy file (deltas 0 seen) []
    → push_pair x (state file dict g seen)
      ≡ ok (
          state
            (file ++ deltas 0 seen)
            (dict ++ entry file g seen ∷ [])
            (x / u32_mod)
            (x % u32_mod ∷ []))
unfolding push_pair turn delta_of
push_pair-other file dict g seen x other room =
    rw
      (
        other,
        close-state file dict g seen room,
        put_varint-groups (x % u32_mod) [] (omega arith),
        deltas-one (x % u32_mod),
        length-append file (deltas 0 seen),
      )
      refl

pub first_pair :
    (file : Bytes) (x : ℕ)
    → push_pair x record {
      file = file;
      dict = [];
      current_gram = none;
      encoded = [];
      previous = 0;
      offset = length file;
    }
      ≡ ok (state file [] (x / u32_mod) (x % u32_mod ∷ []))
unfolding push_pair turn delta_of close
first_pair file x =
    rw (put_varint-groups (x % u32_mod) [] (omega arith), deltas-one (x % u32_mod)) refl
