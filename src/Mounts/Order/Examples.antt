-- ===== src/Mounts/Order/Examples.antt =====
-- Two mounts of which one lies below the other, and a kind that is left out.
use neutrasearch.Base.Sorting.{HaveSameItems}
use neutrasearch.Mounts.Fields.{
  Line, text, IsLine, Describes, mount_from, front_fields, back_fields,
}
use neutrasearch.Mounts.Escapes.{IsPlain, spell, all_coded, sign, sign_from, escape}
use neutrasearch.Base.Words.{IsWord, IsField}
use neutrasearch.Base.Text.{split, drop_return, drop_empty_end, codes, lines, front}
use neutrasearch.Base.{
  and_true, List, equal, equal_iff, not, map, ◌≢◌, All, inl, inr, ℕ, Bool, true, false, [], ◌∷◌,
  ◌++◌, ◌≡◌, refl, ◌==◌, ltb, ◌&&◌, ◌||◌, Bytes, arith,
}
use neutrasearch.Mounts.{MountInfo, local, from_fstype, parse_mountinfo}
use neutrasearch.Mounts.Order.{parse_mountinfo-AreInnermost, AreInnermost, IsPathOrder}

-- The order of the bytes.
text_less : Bytes → Bytes → Bool
text_less [] [] = false
text_less [] (y ∷ b) = true
text_less (x ∷ a) [] = false
text_less (x ∷ a) (y ∷ b) = let later = text_less a b in ltb x y || (x == y && later)

text_below : Bytes → Bytes → Bool
text_below [] root = false
text_below (x ∷ path) [] = true
text_below (x ∷ path) (y ∷ root) = let later = text_below path root in x == y && later

text_asymmetric : (a b : Bytes) → text_less a b ≡ true → text_less b a ≡ false
unfolding text_less
text_asymmetric [] [] h = refl
text_asymmetric [] (y ∷ b) h = refl
text_asymmetric (x ∷ a) [] h = cc
text_asymmetric (x ∷ a) (y ∷ b) h = ground (arith, text_asymmetric a b)

text_comparable :
    (a b c : Bytes) → text_less a b ≡ false → text_less b c ≡ false → text_less a c ≡ false
unfolding text_less
text_comparable [] [] c h k = k
text_comparable [] (y ∷ b) c h k = cc
text_comparable (x ∷ a) b [] h k = refl
text_comparable (x ∷ a) [] (z ∷ c) h k = cc
text_comparable (x ∷ a) (y ∷ b) (z ∷ c) h k = ground (arith, text_comparable a b c)

text_later : (path root : Bytes) → text_below path root ≡ true → text_less root path ≡ true
unfolding text_less text_below
text_later [] root h = cc
text_later (x ∷ path) [] h = refl
text_later (x ∷ path) (y ∷ root) h = ground (arith, text_later path root)

text_order : IsPathOrder text_less text_below
text_order = record {
  asymmetric = text_asymmetric;
  comparable = text_comparable;
  below_later = text_later;
}

is_blank : ℕ → Bool
is_blank c = c == b' ' || c == 10

is_blank-space : is_blank b' ' ≡ true
unfolding is_blank
is_blank-space = refl

abbrev root_line : Line
root_line = record {
  id = codes "22";
  parent = codes "1";
  number = codes "8:2";
  root = codes "/";
  mountpoint = codes "/";
  options = codes "rw" ∷ [];
  fstype = codes "ext4";
  device = codes "/dev/sda2";
  super_options = codes "rw" ∷ [];
}

abbrev proc_line : Line
proc_line = record {
  id = codes "30";
  parent = codes "22";
  number = codes "0:25";
  root = codes "/";
  mountpoint = codes "/proc";
  options = codes "rw" ∷ [];
  fstype = codes "proc";
  device = codes "proc";
  super_options = codes "rw" ∷ [];
}

abbrev home_line : Line
home_line = record {
  id = codes "31";
  parent = codes "22";
  number = codes "259:3";
  root = codes "/@home";
  mountpoint = codes "/my home";
  options = codes "rw" ∷ codes "shared:1" ∷ [];
  fstype = codes "btrfs";
  device = codes "/dev/sdb1";
  super_options = codes "rw" ∷ [];
}

abbrev three_lines : List Line
three_lines = root_line ∷ proc_line ∷ home_line ∷ []

abbrev raw : Bytes
raw =
    codes "22 1 8:2 / / rw - ext4 /dev/sda2 rw\n30 22 0:25 / /proc rw - proc proc rw\n"
    ++ codes "31 22 259:3 /@home /my\\040home rw shared:1 - btrfs /dev/sdb1 rw\n"

abbrev two_mounts : List MountInfo
two_mounts = mount_from root_line local ∷ mount_from home_line local ∷ []

raw-text : lines raw ≡ map text three_lines
unfolding lines split drop_return drop_empty_end escape spell all_coded sign sign_from
raw-text = refl

is_text : Bytes → Bool
unfolding is_blank
is_text [] = true
is_text (c ∷ w) = not (is_blank c) && is_text w

graphic : (c : ℕ) → not (is_blank c) ≡ true → (is_blank c ≡ false) × ((b' ' == c) ≡ false)
unfolding is_blank
graphic c h = ground arith

is_text-graphic :
    (w : Bytes)
    → is_text w ≡ true
    → All (λ c. is_blank c ≡ false) w × All (λ c. (b' ' == c) ≡ false) w
unfolding is_text
is_text-graphic [] h = (tt, tt)
is_text-graphic (c ∷ w) h =
    let (here, there) = and_true (not (is_blank c)) (is_text w) h in
    let (inside, other) = graphic c here in
    let (all_inside, all_other) = is_text-graphic w there in
    ((inside, all_inside), (other, all_other))

-- The words are no dash.
are_fields : List Bytes → Bool
are_fields [] = true
are_fields (w ∷ ws) =
    (not (equal w []) && (not (equal w (b'-' ∷ [])) && is_text w)) && are_fields ws

differs : (a b : Bytes) → not (equal a b) ≡ true → a ≢ b
differs a b h same = let equals = (equal_iff a b).1 same in let never = rw equals at h in cc

are_fields-IsField :
    (ws : List Bytes) → are_fields ws ≡ true → All (IsWord is_blank) ws × All IsField ws
unfolding are_fields
are_fields-IsField [] h = (tt, tt)
are_fields-IsField (w ∷ ws) h =
    let (here, there) = and_true _ (are_fields ws) h in
    let (filled, more) = and_true (not (equal w [])) _ here in
    let (other, chars) = and_true (not (equal w (b'-' ∷ []))) _ more in
    let (plain, no_space) = is_text-graphic w chars in
    let (words, fields) = are_fields-IsField ws there in
    (
      ((differs w [] filled, plain), words),
      ((differs w [] filled, differs w (b'-' ∷ []) other, no_space), fields),
    )

is_plain : Bytes → Bool
is_plain [] = true
is_plain (c ∷ path) = (not (c == 9) && (not (c == 10) && not (c == 92))) && is_plain path

false_of_not : (b : Bool) → not b ≡ true → b ≡ false
false_of_not true e = cc
false_of_not false e = refl

is_plain-IsPlain : (path : Bytes) → is_plain path ≡ true → All IsPlain path
unfolding is_plain
is_plain-IsPlain [] h = tt
is_plain-IsPlain (c ∷ path) h =
    let (here, there) = and_true _ (is_plain path) h in
    let (not_tab, more) = and_true (not (c == 9)) _ here in
    let (not_newline, not_backslash) = and_true (not (c == 10)) _ more in
    (
      (false_of_not _ not_tab, false_of_not _ not_newline, false_of_not _ not_backslash),
      is_plain-IsPlain path there,
    )

line-IsLine :
    (l : Line)
    → are_fields (front_fields l) ≡ true
    → are_fields (back_fields l) ≡ true
    → is_plain l.mountpoint ≡ true
    → IsLine is_blank l
line-IsLine l front back point = record {
  front_words = (are_fields-IsField (front_fields l) front).0;
  back_words = (are_fields-IsField (back_fields l) back).0;
  no_dash = (are_fields-IsField (front_fields l) front).1;
  plain_point = is_plain-IsPlain l.mountpoint point;
}

three_lines-IsLine : All (IsLine is_blank) three_lines
unfolding escape spell all_coded sign sign_from is_text are_fields is_plain is_blank
three_lines-IsLine = (
  line-IsLine root_line refl refl refl,
  (line-IsLine proc_line refl refl refl, (line-IsLine home_line refl refl refl, tt)),
)

three_lines-Describes : Describes three_lines two_mounts
unfolding from_fstype
three_lines-Describes =
    (inr (
      mount_from root_line local,
      mount_from home_line local ∷ [],
      (local, refl, refl),
      inl (tt, inr (mount_from home_line local, [], (local, refl, refl), refl, refl)),
      refl,
    ))

parse_mountinfo-AreInnermost_example :
    AreInnermost is_blank text_less text_order (parse_mountinfo is_blank text_less raw)
    × HaveSameItems (parse_mountinfo is_blank text_less raw) two_mounts
parse_mountinfo-AreInnermost_example =
    parse_mountinfo-AreInnermost is_blank text_less text_order raw three_lines two_mounts
      is_blank-space raw-text three_lines-IsLine three_lines-Describes
