-- ===== src/Base/Words.antt =====
-- Words joined by spaces, and what splitting makes of them.
use Prim.Native.Nat.{ℕ}
use mathlib.Core.Path.{◌≡◌, refl, ap, sym, ◌∙◌}
use mathlib.Core.Logic.{◌≢◌, inl, inr}
use mathlib.Core.Bool.{Bool, true, false}
use mathlib.Core.Option.{none, some}
use mathlib.Core.List.{List, [], ◌∷◌, ◌++◌, append-nil, append_assoc}
use neutrasearch.Base.Tests.{◌==◌, ==_iff, Bool-cases}
use neutrasearch.Base.Lists.{All}
use neutrasearch.Base.Text.{split, non_empty, split_whitespace, split_once, strip_prefix, codes}

-- The words, with a space in front of each but the first.
abbrev pub join : List (List ℕ) → List ℕ
join [] = []
join (w ∷ []) = w
join (w ∷ v ∷ words) = w ++ b' ' ∷ join (v ∷ words)

module _ (is_whitespace : ℕ → Bool) where
  -- A word is not empty and has no white space.
  abbrev pub IsWord : List ℕ → Type 0
  IsWord w = (w ≢ []) × All (λ c. is_whitespace c ≡ false) w

  split-word : (w : List ℕ) → All (λ c. is_whitespace c ≡ false) w → split is_whitespace w ≡ w ∷ []
  unfolding split
  split-word [] all = refl
  split-word (c ∷ w) (inside, all) = rw (split, inside, split-word w all) refl

  split-space :
      (w s : List ℕ)
      → is_whitespace b' ' ≡ true
      → All (λ c. is_whitespace c ≡ false) w
      → split is_whitespace (w ++ b' ' ∷ s) ≡ w ∷ split is_whitespace s
  unfolding split
  split-space [] s blank all = rw (split, blank) refl
  split-space (c ∷ w) s blank (inside, all) = rw (split, inside, split-space w s blank all) refl

  non_empty-word :
      (w : List ℕ) (ws : List (List ℕ)) → w ≢ [] → non_empty (w ∷ ws) ≡ w ∷ non_empty ws
  unfolding non_empty
  non_empty-word [] ws n = absurd (n refl)
  non_empty-word (c ∷ w) ws n = refl

  split-none : non_empty (split is_whitespace []) ≡ []
  unfolding split non_empty
  split-none = refl

  non_empty-nil : non_empty [] ≡ []
  unfolding non_empty
  non_empty-nil = refl

  -- White space separates the words.
  pub split_whitespace-join :
      (words : List (List ℕ))
      → is_whitespace b' ' ≡ true
      → All IsWord words
      → split_whitespace is_whitespace (join words) ≡ words
  unfolding split_whitespace
  split_whitespace-join [] blank all = split-none
  split_whitespace-join (w ∷ []) blank ((n, inside), all) =
      rw (split-word w inside) (non_empty-word w [] n ∙ ap (λ t. w ∷ t) non_empty-nil)
  split_whitespace-join (w ∷ v ∷ words) blank ((n, inside), all) =
      rw (split-space w (join (v ∷ words)) blank inside)
        (non_empty-word w _ n ∙ ap (λ t. w ∷ t) (split_whitespace-join (v ∷ words) blank all))

-- A dash between spaces, which ends the fields in front.
abbrev dash : List ℕ
dash = codes " - "

-- A field is not empty, has no space and is no dash.
abbrev pub IsField : List ℕ → Type 0
IsField w = (w ≢ []) × (w ≢ b'-' ∷ []) × All (λ c. (b' ' == c) ≡ false) w

strip_prefix-other : (c : ℕ) (s : List ℕ) → (b' ' == c) ≡ false → strip_prefix dash (c ∷ s) ≡ none
unfolding strip_prefix
strip_prefix-other c s other = rw (strip_prefix, other) refl

-- Behind a space stands a field.
strip_prefix-field : (w s : List ℕ) → IsField w → strip_prefix dash (b' ' ∷ (w ++ b' ' ∷ s)) ≡ none
unfolding strip_prefix
strip_prefix-field [] s (n, no_dash, plain) = absurd (n refl)
strip_prefix-field (x ∷ []) s (n, no_dash, plain) = elim (Bool-cases (b'-' == x)) [
  | inl same ↦ absurd (no_dash (ap (λ t. t ∷ []) (sym ((==_iff b'-' x).0 same))))
  | inr other ↦ rw other refl
]
strip_prefix-field (x ∷ y ∷ w) s (n, no_dash, (first, (second, plain))) =
    elim (Bool-cases (b'-' == x)) [ inl same ↦ rw (same, second) refl | inr other ↦ rw other refl ]

split_once-miss :
    (c : ℕ) (s : List ℕ) {front back : List ℕ}
    → strip_prefix dash (c ∷ s) ≡ none
    → split_once dash s ≡ some (front, back)
    → split_once dash (c ∷ s) ≡ some (c ∷ front, back)
unfolding split_once
split_once-miss c s miss later = rw (split_once, miss, later) refl

split_once-word :
    (w s : List ℕ) {front back : List ℕ}
    → All (λ c. (b' ' == c) ≡ false) w
    → split_once dash s ≡ some (front, back)
    → split_once dash (w ++ s) ≡ some (w ++ front, back)
split_once-word [] s plain later = later
split_once-word (c ∷ w) s (other, plain) later =
    split_once-miss c (w ++ s) (strip_prefix-other c (w ++ s) other)
      (split_once-word w s plain later)

split_once-here : (post : List ℕ) → split_once dash (dash ++ post) ≡ some ([], post)
unfolding split_once strip_prefix
split_once-here post = refl

-- What follows the first field starts with a space.
join-first :
    (f : List ℕ) (fields : List (List ℕ)) (post : List ℕ)
    → (t : List ℕ) × (join (f ∷ fields) ++ (dash ++ post) ≡ f ++ b' ' ∷ t)
join-first f [] post = (b'-' ∷ b' ' ∷ post, refl)
join-first f (g ∷ fields) post =
    (join (g ∷ fields) ++ (dash ++ post), append_assoc f (b' ' ∷ join (g ∷ fields)) (dash ++ post))

-- The first dash between spaces is the one behind the fields.
pub split_once-join :
    (f : List ℕ) (fields : List (List ℕ)) (post : List ℕ)
    → All IsField (f ∷ fields)
    → split_once dash (join (f ∷ fields) ++ (dash ++ post)) ≡ some (join (f ∷ fields), post)
split_once-join f [] post ((n, no_dash, plain), all) =
    split_once-word f (dash ++ post) plain (split_once-here post)
    ∙ ap (λ t. some (t, post)) (append-nil f)
split_once-join f (g ∷ fields) post ((n, no_dash, plain), all) =
    let (t, first) = join-first g fields post in
    ap (split_once dash) (append_assoc f (b' ' ∷ join (g ∷ fields)) (dash ++ post))
    ∙ split_once-word f (b' ' ∷ (join (g ∷ fields) ++ (dash ++ post))) plain (
        split_once-miss b' ' (join (g ∷ fields) ++ (dash ++ post))
          (ap (λ s. strip_prefix dash (b' ' ∷ s)) first ∙ strip_prefix-field g t all.0)
          (split_once-join g fields post all))
