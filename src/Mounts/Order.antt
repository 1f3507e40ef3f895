-- ===== src/Mounts/Order.antt =====
-- The order of the mounts that `parse_mountinfo` returns.
mod Examples
use neutrasearch.Base.{
  ℕ, Bool, true, false, List, [], ◌∷◌, ◌≡◌, Bytes, All, inl, inr, Bool-cases, map, ap, ◌∙◌,
}
use neutrasearch.Base.Text.{lines}
use neutrasearch.Base.Sorting.{
  IsOrder, AreDescending, sort_by-AreDescending, HaveSameItems, sort_by-HaveSameItems,
}
use neutrasearch.Mounts.Fields.{Line, text, IsLine, Describes, Describes-filter_map}
use neutrasearch.Mounts.{mount_less, MountInfo, parse_mount, filter_map, parse_mountinfo}

-- What is asked of the order of paths: it is a strict order in which paths are comparable, and a path
-- comes before what lies below it.
pub record IsPathOrder (less : Bytes → Bytes → Bool) (is_below : Bytes → Bytes → Bool)
    : Type 0 where
  pub asymmetric : (a b : Bytes) → less a b ≡ true → less b a ≡ false
  pub comparable : (a b c : Bytes) → less a b ≡ false → less b c ≡ false → less a c ≡ false
  pub below_later : (path root : Bytes) → is_below path root ≡ true → less root path ≡ true

module _ (is_whitespace : ℕ → Bool) (less : Bytes → Bytes → Bool) {is_below : Bytes → Bytes → Bool}
    (order : IsPathOrder less is_below) where
  mount_less-IsOrder : IsOrder (mount_less less)
  unfolding mount_less
  mount_less-IsOrder = record {
    asymmetric = λ a b. order.asymmetric a.mountpoint b.mountpoint;
    comparable = λ a b c. order.comparable a.mountpoint b.mountpoint c.mountpoint;
  }

  -- Each mount comes before the mounts that it lies below.
  abbrev pub AreInnermost : List MountInfo → Type 0
  AreInnermost [] = Unit
  AreInnermost (m ∷ rest) =
      All (λ (n : MountInfo). is_below n.mountpoint m.mountpoint ≡ false) rest × AreInnermost rest

  All-below :
      (m : MountInfo) (rest : List MountInfo)
      → All (λ (n : MountInfo). mount_less less m n ≡ false) rest
      → All (λ (n : MountInfo). is_below n.mountpoint m.mountpoint ≡ false) rest
  unfolding mount_less
  All-below m [] all = tt
  All-below m (n ∷ rest) (here, all) = (
    elim (Bool-cases (is_below n.mountpoint m.mountpoint)) [
      | inl below ↦ let never = order.below_later n.mountpoint m.mountpoint below in cc
      | inr apart ↦ apart
    ],
    All-below m rest all,
  )

  AreDescending-AreInnermost :
      (ms : List MountInfo) → AreDescending (mount_less less) ms → AreInnermost ms
  AreDescending-AreInnermost [] sorted = tt
  AreDescending-AreInnermost (m ∷ rest) (first, sorted) =
      (All-below m rest first, AreDescending-AreInnermost rest sorted)

  -- Where a space is white space and a path comes before what lies below it, `parse_mountinfo` returns the
  -- mounts that the lines of the file describe by their fields, each as often as it is described, and no
  -- mount stands behind one that it lies below: the first mount that a path is under is the innermost one.
  -- The fields have no white space, those in front of the dash are no dash, and no mount point has a tab, a
  -- newline or a backslash.
  pub parse_mountinfo-AreInnermost :
      (raw : Bytes) (ls : List Line) (mounts : List MountInfo)
      → is_whitespace b' ' ≡ true
      → lines raw ≡ map text ls
      → All (IsLine is_whitespace) ls
      → Describes ls mounts
      → AreInnermost (parse_mountinfo is_whitespace less raw)
        × HaveSameItems (parse_mountinfo is_whitespace less raw) mounts
  unfolding parse_mountinfo
  parse_mountinfo-AreInnermost raw ls mounts blank same are_lines described =
      let parsed : filter_map (parse_mount is_whitespace) (lines raw) ≡ mounts =
        ap (filter_map (parse_mount is_whitespace)) same
        ∙ Describes-filter_map is_whitespace blank ls mounts are_lines described in
      rw parsed (
        AreDescending-AreInnermost _
            (sort_by-AreDescending (mount_less less) mount_less-IsOrder mounts),
        sort_by-HaveSameItems (mount_less less) mounts,
      )
