-- ===== src/Mounts/Fields.antt =====
-- The lines of /proc/self/mountinfo by their fields, and the mounts that they describe.
use neutrasearch.Base.{
  ℕ, Bool, true, List, [], ◌∷◌, ◌++◌, none, some, ◌≡◌, ◌⊎◌, inl, inr, refl, sym, ap, ◌∙◌, Bytes,
  All, map,
}
use neutrasearch.Base.Text.{codes}
use neutrasearch.Base.Words.{join, IsWord, IsField, split_whitespace-join, split_once-join}
use neutrasearch.Record.{FsKind, btrfs, ext4, ntfs, zfs, network, unsupported}
use neutrasearch.Mounts.{
  MountSource, local, remote, MountInfo, network_host, from_fstype, with_source, type_and_device,
  parse_mount, filter_map,
}
use neutrasearch.Mounts.Escapes.{escape, source_unescape-escape, IsPlain, replace-escape}

-- The path of the mount point and the device are those of the machine; the line has them escaped.
pub record Line : Type 0 where
  pub id : Bytes
  pub parent : Bytes
  pub number : Bytes
  pub root : Bytes
  pub mountpoint : Bytes
  pub options : List Bytes
  pub fstype : Bytes
  pub device : Bytes
  pub super_options : List Bytes

abbrev pub front_fields : Line → List Bytes
front_fields l = l.id ∷ l.parent ∷ l.number ∷ l.root ∷ escape l.mountpoint ∷ l.options

abbrev pub back_fields : Line → List Bytes
back_fields l = l.fstype ∷ escape l.device ∷ l.super_options

-- The line of the file.
abbrev pub text : Line → Bytes
text l = join (front_fields l) ++ (codes " - " ++ join (back_fields l))

-- The network kinds have the host of their device.
abbrev pub IsSource : FsKind → Bytes → MountSource → Type 0
IsSource (network n) device source =
    (host : Bytes) × (network_host device ≡ some host) × (source ≡ remote host)
IsSource (unsupported n) device source = ⊥
IsSource _ device source = source ≡ local

abbrev pub mount_from : Line → MountSource → MountInfo
mount_from l source = record {
  device = l.device;
  mountpoint = l.mountpoint;
  fs = from_fstype l.fstype;
  source = source;
}

-- The mount of the line.
abbrev pub IsMountOf : Line → MountInfo → Type 0
IsMountOf l m =
    (source : MountSource) × IsSource (from_fstype l.fstype) l.device source
    × (m ≡ mount_from l source)

-- The kind is not indexed, or it is a network kind and the device has no host.
abbrev pub IsLeftOut : FsKind → Bytes → Type 0
IsLeftOut (network n) device = network_host device ≡ none
IsLeftOut (unsupported n) device = Unit
IsLeftOut _ device = ⊥

-- The mounts that the lines describe, in their order.
abbrev pub Describes : List Line → List MountInfo → Type 0
Describes [] ms = ms ≡ []
Describes (l ∷ ls) ms =
    (IsLeftOut (from_fstype l.fstype) l.device × Describes ls ms)
    ⊎ ((m : MountInfo) × (rest : List MountInfo) × IsMountOf l m
        × Describes ls rest
        × (ms ≡ m ∷ rest))

module _ (is_whitespace : ℕ → Bool) where
  -- The fields have no white space, none of the front ones is a dash, and the mount point has no tab, newline
  -- or backslash.
  pub record IsLine (l : Line) : Type 0 where
    pub front_words : All (IsWord is_whitespace) (front_fields l)
    pub back_words : All (IsWord is_whitespace) (back_fields l)
    pub no_dash : All IsField (front_fields l)
    pub plain_point : All IsPlain l.mountpoint

  parse_mount-text :
      (l : Line)
      → is_whitespace b' ' ≡ true
      → IsLine l
      → parse_mount is_whitespace (text l)
        ≡ with_source l.device l.mountpoint (from_fstype l.fstype)
  unfolding parse_mount type_and_device
  parse_mount-text l blank h =
      rw
        (
          parse_mount,
          split_once-join l.id (l.parent ∷ l.number ∷ l.root ∷ escape l.mountpoint ∷ l.options)
              (join (back_fields l)) h.no_dash,
          type_and_device,
          split_whitespace-join is_whitespace (back_fields l) blank h.back_words,
          split_whitespace-join is_whitespace (front_fields l) blank h.front_words,
          source_unescape-escape l.device,
          replace-escape l.mountpoint h.plain_point,
        )
        refl

with_source-IsSource :
    (fs : FsKind) (device mountpoint : Bytes) (source : MountSource)
    → IsSource fs device source
    → with_source device mountpoint fs
      ≡ some record { device = device; mountpoint = mountpoint; fs = fs; source = source }
unfolding with_source
with_source-IsSource (network n) device mountpoint source (host, known, same) =
    rw (with_source, known, same) refl
with_source-IsSource (unsupported n) device mountpoint source h = absurd h
with_source-IsSource btrfs device mountpoint source same = rw same refl
with_source-IsSource ext4 device mountpoint source same = rw same refl
with_source-IsSource ntfs device mountpoint source same = rw same refl
with_source-IsSource zfs device mountpoint source same = rw same refl

with_source-IsLeftOut :
    (fs : FsKind) (device mountpoint : Bytes)
    → IsLeftOut fs device
    → with_source device mountpoint fs ≡ none
unfolding with_source
with_source-IsLeftOut (network n) device mountpoint no_host = rw (with_source, no_host) refl
with_source-IsLeftOut (unsupported n) device mountpoint h = refl
with_source-IsLeftOut btrfs device mountpoint h = absurd h
with_source-IsLeftOut ext4 device mountpoint h = absurd h
with_source-IsLeftOut ntfs device mountpoint h = absurd h
with_source-IsLeftOut zfs device mountpoint h = absurd h

module _ (is_whitespace : ℕ → Bool) (blank : is_whitespace b' ' ≡ true) where
  -- The lines give the mounts that they describe.
  pub Describes-filter_map :
      (ls : List Line) (ms : List MountInfo)
      → All (IsLine is_whitespace) ls
      → Describes ls ms
      → filter_map (parse_mount is_whitespace) (map text ls) ≡ ms
  unfolding filter_map
  Describes-filter_map [] ms are_lines nothing = sym nothing
  Describes-filter_map (l ∷ ls) ms (is_line, are_lines) (inl (out, more)) =
      rw
        (
          filter_map,
          parse_mount-text is_whitespace l blank is_line,
          with_source-IsLeftOut (from_fstype l.fstype) l.device l.mountpoint out,
        )
        (Describes-filter_map ls ms are_lines more)
  Describes-filter_map (l ∷ ls) ms (is_line, are_lines)
        (inr (m, rest, (source, is_source, is_mount), more, both)) =
      rw
        (
          filter_map,
          parse_mount-text is_whitespace l blank is_line,
          with_source-IsSource (from_fstype l.fstype) l.device l.mountpoint source is_source,
        )
        (ap (λ t. mount_from l source ∷ t) (Describes-filter_map ls rest are_lines more)
          ∙ ap (λ t. t ∷ rest) (sym is_mount)
          ∙ sym both)
