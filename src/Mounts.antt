-- ===== src/Mounts.antt =====
-- crates/neutra-core/src/mounts.rs: the kinds of file systems, and the mounts of /proc/self/mountinfo.
-- Strings are lists of code points, and `is_whitespace` is the test of the standard library; the kinds
-- are told by ASCII names, so that their names may as well be bytes.
pub mod Escapes
pub mod Fields
pub mod Hosts
pub mod Order
mod Examples
use neutrasearch.Base.{
  ℕ, Bool, true, false, ◌&&◌, ◌||◌, List, [], ◌∷◌, ◌++◌, Option, none, some, get_elem?, ◌==◌,
  if◌then◌else◌, Bytes, equal,
}
use neutrasearch.Base.Sorting.{sort_by}
use neutrasearch.Base.Options.{◌>>=◌}
use neutrasearch.Base.Text.{
  codes, is, is_one_of, split_once, replace, front, after_last, split_whitespace, lines,
}
use neutrasearch.Record.{FsKind, btrfs, ext4, ntfs, zfs, network, unsupported}

unfoldable pub from_fstype : Bytes → FsKind
from_fstype fstype =
    if is fstype "btrfs"
    then btrfs
    else if is_one_of fstype ("ext4" ∷ "ext3" ∷ "ext2" ∷ [])
    then ext4
    else if is_one_of fstype ("ntfs" ∷ "ntfs3" ∷ "ntfs-3g" ∷ "fuseblk" ∷ [])
    then ntfs
    else if is fstype "zfs"
    then zfs
    else if is_one_of fstype (
        "nfs" ∷ "nfs4" ∷ "cifs" ∷ "smb3" ∷ "smbfs" ∷ "sshfs" ∷ "fuse.sshfs" ∷ "9p" ∷ "virtiofs"
        ∷ "glusterfs" ∷ "ceph" ∷ "fuse.ceph" ∷ [])
    then network fstype
    else unsupported fstype

unfoldable pub label : FsKind → Bytes
label btrfs = codes "btrfs"
label ext4 = codes "ext4"
label ntfs = codes "ntfs"
label zfs = codes "zfs"
label (network n) = codes "net:" ++ n
label (unsupported n) = n

unfoldable pub is_indexable_local : FsKind → Bool
is_indexable_local (network n) = false
is_indexable_local (unsupported n) = false
is_indexable_local _ = true

pub data MountSource : Type 0 where
  local : MountSource
  remote : Bytes → MountSource

pub record MountInfo : Type 0 where
  pub device : Bytes
  pub mountpoint : Bytes
  pub fs : FsKind
  pub source : MountSource

-- `trim_start_matches("//")`
unfoldable pub trim_slashes : Bytes → Bytes
trim_slashes (a ∷ b ∷ device) =
    let rest = trim_slashes device in if a == b'/' && b == b'/' then rest else a ∷ b ∷ device
trim_slashes device = device

-- `rsplit('@').next().unwrap_or(d)`
unfoldable pub behind_at : Bytes → Bytes
behind_at d = elim (after_last b'@' d) [ none ↦ d | some rest ↦ rest ]

-- The parts that `split` makes start before the first colon or slash.
unfoldable pub network_host : Bytes → Option Bytes
network_host device =
    let host = front (λ c. c == b':' || c == b'/') (behind_at (trim_slashes device)) in
    elim host [ [] ↦ none | c ∷ cs ↦ some (c ∷ cs) ]

abbrev pub space_code : Bytes
space_code = codes "\\040"

unfoldable pub source_unescape : Bytes → Bytes
source_unescape s = replace (codes "\\134") (92 ∷ []) (
    replace (codes "\\012") (10 ∷ [])
      (replace (codes "\\011") (9 ∷ []) (replace space_code (b' ' ∷ []) s)))

-- A network mount gets its host from the device; without one it is left out.
unfoldable pub with_source : Bytes → Bytes → FsKind → Option MountInfo
with_source device mountpoint (unsupported n) = none
with_source device mountpoint (network n) = elim (network_host device) [
  | none ↦ none
  | some host ↦
      some record { device = device; mountpoint = mountpoint; fs = network n; source = remote host }
]
with_source device mountpoint fs =
    some record { device = device; mountpoint = mountpoint; fs = fs; source = local }

abbrev pub dash : Bytes
dash = codes " - "

-- `filter_map`
unfoldable pub filter_map : {A : Type 0} → (Bytes → Option A) → List Bytes → List A
filter_map f [] = []
filter_map f (line ∷ rest) = elim (f line) [
  | none ↦ filter_map f rest
  | some x ↦ x ∷ filter_map f rest
]

-- `b.mountpoint.cmp(&a.mountpoint)`; `path_less` is the order of paths.
unfoldable pub mount_less : (Bytes → Bytes → Bool) → MountInfo → MountInfo → Bool
mount_less path_less a b = path_less a.mountpoint b.mountpoint

module _ (is_whitespace : ℕ → Bool) where
  -- The two fields behind the dash.
  unfoldable pub type_and_device : Bytes → Option (Bytes × Bytes)
  type_and_device post = elim (split_whitespace is_whitespace post) [
    | [] ↦ none
    | fstype ∷ fields ↦ elim fields [ [] ↦ none | dev ∷ more ↦ some (fstype, dev) ]
  ]

  -- One round of `parse_mountinfo`.
  unfoldable pub parse_mount : Bytes → Option MountInfo
  parse_mount line = do
    (pre, post) ← split_once dash line
    (fstype, dev) ← type_and_device post
    mountpoint ← get_elem? (split_whitespace is_whitespace pre) 4
    with_source (source_unescape dev) (replace space_code (b' ' ∷ []) mountpoint)
        (from_fstype fstype)

  unfoldable pub mount_root_of : Bytes → Bytes → Option Bytes
  mount_root_of mountpoint line = do
    (pre, post) ← split_once dash line
    root ← get_elem? (split_whitespace is_whitespace pre) 3
    point ← get_elem? (split_whitespace is_whitespace pre) 4
    if equal (source_unescape point) mountpoint then some (source_unescape root) else none

  -- `find_map`
  unfoldable pub first_root : Bytes → List Bytes → Option Bytes
  first_root mountpoint [] = none
  first_root mountpoint (line ∷ rest) = elim (mount_root_of mountpoint line) [
    | some root ↦ some root
    | none ↦ first_root mountpoint rest
  ]

  unfoldable pub mount_root : Bytes → Bytes → Option Bytes
  mount_root raw mountpoint = first_root mountpoint (lines raw)

  unfoldable pub mountpoint_of : Bytes → Option Bytes
  mountpoint_of line = do
    (pre, post) ← split_once dash line
    point ← get_elem? (split_whitespace is_whitespace pre) 4
    some (source_unescape point)

  unfoldable pub mountpoints : Bytes → List Bytes
  mountpoints raw = filter_map mountpoint_of (lines raw)

  module _ (path_less : Bytes → Bytes → Bool) where
    unfoldable pub parse_mountinfo : Bytes → List MountInfo
    parse_mountinfo raw = sort_by (mount_less path_less) (filter_map parse_mount (lines raw))
