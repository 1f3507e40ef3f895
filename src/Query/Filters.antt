-- ===== src/Query/Filters.antt =====
-- `passes_filters` of crates/neutra-core/src/query.rs, and the name and extension of a record, of types.rs.
pub mod Admitted
use neutrasearch.Base.{
  ℕ, ◌-◌, Bool, true, false, not, ◌&&◌, ◌||◌, List, [], ◌∷◌, Option, none, some, length, leb, ◌==◌,
  if◌then◌else◌, Bytes, equal, map, bit_and,
}
use neutrasearch.Base.Text.{codes, after_last}
use neutrasearch.Record.{
  FileKind, FsKind, FileRecord, file, dir, symlink, other, btrfs, ext4, ntfs, zfs, network,
  unsupported, disk_bytes,
}
use neutrasearch.Query.Types.{Query}
use neutrasearch.Query.Paths.{
  to_ascii_lowercase, safe_absolute_path, path_is_under, path_is_under_ci,
}

-- `rfind('/')`
unfoldable pub name_of : FileRecord → Bytes
name_of r = elim (after_last b'/' r.path) [ none ↦ r.path | some rest ↦ rest ]

-- The extension of a name, given what follows its last dot.
unfoldable pub extension_from : Bytes → Option Bytes → Bytes
extension_from name none = []
extension_from name (some rest) =
    let i : ℕ = length name - length rest - 1 in if i == 0 || i == length name - 1 then [] else rest

unfoldable pub extension : FileRecord → Bytes
extension r = extension_from (name_of r) (after_last b'.' (name_of r))

-- `eq_ignore_ascii_case`
unfoldable pub same_text : Bytes → Bytes → Bool
same_text [] [] = true
same_text (x ∷ a) (y ∷ b) = to_ascii_lowercase x == to_ascii_lowercase y && same_text a b
same_text _ _ = false

-- `iter().any(..)`
unfoldable pub any {ℓ} : {A : Type ℓ} → (A → Bool) → List A → Bool
any f [] = false
any f (x ∷ xs) = f x || any f xs

abbrev pub is_empty {ℓ} : {A : Type ℓ} → List A → Bool
is_empty [] = true
is_empty (x ∷ xs) = false

unfoldable pub same_extension : Bytes → Bytes → Bool
same_extension ext want = length ext == length want && same_text ext want

abbrev pub exec_exts : List Bytes
exec_exts = map codes (
    "exe" ∷ "msi" ∷ "bat" ∷ "cmd" ∷ "com" ∷ "scr" ∷ "ps1" ∷ "vbs" ∷ "sh" ∷ "bash" ∷ "zsh" ∷ "fish"
    ∷ "run" ∷ "bin" ∷ "appimage" ∷ "deb" ∷ "rpm" ∷ "apk" ∷ "jar" ∷ "msix" ∷ "app" ∷ "gadget" ∷ [])

-- 73 is `0o111`.
unfoldable pub is_executable : FileRecord → Bool
is_executable r =
    if not (bit_and r.mode 73 == 0) then true else any (same_extension (extension r)) exec_exts

unfoldable pub same_kind : FileKind → FileKind → Bool
same_kind file file = true
same_kind dir dir = true
same_kind symlink symlink = true
same_kind other other = true
same_kind _ _ = false

unfoldable pub same_fs : FsKind → FsKind → Bool
same_fs btrfs btrfs = true
same_fs ext4 ext4 = true
same_fs ntfs ntfs = true
same_fs zfs zfs = true
same_fs (network a) (network b) = equal a b
same_fs (unsupported a) (unsupported b) = equal a b
same_fs _ _ = false

unfoldable pub at_least : Option ℕ → ℕ → Bool
at_least none n = true
at_least (some min) n = leb min n

unfoldable pub at_most : Option ℕ → ℕ → Bool
at_most none n = true
at_most (some max) n = leb n max

module _ (to_lowercase : Bytes → Bytes) (on_windows : Bool) where
  -- The test of one scope root.
  unfoldable pub in_scope : Bool → Bytes → Bytes → Bool
  in_scope case_sensitive path root =
      if case_sensitive
      then path_is_under to_lowercase on_windows path root
      else path_is_under_ci to_lowercase on_windows path root

  unfoldable pub is_under : Option Bytes → Bytes → Bool
  is_under none path = true
  is_under (some root) path = path_is_under_ci to_lowercase on_windows path root

  -- Each early return of `false` is a factor.
  unfoldable pub passes_filters : Query → FileRecord → Bool
  passes_filters q r =
      safe_absolute_path on_windows r.path
      && (is_empty q.kinds || any (λ k. same_kind k r.kind) q.kinds)
      && (not q.executable_only || is_executable r)
      && (is_empty q.fss || any (λ f. same_fs f r.fs) q.fss)
      && (is_empty q.exts || any (same_extension (extension r)) q.exts)
      && at_least q.min_size (disk_bytes r)
      && at_most q.max_size (disk_bytes r)
      && is_under q.under r.path
      && (is_empty q.scope_roots || any (in_scope q.scope_case_sensitive r.path) q.scope_roots)
      && not (any (in_scope q.scope_case_sensitive r.path) q.exclude_roots)
