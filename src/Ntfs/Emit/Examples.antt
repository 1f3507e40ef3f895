-- ===== src/Ntfs/Emit/Examples.antt =====
-- The theorems on the end of a scan at a volume with directory `a`, record 7, below the root, and in it
-- the file `f`, record 8, which has a second name `g` in the root.
use neutrasearch.Ntfs.Namespace.Resolves.{root, below, IsSound}
use neutrasearch.Ntfs.Emit.Records.{Emits}
use neutrasearch.Ntfs.Records.{Alias, append_component, Entry}
use neutrasearch.Ntfs.Validate.{validate}
use neutrasearch.Base.Table.{find, Table}
use neutrasearch.Ntfs.Emit.{Emitter, trim_prefix, emit_volume}
use neutrasearch.Ntfs.Validate.Paths.{HasPath, IsValid, validate_iff}
use neutrasearch.Base.{
  ◌≡◌, ◌↔◌, ok, [], ◌∷◌, ◌++◌, true, false, some, Bytes, List, arith, refl, All,
}
use neutrasearch.Record.{FileRecord}
use neutrasearch.Ntfs.Emit.Volume.{EmitsAliases, emit_volume_succeeds}
use neutrasearch.Base.Int.{pos}

abbrev root_entry : Entry
root_entry = record {
  parent = 5;
  parent_sequence = 1;
  sequence = 1;
  name = b'.' ∷ [];
  size = 0;
  alloc = 0;
  mtime = pos 0;
  dir = true;
}

abbrev entry_a : Entry
entry_a = record {
  parent = 5;
  parent_sequence = 1;
  sequence = 2;
  name = b'a' ∷ [];
  size = 0;
  alloc = 0;
  mtime = pos 0;
  dir = true;
}

abbrev entry_f : Entry
entry_f = record {
  parent = 7;
  parent_sequence = 2;
  sequence = 1;
  name = b'f' ∷ [];
  size = 10;
  alloc = 4096;
  mtime = pos 3;
  dir = false;
}

abbrev entries : Table Entry
entries = (5, root_entry) ∷ (7, entry_a) ∷ (8, entry_f) ∷ []

abbrev aliases : Table (List Alias)
aliases = (8, record { parent = 5; parent_sequence = 1; name = b'g' ∷ [] } ∷ []) ∷ []

at_root : HasPath entries 1 5 1
at_root = ([], root refl refl refl)

at_a : HasPath entries 1 7 2
unfolding find append_component
at_a = (b'a' ∷ [], below entry_a [] (omega arith) refl refl refl (root refl refl refl) refl)

is_valid : IsValid entries 1 aliases true true
is_valid = record {
  allocated = refl;
  directory = refl;
  placed = (
    (λ _. (at_root, λ _. at_root)),
    ((λ _. (at_root, λ _. at_a)), ((λ _. (at_a, λ is_dir. cc)), tt)),
  );
  named = ((λ _. (at_root, tt)), tt);
}

each_once : All (λ p. find p.0 entries ≡ some p.1) entries
unfolding find
each_once = (refl, (refl, (refl, tt)))

no_paths : IsSound entries 1 []
unfolding find
no_paths id path e = cc

validate_iff_example :
    ((cache' : Table Bytes) × (validate entries 1 aliases true true [] ≡ ok cache'))
    ↔ IsValid entries 1 aliases true true
validate_iff_example = validate_iff entries 1 aliases true true [] no_paths

abbrev mount : Bytes
mount = b'/' ∷ b'm' ∷ b'/' ∷ []

emit_volume_succeeds_example :
    (s : Emitter) × (emit_volume mount entries 1 aliases true true ≡ ok s)
    × ((records : List FileRecord) × (later : List FileRecord) × (s.sunk ≡ records ++ later)
        × Emits (trim_prefix mount) entries 1 entries records
        × EmitsAliases (trim_prefix mount) entries 1 aliases later)
emit_volume_succeeds_example =
    emit_volume_succeeds mount entries 1 aliases true true each_once is_valid
