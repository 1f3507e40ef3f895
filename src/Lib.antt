-- ===== src/Lib.antt =====
-- A verification library for neutrasearch, a file search over an index that is built from the
-- metadata of file systems.
--
-- The parts. A lane (crates/neutra-ntfs and others) reads the metadata of a volume and makes records
-- of it. The core (crates/neutra-core) writes them into a compact index: blocks of records, and for
-- each trigram a posting, the list of the blocks that have it. A query is parsed into terms and
-- filters, asks the dictionary of trigrams for the blocks to decode, and ranks the records that pass.
-- The helper (crates/neutra-helper) watches the volumes and appends changes to a log over the index,
-- which is replayed when the index is opened; a gate orders the writers.
--
-- The files, and the code they model:
--   Base, Base/*: Booleans, lists and numbers; `Outcome` in Base/Fallible is a result that can also be
--     a fault, for a panic of the source (an index out of range, an unwrap of nothing) or for fuel
--     that has run out, and `IsReported` says that there is none. Base/Bits has the laws of the bit
--     operations, Base/Table the map from numbers of the NTFS lane.
--   Ntfs/Words, Ntfs/Geometry, Ntfs/Runlist, Ntfs/Fixup: crates/neutra-ntfs/src/geometry.rs: the words,
--     the boot sector, the data runs and the update sequence array of an MFT record. A buffer that the
--     source changes in place is returned. `record_size` is the field `record` of the source.
--   Ntfs/AttrList: crates/neutra-ntfs/src/attr_list/entries.rs, the entries of an attribute list.
--   Ntfs/Records, Ntfs/Namespace: `Entry` and `append_component` of crates/neutra-ntfs/src/records.rs
--     and `ensure_dir_path` of namespace.rs: the paths of directories, with the cache as a table that
--     the operation returns. Ntfs/Namespace/Resolves says which path a directory has.
--   Compact/Codec: crates/neutra-core/src/compact/format/codec.rs, `put_varint` and `get_varint`.
--   Compact/Postings: crates/neutra-core/src/compact_merge/postings.rs from the sorted pairs on, and
--     `decode_posting` of compact/search.rs. A file is the bytes that were written to it.
--   Compact/Dictionary: crates/neutra-core/src/compact/format/table.rs, the binary search in the mapped
--     file.
--   Compact/Candidates: `candidate_blocks` of compact/search.rs, with `collect_trigrams` and
--     `intersect` of compact/domain.rs. The case fold, the order of a hash set and the unstable sort of
--     the standard library are parameters.
--   Delta/Record, Delta/Wal: crates/neutra-core/src/delta/wal.rs, the frames of the log and the replay.
--     bincode and crc32fast are the record `Codec`, the store that takes the changes is the record
--     `Overlay`; what the log relies on is `IsCodec`, `IsHasher` and `IsStore`.
--   Helper/Gate: crates/neutra-helper/src/watch_sweep/gate.rs, the ticket lock, as a step relation.
--   Helper/Pending: crates/neutra-helper/src/watch_sweep/pending.rs, the changes of a sweep that wait,
--     with the ordered map as a sorted list.
--   Query/Paths, Query/Tokens, Query/Types, Query/Sizes, Query/Parse: crates/neutra-core/src/query.rs and
--     query/syntax.rs, from the text of a query to the fields of `Query`; Query/Filters: the filters of a
--     query on a record.
--   Record: `FileRecord` of crates/neutra-core/src/types.rs, and the file systems of mounts.rs.
--   Ntfs/Validate: `validate` of crates/neutra-ntfs/src/namespace.rs; Ntfs/Emit: the end of `scan_reader`
--     in crates/neutra-ntfs/src/lib.rs, from the validation to the records in the sink.
--   Mounts, Portable: crates/neutra-core/src/mounts.rs and paths.rs.
--   Search/Compare, Search/Find, Search/Score: crates/neutra-core/src/matcher.rs and matcher/*.rs, the
--     order of hits, the search in ASCII text and the scores; Search/Leaders: ranked.rs, the search that
--     starts with stored leaders; Search/Index: index.rs, the index in memory. Search/Top is the
--     specification of these: the first hits of a pool in the order of hits, as a count of the hits before.
--   Base/Text, Base/Last, Base/Words, Base/Options, Base/Sorting: text and its words, options, sorted lists.
-- What the standard library and other crates do is a parameter: `to_lowercase`, `trim`, the bytes of a
-- character and the white space of the queries, the order of paths of the mounts, the unstable selection
-- that prunes hits, and the pattern engine. The searches take the filter and the score of a record as
-- parameters too, so that their theorems hold for each.
-- Each Examples module has runs and uses of the theorems at concrete inputs.
--
-- Bounds and fuel. A w-bit integer is a number with the wrap-around or the check of the source written
-- out. Loops are recursion on fuel where the source has `while`: a runlist has at most one round for
-- each byte, as each takes one, and the attributes of a record take 16 bytes each; the climb to the
-- root meets a directory once, so a round for each entry and one more are enough; `put_varint` shifts
-- a `u32` four times at most, and `get_varint` ends at the sixth byte; the binary search halves the
-- range; a frame of the log takes eight bytes at least; a path loses a separator in each round of
-- `pop_separators`, so its length is enough.
--
-- Not modelled: system calls, threads other than the gate's and the halves of the parallel search, errors
-- of reading and writing other than an early end, the files beside the index, the SQLite stores, the
-- characters of text beyond ASCII in a match and the marks of a match, the lanes of Btrfs, Ext4, ZFS and
-- macOS, the remote protocol and the user interface.
pub mod Base
pub mod Record
pub mod Ntfs
pub mod Compact
pub mod Delta
pub mod Helper
pub mod Mounts
pub mod Portable
pub mod Query
pub mod Search
