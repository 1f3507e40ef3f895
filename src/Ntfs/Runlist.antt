-- ===== src/Ntfs/Runlist.antt =====
-- crates/neutra-ntfs/src/geometry.rs: data runs, and the runlist of `$MFT` in its base record.
pub mod Reported
pub mod Layout
mod Examples
use neutrasearch.Base.{
  ℕ, zero, suc, ◌+◌, ◌-◌, ◌*◌, ◌/◌, bit_and, Bool, true, false, not, ◌&&◌, ◌||◌, List, [], ◌∷◌,
  ◌++◌, Option, none, some, length, get_elem?, slice, ltb, leb, ◌==◌, if◌then◌else◌, Bytes, Outcome,
  ok, err, fault, ◌>>=◌, ◌>>◌, ensure, context, unwrap, checked_add, checked_mul,
}
use neutrasearch.Base.Int.{ℤ, pos, pos_part, is_neg, checked_add_i64}
use neutrasearch.Ntfs.Error.{
  Error, attribute_offset, attribute_length, bad_attribute_length, short_data, bad_runlist_offset,
  data_not_found, bad_run, sparse_run, lcn_overflow, negative_lcn, length_overflow,
  physical_overflow, logical_overflow, run_end_overflow, past_device,
}
use neutrasearch.Ntfs.Words.{read_unsigned, read_signed, u16le, u32le, u64le}

pub record Run : Type 0 where
  pub logical : ℕ
  pub len : ℕ
  pub physical : ℕ

-- `check_runs_within`
unfoldable pub check_runs_within : List Run → ℕ → Outcome Error (Unit {0})
check_runs_within [] device = ok tt
check_runs_within (run ∷ runs) device = do
  end ← context (checked_add run.physical run.len) run_end_overflow
  ensure (not (ltb device end)) past_device
  check_runs_within runs device

-- The variables of the loop of `parse_runlist` after a round, and the run that it pushes.
pub record Round : Type 0 where
  pub p : ℕ
  pub lcn : ℤ
  pub logical : ℕ
  pub run : Run

-- One round of the loop: `head` is `data[p]`, which is not 0.
pub parse_run : Bytes → ℕ → ℕ → ℤ → ℕ → ℕ → Outcome Error Round
parse_run bytes cluster p lcn logical head = do
  let q = p + 1
  let ls = bit_and head 0xf
  let os = head / 16
  ensure (not (ls == 0 || ltb 8 ls || ltb 8 os || ltb (length bytes) (q + ls + os))) bad_run
  count ← unwrap (slice bytes q (q + ls))
  offset ← unwrap (slice bytes (q + ls) (q + ls + os))
  ensure (not (os == 0)) sparse_run
  lcn' ← context (checked_add_i64 lcn (read_signed offset)) lcn_overflow
  ensure (not (is_neg lcn')) negative_lcn
  len ← context (checked_mul (read_unsigned count) cluster) length_overflow
  physical ← context (checked_mul (pos_part lcn') cluster) physical_overflow
  logical' ← context (checked_add logical len) logical_overflow
  ok (record {
    p = q + ls + os;
    lcn = lcn';
    logical = logical';
    run = record { logical = logical; len = len; physical = physical };
  })

-- `while p < data.len() && data[p] != 0`, on fuel.
pub parse_runlist_loop : ℕ → Bytes → ℕ → ℕ → ℤ → ℕ → List Run → Outcome Error (List Run)
parse_runlist_loop zero bytes cluster p lcn logical out = fault
parse_runlist_loop (suc fuel) bytes cluster p lcn logical out = elim (get_elem? bytes p) [
  | none ↦ ok out
  | some head ↦ if head == 0 then ok out else do
    r ← parse_run bytes cluster p lcn logical head
    parse_runlist_loop fuel bytes cluster r.p r.lcn r.logical (out ++ r.run ∷ [])
]

-- Each round takes a byte at least, so `length data` rounds and the last test are enough.
pub parse_runlist : Bytes → ℕ → Outcome Error (List Run)
unfolding parse_runlist_loop parse_run
parse_runlist bytes cluster = parse_runlist_loop (suc (length bytes)) bytes cluster 0 (pos 0) 0 []

-- The unnamed non-resident `$DATA` attribute of length `len` at `p`.
pub data_runs : Bytes → ℕ → ℕ → ℕ → Outcome Error (List Run × ℕ)
data_runs rec cluster p len = do
  ensure (not (ltb len 64)) short_data
  run_off ← unwrap (u16le rec (p + 32))
  ensure (not (ltb run_off 64 || ltb len run_off)) bad_runlist_offset
  real_size ← unwrap (u64le rec (p + 48))
  list ← unwrap (slice rec (p + run_off) (p + len))
  runs ← parse_runlist list cluster
  ok (runs, real_size)

-- `while p + 16 <= rec.len()`, on fuel. Both ways out of the loop end in the `bail!` behind it.
pub mft_runs_loop : ℕ → Bytes → ℕ → ℕ → Outcome Error (List Run × ℕ)
mft_runs_loop zero rec cluster p = fault
mft_runs_loop (suc fuel) rec cluster p =
    if ltb (length rec) (p + 16) then err data_not_found else do
      typ ← unwrap (u32le rec p)
      ensure (not (typ == 0xffff_ffff)) data_not_found
      len ← context (u32le rec (p + 4)) attribute_length
      ensure (not (ltb len 16 || ltb (length rec) (p + len))) bad_attribute_length
      resident ← unwrap (get_elem? rec (p + 8))
      name_len ← unwrap (get_elem? rec (p + 9))
      if typ == 0x80 && not (resident == 0) && name_len == 0
          then data_runs rec cluster p len
          else mft_runs_loop fuel rec cluster (p + len)

-- Each round moves `p` by 16 at least.
pub mft_runs : Bytes → ℕ → Outcome Error (List Run × ℕ)
unfolding mft_runs_loop data_runs
mft_runs rec cluster = do
  p ← context (u16le rec 20) attribute_offset
  mft_runs_loop (suc (length rec)) rec cluster p
