-- ===== src/Ntfs/Runlist/Reported.antt =====
-- The runlist parsers end, and read nothing out of range, on any bytes.
use neutrasearch.Base.{
  ℕ, zero, suc, ◌+◌, ◌/◌, ◌≤◌, ◌<◌, ◌≡◌, arith, bit_and, not, ◌||◌, List, [], ◌∷◌, ◌++◌, length,
  get_elem?, get_elem?-lt, slice-some, ltb, ◌==◌, Bytes, ok, IsReported, inl, inr, Bool-cases,
  Option-cases, >>=-IsReported, ok-IsReported, err-IsReported, ensure_step, context_step,
  unwrap_step, if_step,
}
use neutrasearch.Base.Int.{ℤ, pos}
use neutrasearch.Ntfs.Words.Value.{u16le-some, u32le-some, u64le-some}
use neutrasearch.Ntfs.Runlist.{
  Run, Round, parse_run, parse_runlist_loop, parse_runlist, data_runs, mft_runs_loop, mft_runs,
}
use neutrasearch.Ntfs.Words.{u16le, u32le}

-- A round reports, and one that succeeds moves `p` forward inside the bytes.
parse_run-IsReported :
    (bytes : Bytes) (cluster p : ℕ) (lcn : ℤ) (logical head : ℕ)
    → IsReported (parse_run bytes cluster p lcn logical head)
unfolding parse_run
parse_run-IsReported bytes cluster p lcn logical head =
    let q = p + 1 in
    let ls = bit_and head 0xf in
    let os = head / 16 in
    ground (arith, slice-some bytes q (q + ls), slice-some bytes (q + ls) (q + ls + os))

parse_run-p :
    (bytes : Bytes) (cluster p : ℕ) (lcn : ℤ) (logical head : ℕ) {r : Round}
    → parse_run bytes cluster p lcn logical head ≡ ok r
    → (p < r.p) × (r.p ≤ length bytes)
unfolding parse_run
parse_run-p bytes cluster p lcn logical head e =
    let q = p + 1 in
    let ls = bit_and head 0xf in
    let os = head / 16 in
    ground (arith, slice-some bytes q (q + ls), slice-some bytes (q + ls) (q + ls + os))

parse_runlist_loop-IsReported :
    (fuel : ℕ) (bytes : Bytes) (cluster p : ℕ) (lcn : ℤ) (logical : ℕ) (out : List Run)
    → length bytes < fuel + p
    → p ≤ length bytes
    → IsReported (parse_runlist_loop fuel bytes cluster p lcn logical out)
unfolding parse_runlist_loop
parse_runlist_loop-IsReported zero bytes cluster p lcn logical out h k = absurd (omega arith)
parse_runlist_loop-IsReported (suc fuel) bytes cluster p lcn logical out h k =
    elim (Option-cases (get_elem? bytes p)) [
      | inl past ↦ rw (past, parse_runlist_loop) (ok-IsReported _)
      | inr (head, here) ↦
          rw (here, parse_runlist_loop)
            (elim (Bool-cases (head == 0)) [
              | inl stop ↦ rw stop (ok-IsReported _)
              | inr more ↦ rw more (
                  >>=-IsReported (parse_run bytes cluster p lcn logical head) _
                    (parse_run-IsReported bytes cluster p lcn logical head)
                    λ r e.
                      let (after, inside) = parse_run-p bytes cluster p lcn logical head e in
                      parse_runlist_loop-IsReported fuel bytes cluster r.p r.lcn r.logical
                        (out ++ r.run ∷ []) (omega arith) inside)
            ])
    ]

-- On any bytes `parse_runlist` returns runs or reports an error: it reads nothing out of range, and
-- its loop ends.
pub parse_runlist-IsReported :
    (bytes : Bytes) (cluster : ℕ) → IsReported (parse_runlist bytes cluster)
unfolding parse_runlist
parse_runlist-IsReported bytes cluster =
    parse_runlist_loop-IsReported (suc (length bytes)) bytes cluster 0 (pos 0) 0 [] (omega arith)
      (omega arith)

-- An attribute that lies inside the record is read without a fault.
data_runs-IsReported :
    (rec : Bytes) (cluster p len : ℕ)
    → p + len ≤ length rec
    → IsReported (data_runs rec cluster p len)
unfolding data_runs
data_runs-IsReported rec cluster p len inside = ensure_step (not (ltb len 64)) _ λ long.
    unwrap_step _ (u16le-some rec (p + 32) (ground arith)) λ run_off _.
      ensure_step (not (ltb run_off 64 || ltb len run_off)) _ λ bounded.
        unwrap_step _ (u64le-some rec (p + 48) (ground arith)) λ real_size _.
          unwrap_step _ (_, slice-some rec (p + run_off) (p + len) (ground arith) inside)
            λ list _.
              >>=-IsReported (parse_runlist list cluster) _ (parse_runlist-IsReported list cluster)
                λ runs _. ok-IsReported _

mft_runs_loop-IsReported :
    (fuel : ℕ) (rec : Bytes) (cluster p : ℕ)
    → 0 < fuel
    → length rec < fuel + p
    → IsReported (mft_runs_loop fuel rec cluster p)
unfolding mft_runs_loop
mft_runs_loop-IsReported zero rec cluster p some_fuel enough = absurd (omega arith)
mft_runs_loop-IsReported (suc fuel) rec cluster p some_fuel enough =
    if_step (ltb (length rec) (p + 16)) (λ past. err-IsReported _)
      λ inside. unwrap_step _ (u32le-some rec p (ground arith)) λ typ _.
        ensure_step (not (typ == 0xffff_ffff)) _ λ _. context_step (u32le rec (p + 4)) _ λ len _.
          ensure_step (not (ltb len 16 || ltb (length rec) (p + len))) _ λ fits.
            unwrap_step _ (get_elem?-lt rec (p + 8) (ground arith)) λ resident _.
              unwrap_step _ (get_elem?-lt rec (p + 9) (ground arith)) λ name_len _.
                if_step _ (λ _. data_runs-IsReported rec cluster p len (ground arith))
                  λ _.
                    mft_runs_loop-IsReported fuel rec cluster (p + len) (ground arith)
                      (ground arith)

-- On any record `mft_runs` returns runs or reports an error.
pub mft_runs-IsReported : (rec : Bytes) (cluster : ℕ) → IsReported (mft_runs rec cluster)
unfolding mft_runs
mft_runs-IsReported rec cluster =
    context_step (u16le rec 20) _
      λ p _. mft_runs_loop-IsReported (suc (length rec)) rec cluster p (omega arith) (omega arith)
