-- ===== src/Ntfs/Runlist/Layout.antt =====
-- What a runlist that parses looks like: contiguous runs of whole clusters that fit a `u64`.
use neutrasearch.Base.{
  ℕ, zero, suc, ◌+◌, ◌≤◌, ◌<◌, ◌≡◌, ◌↔◌, refl, arith, List, [], ◌∷◌, ◌++◌, length, get_elem?, ◌==◌,
  Bytes, ok, inl, inr, Bool-cases, Option-cases, >>=-eq-ok, u64_mod, IsU64, ok-injective, ◌%◌, All,
}
use native.Mathlib.Nat.{mul-mod_left}
use mathlib.Core.Path.{subst}
use neutrasearch.Base.Int.{ℤ, pos}
use neutrasearch.Ntfs.Runlist.{
  Run, Round, parse_run, parse_runlist_loop, parse_runlist, check_runs_within,
}

-- A whole number of clusters, on disk and in length.
abbrev pub IsClustered : ℕ → Run → Type 0
IsClustered cluster r = (r.len % cluster ≡ 0) × (r.physical % cluster ≡ 0)

-- Runs that stand one behind the other from logical byte `from` on, each of whole clusters, with
-- every offset below 2^64.
abbrev pub IsLaid : ℕ → ℕ → List Run → Type 0
IsLaid cluster from [] = Unit
IsLaid cluster from (r ∷ rs) =
    (r.logical ≡ from)
    × (from + r.len < u64_mod)
    × (r.physical < u64_mod)
    × IsClustered cluster r
    × IsLaid cluster (from + r.len) rs

-- Where runs that start at `from` end.
abbrev pub end_of : ℕ → List Run → ℕ
end_of from [] = from
end_of from (r ∷ rs) = end_of (from + r.len) rs

IsLaid-concat :
    (cluster from : ℕ) (rs : List Run) (r : Run)
    → IsLaid cluster from rs
    → IsLaid cluster (end_of from rs) (r ∷ [])
    → IsLaid cluster from (rs ++ r ∷ [])
IsLaid-concat cluster from [] r h k = k
IsLaid-concat cluster from (x ∷ rs) r (a, b, c, d, h) k =
    (a, b, c, d, IsLaid-concat cluster (from + x.len) rs r h k)

end_of-concat :
    (from : ℕ) (rs : List Run) (r : Run) → end_of from (rs ++ r ∷ []) ≡ end_of from rs + r.len
end_of-concat from [] r = refl
end_of-concat from (x ∷ rs) r = end_of-concat (from + x.len) rs r

-- What one round adds.
parse_run-IsLaid :
    (bytes : Bytes) (cluster p : ℕ) (lcn : ℤ) (logical head : ℕ) {r : Round}
    → parse_run bytes cluster p lcn logical head ≡ ok r
    → IsLaid cluster logical (r.run ∷ []) × (r.logical ≡ logical + r.run.len)
unfolding parse_run
parse_run-IsLaid bytes cluster p lcn logical head {r} e = grind (arith, mul-mod_left)

parse_runlist_loop-IsLaid :
    (fuel : ℕ) (bytes : Bytes) (cluster p : ℕ) (lcn : ℤ) (logical : ℕ) (out : List Run)
    {runs : List Run}
    → IsLaid cluster 0 out
    → end_of 0 out ≡ logical
    → parse_runlist_loop fuel bytes cluster p lcn logical out ≡ ok runs
    → IsLaid cluster 0 runs
unfolding parse_runlist_loop
parse_runlist_loop-IsLaid zero bytes cluster p lcn logical out h k e = cc
parse_runlist_loop-IsLaid (suc fuel) bytes cluster p lcn logical out h k e =
    elim (Option-cases (get_elem? bytes p)) [
      | inl past ↦ subst (IsLaid cluster 0) (ok-injective (rw (past, parse_runlist_loop) at e)) h
      | inr (head, here) ↦ elim (Bool-cases (head == 0)) [
        | inl stop ↦
            subst (IsLaid cluster 0) (ok-injective (rw (here, parse_runlist_loop, stop) at e)) h
        | inr more ↦
            let (r, parsed, rest) =
              >>=-eq-ok (parse_run bytes cluster p lcn logical head) _
                (rw (here, parse_runlist_loop, more) at e) in
            let (laid, moved) = parse_run-IsLaid bytes cluster p lcn logical head parsed in
            parse_runlist_loop-IsLaid fuel bytes cluster r.p r.lcn r.logical (out ++ r.run ∷ [])
              (IsLaid-concat cluster 0 out r.run h (rw k laid))
              (omega (arith, end_of-concat 0 out r.run)) rest
      ]
    ]

-- A runlist that `parse_runlist` accepts maps the logical bytes from 0 on with no hole or overlap, in
-- whole clusters, and no offset of it passes 2^64.
pub parse_runlist-IsLaid :
    (bytes : Bytes) (cluster : ℕ) {runs : List Run}
    → parse_runlist bytes cluster ≡ ok runs
    → IsLaid cluster 0 runs
unfolding parse_runlist
parse_runlist-IsLaid bytes cluster e =
    parse_runlist_loop-IsLaid (suc (length bytes)) bytes cluster 0 (pos 0) 0 [] tt refl e

-- On a device of less than 2^64 bytes, `check_runs_within` succeeds exactly when every run ends on the
-- device.
pub check_runs_within_iff :
    (runs : List Run) (device : ℕ)
    → IsU64 device
    → (check_runs_within runs device ≡ ok tt) ↔ All (λ r. r.physical + r.len ≤ device) runs
unfolding check_runs_within
check_runs_within_iff [] device h = (λ _. tt, λ _. refl)
check_runs_within_iff (r ∷ rs) device h =
    let ih = check_runs_within_iff rs device h in
    (λ e. ground (arith, ih.0), λ a. ground (arith, ih.1))
