-- ===== src/Ntfs/Runlist/Examples.antt =====
-- The theorems on runlists at concrete bytes.
use neutrasearch.Base.{
  ◌+◌, ◌≤◌, slice, ◌≡◌, ◌↔◌, refl, List, [], ◌∷◌, Bytes, All, ok, arith, IsReported,
}
use neutrasearch.Ntfs.Words.{read_unsigned, read_unsigned_from, read_signed}
use neutrasearch.Ntfs.Runlist.{
  Run, parse_runlist, parse_runlist_loop, parse_run, check_runs_within, mft_runs,
}
use neutrasearch.Ntfs.Runlist.Reported.{parse_runlist-IsReported, mft_runs-IsReported}
use neutrasearch.Ntfs.Runlist.Layout.{IsLaid, parse_runlist-IsLaid, check_runs_within_iff}

-- Four clusters from cluster 5 on, then two from cluster 3 on.
abbrev two_runs : Bytes
two_runs = 0x11 ∷ 4 ∷ 5 ∷ 0x11 ∷ 2 ∷ 0xfe ∷ 0 ∷ []

abbrev runs : List Run
runs =
    record { logical = 0; len = 2048; physical = 2560 }
    ∷ record { logical = 2048; len = 1024; physical = 1536 }
    ∷ []

parsed : parse_runlist two_runs 512 ≡ ok runs
unfolding slice parse_runlist parse_runlist_loop parse_run read_unsigned read_unsigned_from
    read_signed
parsed = refl

parse_runlist-IsLaid_example : IsLaid 512 0 runs
parse_runlist-IsLaid_example = parse_runlist-IsLaid two_runs 512 parsed

parse_runlist-IsReported_example : IsReported (parse_runlist two_runs 512)
parse_runlist-IsReported_example = parse_runlist-IsReported two_runs 512

mft_runs-IsReported_example : IsReported (mft_runs two_runs 512)
mft_runs-IsReported_example = mft_runs-IsReported two_runs 512

check_runs_within_iff_example :
    (check_runs_within runs 4608 ≡ ok tt) ↔ All (λ r. r.physical + r.len ≤ 4608) runs
check_runs_within_iff_example = check_runs_within_iff runs 4608 (omega arith)
