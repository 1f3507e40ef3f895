-- ===== src/Mounts/Hosts.antt =====
-- The host of a network mount.
use neutrasearch.Base.Last.{after_last-absent, after_last-found}
use neutrasearch.Base.{
  arith, ℕ, Bool, true, false, [], ◌∷◌, ◌++◌, ◌≡◌, ◌≢◌, refl, ◌==◌, ◌||◌, some, none, Bytes, All,
  ◌∙◌,
}
use neutrasearch.Base.Table.{contains}
use neutrasearch.Base.Text.{front}
use neutrasearch.Mounts.{trim_slashes, behind_at, network_host}

-- The test for what ends a host.
abbrev pub ends_host : ℕ → Bool
ends_host c = c == b':' || c == b'/'

-- The text ends, or a colon or a slash stands first.
abbrev pub IsHostEnd : Bytes → Type 0
IsHostEnd [] = Unit
IsHostEnd (c ∷ rest) = ends_host c ≡ true

front-host :
    (host rest : Bytes)
    → All (λ c. ends_host c ≡ false) host
    → IsHostEnd rest
    → front ends_host (host ++ rest) ≡ host
unfolding front
front-host [] [] inside e = refl
front-host [] (c ∷ rest) inside e = rw e refl
front-host (c ∷ host) rest (here, inside) e = rw (here, front-host host rest inside e) refl

-- A text that does not start with a slash is kept.
trim_slashes-kept : (c : ℕ) (s : Bytes) → (c == b'/') ≡ false → trim_slashes (c ∷ s) ≡ c ∷ s
unfolding trim_slashes
trim_slashes-kept c [] other = refl
trim_slashes-kept c (b ∷ s) other = rw (trim_slashes, other) refl

no_slash : (c : ℕ) → ends_host c ≡ false → (c == b'/') ≡ false
no_slash c inside = ground arith

trim_slashes-front : (s : Bytes) → trim_slashes (b'/' ∷ b'/' ∷ s) ≡ trim_slashes s
unfolding trim_slashes
trim_slashes-front s = refl

trim_slashes-at :
    (user s : Bytes)
    → All (λ c. ends_host c ≡ false) user
    → trim_slashes (user ++ b'@' ∷ s) ≡ user ++ b'@' ∷ s
trim_slashes-at [] s all = trim_slashes-kept b'@' s refl
trim_slashes-at (c ∷ user) s (inside, all) =
    trim_slashes-kept c (user ++ b'@' ∷ s) (no_slash c inside)

contains-append : (c : ℕ) (xs ys : Bytes) → contains c (xs ++ ys) ≡ false → contains c ys ≡ false
unfolding contains
contains-append c [] ys h = h
contains-append c (x ∷ xs) ys h = contains-append c xs ys (ground arith)

module _ (c : ℕ) (h rest : Bytes) (inside : All (λ b. ends_host b ≡ false) (c ∷ h))
    (end : IsHostEnd rest) (absent : contains b'@' ((c ∷ h) ++ rest) ≡ false) where
  host_alone :
      (device : Bytes) → trim_slashes device ≡ (c ∷ h) ++ rest → network_host device ≡ some (c ∷ h)
  unfolding network_host behind_at
  host_alone device trimmed =
      rw
        (
          network_host,
          behind_at,
          trimmed,
          after_last-absent b'@' ((c ∷ h) ++ rest) absent,
          trimmed,
          front-host (c ∷ h) rest inside end,
        )
        refl

  host_behind :
      (user device : Bytes)
      → trim_slashes device ≡ user ++ b'@' ∷ ((c ∷ h) ++ rest)
      → network_host device ≡ some (c ∷ h)
  unfolding network_host behind_at
  host_behind user device trimmed =
      rw
        (
          network_host,
          behind_at,
          trimmed,
          after_last-found b'@' user ((c ∷ h) ++ rest) absent,
          front-host (c ∷ h) rest inside end,
        )
        refl

no_host : (rest : Bytes) → contains b'@' rest ≡ false → network_host (b':' ∷ rest) ≡ none
unfolding network_host behind_at front contains
no_host rest absent =
    rw
      (
        network_host,
        behind_at,
        trim_slashes-kept b':' rest refl,
        after_last-absent b'@' (b':' ∷ rest) absent,
        trim_slashes-kept b':' rest refl,
      )
      refl

-- The host of a device is what stands in front of the first colon or slash, as in `server:/export`, behind
-- two slashes, as in `//win/share`, and behind a user name, as in `user@host:/path`, where no `@` follows and
-- the user name has no colon and no slash; where a colon stands first, there is none.
pub network_host-server :
    (user host rest : Bytes)
    → host ≢ []
    → All (λ c. ends_host c ≡ false) host
    → IsHostEnd rest
    → contains b'@' (host ++ rest) ≡ false
    → All (λ c. ends_host c ≡ false) user
    → (network_host (host ++ rest) ≡ some host)
      × (network_host (b'/' ∷ b'/' ∷ (host ++ rest)) ≡ some host)
      × (network_host (user ++ b'@' ∷ (host ++ rest)) ≡ some host)
      × (network_host (b':' ∷ rest) ≡ none)
network_host-server user [] rest n inside end absent name = absurd (n refl)
network_host-server user (c ∷ h) rest n inside end absent name =
    let kept = trim_slashes-kept c (h ++ rest) (no_slash c inside.0) in
    (
      host_alone c h rest inside end absent ((c ∷ h) ++ rest) kept,
      host_alone c h rest inside end absent _ (trim_slashes-front ((c ∷ h) ++ rest) ∙ kept),
      host_behind c h rest inside end absent user _ (trim_slashes-at user ((c ∷ h) ++ rest) name),
      no_host rest (contains-append b'@' (c ∷ h) rest absent),
    )
