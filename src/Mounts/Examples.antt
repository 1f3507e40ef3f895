-- ===== src/Mounts/Examples.antt =====
-- A path with a space and a backslash, and the devices of network mounts.
use neutrasearch.Mounts.{trim_slashes, behind_at, source_unescape, network_host}
use neutrasearch.Mounts.Escapes.{source_unescape-escape, escape}
use neutrasearch.Mounts.Hosts.{network_host-server}
use neutrasearch.Base.Table.{contains}
use neutrasearch.Base.{◌∷◌, ◌++◌, ◌≡◌, refl, some, none}
use neutrasearch.Base.Text.{codes, front, after_last}

source_unescape-escape_example : source_unescape (escape (codes "a \\ b")) ≡ codes "a \\ b"
source_unescape-escape_example = source_unescape-escape (codes "a \\ b")

network_host-server_example :
    (network_host (codes "nas" ++ codes ":/x") ≡ some (codes "nas"))
    × (network_host (b'/' ∷ b'/' ∷ (codes "nas" ++ codes ":/x")) ≡ some (codes "nas"))
    × (network_host (codes "alex" ++ b'@' ∷ (codes "nas" ++ codes ":/x")) ≡ some (codes "nas"))
    × (network_host (b':' ∷ codes ":/x") ≡ none)
unfolding contains
network_host-server_example =
    network_host-server (codes "alex") (codes "nas") (codes ":/x") (λ e. cc)
      (refl, (refl, (refl, tt))) refl refl (refl, (refl, (refl, (refl, tt))))

nfs_test : network_host (codes "nas:/export/data") ≡ some (codes "nas")
unfolding network_host behind_at trim_slashes after_last front
nfs_test = refl

share_test : network_host (codes "//192.168.1.50/share") ≡ some (codes "192.168.1.50")
unfolding network_host behind_at trim_slashes after_last front
share_test = refl

-- An `@` in the exported path is taken for the one behind a user name.
export_test : network_host (codes "nas:/a@home/x") ≡ some (codes "home")
unfolding network_host behind_at trim_slashes after_last front
export_test = refl
