-- ===== src/Ntfs/Geometry/Examples.antt =====
-- A boot sector: sectors of 512 bytes, clusters of 4096, records of 1024 and the MFT at cluster 4.
use neutrasearch.Base.{ℕ, zero, suc, ◌≡◌, refl, [], ◌∷◌, Bytes, ok, slice, IsReported}
use neutrasearch.Ntfs.Words.{u16le, u64le, le_value}
use neutrasearch.Ntfs.Geometry.{
  Geometry, read_exact_at, is_power_below, record_bytes, mft_geometry, read_geometry,
}
use neutrasearch.Ntfs.Geometry.Sound.{
  IsGeometry, read_geometry-IsGeometry, read_geometry-IsReported,
}

abbrev zeros : ℕ → Bytes → Bytes
zeros zero rest = rest
zeros (suc n) rest = 0 ∷ zeros n rest

abbrev boot : Bytes
boot =
    0
    ∷ 0
    ∷ 0
    ∷ b'N'
    ∷ b'T'
    ∷ b'F'
    ∷ b'S'
    ∷ zeros 4 (0 ∷ 2 ∷ 8 ∷ zeros 26 (zeros 8 (4 ∷ zeros 15 (246 ∷ zeros 447 []))))

abbrev geometry : Geometry
geometry = record {
  declared_bytes = 0;
  sector = 512;
  cluster = 4096;
  record_size = 1024;
  mft_offset = 16384;
}

boot-geometry : read_geometry boot ≡ ok geometry
unfolding read_geometry read_exact_at slice u16le u64le le_value is_power_below record_bytes
    mft_geometry
boot-geometry = refl

read_geometry-IsGeometry_example : IsGeometry geometry
read_geometry-IsGeometry_example = read_geometry-IsGeometry boot boot-geometry

read_geometry-IsReported_example : IsReported (read_geometry boot)
read_geometry-IsReported_example = read_geometry-IsReported boot
