-- ===== src/Ntfs.antt =====
-- crates/neutra-ntfs/src: the NTFS lane, which reads `$MFT` directly.
pub mod Error
pub mod Words
pub mod Runlist
pub mod Fixup
pub mod Records
pub mod Geometry
pub mod Validate
pub mod Emit
pub mod AttrList
pub mod Namespace
