-- ===== src/Fat12.antt =====
-- The legacy FAT12 volume: scripts/create-legacy-fat12.py writes it and
-- scripts/verify-legacy-bios.py reads it back.
pub mod Geometry
pub mod Entry
pub mod Volume
pub mod Chain
pub mod Linked
pub mod Reserved
pub mod Chunks
pub mod Slots
pub mod Files
pub mod Reading
pub mod Boot
pub mod ReadBack
