-- ===== src/Legacy.antt =====
-- The legacy BIOS volume as shipped: `FILES` of scripts/create-legacy-fat12.py, and the checks that
-- scripts/verify-legacy-bios.py makes of the volume.
pub mod Contents
pub mod Verify
pub mod Content
pub mod Checked
pub mod Accepted
pub mod Image
pub mod Disk
mod Examples
mod DiskExamples
