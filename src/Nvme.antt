-- ===== src/Nvme.antt =====
-- The partitioned NVMe test image of scripts/create-nvme-test-image.py: its layout and its GPT headers.
pub mod Layout
pub mod Gpt
pub mod Sealed
