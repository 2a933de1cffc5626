-- ===== src/Journal.antt =====
-- The persistence journal on the data partition, as scripts/test-x86_64-persistence.py reads and
-- corrupts it: two header slots, and a payload of records for each.
pub mod Header
pub mod Records
pub mod Corrupt
pub mod Accepts
pub mod Detected
pub mod Corruption
pub mod Encoding
pub mod RoundTrip
pub mod ReadBack
pub mod Filled
pub mod Timestamp
mod Examples
pub mod Noticed
pub mod Slots
pub mod Recovery
