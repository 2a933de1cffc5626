-- ===== src/Journal/Recovery.antt =====
-- `corrupt_block_byte` on the header of one slot, followed by the parsers of both slots.
use zig_os.Base.{ℕ, ◌+◌, ◌*◌, ◌≤◌, ◌<◌, ◌≡◌, ◌≢◌, arith, length, some, ok, raise, Exception}
use zig_os.Bytes.{Bytes}
use zig_os.Bytes.Words.{IsBytes}
use zig_os.Bytes.Changed.{Changed}
use zig_os.Journal.Header.{JournalHeader, read_at, parse_header}
use zig_os.Journal.Records.{parse_records}
use zig_os.Journal.Corrupt.{Corrupted, corrupt_block_byte}
use zig_os.Journal.Corruption.{corrupt_block_byte-Flipped}
use zig_os.Journal.Detected.{IsChecksum}
use zig_os.Journal.Noticed.{parse_header-IsChecksum}
use zig_os.Journal.Slots.{in_header, parse_records-other_slot}

-- For a checksum that tells single bytes apart, a file whose header in one of the two slots is accepted,
-- a mask that is a byte and not zero, and a digest that tells the slot's block from every block that
-- differs from it at the one byte: `corrupt_block_byte` on one of the header's 48 bytes returns a file in
-- which `parse_header` raises an exception for that slot, while it parses the header of the other slot as
-- before, and `parse_records` the records of any header of the other slot with at most 64 KiB of payload.
pub corrupt_block_byte-parse_header :
    (crc32 : Bytes → ℕ) (sha256 : Bytes → Bytes) (image : Bytes)
    (first_lba size slot other i mask : ℕ) (h g : JournalHeader)
    → IsChecksum crc32
    → IsBytes image
    → 48 ≤ size
    → (first_lba + slot) * size + size ≤ length image
    → slot < 2
    → other < 2
    → slot ≢ other
    → i < 48
    → 0 < mask
    → mask < 256
    → ((block : Bytes)
        → Changed (read_at image ((first_lba + slot) * size) size) block i
        → sha256 (read_at image ((first_lba + slot) * size) size) ≢ sha256 block)
    → parse_header crc32 image first_lba slot size ≡ ok (some h)
    → g.slot ≡ other
    → g.payload_length ≤ 65536
    → (c : Corrupted) × (corrupt_block_byte sha256 image (first_lba + slot) i mask size ≡ ok c)
      × ((e : Exception) × (parse_header crc32 c.image first_lba slot size ≡ raise e))
      × (parse_header crc32 c.image first_lba other size
          ≡ parse_header crc32 image first_lba other size)
      × (parse_records crc32 c.image first_lba g size ≡ parse_records crc32 image first_lba g size)
corrupt_block_byte-parse_header crc32 sha256 image first_lba size slot other i mask h g is p small
      fits one two ne inside pos byte digests accepted of_slot le =
    let (c, returned, f) =
      corrupt_block_byte-Flipped sha256 image (first_lba + slot) i mask size p (omega arith) fits
        pos byte digests in
    let rest =
      parse_records-other_slot crc32 image c.image first_lba size slot other _ g one two ne
        (omega arith) (in_header i (omega arith)) f.changed of_slot le in
    (
      c,
      returned,
      parse_header-IsChecksum crc32 image c.image first_lba slot size i h is p f.bytes small inside
          f.changed accepted,
      rest.0,
      rest.1,
    )
