-- ===== src/Journal/Filled.antt =====
-- A file in which a slot of the journal was filled, and what the parsers make of it.
use zig_os.Base.{ℕ, ◌+◌, ◌*◌, ◌<◌, ◌≡◌, arith, List, ◌++◌, length, bit_and}
use zig_os.Base.{false, ◌==◌, ◌!=◌, ok, some}
use zig_os.Bytes.{Bytes}
use zig_os.Journal.Header.{JournalHeader, read_at, parse_header}
use zig_os.Journal.Records.{slot_payload_lba, parse_records}
use zig_os.Journal.Encoding.{
  header_bytes, encode_header, StoredRecord, encode_payload, entries, AllEncodable, HeaderFits,
}
use zig_os.Journal.ReadBack.{parse_payload-encode_payload, parse_block-encode_header}

-- The slot's block begins with the encoded header, which fits it and states its payload, and the
-- encoded records stand where the slot's payload starts.
pub record Filled (crc32 : Bytes → ℕ) (image : Bytes) (first_lba size : ℕ) (h : JournalHeader)
    (stored : List StoredRecord) : Type 0 where
  pub tail : Bytes
  pub block : read_at image ((first_lba + h.slot) * size) size ≡ encode_header crc32 h ++ tail
  pub block_size : length (encode_header crc32 h ++ tail) ≡ size
  pub payload :
      read_at image (slot_payload_lba first_lba h.slot size * size) h.payload_length
      ≡ encode_payload stored
  pub header_fits : HeaderFits h
  pub records_fit : AllEncodable stored
  pub payload_length : h.payload_length ≡ length (encode_payload stored)
  pub payload_crc32 : h.payload_crc32 ≡ bit_and (crc32 (encode_payload stored)) 0xFFFFFFFF
  pub record_count : h.record_count ≡ length stored

encode_header-some :
    (crc32 : Bytes → ℕ) (h : JournalHeader) (tail : Bytes)
    → 0 < length (encode_header crc32 h ++ tail)
unfolding encode_header header_bytes
encode_header-some crc32 h tail = omega arith

-- For a file in which a slot was filled with a header and records that fit: `parse_header` returns that
-- header for the slot, and `parse_records` with this header returns exactly those records, in order.
pub parse_records-Filled :
    (crc32 : Bytes → ℕ) (image : Bytes) (first_lba size : ℕ) (h : JournalHeader)
    (stored : List StoredRecord)
    → Filled crc32 image first_lba size h stored
    → (parse_header crc32 image first_lba h.slot size ≡ ok (some h))
      × (parse_records crc32 image first_lba h size ≡ ok (entries stored))
unfolding parse_header parse_records
parse_records-Filled crc32 image first_lba size h stored f =
    let sized : (size == 0) ≡ false =
      ground (arith, f.block_size, encode_header-some crc32 h f.tail) in
    let whole : (length (encode_header crc32 h ++ f.tail) != size) ≡ false =
      ground (arith, f.block_size) in
    (
      rw (f.block, whole) (parse_block-encode_header crc32 h f.tail f.header_fits),
      rw (sized, f.payload)
          (parse_payload-encode_payload crc32 h stored f.records_fit
            (omega (arith, f.record_count, f.header_fits.record_count)) f.payload_length
            f.payload_crc32 f.record_count),
    )
