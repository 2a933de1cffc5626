-- ===== src/Journal/ReadBack.antt =====
-- A slot that a writer filled is read back whole: its header block and the records of its payload.
use zig_os.Base.{
  ℕ, ◌+◌, ◌^◌, ◌<◌, ◌≡◌, refl, arith, ap, ◌∙◌, List, [], ◌++◌, length, slice, take, drop, set_slice,
}
use zig_os.Base.{true, false, ◌!=◌, le→not_ltb, bytes_eq, bit_and, ok, some}
use zig_os.Bytes.{Bytes, any, put, zeros, le_bytes, from_le}
use zig_os.Bytes.Words.{from_le-le_bytes, length-le_bytes}
use zig_os.Base.Bits.{bit_and_mask}
use zig_os.Journal.Header.{header_magic, JournalHeader, field, header_crc, parse_block}
use zig_os.Journal.Records.{parse_payload}
use zig_os.Journal.Encoding.{
  header_bytes, encode_header, StoredRecord, encode_records, encode_payload, entries, AllEncodable,
  HeaderFits,
}
use zig_os.Journal.RoundTrip.{slice_here, drop_here, Unread-nil, parse_loop-encode_records}

-- For records that their headers can hold, with paths that differ, at most `2 ^ 32` of them, and a header
-- that states the length, the masked checksum and the count of their encoded payload: `parse_payload`
-- returns exactly these records, in their order.
pub parse_payload-encode_payload :
    (crc32 : Bytes → ℕ) (h : JournalHeader) (stored : List StoredRecord)
    → AllEncodable stored
    → length stored < 256 ^ 4
    → h.payload_length ≡ length (encode_payload stored)
    → h.payload_crc32 ≡ bit_and (crc32 (encode_payload stored)) 0xFFFFFFFF
    → h.record_count ≡ length stored
    → parse_payload crc32 h (encode_payload stored) ≡ ok (entries stored)
unfolding parse_payload
parse_payload-encode_payload crc32 h stored all few size crc count =
    let n = length stored in
    let body = encode_records stored in
    let whole : encode_payload stored ≡ le_bytes 4 n ++ body = unfold encode_payload in refl in
    let total : length (encode_payload stored) ≡ 4 + length body =
      unfold encode_payload le_bytes in omega arith in
    let counted : field (encode_payload stored) 0 4 ≡ n =
      unfold field drop in
      ap from_le (
        slice_here (encode_payload stored) 0 (le_bytes 4 n) body 4 whole
          (omega (arith, length-le_bytes 4 n)))
      ∙ from_le-le_bytes 4 n few in
    let left : drop 4 (encode_payload stored) ≡ body =
      unfold drop in
      drop_here (encode_payload stored) 0 (le_bytes 4 n) body 4 whole
        (omega (arith, length-le_bytes 4 n)) in
    rw
      (
        size,
        same (length (encode_payload stored)),
        crc,
        same (bit_and (crc32 (encode_payload stored)) 0xFFFFFFFF),
        le→not_ltb (length (encode_payload stored)) 4 (omega arith),
        count,
        counted,
        same n,
      )
      (parse_loop-encode_records (encode_payload stored) h.slot 0 4 [] stored (omega arith) left all
        (Unread-nil stored))
  where
    same : (n : ℕ) → (n != n) ≡ false
    same n = ground arith

module _ (h : JournalHeader) (checksum : ℕ) (tail : Bytes) where
  length-header_bytes : length (header_bytes h checksum) ≡ 48
  unfolding header_bytes le_bytes
  length-header_bytes = refl

  header_field :
      (a b width value : ℕ)
      → value < 256 ^ width
      → slice (header_bytes h checksum ++ tail) a b ≡ le_bytes width value
      → field (header_bytes h checksum ++ tail) a b ≡ value
  unfolding field
  header_field a b width value fits e = ap from_le e ∙ from_le-le_bytes width value fits

  -- The checksum of the block is that of the header with zeros in the checksum's place.
  header_crc-header_bytes :
      (crc32 : Bytes → ℕ)
      → header_crc crc32 (header_bytes h checksum ++ tail)
        ≡ bit_and (crc32 (header_bytes h 0)) 0xFFFFFFFF
  unfolding header_crc header_bytes put set_slice slice take drop le_bytes zeros
  header_crc-header_bytes crc32 = refl

-- For a header whose fields fit their widths: `parse_block` of its encoding, with any bytes behind it,
-- returns the header.
pub parse_block-encode_header :
    (crc32 : Bytes → ℕ) (h : JournalHeader) (tail : Bytes)
    → HeaderFits h
    → parse_block crc32 h.slot (encode_header crc32 h ++ tail) ≡ ok (some h)
unfolding parse_block encode_header
parse_block-encode_header crc32 h tail fits =
    let seal = bit_and (crc32 (header_bytes h 0)) 0xFFFFFFFF in
    let narrow : seal < 256 ^ 4 = omega (arith, bit_and_mask 32 (crc32 (header_bytes h 0))) in
    let part = header_field h seal tail in
    let magic : bytes_eq (slice (header_bytes h seal ++ tail) 0 8) header_magic ≡ true =
      unfold slice take drop header_bytes bytes_eq in refl in
    let written : any (header_bytes h seal ++ tail) ≡ true = unfold any header_bytes in refl in
    unfold header_bytes slice take drop le_bytes in
    (let low = le→not_ltb h.payload_length 4 fits.payload_length.0 in
      let high = le→not_ltb 65536 h.payload_length fits.payload_length.1 in
      rw
        (
          written,
          magic,
          part 24 28 4 h.payload_length (omega arith) refl,
          low,
          high,
          part 8 12 4 3 (omega arith) refl,
          part 12 16 4 48 (omega arith) refl,
          part 32 36 4 h.slot (omega arith) refl,
          part 44 48 4 0x434F4D54 (omega arith) refl,
          part 40 44 4 seal narrow refl,
          header_crc-header_bytes h seal tail crc32,
          part 16 24 8 h.generation (omega arith) refl,
          part 28 32 4 h.payload_crc32 (omega arith) refl,
          part 36 40 4 h.record_count (omega arith) refl,
          differs h.slot,
          differs seal,
        )
        refl)
  where
    differs : (n : ℕ) → (n != n) ≡ false
    differs n = ground arith
