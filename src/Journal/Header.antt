-- ===== src/Journal/Header.antt =====
-- `parse_header` of scripts/test-x86_64-persistence.py, with `binascii.crc32` as a parameter. A file is
-- the list of its bytes: a read at an offset is a slice, which stops at the end of the file.
use zig_os.Base.{ℕ, ◌+◌, ◌*◌, ltb, ◌!=◌, ◌||◌, not, bytes_eq, bit_and, if◌then◌else◌}
use zig_os.Base.{[], ◌∷◌, length, slice, ascii, Option, none, some}
use zig_os.Base.{Result, ok, raise_if, runtime_error, ◌>>◌}
use zig_os.Bytes.{Bytes, zeros, put, from_le, any}

abbrev pub header_magic : Bytes
header_magic = ascii "ZIGPERS1"

abbrev pub header_version : ℕ
header_version = 3

abbrev pub header_size : ℕ
header_size = 48

abbrev pub commit_marker : ℕ
commit_marker = 0x434F4D54

abbrev pub persist_max_payload_bytes : ℕ
persist_max_payload_bytes = 64 * 1024

abbrev pub persist_payload_offset_sectors : ℕ
persist_payload_offset_sectors = 2

pub record JournalHeader : Type 0 where
  pub slot : ℕ
  pub generation : ℕ
  pub payload_length : ℕ
  pub payload_crc32 : ℕ
  pub record_count : ℕ

-- `stream.seek(offset)` and `stream.read(count)`
unfoldable pub read_at : Bytes → ℕ → ℕ → Bytes
read_at image offset count = slice image offset (offset + count)

-- `int.from_bytes(block[a:b], "little")`
unfoldable pub field : Bytes → ℕ → ℕ → ℕ
field block a b = from_le (slice block a b)

-- The checksum of a header: of its 48 bytes, with zeros in the place of the checksum itself.
unfoldable pub header_crc : (Bytes → ℕ) → Bytes → ℕ
header_crc crc32 block = bit_and (crc32 (slice (put block 40 (zeros 4)) 0 header_size)) 0xFFFFFFFF

-- `parse_header` from the block on.
unfoldable pub parse_block : (Bytes → ℕ) → ℕ → Bytes → Result (Option JournalHeader)
parse_block crc32 slot block =
    let parsed = do
      raise_if (not (bytes_eq (slice block 0 8) header_magic))
          (runtime_error "slot {}: invalid persistence magic" (slot ∷ []))
      let payload_length = field block 24 28
      raise_if (ltb payload_length 4 || ltb persist_max_payload_bytes payload_length) (
          runtime_error "slot {}: persistence payload length {} exceeded the 64 KiB journal bound"
            (slot ∷ payload_length ∷ []))
      raise_if (field block 8 12 != header_version || field block 12 16 != header_size)
          (runtime_error "slot {}: unsupported persistence header version" (slot ∷ []))
      raise_if (field block 32 36 != slot || field block 44 48 != commit_marker)
          (runtime_error "slot {}: persistence commit fields were invalid" (slot ∷ []))
      raise_if (field block 40 44 != header_crc crc32 block)
          (runtime_error "slot {}: persistence header CRC mismatch" (slot ∷ []))
      ok (
          some (record {
            slot = slot;
            generation = field block 16 24;
            payload_length = payload_length;
            payload_crc32 = field block 28 32;
            record_count = field block 36 40;
          }))
    in if any block then parsed else ok none

unfoldable pub parse_header : (Bytes → ℕ) → Bytes → ℕ → ℕ → ℕ → Result (Option JournalHeader)
parse_header crc32 image first_lba slot block_size = do
  let block = read_at image ((first_lba + slot) * block_size) block_size
  raise_if (length block != block_size) (runtime_error "persistence header read was truncated" [])
  parse_block crc32 slot block
