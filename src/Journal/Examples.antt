-- ===== src/Journal/Examples.antt =====
-- The theorems on the journal at one small file: three empty sectors around a header of slot 0, and its
-- payload with one record. The checksum of the example is FNV-1a, the digest of a block is the block.
use zig_os.Base.{
  ℕ, ◌+◌, ◌*◌, ◌<◌, ◌≡◌, ◌≢◌, refl, arith, ap, List, [], ◌∷◌, ◌++◌, length, ascii, get_or,
}
use zig_os.Base.{
  slice, take, drop, replicate, bit_and, Bool, true, ltb, ◌&&◌, ok, raise, some, Exception,
  runtime_error,
}
use zig_os.Base.Bits.{bit_and_mask}
use zig_os.Bytes.{Bytes, zeros, put, le_bytes}
use zig_os.Bytes.Words.{IsBytes, IsBytes-put}
use zig_os.Bytes.Changed.{Changed}
use zig_os.Fnv.{fnv1a32}
use zig_os.Fnv.Corruption.{fnv1a-lt, fnv1a-ne_of_changed}
use zig_os.Journal.Header.{JournalHeader, read_at, parse_header}
use zig_os.Journal.Records.{
  JournalRecord, slot_payload_lba, has_path, timestamp_target, parse_records, timestamp_record,
}
use zig_os.Journal.Corrupt.{Corrupted, corrupt_block_byte}
use zig_os.Journal.Corruption.{one-Changed, Flipped, corrupt_block_byte-Flipped}
use zig_os.Journal.Detected.{IsChecksum}
use zig_os.Journal.Slots.{parse_records-IsChecksum}
use zig_os.Journal.Recovery.{corrupt_block_byte-parse_header}
use zig_os.Journal.Encoding.{
  header_bytes, encode_header, record_header, StoredRecord, encode_records, encode_payload, entries,
  IsAscii, AllEncodable,
}
use zig_os.Journal.Filled.{Filled, parse_records-Filled}
use zig_os.Journal.Timestamp.{Stamped, timestamp_record-Stamped}

fnv-IsChecksum : IsChecksum fnv1a32
fnv-IsChecksum = record {
  width = λ bytes h. (fnv1a-lt bytes h).0;
  detects = λ front back b c h hc ne. (fnv1a-ne_of_changed front back b c h hc ne).0;
}

abbrev renamed : JournalRecord
renamed = record {
  kind = 2;
  path = timestamp_target;
  mode = 0x1A4;
  created_tick = 10;
  modified_tick = 20;
  changed_tick = 30;
  accessed_tick = 40;
  uid = 1000;
  gid = 100;
}

abbrev one_file : List StoredRecord
one_file = record { entry = renamed; content = ascii "hi" } ∷ []

abbrev payload : Bytes
unfolding encode_payload encode_records record_header le_bytes
payload = encode_payload one_file

abbrev header : JournalHeader
unfolding fnv1a32
header = record {
  slot = 0;
  generation = 7;
  payload_length = length payload;
  payload_crc32 = bit_and (fnv1a32 payload) 0xFFFFFFFF;
  record_count = 1;
}

abbrev image : Bytes
image = zeros 512 ++ ((encode_header fnv1a32 header ++ zeros 464) ++ (zeros 512 ++ payload))

abbrev bounded : ℕ → Bytes → Bool
bounded bound [] = true
bounded bound (b ∷ bytes) = ltb b bound && bounded bound bytes

bounded→IsBytes : (bytes : Bytes) → bounded 256 bytes ≡ true → IsBytes bytes
bounded→IsBytes [] h = tt
bounded→IsBytes (b ∷ bytes) h = (ground arith, bounded→IsBytes bytes (ground arith))

bounded→IsAscii : (bytes : Bytes) → bounded 128 bytes ≡ true → IsAscii bytes
bounded→IsAscii [] h = tt
bounded→IsAscii (b ∷ bytes) h = (ground arith, bounded→IsAscii bytes (ground arith))

one_file-AllEncodable : AllEncodable one_file
one_file-AllEncodable = (
  record {
    kind = omega arith;
    path = bounded→IsAscii timestamp_target refl;
    path_length = omega arith;
    data_length = omega arith;
    mode = omega arith;
    times = (omega arith, omega arith, omega arith, omega arith);
    owner = (omega arith, omega arith);
  },
  (unfold has_path entries in refl),
  tt,
)

image-Filled : Filled fnv1a32 image 1 512 header one_file
unfolding encode_payload payload header
image-Filled = record {
  tail = zeros 464;
  block =
      unfold read_at slice take drop encode_header header_bytes zeros replicate le_bytes fnv1a32 in
      refl;
  block_size = unfold encode_header header_bytes zeros replicate le_bytes fnv1a32 in refl;
  payload =
      unfold read_at slot_payload_lba slice take drop encode_header header_bytes zeros replicate
        le_bytes fnv1a32 in
      refl;
  header_fits = record {
    slot = omega arith;
    generation = omega arith;
    payload_length = (omega arith, omega arith);
    payload_crc32 = omega (arith, bit_and_mask 32 (fnv1a32 payload));
    record_count = omega arith;
  };
  records_fit = one_file-AllEncodable;
  payload_length = refl;
  payload_crc32 = refl;
  record_count = refl;
}

parse_records-Filled_example :
    (parse_header fnv1a32 image 1 0 512 ≡ ok (some header))
    × (parse_records fnv1a32 image 1 header 512 ≡ ok (entries one_file))
unfolding header
parse_records-Filled_example = parse_records-Filled fnv1a32 image 1 512 header one_file image-Filled

header-accepted : parse_header fnv1a32 image 1 0 512 ≡ ok (some header)
unfolding header
header-accepted = (parse_records-Filled fnv1a32 image 1 512 header one_file image-Filled).0

timestamp_record-Stamped_example :
    Stamped header.generation one_file (timestamp_record fnv1a32 image 1 header)
timestamp_record-Stamped_example =
    timestamp_record-Stamped fnv1a32 image 1 header one_file image-Filled

image-IsBytes : IsBytes image
unfolding encode_header header_bytes zeros replicate le_bytes fnv1a32 payload
image-IsBytes = bounded→IsBytes image refl

length-image : length image ≡ 1607
unfolding encode_header header_bytes zeros replicate le_bytes fnv1a32 payload
length-image = refl

whole_block-ne :
    (block : Bytes) (i : ℕ)
    → Changed (read_at image 512 512) block i
    → read_at image 512 512 ≢ block
whole_block-ne block i c e = c.changed (ap (λ t. get_or t i 0) e)

corrupt_block_byte-Flipped_example :
    (c : Corrupted) × (corrupt_block_byte (λ block. block) image 1 16 0xA5 512 ≡ ok c)
    × Flipped (λ block. block) image 512 512 16 0xA5 c
corrupt_block_byte-Flipped_example =
    corrupt_block_byte-Flipped (λ block. block) image 1 16 0xA5 512 image-IsBytes (omega arith)
      (omega (arith, length-image)) (omega arith) (omega arith)
      (λ block c. whole_block-ne block 16 c)

abbrev other_header : JournalHeader
other_header = record {
  slot = 1;
  generation = 8;
  payload_length = 4;
  payload_crc32 = 0;
  record_count = 0;
}

corrupt_block_byte-parse_header_example :
    (c : Corrupted) × (corrupt_block_byte (λ block. block) image 1 16 0xA5 512 ≡ ok c)
    × ((e : Exception) × (parse_header fnv1a32 c.image 1 0 512 ≡ raise e))
    × (parse_header fnv1a32 c.image 1 1 512 ≡ parse_header fnv1a32 image 1 1 512)
    × (parse_records fnv1a32 c.image 1 other_header 512
        ≡ parse_records fnv1a32 image 1 other_header 512)
corrupt_block_byte-parse_header_example =
    corrupt_block_byte-parse_header fnv1a32 (λ block. block) image 1 512 0 1 16 0xA5 header
      other_header fnv-IsChecksum image-IsBytes (omega arith) (omega (arith, length-image))
      (omega arith) (omega arith) (λ e. absurd (omega arith)) (omega arith) (omega arith)
      (omega arith) (λ block c. whole_block-ne block 16 c) header-accepted refl (omega arith)

abbrev torn : Bytes
torn = put image 1596 (0xFF ∷ [])

image-torn : get_or image 1596 0 ≢ 0xFF
unfolding encode_header header_bytes zeros replicate le_bytes fnv1a32 payload
image-torn e = absurd (omega (arith, e))

torn-Changed : Changed image torn (slot_payload_lba 1 header.slot 512 * 512 + 60)
unfolding slot_payload_lba header
torn-Changed = one-Changed image 1596 0xFF (omega (arith, length-image)) image-torn

torn-IsBytes : IsBytes torn
torn-IsBytes = IsBytes-put image 1596 (0xFF ∷ []) image-IsBytes (omega arith, tt)

header-bound : 60 < header.payload_length
unfolding header payload
header-bound = omega arith

parse_records-IsChecksum_example :
    parse_records fnv1a32 torn 1 header 512
    ≡ raise (runtime_error "slot {}: persistence payload CRC mismatch" (header.slot ∷ []))
parse_records-IsChecksum_example =
    parse_records-IsChecksum fnv1a32 image torn 1 512 60 header (entries one_file) fnv-IsChecksum
      image-IsBytes torn-IsBytes header-bound torn-Changed
      (parse_records-Filled fnv1a32 image 1 512 header one_file image-Filled).1
