-- ===== src/Journal/Encoding.antt =====
-- The format of a slot of the journal, as the bytes that a writer puts on the disk: a header block, and
-- a payload of a count and the records, each with its path and its data behind a header of 48 bytes.
use zig_os.Base.{ℕ, ◌^◌, ◌≤◌, ◌<◌, ◌≡◌, bit_and, List, [], ◌∷◌, ◌++◌, length, false}
use zig_os.Bytes.{Bytes, le_bytes}
use zig_os.Journal.Header.{JournalHeader, header_magic}
use zig_os.Journal.Records.{JournalRecord, JournalRecords, has_path}

unfoldable pub header_bytes : JournalHeader → ℕ → Bytes
header_bytes h checksum =
    header_magic
    ++ (le_bytes 4 3
        ++ (le_bytes 4 48
            ++ (le_bytes 8 h.generation
                ++ (le_bytes 4 h.payload_length
                    ++ (le_bytes 4 h.payload_crc32
                        ++ (le_bytes 4 h.slot
                            ++ (le_bytes 4 h.record_count
                                ++ (le_bytes 4 checksum ++ le_bytes 4 0x434F4D54))))))))

-- The checksum is that of the header with zeros in its place.
unfoldable pub encode_header : (Bytes → ℕ) → JournalHeader → Bytes
encode_header crc32 h = header_bytes h (bit_and (crc32 (header_bytes h 0)) 0xFFFFFFFF)

unfoldable pub record_header : JournalRecord → ℕ → Bytes
record_header r data_length =
    r.kind
    ∷ length r.path
    ∷ (le_bytes 2 r.mode
        ++ (le_bytes 4 data_length
            ++ (le_bytes 8 r.created_tick
                ++ (le_bytes 8 r.modified_tick
                    ++ (le_bytes 8 r.changed_tick
                        ++ (le_bytes 8 r.accessed_tick
                            ++ (le_bytes 4 r.uid ++ le_bytes 4 r.gid)))))))

-- A file or a directory of the journal with its data.
pub record StoredRecord : Type 0 where
  pub entry : JournalRecord
  pub content : Bytes

unfoldable pub encode_records : List StoredRecord → Bytes
encode_records [] = []
encode_records (s ∷ stored) =
    record_header s.entry (length s.content)
    ++ (s.entry.path ++ (s.content ++ encode_records stored))

unfoldable pub encode_payload : List StoredRecord → Bytes
encode_payload stored = le_bytes 4 (length stored) ++ encode_records stored

-- The dictionary of the records.
unfoldable pub entries : List StoredRecord → JournalRecords
entries [] = []
entries (s ∷ stored) = (s.entry.path, s.entry) ∷ entries stored

abbrev pub IsAscii : Bytes → Type 0
IsAscii [] = Unit {0}
IsAscii (b ∷ bs) = (b < 128) × IsAscii bs

-- A record that its header can hold.
pub record Encodable (s : StoredRecord) : Type 0 where
  pub kind : s.entry.kind < 256
  pub path : IsAscii s.entry.path
  pub path_length : length s.entry.path < 256
  pub data_length : length s.content < 256 ^ 4
  pub mode : s.entry.mode < 256 ^ 2
  pub times :
      (s.entry.created_tick < 256 ^ 8)
      × (s.entry.modified_tick < 256 ^ 8)
      × (s.entry.changed_tick < 256 ^ 8)
      × (s.entry.accessed_tick < 256 ^ 8)
  pub owner : (s.entry.uid < 256 ^ 4) × (s.entry.gid < 256 ^ 4)

-- All records can be held, and no two of them have one path.
abbrev pub AllEncodable : List StoredRecord → Type 0
AllEncodable [] = Unit {0}
AllEncodable (s ∷ stored) =
    Encodable s × (has_path s.entry.path (entries stored) ≡ false) × AllEncodable stored

-- A header that its block can hold.
pub record HeaderFits (h : JournalHeader) : Type 0 where
  pub slot : h.slot < 256 ^ 4
  pub generation : h.generation < 256 ^ 8
  pub payload_length : (4 ≤ h.payload_length) × (h.payload_length ≤ 65536)
  pub payload_crc32 : h.payload_crc32 < 256 ^ 4
  pub record_count : h.record_count < 256 ^ 4
