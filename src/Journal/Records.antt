-- ===== src/Journal/Records.antt =====
-- `parse_records` and `timestamp_record` of scripts/test-x86_64-persistence.py. A dictionary is its
-- entries in the order of insertion.
use zig_os.Base.{
  ℕ, zero, suc, ◌+◌, ◌-◌, ◌*◌, ◌/◌, ltb, ◌==◌, ◌!=◌, ◌||◌, Bool, false, not, bytes_eq, bit_and,
  if◌then◌else◌,
}
use zig_os.Base.{List, [], ◌∷◌, ◌++◌, length, slice, ascii, Option, none, some}
use zig_os.Base.{
  Result, ok, raise, raise_if, Exception, runtime_error, unicode_error, zero_division_error, ◌>>=◌,
  ◌>>◌,
}
use zig_os.Bytes.{Bytes, byte_at, decode_ascii}
use zig_os.Journal.Header.{
  JournalHeader, persist_max_payload_bytes, persist_payload_offset_sectors, read_at, field,
}

abbrev pub record_header_size : ℕ
record_header_size = 48

abbrev pub timestamp_target : Bytes
timestamp_target = ascii "abi14/renamed.txt"

pub record JournalRecord : Type 0 where
  pub kind : ℕ
  pub path : Bytes
  pub mode : ℕ
  pub created_tick : ℕ
  pub modified_tick : ℕ
  pub changed_tick : ℕ
  pub accessed_tick : ℕ
  pub uid : ℕ
  pub gid : ℕ

-- `records: dict[str, Record]`
abbrev pub JournalRecords : Type 0
JournalRecords = List (Bytes × JournalRecord)

unfoldable pub find : Bytes → JournalRecords → Option JournalRecord
find path [] = none
find path ((key, r) ∷ records) = if bytes_eq key path then some r else find path records

-- `path in records`
unfoldable pub has_path : Bytes → JournalRecords → Bool
has_path path [] = false
has_path path ((key, r) ∷ records) = bytes_eq key path || has_path path records

-- `except UnicodeDecodeError as error: raise e from error`
unfoldable pub or_else : Result Bytes → Exception → Result Bytes
or_else (raise unicode_error) e = raise e
or_else result e = result

-- For blocks that are not empty. (The division of the source raises an exception at block size 0.)
unfoldable pub slot_payload_lba : ℕ → ℕ → ℕ → ℕ
slot_payload_lba first_lba slot block_size =
    let payload_sectors = (persist_max_payload_bytes + block_size - 1) / block_size in
    first_lba + persist_payload_offset_sectors + slot * payload_sectors

-- The loop over the records, with the number of those that are left, and the check behind it.
unfoldable pub parse_loop : Bytes → ℕ → ℕ → ℕ → ℕ → JournalRecords → Result JournalRecords
parse_loop payload slot zero record_index offset records = do
  raise_if (offset != length payload)
      (runtime_error "slot {}: trailing bytes remained after record parsing" (slot ∷ []))
  ok records
parse_loop payload slot (suc left) record_index offset records = do
  raise_if (ltb (length payload) (offset + record_header_size))
      (runtime_error "slot {}: record {} header was truncated" (slot ∷ record_index ∷ []))
  kind ← byte_at payload offset
  path_length ← byte_at payload (offset + 1)
  let data_length = field payload (offset + 4) (offset + 8)
  let body = offset + record_header_size
  let end = body + path_length + data_length
  raise_if (ltb (length payload) end)
      (runtime_error "slot {}: record {} body was truncated" (slot ∷ record_index ∷ []))
  path ←
      or_else (decode_ascii (slice payload body (body + path_length)))
        (runtime_error "slot {}: record {} path was not ASCII" (slot ∷ record_index ∷ []))
  raise_if (has_path path records)
      (runtime_error "slot {}: duplicate persisted path {}" (slot ∷ path))
  let entry : JournalRecord = record {
    kind = kind;
    path = path;
    mode = field payload (offset + 2) (offset + 4);
    created_tick = field payload (offset + 8) (offset + 16);
    modified_tick = field payload (offset + 16) (offset + 24);
    changed_tick = field payload (offset + 24) (offset + 32);
    accessed_tick = field payload (offset + 32) (offset + 40);
    uid = field payload (offset + 40) (offset + 44);
    gid = field payload (offset + 44) (offset + 48);
  }
  parse_loop payload slot left (record_index + 1) end (records ++ (path, entry) ∷ [])

-- `parse_records` from the payload on.
unfoldable pub parse_payload : (Bytes → ℕ) → JournalHeader → Bytes → Result JournalRecords
parse_payload crc32 header payload = do
  raise_if (length payload != header.payload_length)
      (runtime_error "slot {}: persistence payload read was truncated" (header.slot ∷ []))
  raise_if (bit_and (crc32 payload) 0xFFFFFFFF != header.payload_crc32)
      (runtime_error "slot {}: persistence payload CRC mismatch" (header.slot ∷ []))
  raise_if (ltb (length payload) 4)
      (runtime_error "slot {}: persistence payload omitted record count" (header.slot ∷ []))
  let encoded_count = field payload 0 4
  raise_if (encoded_count != header.record_count) (
      runtime_error "slot {}: payload/header record count mismatch: payload={} header={}"
        (header.slot ∷ encoded_count ∷ header.record_count ∷ []))
  parse_loop payload header.slot encoded_count 0 4 []

unfoldable pub parse_records : (Bytes → ℕ) → Bytes → ℕ → JournalHeader → ℕ → Result JournalRecords
parse_records crc32 image first_lba header block_size = do
  raise_if (block_size == 0) zero_division_error
  parse_payload crc32 header (
      read_at image (slot_payload_lba first_lba header.slot block_size * block_size)
        header.payload_length)

-- `records[TIMESTAMP_TARGET]`
unfoldable pub timestamp_record : (Bytes → ℕ) → Bytes → ℕ → JournalHeader → Result JournalRecord
timestamp_record crc32 image first_lba header =
    let missing = raise (
      runtime_error "generation {}: missing timestamp target {}"
        (header.generation ∷ timestamp_target)) in
    let bad_kind = λ (kind : ℕ).
      runtime_error "generation {}: timestamp target has non-file kind {}"
        (header.generation ∷ kind ∷ []) in
    do
      records ← parse_records crc32 image first_lba header 512
      target ← elim (find timestamp_target records) [ none ↦ missing | some r ↦ ok r ]
      raise_if (not (target.kind == 2 || target.kind == 5)) (bad_kind target.kind)
      ok target
