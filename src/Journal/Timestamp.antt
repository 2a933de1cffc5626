-- ===== src/Journal/Timestamp.antt =====
-- What `timestamp_record` finds in a file in which a slot of the journal was filled.
use zig_os.Base.{ℕ, ◌≡◌, ◌⊎◌, inl, inr, refl, arith, List}
use zig_os.Base.{
  true, false, not, ◌==◌, ◌||◌, ok, some, none, raise, runtime_error, ◌≢◌, [], ◌∷◌, bytes_eq,
  bytes_eq→eq, bytes_eq_refl, Bool-cases, ap, sym, ◌∙◌, Result,
}
use zig_os.Bytes.{Bytes}
use zig_os.Journal.Header.{JournalHeader}
use zig_os.Journal.Records.{JournalRecord, find, timestamp_target, timestamp_record}
use zig_os.Journal.Encoding.{StoredRecord, entries}
use mathlib.Core.List.{Memᴰ}
use mathlib.Core.List.Memᴰ.{head, tail, not-nil}
use zig_os.Journal.Filled.{Filled, parse_records-Filled}

-- What a lookup of a path in the records finds: a record with this path, or that there is none.
found-or-absent :
    (path : Bytes) (stored : List StoredRecord)
    → ((s : StoredRecord) × Memᴰ s stored
        × (s.entry.path ≡ path)
        × (find path (entries stored) ≡ some s.entry))
      ⊎ (((s : StoredRecord) → Memᴰ s stored → s.entry.path ≢ path)
          × (find path (entries stored) ≡ none))
unfolding find entries
found-or-absent path [] = inr (λ s at. absurd (not-nil at), refl)
found-or-absent path (s ∷ stored) = elim (Bool-cases (bytes_eq s.entry.path path)) [
  | inl same ↦ inl (s, head refl, bytes_eq→eq s.entry.path path same, rw same refl)
  | inr other ↦ elim (found-or-absent path stored) [
    | inl (r, at, is_path, finds) ↦ inl (r, tail at, is_path, rw other finds)
    | inr (absent, finds) ↦ inr (not_here s other absent, rw other finds)
  ]
]
  where
    not_here :
        (s : StoredRecord) {stored : List StoredRecord}
        → bytes_eq s.entry.path path ≡ false
        → ((r : StoredRecord) → Memᴰ r stored → r.entry.path ≢ path)
        → (r : StoredRecord) → Memᴰ r (s ∷ stored)
        → r.entry.path ≢ path
    not_here s other absent r (head same) e =
        let here : bytes_eq s.entry.path path ≡ true =
          ap (λ t. bytes_eq t path) (sym (ap (λ (t : StoredRecord). t.entry.path) same) ∙ e)
          ∙ bytes_eq_refl path in
        ground (arith, here, other)
    not_here s other absent r (tail at) e = absent r at e

-- How a lookup of the timestamp target ends for the records of a slot: with the record of that path when
-- it is a file's (kind 2 or 5), and with an exception when it is not a file's, or when no record has that
-- path.
pub data Stamped (generation : ℕ) (stored : List StoredRecord) : Result JournalRecord → Type 0 where
  stamped :
      (s : StoredRecord)
      → Memᴰ s stored
      → s.entry.path ≡ timestamp_target
      → (s.entry.kind ≡ 2) ⊎ (s.entry.kind ≡ 5)
      → Stamped generation stored (ok s.entry)
  not_file :
      (s : StoredRecord)
      → Memᴰ s stored
      → s.entry.path ≡ timestamp_target
      → s.entry.kind ≢ 2
      → s.entry.kind ≢ 5
      → Stamped generation stored (
          raise (
            runtime_error "generation {}: timestamp target has non-file kind {}"
              (generation ∷ s.entry.kind ∷ [])))
  missing :
      ((s : StoredRecord) → Memᴰ s stored → s.entry.path ≢ timestamp_target)
      → Stamped generation stored (
          raise (
            runtime_error "generation {}: missing timestamp target {}"
              (generation ∷ timestamp_target)))

not_file_kind : (kind : ℕ) → kind ≢ 2 → kind ≢ 5 → not (kind == 2 || kind == 5) ≡ true
not_file_kind kind two five = ground arith

file_kind : (kind : ℕ) → (kind ≡ 2) ⊎ (kind ≡ 5) → not (kind == 2 || kind == 5) ≡ false
file_kind kind (inl e) = ground arith
file_kind kind (inr e) = ground arith

-- For a file of 512-byte blocks with a filled slot: `timestamp_record` returns the record that was stored
-- at the timestamp target when its kind is 2 or 5; it raises the exception that names the kind when it is
-- another, and the one that names the target when no record was stored there.
pub timestamp_record-Stamped :
    (crc32 : Bytes → ℕ) (image : Bytes) (first_lba : ℕ) (h : JournalHeader)
    (stored : List StoredRecord)
    → Filled crc32 image first_lba 512 h stored
    → Stamped h.generation stored (timestamp_record crc32 image first_lba h)
unfolding timestamp_record
timestamp_record-Stamped crc32 image first_lba h stored f =
    let parsed = (parse_records-Filled crc32 image first_lba 512 h stored f).1 in
    elim (found-or-absent timestamp_target stored) [
      | inl (s, at, is_path, finds) ↦ elim (Bool-cases (s.entry.kind == 2)) [
        | inl two ↦
            let kind : s.entry.kind ≡ 2 = ground arith in
            rw (parsed, finds, file_kind s.entry.kind (inl kind)) (stamped s at is_path (inl kind))
        | inr not_two ↦ elim (Bool-cases (s.entry.kind == 5)) [
          | inl five ↦
              let kind : s.entry.kind ≡ 5 = ground arith in
              rw (parsed, finds, file_kind s.entry.kind (inr kind))
                (stamped s at is_path (inr kind))
          | inr not_five ↦
              let other : s.entry.kind ≢ 2 = ground arith in
              let other' : s.entry.kind ≢ 5 = ground arith in
              rw (parsed, finds, not_file_kind s.entry.kind other other')
                (not_file s at is_path other other')
        ]
      ]
      | inr (absent, finds) ↦ rw (parsed, finds) (missing absent)
    ]
