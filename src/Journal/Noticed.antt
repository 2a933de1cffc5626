-- ===== src/Journal/Noticed.antt =====
-- A file with one changed byte under a header or a payload of the journal: the slot that it is in is
-- refused, and what lies elsewhere is read as before.
use zig_os.Base.{
  ℕ, ◌+◌, ◌-◌, ◌*◌, ◌≤◌, ◌<◌, ◌≡◌, ◌⊎◌, inl, inr, refl, arith, sym, ◌∙◌, length, slice, drop,
  length-take, length-drop, min,
}
use zig_os.Base.{
  true, false, Bool-cases, ◌!=◌, some, ok, raise, Exception, runtime_error, bit_and, [], ◌∷◌,
}
use mathlib.Core.Path.{subst}
use zig_os.Bytes.{Bytes}
use zig_os.Bytes.Words.{IsBytes, IsBytes-slice}
use zig_os.Bytes.Pointwise.{bytes_ext, get_or-slice}
use zig_os.Bytes.Changed.{Changed, slice-Changed}
use zig_os.Journal.Header.{JournalHeader, read_at, parse_block, parse_header}
use zig_os.Journal.Records.{JournalRecords, parse_payload}
use zig_os.Journal.Detected.{IsChecksum, masked-ne_of_Changed, parse_block-IsChecksum}

-- A read that got all its bytes lies inside the file.
pub read_inside :
    (image : Bytes) (at n : ℕ) → 0 < n → length (read_at image at n) ≡ n → at + n ≤ length image
unfolding read_at slice
read_inside image at n pos e =
    omega (arith, length-take (at + n - at) (drop at image), length-drop at image)

pub read-Changed :
    (before after : Bytes) (at n i : ℕ)
    → Changed before after (at + i)
    → at + n ≤ length before
    → i < n
    → Changed (read_at before at n) (read_at after at n) i
unfolding read_at
read-Changed before after at n i c fits inside =
    subst (Changed (slice before at (at + n)) (slice after at (at + n))) (omega arith)
      (slice-Changed before after (at + i) c at (at + n) fits (omega arith) (omega arith))

pub read-IsBytes : (image : Bytes) (at n : ℕ) → IsBytes image → IsBytes (read_at image at n)
unfolding read_at
read-IsBytes image at n r = IsBytes-slice image at (at + n) r

length-read : (image : Bytes) (at n : ℕ) → length (read_at image at n) ≡ min n (length image - at)
unfolding read_at slice
length-read image at n =
    omega (arith, length-take (at + n - at) (drop at image), length-drop at image)

-- A read that does not cover the changed byte.
pub read_unchanged :
    (before after : Bytes) (at n i : ℕ)
    → Changed before after i
    → (i < at) ⊎ (at + n ≤ i)
    → read_at after at n ≡ read_at before at n
read_unchanged before after at n i c out =
    let size : length (read_at after at n) ≡ length (read_at before at n) =
      omega (arith, c.size, length-read after at n, length-read before at n) in
    bytes_ext (read_at after at n) (read_at before at n) size (λ j h.
      let short : j < n = omega (arith, length-read after at n) in
      (unfold read_at in
        get_or-slice after at (at + n) j (omega arith)
        ∙ c.same (at + j) (λ e. apart j short out e)
        ∙ sym (get_or-slice before at (at + n) j (omega arith))))
  where
    apart : (j : ℕ) → j < n → (i < at) ⊎ (at + n ≤ i) → at + j ≡ i → ⊥
    apart j h (inl p) e = omega arith
    apart j h (inr p) e = omega arith

-- For a checksum that tells single bytes apart: when `parse_header` accepts the header of a slot, and
-- one of the header's 48 bytes is changed in the file, it raises an exception for that slot.
pub parse_header-IsChecksum :
    (crc32 : Bytes → ℕ) (before after : Bytes) (first_lba slot size i : ℕ) (h : JournalHeader)
    → IsChecksum crc32
    → IsBytes before
    → IsBytes after
    → 48 ≤ size
    → i < 48
    → Changed before after ((first_lba + slot) * size + i)
    → parse_header crc32 before first_lba slot size ≡ ok (some h)
    → (e : Exception) × (parse_header crc32 after first_lba slot size ≡ raise e)
unfolding parse_header
parse_header-IsChecksum crc32 before after first_lba slot size i h is p q small inside c accepted =
    let at = (first_lba + slot) * size in
    elim (Bool-cases (length (read_at before at size) != size)) [
      | inl short ↦ absurd (impossible short)
      | inr whole ↦
          let n : length (read_at before at size) ≡ size = ground arith in
          let fits = read_inside before at size (omega arith) n in
          let block = read-Changed before after at size i c fits (omega arith) in
          let whole' : (length (read_at after at size) != size) ≡ false =
            ground (arith, block.size) in
          let parsed : parse_block crc32 slot (read_at before at size) ≡ ok (some h) =
            ground (arith, whole, accepted) in
          rw whole' (
            parse_block-IsChecksum crc32 slot (read_at before at size) (read_at after at size) i h
              is (read-IsBytes before at size p) (read-IsBytes after at size q) (omega arith) inside
              block parsed)
    ]
  where
    impossible : (length (read_at before ((first_lba + slot) * size) size) != size) ≡ true → ⊥
    impossible short = ground (arith, short, accepted)

-- For a checksum that tells single bytes apart: when `parse_payload` returns the records of a payload,
-- and one byte of the payload is changed, it raises the exception that names the payload's checksum.
pub parse_payload-IsChecksum :
    (crc32 : Bytes → ℕ) (h : JournalHeader) (before after : Bytes) (i : ℕ)
    (records : JournalRecords)
    → IsChecksum crc32
    → IsBytes before
    → IsBytes after
    → Changed before after i
    → parse_payload crc32 h before ≡ ok records
    → parse_payload crc32 h after
      ≡ raise (runtime_error "slot {}: persistence payload CRC mismatch" (h.slot ∷ []))
unfolding parse_payload
parse_payload-IsChecksum crc32 h before after i records is p q c returned =
    elim (Bool-cases (length before != h.payload_length)) [
      | inl short ↦ absurd (truncated short)
      | inr whole ↦ elim (Bool-cases (bit_and (crc32 before) 0xFFFFFFFF != h.payload_crc32)) [
        | inl bad ↦ absurd (mismatch whole bad)
        | inr good ↦
            let whole' : (length after != h.payload_length) ≡ false = ground (arith, c.size) in
            let ne = masked-ne_of_Changed crc32 before after i is p q c in
            let bad : (bit_and (crc32 after) 0xFFFFFFFF != h.payload_crc32) ≡ true =
              ground (arith, ne) in
            rw (whole', bad) refl
      ]
    ]
  where
    truncated : (length before != h.payload_length) ≡ true → ⊥
    truncated short = ground (arith, short, returned)

    mismatch :
        (length before != h.payload_length) ≡ false
        → (bit_and (crc32 before) 0xFFFFFFFF != h.payload_crc32) ≡ true
        → ⊥
    mismatch whole bad = ground (arith, whole, bad, returned)

-- A payload whose records were returned has the length that its header states.
pub payload_whole :
    (crc32 : Bytes → ℕ) (h : JournalHeader) (payload : Bytes) (records : JournalRecords)
    → parse_payload crc32 h payload ≡ ok records
    → length payload ≡ h.payload_length
unfolding parse_payload
payload_whole crc32 h payload records returned =
    elim (Bool-cases (length payload != h.payload_length)) [
      | inl short ↦ absurd (ground (arith, short, returned))
      | inr whole ↦ ground arith
    ]
