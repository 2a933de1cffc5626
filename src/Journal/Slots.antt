-- ===== src/Journal/Slots.antt =====
-- The places of the two slots of the journal: a changed byte in one slot leaves the other slot as it is,
-- so that the other one is still there to recover from.
use zig_os.Base.{ℕ, ◌+◌, ◌-◌, ◌*◌, ◌/◌, ◌≤◌, ◌<◌, ◌≡◌, ◌≢◌, ◌⊎◌, inl, inr, refl, arith, ap}
use zig_os.Base.{
  ok, raise, runtime_error, [], ◌∷◌, Bool, true, false, ◌==◌, raise_if, zero_division_error,
  >>=-eq-ok,
}
use native.Mathlib.Nat.{mul-le-mul_right, add-mul, div-add-mod, mod-lt}
use native.Mathlib.Decide.{dec_lt}
use zig_os.Bytes.{Bytes}
use zig_os.Bytes.Words.{IsBytes}
use zig_os.Bytes.Changed.{Changed}
use zig_os.Journal.Header.{JournalHeader, parse_header}
use zig_os.Journal.Records.{JournalRecords, slot_payload_lba, parse_records}
use zig_os.Journal.Detected.{IsChecksum}
use zig_os.Journal.Noticed.{
  read_unchanged, payload_whole, read_inside, read-Changed, read-IsBytes, parse_payload-IsChecksum,
}

-- `a * c` ends before `b * c` starts.
block_before : (a b c : ℕ) → a < b → a * c + c ≤ b * c
block_before a b c h = omega (arith, mul-le-mul_right c (le a b h), add-mul a 1 c)
  where
    le : (a b : ℕ) → a < b → a + 1 ≤ b
    le a b h = omega arith

-- Two blocks of one size at different numbers do not overlap.
apart_blocks : (a b c i : ℕ) → a ≢ b → i < c → (a * c + i < b * c) ⊎ (b * c + c ≤ a * c + i)
apart_blocks a b c i ne h = elim (dec_lt a b) [
  | yes p ↦ inl (omega (arith, block_before a b c p))
  | no p ↦ inr (omega (arith, block_before b a c (omega arith)))
]

-- The sectors of one payload hold its 64 KiB.
sectors_hold : (size : ℕ) → 0 < size → 65536 ≤ (65536 + size - 1) / size * size
sectors_hold size pos =
    omega (arith, div-add-mod (65536 + size - 1) size, mod-lt (65536 + size - 1) pos)

payload_room :
    (first_lba slot size : ℕ)
    → 0 < size
    → slot_payload_lba first_lba slot size * size + 65536
      ≤ slot_payload_lba first_lba (slot + 1) size * size
unfolding slot_payload_lba
payload_room first_lba slot size pos =
    let sectors = (65536 + size - 1) / size in
    let next : first_lba + 2 + (slot + 1) * sectors ≡ (first_lba + 2 + slot * sectors) + sectors =
      omega (arith, add-mul slot 1 sectors) in
    omega (
      arith,
      ap (λ t. t * size) next,
      add-mul (first_lba + 2 + slot * sectors) sectors size,
      sectors_hold size pos,
    )

-- For a checksum that tells single bytes apart: when `parse_records` returns the records of a slot, and
-- one byte of that slot's payload is changed in the file, it raises the exception that names the
-- payload's checksum.
pub parse_records-IsChecksum :
    (crc32 : Bytes → ℕ) (before after : Bytes) (first_lba size i : ℕ) (h : JournalHeader)
    (records : JournalRecords)
    → IsChecksum crc32
    → IsBytes before
    → IsBytes after
    → i < h.payload_length
    → Changed before after (slot_payload_lba first_lba h.slot size * size + i)
    → parse_records crc32 before first_lba h size ≡ ok records
    → parse_records crc32 after first_lba h size
      ≡ raise (runtime_error "slot {}: persistence payload CRC mismatch" (h.slot ∷ []))
unfolding parse_records
parse_records-IsChecksum crc32 before after first_lba size i h records is p q inside c returned =
    let at = slot_payload_lba first_lba h.slot size * size in
    let (done, parsed, guard) = >>=-eq-ok (raise_if (size == 0) zero_division_error) _ returned in
    let sized : (size == 0) ≡ false = not_raised (size == 0) guard in
    let whole = payload_whole crc32 h _ records parsed in
    let fits = read_inside before at h.payload_length (omega arith) whole in
    rw sized (
      parse_payload-IsChecksum crc32 h _ _ i records is (read-IsBytes before at _ p)
        (read-IsBytes after at _ q) (read-Changed before after at h.payload_length i c fits inside)
        parsed)
  where
    not_raised : (bad : Bool) → raise_if bad zero_division_error ≡ ok tt → bad ≡ false
    not_raised true e = cc
    not_raised false e = refl

-- The bytes of the file that belong to a slot: those of its header block, and 64 KiB of its payload.
pub data InSlot (first_lba size slot : ℕ) : ℕ → Type 0 where
  in_header : (i : ℕ) → i < size → InSlot first_lba size slot ((first_lba + slot) * size + i)
  in_payload :
      (i : ℕ)
      → i < 65536
      → InSlot first_lba size slot (slot_payload_lba first_lba slot size * size + i)

module _ (first_lba size slot other : ℕ) (one_of : slot < 2) (two_of : other < 2)
    (ne : slot ≢ other) (pos : 0 < size) where
  header_before_payload :
      (a b : ℕ) → a < 2 → (first_lba + a) * size + size ≤ slot_payload_lba first_lba b size * size
  unfolding slot_payload_lba
  header_before_payload a b h =
      block_before (first_lba + a) (first_lba + 2 + b * ((65536 + size - 1) / size)) size
        (omega arith)

  payloads_apart :
      (i : ℕ)
      → i < 65536
      → (slot_payload_lba first_lba slot size * size + i
          < slot_payload_lba first_lba other size * size)
        ⊎ (slot_payload_lba first_lba other size * size + 65536
            ≤ slot_payload_lba first_lba slot size * size + i)
  payloads_apart i h = elim (dec_lt slot other) [
    | yes p ↦
        let next : slot + 1 ≡ other = omega arith in
        inl (
          omega (
            arith,
            payload_room first_lba slot size pos,
            ap (λ t. slot_payload_lba first_lba t size * size) next,
          ))
    | no p ↦
        let next : other + 1 ≡ slot = omega arith in
        inr (
          omega (
            arith,
            payload_room first_lba other size pos,
            ap (λ t. slot_payload_lba first_lba t size * size) next,
          ))
  ]

  outside_header :
      {k : ℕ}
      → InSlot first_lba size slot k
      → (k < (first_lba + other) * size) ⊎ ((first_lba + other) * size + size ≤ k)
  outside_header (in_header i h) =
      apart_blocks (first_lba + slot) (first_lba + other) size i (λ e. ne (omega arith)) h
  outside_header (in_payload i h) = inr (omega (arith, header_before_payload other slot two_of))

  outside_payload :
      {k : ℕ} (n : ℕ)
      → n ≤ 65536
      → InSlot first_lba size slot k
      → (k < slot_payload_lba first_lba other size * size)
        ⊎ (slot_payload_lba first_lba other size * size + n ≤ k)
  outside_payload n le (in_header i h) =
      inl (omega (arith, header_before_payload slot other one_of))
  outside_payload n le (in_payload i h) = shrink (payloads_apart i h)
    where
      shrink : {a b : ℕ} → (a < b) ⊎ (b + 65536 ≤ a) → (a < b) ⊎ (b + n ≤ a)
      shrink (inl p) = inl p
      shrink (inr p) = inr (omega arith)

-- When one byte of one slot is changed, of its header block or of its payload, the header of the other
-- slot is parsed as before, and so are the records of any header of the other slot whose payload is at
-- most 64 KiB.
pub parse_records-other_slot :
    (crc32 : Bytes → ℕ) (before after : Bytes) (first_lba size slot other k : ℕ) (h : JournalHeader)
    → slot < 2
    → other < 2
    → slot ≢ other
    → 0 < size
    → InSlot first_lba size slot k
    → Changed before after k
    → h.slot ≡ other
    → h.payload_length ≤ 65536
    → (parse_header crc32 after first_lba other size
        ≡ parse_header crc32 before first_lba other size)
      × (parse_records crc32 after first_lba h size ≡ parse_records crc32 before first_lba h size)
unfolding parse_header parse_records
parse_records-other_slot crc32 before after first_lba size slot other k h p q ne pos at c of_slot
      le =
    let out = outside_payload first_lba size slot other p q ne pos h.payload_length le at in
    let sized : (size == 0) ≡ false = ground arith in
    rw
      (
        read_unchanged before after ((first_lba + other) * size) size k c
            (outside_header first_lba size slot other p q ne pos at),
        of_slot,
        read_unchanged before after (slot_payload_lba first_lba other size * size) h.payload_length
            k c out,
        sized,
      )
      (refl, refl)
