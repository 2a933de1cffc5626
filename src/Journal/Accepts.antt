-- ===== src/Journal/Accepts.antt =====
-- What a header block that `parse_block` accepts is like.
use zig_os.Base.{
  ℕ, ◌≤◌, ◌≡◌, ◌⊎◌, inl, inr, refl, arith, slice, none, some, Option, true, false, Bool-cases,
  bytes_eq, bytes_eq→eq, ok,
}
use zig_os.Bytes.{Bytes, any}
use zig_os.Journal.Header.{JournalHeader, header_magic, field, header_crc, parse_block}

pub record Accepted (crc32 : Bytes → ℕ) (slot : ℕ) (block : Bytes) (h : JournalHeader)
    : Type 0 where
  pub magic : slice block 0 8 ≡ header_magic
  pub version : (field block 8 12 ≡ 3) × (field block 12 16 ≡ 48)
  pub own_slot : (field block 32 36 ≡ slot) × (h.slot ≡ slot)
  pub committed : field block 44 48 ≡ 0x434F4D54
  pub sealed : field block 40 44 ≡ header_crc crc32 block
  pub bounded : (4 ≤ h.payload_length) × (h.payload_length ≤ 65536)
  pub fields :
      (h.generation ≡ field block 16 24)
      × (h.payload_length ≡ field block 24 28)
      × (h.payload_crc32 ≡ field block 28 32)
      × (h.record_count ≡ field block 36 40)

pub parse_block-Accepted :
    (crc32 : Bytes → ℕ) (slot : ℕ) (block : Bytes) (result : Option JournalHeader)
    → parse_block crc32 slot block ≡ ok result
    → ((any block ≡ false) × (result ≡ none))
      ⊎ ((h : JournalHeader) × (result ≡ some h) × Accepted crc32 slot block h)
unfolding parse_block
parse_block-Accepted crc32 slot block result e = elim (Bool-cases (any block)) [
  | inl full ↦
      let m : bytes_eq (slice block 0 8) header_magic ≡ true = ground arith in
      inr (
        record {
          slot = slot;
          generation = field block 16 24;
          payload_length = field block 24 28;
          payload_crc32 = field block 28 32;
          record_count = field block 36 40;
        },
        ground arith,
        record {
          magic = bytes_eq→eq _ _ m;
          version = (ground arith, ground arith);
          own_slot = (ground arith, refl);
          committed = ground arith;
          sealed = ground arith;
          bounded = (ground arith, ground arith);
          fields = (refl, refl, refl, refl);
        },
      )
  | inr blank ↦ inl (blank, ground arith)
]
