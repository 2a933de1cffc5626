-- ===== src/Journal/Detected.antt =====
-- One changed byte of a header block or of a payload does not pass its checksum.
use zig_os.Base.{
  ℕ, zero, suc, ◌+◌, ◌-◌, ◌^◌, ◌≤◌, ◌<◌, ◌≡◌, ◌≢◌, ◌⊎◌, inl, inr, refl, arith, ap, ap₂, sym, ◌∙◌,
  [], ◌∷◌, ◌++◌,
}
use zig_os.Base.{
  length, get_or, slice, some, none, Option, false, ok, raise, Exception, Result-cases, bit_and,
}
use native.Mathlib.Decide.{dec_lt, ℕ_discrete}
use zig_os.Base.Bits.{bit_and_mask}
use mathlib.Core.Path.{subst}
use zig_os.Bytes.{Bytes, any, zeros, put, from_le, le_bytes}
use zig_os.Bytes.Words.{
  IsBytes, IsBytes-slice, length-zeros, IsBytes-put, IsBytes-zeros, le_bytes-from_le,
}
use zig_os.Bytes.Region.{length-put}
use zig_os.Bytes.Pointwise.{get_or-slice}
use zig_os.Journal.Header.{JournalHeader, header_magic, field, header_crc, parse_block}
use zig_os.Journal.Accepts.{Accepted, parse_block-Accepted}
use zig_os.Bytes.Changed.{
  Changed, around_change, byte_lt, slice_unchanged, slice-Changed, put_hides, put-Changed,
}

-- What the journal relies on of `binascii.crc32`: it is a 32-bit number, and differs where one byte
-- differs.
pub record IsChecksum (crc32 : Bytes → ℕ) : Type 0 where
  pub width : (bytes : Bytes) → IsBytes bytes → crc32 bytes < 2 ^ 32
  pub detects :
      (front back : Bytes) (b c : ℕ)
      → IsBytes (front ++ b ∷ back)
      → c < 256
      → b ≢ c
      → crc32 (front ++ b ∷ back) ≢ crc32 (front ++ c ∷ back)

-- The checksums that the parsers compare, masked to 32 bits, differ too.
pub masked-ne_of_Changed :
    (crc32 : Bytes → ℕ) (before after : Bytes) (i : ℕ)
    → IsChecksum crc32
    → IsBytes before
    → IsBytes after
    → Changed before after i
    → bit_and (crc32 before) 0xFFFFFFFF ≢ bit_and (crc32 after) 0xFFFFFFFF
masked-ne_of_Changed crc32 before after i is p q c e =
    let (front, back, u, v) = around_change before after i c in
    let whole : crc32 before ≡ crc32 after = omega (
      arith,
      bit_and_mask 32 (crc32 before),
      bit_and_mask 32 (crc32 after),
      is.width before p,
      is.width after q,
    ) in
    is.detects front back (get_or before i 0) (get_or after i 0) (subst IsBytes u p)
      (byte_lt after i q) c.changed (ap crc32 (sym u) ∙ whole ∙ ap crc32 v)

-- The field that holds one of the bytes changes its value.
field-Changed :
    (before after : Bytes) (i a b : ℕ)
    → IsBytes before
    → IsBytes after
    → Changed before after i
    → b ≤ length before
    → a ≤ i
    → i < b
    → field before a b ≢ field after a b
unfolding field
field-Changed before after i a b p q c h lo hi e =
    let s = slice-Changed before after i c a b h lo hi in
    let x = le_bytes-from_le (slice before a b) (IsBytes-slice before a b p) in
    let y = le_bytes-from_le (slice after a b) (IsBytes-slice after a b q) in
    let same : slice before a b ≡ slice after a b = sym x ∙ ap₂ le_bytes (sym s.size) e ∙ y in
    s.changed (ap (λ t. get_or t (i - a) 0) same)

-- The bytes under the checksum of a header: one changed byte changes one of them, unless it lies in the
-- checksum's own field.
sealed-Changed :
    (crc32 : Bytes → ℕ) (before after : Bytes) (i : ℕ)
    → IsChecksum crc32
    → IsBytes before
    → IsBytes after
    → 48 ≤ length before
    → i < 48
    → Changed before after i
    → (i < 40) ⊎ (44 ≤ i)
    → header_crc crc32 before ≢ header_crc crc32 after
unfolding header_crc
sealed-Changed crc32 before after i is p q size h c out =
    let z = length-zeros 4 in
    let fits : 40 + length (zeros 4) ≤ length before = omega arith in
    let put_c = put-Changed before after i 40 (zeros 4) c fits (outside out) in
    let view =
      slice-Changed (put before 40 (zeros 4)) (put after 40 (zeros 4)) i put_c 0 48
        (omega (arith, length-put before 40 (zeros 4) fits)) (omega arith) h in
    masked-ne_of_Changed crc32 _ _ _ is
      (IsBytes-slice _ 0 48 (IsBytes-put before 40 (zeros 4) p (IsBytes-zeros 4)))
      (IsBytes-slice _ 0 48 (IsBytes-put after 40 (zeros 4) q (IsBytes-zeros 4))) view
  where
    outside : (i < 40) ⊎ (44 ≤ i) → (i < 40) ⊎ (40 + length (zeros 4) ≤ i)
    outside (inl a) = inl a
    outside (inr a) = inr (omega (arith, length-zeros 4))

seal_hidden :
    (crc32 : Bytes → ℕ) (before after : Bytes) (i : ℕ)
    → 48 ≤ length before
    → Changed before after i
    → 40 ≤ i
    → i < 44
    → header_crc crc32 before ≡ header_crc crc32 after
unfolding header_crc
seal_hidden crc32 before after i size c lo hi =
    let z = length-zeros 4 in
    ap (λ t. bit_and (crc32 (slice t 0 48)) 0xFFFFFFFF)
      (sym (put_hides before after i 40 (zeros 4) c (omega arith) lo (omega arith)))

field_unchanged :
    (before after : Bytes) (i a b : ℕ)
    → Changed before after i
    → b ≤ length before
    → (i < a) ⊎ (b ≤ i)
    → field after a b ≡ field before a b
unfolding field
field_unchanged before after i a b c h out = ap from_le (slice_unchanged before after i c a b h out)

-- Both blocks cannot be accepted.
not_both :
    (crc32 : Bytes → ℕ) (slot : ℕ) (before after : Bytes) (i : ℕ) (h h' : JournalHeader)
    → IsChecksum crc32
    → IsBytes before
    → IsBytes after
    → 48 ≤ length before
    → i < 48
    → Changed before after i
    → Accepted crc32 slot before h
    → Accepted crc32 slot after h'
    → ⊥
not_both crc32 slot before after i h h' is p q size small c a b = elim (dec_lt i 40) [
  | yes lo ↦ outside (inl lo)
  | no nlo ↦ elim (dec_lt i 44) [
    | yes hi ↦
        field-Changed before after i 40 44 p q c (omega arith) (omega arith) hi
          (a.sealed ∙ seal_hidden crc32 before after i size c (omega arith) hi ∙ sym b.sealed)
    | no nhi ↦ outside (inr (omega arith))
  ]
]
  where
    outside : (i < 40) ⊎ (44 ≤ i) → ⊥
    outside out =
        sealed-Changed crc32 before after i is p q size small c out
          (sym a.sealed ∙ sym (field_unchanged before after i 40 44 c (omega arith) out) ∙ b.sealed)

any-false : (bytes : Bytes) (j : ℕ) → any bytes ≡ false → get_or bytes j 0 ≡ 0
unfolding any
any-false [] j h = refl
any-false (b ∷ bytes) zero h = ground arith
any-false (b ∷ bytes) (suc j) h = any-false bytes j (ground arith)

-- A block that begins with the magic number is not blank after one change.
not_blank :
    (before after : Bytes) (i : ℕ)
    → slice before 0 8 ≡ header_magic
    → Changed before after i
    → any after ≢ false
not_blank before after i magic c blank = elim (ℕ_discrete i 0) [
  | yes e ↦ other 1 0x49 (omega arith) (λ f. absurd (omega arith)) (ap (λ t. get_or t 1 0) magic)
  | no ne ↦ other 0 0x5A (omega arith) (λ f. ne (sym f)) (ap (λ t. get_or t 0 0) magic)
]
  where
    other : (j v : ℕ) → (j < 8) × (0 < v) → j ≢ i → get_or (slice before 0 8) j 0 ≡ v → ⊥
    other j v (h, pos) ne e =
        let at : 0 + j ≡ j = omega arith in
        let known : get_or before j 0 ≡ v =
          ap (λ t. get_or before t 0) (sym at)
          ∙ sym (get_or-slice before 0 8 j (omega arith))
          ∙ e in
        absurd (omega (arith, known, c.same j ne, any-false after j blank))

-- For a checksum that tells single bytes apart: when `parse_block` accepts the header in a block, and
-- one of the block's first 48 bytes is changed to another byte, it raises an exception.
pub parse_block-IsChecksum :
    (crc32 : Bytes → ℕ) (slot : ℕ) (before after : Bytes) (i : ℕ) (h : JournalHeader)
    → IsChecksum crc32
    → IsBytes before
    → IsBytes after
    → 48 ≤ length before
    → i < 48
    → Changed before after i
    → parse_block crc32 slot before ≡ ok (some h)
    → (e : Exception) × (parse_block crc32 slot after ≡ raise e)
parse_block-IsChecksum crc32 slot before after i h is p q size small c accepted =
    elim (Result-cases (parse_block crc32 slot after)) [
      | inl failed ↦ failed
      | inr (result, returned) ↦ absurd (
          impossible (parse_block-Accepted crc32 slot before (some h) accepted)
            (parse_block-Accepted crc32 slot after result returned))
    ]
  where
    impossible :
        {result : Option JournalHeader}
        → ((any before ≡ false) × (some h ≡ none))
          ⊎ ((g : JournalHeader) × (some h ≡ some g) × Accepted crc32 slot before g)
        → ((any after ≡ false) × (result ≡ none))
          ⊎ ((g : JournalHeader) × (result ≡ some g) × Accepted crc32 slot after g)
        → ⊥
    impossible (inl (blank, none_is)) y = cc
    impossible (inr (g, same, a)) (inl (blank, none_is)) = not_blank before after i a.magic c blank
    impossible (inr (g, same, a)) (inr (g', same', b)) =
        not_both crc32 slot before after i g g' is p q size small c a b
