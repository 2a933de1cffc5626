-- ===== src/Elf64/TwoSegments.antt =====
-- The headers and the layout that the service and the process executables share: 0x2800 bytes with the
-- code at 0x1000 and 0x800 bytes of data at 0x2000, the data segment being 0x2000 bytes in memory.
use zig_os.Base.{
  ℕ, ◌+◌, ◌^◌, ◌<◌, ◌≤◌, ◌≡◌, refl, arith, sym, ap, ◌∙◌, List, [], ◌∷◌, ◌++◌, length, slice, take,
  drop, ok, lt→ltb,
}
use zig_os.Bytes.{Bytes, le_bytes, pack, pack_fields, unpack_from}
use zig_os.Bytes.Words.{from_le-le_bytes}
use zig_os.Bytes.Image.{unpack_from_known, slice_part}
use zig_os.Elf64.{Header, read_segment, read_header}
use zig_os.Elf64.Runtime.{ident}

-- "<HHIQQQIHHHHHH" of an executable with two program headers.
abbrev pub entry_fields : ℕ → List (ℕ × ℕ)
entry_fields entry =
    (2, 2)
    ∷ (2, 0x3E)
    ∷ (4, 1)
    ∷ (8, entry)
    ∷ (8, 64)
    ∷ (8, 0)
    ∷ (4, 0)
    ∷ (2, 64)
    ∷ (2, 56)
    ∷ (2, 2)
    ∷ (2, 0)
    ∷ (2, 0)
    ∷ (2, 0)
    ∷ []

-- "<IIQQQQQQ" of a PT_LOAD.
abbrev pub segment_fields : ℕ → ℕ → ℕ → ℕ → ℕ → List (ℕ × ℕ)
segment_fields flags offset virtual file_size memory_size =
    (4, 1)
    ∷ (4, flags)
    ∷ (8, offset)
    ∷ (8, virtual)
    ∷ (8, 0)
    ∷ (8, file_size)
    ∷ (8, memory_size)
    ∷ (8, 0x1000)
    ∷ []

-- The fields, one after the other.
unfoldable pub fields_bytes : List (ℕ × ℕ) → Bytes
fields_bytes [] = []
fields_bytes ((width, value) ∷ fields) = le_bytes width value ++ fields_bytes fields

abbrev pub FitAll : List (ℕ × ℕ) → Type 0
FitAll [] = Unit {0}
FitAll ((width, value) ∷ fields) = (value < 256 ^ width) × FitAll fields

pub pack_fields-FitAll :
    (fields : List (ℕ × ℕ)) → FitAll fields → pack_fields fields ≡ ok (fields_bytes fields)
unfolding pack_fields pack fields_bytes
pack_fields-FitAll [] h = refl
pack_fields-FitAll ((width, value) ∷ fields) (h, hs) =
    rw (lt→ltb _ _ h, pack_fields-FitAll fields hs) refl

pub pack_entry_fields :
    (entry : ℕ)
    → entry < 2 ^ 64
    → pack_fields (entry_fields entry) ≡ ok (fields_bytes (entry_fields entry))
pack_entry_fields entry h = pack_fields-FitAll (entry_fields entry) (
  omega arith,
  (
    omega arith,
    (
      omega arith,
      (
        omega arith,
        (
          omega arith,
          (
            omega arith,
            (
              omega arith,
              (
                omega arith,
                (omega arith, (omega arith, (omega arith, (omega arith, (omega arith, tt))))),
              ),
            ),
          ),
        ),
      ),
    ),
  ),
)

pub pack_segment_fields :
    (flags offset virtual file_size memory_size : ℕ)
    → (flags < 2 ^ 32)
      × (offset < 2 ^ 64)
      × (virtual < 2 ^ 64)
      × (file_size < 2 ^ 64)
      × (memory_size < 2 ^ 64)
    → pack_fields (segment_fields flags offset virtual file_size memory_size)
      ≡ ok (fields_bytes (segment_fields flags offset virtual file_size memory_size))
pack_segment_fields flags offset virtual file_size memory_size (a, b, c, d, e) =
    pack_fields-FitAll (segment_fields flags offset virtual file_size memory_size) (
      omega arith,
      (
        omega arith,
        (
          omega arith,
          (omega arith, (omega arith, (omega arith, (omega arith, (omega arith, tt))))),
        ),
      ),
    )

pub length-entry_fields : (entry : ℕ) → length (fields_bytes (entry_fields entry)) ≡ 48
unfolding fields_bytes le_bytes
length-entry_fields entry = refl

pub length-segment_fields :
    (flags offset virtual file_size memory_size : ℕ)
    → length (fields_bytes (segment_fields flags offset virtual file_size memory_size)) ≡ 56
unfolding fields_bytes le_bytes
length-segment_fields flags offset virtual file_size memory_size = refl

-- Fields that stand in an image.
module _ (image bytes : Bytes) (at size : ℕ) (inside : at + size ≤ length image)
    (here : slice image at (at + size) ≡ bytes) where
  field_at :
      (width i value : ℕ)
      → i + width ≤ size
      → value < 256 ^ width
      → slice bytes i (i + width) ≡ le_bytes width value
      → unpack_from width image (at + i) ≡ ok value
  field_at width i value h fits e =
      let next : at + i + width ≡ at + (i + width) = omega arith in
      unpack_from_known width image (at + i) (le_bytes width value) (omega arith) (
        rw next (
          slice_part image bytes at (at + size) i (i + width) (omega arith) (omega arith) here ∙ e))
      ∙ ap ok (from_le-le_bytes width value fits)

pub read_segment-segment_fields :
    (image : Bytes) (at flags offset virtual file_size memory_size : ℕ)
    → at + 56 ≤ length image
    → slice image at (at + 56)
      ≡ fields_bytes (segment_fields flags offset virtual file_size memory_size)
    → (flags < 2 ^ 32)
      × (offset < 2 ^ 64)
      × (virtual < 2 ^ 64)
      × (file_size < 2 ^ 64)
      × (memory_size < 2 ^ 64)
    → read_segment image at
      ≡ ok (record {
        kind = 1;
        flags = flags;
        offset = offset;
        virtual = virtual;
        physical = 0;
        file_size = file_size;
        memory_size = memory_size;
        alignment = 0x1000;
      })
unfolding read_segment fields_bytes slice take drop le_bytes
read_segment-segment_fields image at flags offset virtual file_size memory_size inside here
      (a, b, c, d, e) =
    let read =
      field_at image (fields_bytes (segment_fields flags offset virtual file_size memory_size)) at
        56 inside here in
    let same : at + 0 ≡ at = omega arith in
    rw
      (
        ap (unpack_from 4 image) (sym same) ∙ read 4 0 1 (omega arith) (omega arith) refl,
        read 4 4 flags (omega arith) (omega arith) refl,
        read 8 8 offset (omega arith) (omega arith) refl,
        read 8 16 virtual (omega arith) (omega arith) refl,
        read 8 24 0 (omega arith) (omega arith) refl,
        read 8 32 file_size (omega arith) (omega arith) refl,
        read 8 40 memory_size (omega arith) (omega arith) refl,
        read 8 48 0x1000 (omega arith) (omega arith) refl,
      )
      refl

-- The fields of the header of such an executable.
abbrev pub entry_header : ℕ → Header
entry_header entry = record {
  e_type = 2;
  machine = 0x3E;
  version = 1;
  entry = entry;
  phoff = 64;
  shoff = 0;
  flags = 0;
  ehsize = 64;
  phentsize = 56;
  phnum = 2;
  section_size = 0;
  section_count = 0;
  section_name_index = 0;
}

pub read_header-entry_fields :
    (image : Bytes) (entry : ℕ)
    → 64 ≤ length image
    → slice image 0 64 ≡ ident ++ fields_bytes (entry_fields entry)
    → entry < 2 ^ 64
    → read_header image ≡ ok (entry_header entry)
unfolding read_header fields_bytes slice take drop le_bytes
read_header-entry_fields image entry inside here fits =
    let read : (width i value : ℕ)
        → i + width ≤ 64
        → value < 256 ^ width
        → slice (ident ++ fields_bytes (entry_fields entry)) i (i + width) ≡ le_bytes width value
        → unpack_from width image i ≡ ok value =
      λ width i value h f e.
        let same : 0 + i ≡ i = omega arith in
        ap (unpack_from width image) (sym same)
        ∙ field_at image (ident ++ fields_bytes (entry_fields entry)) 0 64 (omega arith) here width
            i value h f e in
    rw
      (
        read 2 16 2 (omega arith) (omega arith) refl,
        read 2 18 0x3E (omega arith) (omega arith) refl,
        read 4 20 1 (omega arith) (omega arith) refl,
        read 8 24 entry (omega arith) (omega arith) refl,
        read 8 32 64 (omega arith) (omega arith) refl,
        read 8 40 0 (omega arith) (omega arith) refl,
        read 4 48 0 (omega arith) (omega arith) refl,
        read 2 52 64 (omega arith) (omega arith) refl,
        read 2 54 56 (omega arith) (omega arith) refl,
        read 2 56 2 (omega arith) (omega arith) refl,
        read 2 58 0 (omega arith) (omega arith) refl,
        read 2 60 0 (omega arith) (omega arith) refl,
        read 2 62 0 (omega arith) (omega arith) refl,
      )
      refl
