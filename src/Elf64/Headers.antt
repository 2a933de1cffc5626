-- ===== src/Elf64/Headers.antt =====
-- Reading the ELF64 headers that the build scripts pack.
use zig_os.Base.{
  ℕ, ◌+◌, ◌^◌, ◌<◌, ◌≤◌, ◌≡◌, refl, arith, sym, ap, ◌∙◌, [], ◌∷◌, ◌++◌, length, slice, take, drop,
  ok, lt→ltb,
}
use zig_os.Bytes.{Bytes, le_bytes, from_le, pack, pack_fields, unpack_from}
use zig_os.Bytes.Words.{from_le-le_bytes}
use zig_os.Bytes.Image.{unpack_from_known, slice_part, slice_front}
use zig_os.Elf64.{Header, read_segment, read_header}
use zig_os.Elf64.Runtime.{ident, header_fields, code_base, load_fields}

pub load_bytes : ℕ → ℕ → ℕ → ℕ → Bytes
load_bytes flags offset virtual size =
    le_bytes 4 1
    ++ (le_bytes 4 flags
        ++ (le_bytes 8 offset
            ++ (le_bytes 8 virtual
                ++ (le_bytes 8 0
                    ++ (le_bytes 8 size ++ (le_bytes 8 size ++ (le_bytes 8 0x1000 ++ [])))))))

pub length-load_bytes :
    (flags offset virtual size : ℕ) → length (load_bytes flags offset virtual size) ≡ 56
unfolding load_bytes le_bytes
length-load_bytes flags offset virtual size = refl

pub pack_load_fields :
    (flags offset virtual size : ℕ)
    → flags < 2 ^ 32
    → offset < 2 ^ 64
    → virtual < 2 ^ 64
    → size < 2 ^ 64
    → pack_fields (load_fields flags offset virtual size)
      ≡ ok (load_bytes flags offset virtual size)
unfolding pack_fields pack load_bytes
pack_load_fields flags offset virtual size a b c d =
    rw (lt→ltb _ _ a, lt→ltb _ _ b, lt→ltb _ _ c, lt→ltb _ _ d) refl

module _ (image : Bytes) (at flags offset virtual size : ℕ) (inside : at + 56 ≤ length image)
    (e : slice image at (at + 56) ≡ load_bytes flags offset virtual size) where
  load_field :
      (width i value : ℕ)
      → i + width ≤ 56
      → value < 256 ^ width
      → slice (load_bytes flags offset virtual size) i (i + width) ≡ le_bytes width value
      → unpack_from width image (at + i) ≡ ok value
  load_field width i value h v f =
      let next : at + i + width ≡ at + (i + width) = omega arith in
      unpack_from_known width image (at + i) (le_bytes width value) (omega arith) (
        rw next (
          slice_part image (load_bytes flags offset virtual size) at (at + 56) i (i + width)
            (omega arith) (omega arith) e
          ∙ f))
      ∙ ap ok (from_le-le_bytes width value v)

  pub read_segment-load_bytes :
      flags < 2 ^ 32
      → offset < 2 ^ 64
      → virtual < 2 ^ 64
      → size < 2 ^ 64
      → read_segment image at
        ≡ ok (record {
          kind = 1;
          flags = flags;
          offset = offset;
          virtual = virtual;
          physical = 0;
          file_size = size;
          memory_size = size;
          alignment = 0x1000;
        })
  unfolding read_segment load_bytes slice take drop le_bytes
  read_segment-load_bytes a b c d =
      let same : at + 0 ≡ at = omega arith in
      rw
        (
          ap (unpack_from 4 image) (sym same) ∙ load_field 4 0 1 (omega arith) (omega arith) refl,
          load_field 4 4 flags (omega arith) (omega arith) refl,
          load_field 8 8 offset (omega arith) (omega arith) refl,
          load_field 8 16 virtual (omega arith) (omega arith) refl,
          load_field 8 24 0 (omega arith) (omega arith) refl,
          load_field 8 32 size (omega arith) (omega arith) refl,
          load_field 8 40 size (omega arith) (omega arith) refl,
          load_field 8 48 0x1000 (omega arith) (omega arith) refl,
        )
        refl

-- What `header_fields` pack to.
abbrev pub packed_header : Bytes
packed_header =
    2 ∷ 0 ∷ 0x3E ∷ 0 ∷ 1 ∷ 0 ∷ 0 ∷ 0 ∷ 0 ∷ 0 ∷ 0 ∷ 0 ∷ 0x80 ∷ 0 ∷ 0 ∷ 0 ∷ 64 ∷ 0 ∷ 0 ∷ 0 ∷ 0 ∷ 0 ∷ 0
    ∷ 0 ∷ 0 ∷ 0 ∷ 0 ∷ 0 ∷ 0 ∷ 0 ∷ 0 ∷ 0 ∷ 0 ∷ 0 ∷ 0 ∷ 0 ∷ 64 ∷ 0 ∷ 56 ∷ 0 ∷ 2 ∷ 0 ∷ 0 ∷ 0 ∷ 0 ∷ 0
    ∷ 0 ∷ 0 ∷ []

pub pack_header_fields : pack_fields header_fields ≡ ok packed_header
unfolding pack_fields pack le_bytes
pack_header_fields = refl

abbrev pub the_header : Header
the_header = record {
  e_type = 2;
  machine = 0x3E;
  version = 1;
  entry = code_base;
  phoff = 64;
  shoff = 0;
  flags = 0;
  ehsize = 64;
  phentsize = 56;
  phnum = 2;
  section_size = 0;
  section_count = 0;
  section_name_index = 0;
}

module _ (image : Bytes) (inside : 64 ≤ length image)
    (e : slice image 0 64 ≡ ident ++ packed_header) where
  header_field :
      (width i : ℕ) (bytes : Bytes)
      → i + width ≤ 64
      → slice (ident ++ packed_header) i (i + width) ≡ bytes
      → unpack_from width image i ≡ ok (from_le bytes)
  header_field width i bytes h f = unpack_from_known width image i bytes (omega arith) (
      slice_front image (ident ++ packed_header) 64 i (i + width) (omega arith) (omega arith) e ∙ f)

  pub read_header-packed : read_header image ≡ ok the_header
  unfolding read_header slice take drop from_le
  read_header-packed =
      rw
        (
          header_field 2 16 _ (omega arith) refl,
          header_field 2 18 _ (omega arith) refl,
          header_field 4 20 _ (omega arith) refl,
          header_field 8 24 _ (omega arith) refl,
          header_field 8 32 _ (omega arith) refl,
          header_field 8 40 _ (omega arith) refl,
          header_field 4 48 _ (omega arith) refl,
          header_field 2 52 _ (omega arith) refl,
          header_field 2 54 _ (omega arith) refl,
          header_field 2 56 _ (omega arith) refl,
          header_field 2 58 _ (omega arith) refl,
          header_field 2 60 _ (omega arith) refl,
          header_field 2 62 _ (omega arith) refl,
        )
        refl
