-- ===== src/Elf32/Verified.antt =====
-- What `build_elf` writes passes `verify_elf`.
use zig_os.Base.{ℕ, ◌+◌, ◌^◌, ◌≤◌, ◌<◌, ◌≡◌, refl, arith, ok, [], ◌∷◌, ◌++◌, length, ap, sym, ◌∙◌}
use zig_os.Base.{lt→ltb, ascii, replicate}
use zig_os.Bytes.Image.{
  put-append, set_slice_tail, pack_fields_into-put, slice_tail, unpack_from_known,
}
use zig_os.Bytes.{
  unpack_from, pack_fields, Bytes, zeros, put, le_bytes, pack_fields_into, from_le, decode_ascii,
}
use zig_os.Bytes.Region.{length-put}
use mathlib.Core.List.{append_assoc}
use zig_os.Base.{slice, length-append, ltb, bytes_eq, false}
use zig_os.Bytes.Words.{length-zeros, from_le-le_bytes, zeros-add}
use zig_os.Elf32.{header_fields, load_fields, build_elf, verify_load, verify_elf}

-- The image in one piece: header, program header, padding up to 0x100, segment.
abbrev pub elf_header : Bytes
elf_header =
    (0x7F ∷ ascii "ELF")
    ++ (1 ∷ 1 ∷ 1 ∷ 0 ∷ 0 ∷ 0 ∷ 0 ∷ 0 ∷ 0 ∷ 0 ∷ 0 ∷ 0 ∷ 2 ∷ 0 ∷ 3 ∷ 0 ∷ 1 ∷ 0 ∷ 0 ∷ 0 ∷ 0 ∷ 0 ∷ 0x40
        ∷ 0 ∷ 52 ∷ 0 ∷ 0 ∷ 0 ∷ 0 ∷ 0 ∷ 0 ∷ 0 ∷ 0 ∷ 0 ∷ 0 ∷ 0 ∷ 52 ∷ 0 ∷ 32 ∷ 0 ∷ 1 ∷ 0 ∷ 0 ∷ 0 ∷ 0
        ∷ 0 ∷ 0 ∷ 0 ∷ [])

abbrev pub load_header : ℕ → ℕ → Bytes
load_header file_size memory_size =
    (1 ∷ 0 ∷ 0 ∷ 0 ∷ 0 ∷ 1 ∷ 0 ∷ 0 ∷ 0 ∷ 0 ∷ 0x40 ∷ 0 ∷ 0 ∷ 0 ∷ 0x40 ∷ 0 ∷ [])
    ++ (le_bytes 4 file_size ++ (le_bytes 4 memory_size ++ (5 ∷ 0 ∷ 0 ∷ 0 ∷ 0 ∷ 0x10 ∷ 0 ∷ 0 ∷ [])))

pub elf_image : Bytes → ℕ → Bytes
elf_image segment memory_size =
    elf_header ++ (load_header (length segment) memory_size ++ (replicate 172 0 ++ segment))

abbrev identity : Bytes
identity = (0x7F ∷ ascii "ELF") ++ (1 ∷ 1 ∷ 1 ∷ 0 ∷ 0 ∷ 0 ∷ 0 ∷ 0 ∷ 0 ∷ 0 ∷ 0 ∷ 0 ∷ [])

abbrev packed_header : Bytes
packed_header =
    2 ∷ 0 ∷ 3 ∷ 0 ∷ 1 ∷ 0 ∷ 0 ∷ 0 ∷ 0 ∷ 0 ∷ 0x40 ∷ 0 ∷ 52 ∷ 0 ∷ 0 ∷ 0 ∷ 0 ∷ 0 ∷ 0 ∷ 0 ∷ 0 ∷ 0 ∷ 0
    ∷ 0 ∷ 52 ∷ 0 ∷ 32 ∷ 0 ∷ 1 ∷ 0 ∷ 0 ∷ 0 ∷ 0 ∷ 0 ∷ 0 ∷ 0 ∷ []

pack_header : pack_fields header_fields ≡ ok packed_header
unfolding pack_fields
pack_header = refl

pack_load :
    (file_size memory_size : ℕ)
    → file_size < 2 ^ 32
    → memory_size < 2 ^ 32
    → pack_fields (load_fields file_size memory_size) ≡ ok (load_header file_size memory_size)
unfolding pack_fields le_bytes
pack_load file_size memory_size hs hm = rw (lt→ltb _ _ hs, lt→ltb _ _ hm) refl

-- The first 0x100 bytes, written into zeros.
front_written :
    (file_size memory_size : ℕ)
    → put (put (put (zeros 256) 0 identity) 16 packed_header) 52 (load_header file_size memory_size)
      ≡ elf_header ++ (load_header file_size memory_size ++ replicate 172 0)
unfolding put le_bytes zeros replicate
front_written file_size memory_size = refl

length-load : (file_size memory_size : ℕ) → length (load_header file_size memory_size) ≡ 32
unfolding le_bytes
length-load file_size memory_size = refl

build_elf-image :
    (segment : Bytes) (memory_size : ℕ)
    → length segment < 2 ^ 32
    → memory_size < 2 ^ 32
    → build_elf segment memory_size ≡ ok (elf_image segment memory_size)
unfolding build_elf elf_image
build_elf-image segment memory_size hs hm =
    let n = length segment in
    let load = load_header n memory_size in
    let p0 = put (zeros 256) 0 identity in
    let p1 = put p0 16 packed_header in
    let p2 = put p1 52 load in
    let n0 : length p0 ≡ 256 =
      length-put (zeros 256) 0 identity (omega (arith, length-zeros 256)) ∙ length-zeros 256 in
    let n1 : length p1 ≡ 256 = length-put p0 16 packed_header (omega arith) ∙ n0 in
    let nl : length load ≡ 32 = length-load n memory_size in
    let n2 : length p2 ≡ 256 = length-put p1 52 load (omega arith) ∙ n1 in
    let s0 : put (zeros (256 + n)) 0 identity ≡ p0 ++ zeros n =
      ap (λ t. put t 0 identity) (zeros-add 256 n)
      ∙ put-append (zeros 256) (zeros n) 0 identity (omega (arith, length-zeros 256)) in
    let s1 : pack_fields_into header_fields (p0 ++ zeros n) 16 ≡ ok (p1 ++ zeros n) =
      pack_fields_into-put header_fields (p0 ++ zeros n) packed_header 16 pack_header
        (omega (arith, length-append p0 (zeros n)))
      ∙ ap ok (put-append p0 (zeros n) 16 packed_header (omega arith)) in
    let s2 : pack_fields_into (load_fields n memory_size) (p1 ++ zeros n) 52 ≡ ok (p2 ++ zeros n) =
      pack_fields_into-put (load_fields n memory_size) (p1 ++ zeros n) load 52
        (pack_load n memory_size hs hm) (omega (arith, length-append p1 (zeros n)))
      ∙ ap ok (put-append p1 (zeros n) 52 load (omega arith)) in
    rw (s0, s1, s2)
      (ap ok (
        set_slice_tail p2 (zeros n) 256 segment n2
        ∙ ap (λ t. t ++ segment) (front_written n memory_size)
        ∙ append_assoc elf_header (load ++ replicate 172 0) segment
        ∙ ap (λ t. elf_header ++ t) (append_assoc load (replicate 172 0) segment)))

abbrev front : ℕ → ℕ → Bytes
front file_size memory_size = elf_header ++ (load_header file_size memory_size ++ replicate 172 0)

length-front : (file_size memory_size : ℕ) → length (front file_size memory_size) ≡ 256
unfolding le_bytes replicate
length-front file_size memory_size = refl

module _ (segment : Bytes) (memory_size : ℕ) where
  image-front : elf_image segment memory_size ≡ front (length segment) memory_size ++ segment
  unfolding elf_image
  image-front =
      let load = load_header (length segment) memory_size in
      sym (
        append_assoc elf_header (load ++ replicate 172 0) segment
        ∙ ap (λ t. elf_header ++ t) (append_assoc load (replicate 172 0) segment))

  length-image : length (elf_image segment memory_size) ≡ 256 + length segment
  length-image = rw image-front (
      omega (
        arith,
        length-append (front (length segment) memory_size) segment,
        length-front (length segment) memory_size,
      ))

  image-segment :
      slice (elf_image segment memory_size) 256 (length (elf_image segment memory_size)) ≡ segment
  image-segment = rw image-front (
      slice_tail (front (length segment) memory_size) segment 256
        (length-front (length segment) memory_size))

  -- A field of the image, read where its bytes are known.
  field :
      (width at : ℕ) (bytes : Bytes)
      → at + width ≤ 256
      → slice (elf_image segment memory_size) at (at + width) ≡ bytes
      → unpack_from width (elf_image segment memory_size) at ≡ ok (from_le bytes)
  field width at bytes h e =
      unpack_from_known width (elf_image segment memory_size) at bytes (omega (arith, length-image))
        e

  load_reads :
      length segment < 2 ^ 32
      → memory_size < 2 ^ 32
      → (unpack_from 4 (elf_image segment memory_size) 52 ≡ ok 1)
        × (unpack_from 4 (elf_image segment memory_size) 56 ≡ ok 0x100)
        × (unpack_from 4 (elf_image segment memory_size) 60 ≡ ok 0x00400000)
        × (unpack_from 4 (elf_image segment memory_size) 64 ≡ ok 0x00400000)
        × (unpack_from 4 (elf_image segment memory_size) 68 ≡ ok (length segment))
        × (unpack_from 4 (elf_image segment memory_size) 72 ≡ ok memory_size)
        × (unpack_from 4 (elf_image segment memory_size) 76 ≡ ok 5)
        × (unpack_from 4 (elf_image segment memory_size) 80 ≡ ok 0x1000)
  unfolding elf_image slice le_bytes from_le
  load_reads hs hm = (
    field 4 52 (1 ∷ 0 ∷ 0 ∷ 0 ∷ []) (omega arith) refl,
    field 4 56 (0 ∷ 1 ∷ 0 ∷ 0 ∷ []) (omega arith) refl,
    field 4 60 (0 ∷ 0 ∷ 0x40 ∷ 0 ∷ []) (omega arith) refl,
    field 4 64 (0 ∷ 0 ∷ 0x40 ∷ 0 ∷ []) (omega arith) refl,
    field 4 68 (le_bytes 4 (length segment)) (omega arith) refl
        ∙ ap ok (from_le-le_bytes 4 (length segment) hs),
    field 4 72 (le_bytes 4 memory_size) (omega arith) refl
        ∙ ap ok (from_le-le_bytes 4 memory_size hm),
    field 4 76 (5 ∷ 0 ∷ 0 ∷ 0 ∷ []) (omega arith) refl,
    field 4 80 (0 ∷ 0x10 ∷ 0 ∷ 0 ∷ []) (omega arith) refl,
  )

  header_reads :
      (unpack_from 2 (elf_image segment memory_size) 16 ≡ ok 2)
      × (unpack_from 2 (elf_image segment memory_size) 18 ≡ ok 3)
      × (unpack_from 4 (elf_image segment memory_size) 24 ≡ ok 0x00400000)
      × (unpack_from 4 (elf_image segment memory_size) 28 ≡ ok 52)
      × (unpack_from 2 (elf_image segment memory_size) 42 ≡ ok 32)
      × (unpack_from 2 (elf_image segment memory_size) 44 ≡ ok 1)
  unfolding elf_image slice from_le
  header_reads = (
    field 2 16 (2 ∷ 0 ∷ []) (omega arith) refl,
    field 2 18 (3 ∷ 0 ∷ []) (omega arith) refl,
    field 4 24 (0 ∷ 0 ∷ 0x40 ∷ 0 ∷ []) (omega arith) refl,
    field 4 28 (52 ∷ 0 ∷ 0 ∷ 0 ∷ []) (omega arith) refl,
    field 2 42 (32 ∷ 0 ∷ []) (omega arith) refl,
    field 2 44 (1 ∷ 0 ∷ []) (omega arith) refl,
  )

  identity_slices :
      (slice (elf_image segment memory_size) 0 4 ≡ 0x7F ∷ ascii "ELF")
      × (slice (elf_image segment memory_size) 4 7 ≡ 1 ∷ 1 ∷ 1 ∷ [])
  unfolding elf_image slice
  identity_slices = (refl, refl)

  verify_load-image :
      (label : Bytes)
      → length segment ≤ memory_size
      → memory_size ≤ 4096
      → verify_load label (elf_image segment memory_size) ≡ ok tt
  unfolding verify_load
  verify_load-image label fits page =
      let r = load_reads (omega arith) (omega arith) in
      rw (r.0, r.1, r.2, r.3, r.4, r.5, r.6, r.7, length-image) (ground arith)

  verify_elf-image :
      (name : Bytes)
      → decode_ascii name ≡ ok name
      → length segment ≤ memory_size
      → memory_size ≤ 4096
      → verify_elf name (elf_image segment memory_size) ≡ ok tt
  unfolding verify_elf bytes_eq
  verify_elf-image name text fits page =
      let r = header_reads in
      let s = identity_slices in
      let small : ltb (256 + length segment) 84 ≡ false = ground arith in
      rw (text, s.0, s.1, length-image, small, r.0, r.1, r.2, r.3, r.4, r.5)
        (verify_load-image name fits page)

-- An executable of a segment that fits its memory, within a page: `build_elf` returns an image of
-- 0x100 bytes and the segment, and `verify_elf` accepts it under every ASCII name.
pub verify_elf-build_elf :
    (name segment : Bytes) (memory_size : ℕ)
    → decode_ascii name ≡ ok name
    → length segment ≤ memory_size
    → memory_size ≤ 4096
    → (image : Bytes) × (build_elf segment memory_size ≡ ok image)
      × (length image ≡ 0x100 + length segment)
      × (slice image 0x100 (length image) ≡ segment)
      × (verify_elf name image ≡ ok tt)
verify_elf-build_elf name segment memory_size text fits page = (
  elf_image segment memory_size,
  build_elf-image segment memory_size (omega arith) (omega arith),
  length-image segment memory_size,
  image-segment segment memory_size,
  verify_elf-image segment memory_size name text fits page,
)
