-- ===== src/Elf64/Runtime.antt =====
-- `build` of scripts/create-runtime-user-elf.py, and the checks of scripts/verify-runtime-user-elf.py.
use zig_os.Base.{ℕ, ◌+◌, ◌-◌, ltb, ◌==◌, ◌!=◌, ◌&&◌, ◌||◌, not, Bool, bytes_eq}
use zig_os.Base.{List, [], ◌∷◌, ◌++◌, length, slice, set_slice, ascii}
use zig_os.Base.{Result, ok, raise_if, fail_if, value_error, ◌>>=◌, ◌>>◌}
use zig_os.Bytes.{Bytes, any, zeros, put, pack_fields}
use zig_os.Elf64.{Header, read_segment, read_header}

abbrev pub code_base : ℕ
code_base = 0x0000008000000000

abbrev pub data_base : ℕ
data_base = 0x0000008000002000

abbrev pub code_offset : ℕ
code_offset = 0x1000

abbrev pub data_offset : ℕ
data_offset = 0x2000

abbrev pub page_size : ℕ
page_size = 0x1000

abbrev pub ident : Bytes
ident = (0x7F ∷ ascii "ELF") ++ (2 ∷ 1 ∷ 1 ∷ 0 ∷ 0 ∷ 0 ∷ 0 ∷ 0 ∷ 0 ∷ 0 ∷ 0 ∷ 0 ∷ [])

abbrev pub header_fields : List (ℕ × ℕ)
header_fields =
    (2, 2)
    ∷ (2, 0x3E)
    ∷ (4, 1)
    ∷ (8, code_base)
    ∷ (8, 64)
    ∷ (8, 0)
    ∷ (4, 0)
    ∷ (2, 64)
    ∷ (2, 56)
    ∷ (2, 2)
    ∷ (2, 0)
    ∷ (2, 0)
    ∷ (2, 0)
    ∷ []

-- "<IIQQQQQQ" of a PT_LOAD.
abbrev pub load_fields : ℕ → ℕ → ℕ → ℕ → List (ℕ × ℕ)
load_fields flags offset virtual size =
    (4, 1)
    ∷ (4, flags)
    ∷ (8, offset)
    ∷ (8, virtual)
    ∷ (8, 0)
    ∷ (8, size)
    ∷ (8, size)
    ∷ (8, page_size)
    ∷ []

unfoldable pub build : Bytes → Bytes → Result Bytes
build code data_bytes = do
  raise_if (length code == 0 || ltb page_size (length code))
      (value_error "runtime code must be 1..4096 bytes, got {}" (length code ∷ []))
  raise_if (ltb page_size (length data_bytes))
      (value_error "runtime data must be <=4096 bytes, got {}" (length data_bytes ∷ []))
  let padded_data = data_bytes ++ zeros (page_size - length data_bytes)
  fields ← pack_fields header_fields
  let header = ident ++ fields
  code_header ← pack_fields (load_fields 5 code_offset code_base (length code))
  data_header ← pack_fields (load_fields 6 data_offset data_base (length padded_data))
  let image0 = zeros (data_offset + length padded_data)
  let image1 = set_slice image0 0 64 header
  let image2 = set_slice image1 64 120 code_header
  let image3 = set_slice image2 120 176 data_header
  let image4 = put image3 code_offset code
  ok (set_slice image4 data_offset (length image4) padded_data)

unfoldable pub is_header : Header → Bool
is_header h =
    h.e_type == 2
    && h.machine == 0x3E
    && h.version == 1
    && h.entry == code_base
    && h.phoff == 64
    && h.shoff == 0
    && h.flags == 0
    && h.ehsize == 64
    && h.phentsize == 56
    && h.phnum == 2
    && h.section_size == 0
    && h.section_count == 0
    && h.section_name_index == 0

-- The checks of `main`, on the bytes of the file.
unfoldable pub verify : Bytes → Result (Unit {0})
verify image = do
  fail_if (length image != 0x3000) "runtime ELF must be {} bytes, got {}"
      (0x3000 ∷ length image ∷ [])
  fail_if (not (bytes_eq (slice image 0 16) ident)) "invalid ELF64 identity" []
  fields ← read_header image
  fail_if (not (is_header fields)) "invalid ELF64 header fields: {}" []
  code ← read_segment image 64
  data_segment ← read_segment image 120
  fail_if
      (not (
        code.kind == 1
        && code.flags == 5
        && code.offset == code_offset
        && code.virtual == code_base
        && code.physical == 0))
      "invalid executable PT_LOAD: {}" []
  fail_if
      (code.file_size == 0
        || ltb page_size code.file_size
        || code.memory_size != code.file_size
        || code.alignment != page_size)
      "invalid executable sizes: {}" []
  fail_if
      (not (
        data_segment.kind == 1
        && data_segment.flags == 6
        && data_segment.offset == data_offset
        && data_segment.virtual == data_base
        && data_segment.physical == 0
        && data_segment.file_size == page_size
        && data_segment.memory_size == page_size
        && data_segment.alignment == page_size))
      "invalid writable PT_LOAD: {}" []
  fail_if (any (slice image 176 code_offset)) "non-zero header padding" []
