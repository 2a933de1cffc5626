-- ===== src/ProcessElf.antt =====
-- The process executables: `build` of scripts/create-x86-64-process-elf.py, and `verify` of
-- scripts/verify-x86-64-process-elf.py with `hashlib.sha256(…).hexdigest().upper()` as a parameter.
pub mod Page
pub mod Identity
use zig_os.Base.{
  ℕ, ◌+◌, ◌||◌, ◌&&◌, ◌==◌, ◌!=◌, not, ltb, Bool, bytes_eq, List, [], ◌∷◌, ◌++◌, length, slice,
  set_slice, ascii,
}
use zig_os.Base.{Result, ok, raise_if, fail_if, value_error, ◌>>=◌, ◌>>◌}
use zig_os.Bytes.{write_fields, Bytes, zeros, put, pack, pack_fields, unpack_from}
use zig_os.Fnv.{fnv1a64}
use zig_os.Legacy.Content.{count}
use zig_os.Elf64.{Header, Segment, read_header, read_segment}

-- `choices=('main','exec')`
pub data Kind : Type 0 where
  main : Kind
  exec : Kind

abbrev pub records : List (ℕ × Bytes)
records =
    (0x500, ascii "WORKER1!")
    ∷ (0x508, ascii "WORKER2!")
    ∷ (0x510, ascii "EXECCHLD")
    ∷ (0x518, ascii "REUSE003")
    ∷ []

abbrev pub magic_of : Kind → ℕ
magic_of main = 0x4D50524F43363431
magic_of exec = 0x4558454336343031

-- The writes to `data`.
unfoldable pub process_page : Bytes → Kind → Result Bytes
process_page code kind = do
  let d0 = write_fields records (zeros 0x800)
  start ← pack_fields ((4, 0) ∷ (4, 1) ∷ [])
  let d1 = set_slice d0 0x200 0x208 start
  magic ← pack 8 (magic_of kind)
  let d2 = set_slice d1 0x7C0 0x7C8 magic
  code_hash ← pack 8 (fnv1a64 code)
  let d3 = set_slice d2 0x7C8 0x7D0 code_hash
  page_hash ← pack 8 (fnv1a64 (slice d3 0 0x7D0))
  ok (set_slice d3 0x7D0 0x7D8 page_hash)

unfoldable pub build_process : Bytes → Kind → Result Bytes
build_process code kind = do
  raise_if (length code == 0 || ltb 0x1000 (length code)) (value_error "{}" (length code ∷ []))
  page ← process_page code kind
  let ident = (0x7F ∷ ascii "ELF") ++ (2 ∷ 1 ∷ 1 ∷ 0 ∷ 0 ∷ 0 ∷ 0 ∷ 0 ∷ 0 ∷ 0 ∷ 0 ∷ 0 ∷ [])
  fields ← pack_fields (
      (2, 2)
      ∷ (2, 0x3E)
      ∷ (4, 1)
      ∷ (8, 0x0000008000000000)
      ∷ (8, 64)
      ∷ (8, 0)
      ∷ (4, 0)
      ∷ (2, 64)
      ∷ (2, 56)
      ∷ (2, 2)
      ∷ (2, 0)
      ∷ (2, 0)
      ∷ (2, 0)
      ∷ [])
  code_header ← pack_fields (
      (4, 1)
      ∷ (4, 5)
      ∷ (8, 0x1000)
      ∷ (8, 0x0000008000000000)
      ∷ (8, 0)
      ∷ (8, length code)
      ∷ (8, length code)
      ∷ (8, 0x1000)
      ∷ [])
  data_header ← pack_fields (
      (4, 1)
      ∷ (4, 6)
      ∷ (8, 0x2000)
      ∷ (8, 0x0000008000002000)
      ∷ (8, 0)
      ∷ (8, length page)
      ∷ (8, 0x2000)
      ∷ (8, 0x1000)
      ∷ [])
  let i0 = zeros (0x2000 + length page)
  let i1 = set_slice i0 0 64 (ident ++ fields)
  let i2 = set_slice i1 64 120 code_header
  let i3 = set_slice i2 120 176 data_header
  let i4 = put i3 0x1000 code
  ok (set_slice i4 0x2000 (length i4) page)

abbrev pub expected_payload : Kind → ℕ
expected_payload main = 1657
expected_payload exec = 175

abbrev pub expected_syscalls : Kind → ℕ
expected_syscalls main = 44
expected_syscalls exec = 7

abbrev pub expected_code_fnv : Kind → ℕ
expected_code_fnv main = 0xD56BC3BAEAFFE340
expected_code_fnv exec = 0x98EA5EC32A047A98

abbrev pub expected_elf_fnv : Kind → ℕ
expected_elf_fnv main = 0xF4E0D9F25BF74D76
expected_elf_fnv exec = 0x13F8A5B090C2F18A

abbrev pub expected_sha : Kind → Bytes
expected_sha main = ascii "A04BEBD46E4C95A9A34A5BD84B2B3A43A2C555FB1601F2A94EBDBA82D3DDDD40"
expected_sha exec = ascii "41D3ED292B1BE84EF3A30969B9CF22D650A22FB8BA92E831C40838B771B97B65"

-- `p[:5]!=(1,flags,offset,virtual,0)`
unfoldable pub other_start : Segment → ℕ → ℕ → ℕ → Bool
other_start s flags offset virtual =
    s.kind != 1 || s.flags != flags || s.offset != offset || s.virtual != virtual || s.physical != 0

unfoldable pub check_records : List (ℕ × Bytes) → Bytes → Result (Unit {0})
check_records [] page = ok tt
check_records ((offset, value) ∷ rest) page = do
  fail_if (not (bytes_eq (slice page offset (offset + 8)) value)) "bad record" []
  check_records rest page

-- What `verify` checks of the hashes inside the data page.
unfoldable pub check_page : Bytes → Bytes → Kind → Result (Unit {0})
check_page code page kind = do
  magic ← unpack_from 8 page 0x7C0
  fail_if (magic != magic_of kind) "bad magic" []
  code_hash ← unpack_from 8 page 0x7C8
  fail_if (code_hash != fnv1a64 code) "bad code hash" []
  page_hash ← unpack_from 8 page 0x7D0
  fail_if (page_hash != fnv1a64 (slice page 0 0x7D0)) "bad data hash" []
  check_records records page

-- (The first message also names the file.)
unfoldable pub verify_process : (Bytes → Bytes) → Bytes → Kind → Result (Unit {0})
verify_process sha256 image kind = do
  fail_if (length image != 10240) "size {}" (length image ∷ [])
  h ← read_header image
  fail_if
      (not (bytes_eq (slice image 0 8) (0x7F ∷ ascii "ELF" ++ (2 ∷ 1 ∷ 1 ∷ 0 ∷ [])))
        || h.e_type != 2
        || h.machine != 0x3E
        || h.version != 1)
      "bad ELF identity" []
  fail_if
      (h.entry != 0x0000008000000000
        || h.phoff != 64
        || h.ehsize != 64
        || h.phentsize != 56
        || h.phnum != 2
        || h.shoff != 0
        || h.flags != 0)
      "bad ELF header" []
  p1 ← read_segment image 64
  p2 ← read_segment image 120
  fail_if (other_start p1 5 0x1000 0x0000008000000000 || other_start p2 6 0x2000 0x0000008000002000)
      "bad program headers" []
  fail_if
      (p1.file_size != expected_payload kind
        || p1.memory_size != p1.file_size
        || p1.alignment != 0x1000)
      "bad RX sizing" []
  fail_if (p2.file_size != 0x800 || p2.memory_size != 0x2000 || p2.alignment != 0x1000)
      "bad RW sizing" []
  let code = slice image 0x1000 (0x1000 + p1.file_size)
  let page = slice image 0x2000 0x2800
  fail_if (count (0xCD ∷ 0x80 ∷ []) code != expected_syscalls kind) "bad syscall count" []
  fail_if (fnv1a64 code != expected_code_fnv kind) "unexpected code identity" []
  fail_if (fnv1a64 image != expected_elf_fnv kind) "unexpected ELF FNV identity" []
  fail_if (not (bytes_eq (sha256 image) (expected_sha kind))) "unexpected ELF SHA-256 identity" []
  check_page code page kind
