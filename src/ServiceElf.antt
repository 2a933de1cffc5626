-- ===== src/ServiceElf.antt =====
-- The user service image: `build_elf` of scripts/create-x86-64-user-elf.py.
pub mod Page
pub mod Verify
pub mod Identity
use zig_os.Base.{
  ℕ, ◌+◌, ◌||◌, ◌==◌, ◌!=◌, ltb, List, [], ◌∷◌, ◌++◌, length, slice, set_slice, ascii,
}
use zig_os.Base.{Result, ok, raise_if, value_error, assertion_error, ◌>>=◌, ◌>>◌}
use zig_os.Bytes.{Bytes, zeros, put, pack, pack_fields}
use zig_os.Fnv.{fnv1a64}

abbrev pub message : Bytes
message = ascii "ZigOs x86-64 ELF64 service active."

abbrev pub pipe_payload : Bytes
pipe_payload = ascii "PIPE64-PAYLOAD-VERIFIED!"

-- The writes to `data`.
unfoldable pub service_page : Bytes → Result Bytes
service_page code = do
  let d0 = zeros 0x800
  let d1 = put d0 0x400 message
  let d2 = put d1 0x440 pipe_payload
  magic ← pack 8 0x4543495652455336
  let d3 = set_slice d2 0x7C0 0x7C8 magic
  code_hash ← pack 8 (fnv1a64 code)
  let d4 = set_slice d3 0x7C8 0x7D0 code_hash
  page_hash ← pack 8 (fnv1a64 (slice d4 0 0x7D0))
  ok (set_slice d4 0x7D0 0x7D8 page_hash)

unfoldable pub build_service_image : Bytes → Result Bytes
build_service_image code = do
  raise_if (length code == 0 || ltb 0x1000 (length code))
      (value_error "service payload must fit one page, got {} bytes" (length code ∷ []))
  raise_if (length message != 34) assertion_error
  raise_if (length pipe_payload != 24) assertion_error
  page ← service_page code
  let ident = (0x7F ∷ ascii "ELF") ++ (2 ∷ 1 ∷ 1 ∷ 0 ∷ 0 ∷ 0 ∷ 0 ∷ 0 ∷ 0 ∷ 0 ∷ 0 ∷ 0 ∷ [])
  fields ← pack_fields (
      (2, 2)
      ∷ (2, 0x3E)
      ∷ (4, 1)
      ∷ (8, 0x0000008000100000)
      ∷ (8, 64)
      ∷ (8, 0)
      ∷ (4, 0)
      ∷ (2, 64)
      ∷ (2, 56)
      ∷ (2, 2)
      ∷ (2, 0)
      ∷ (2, 0)
      ∷ (2, 0)
      ∷ [])
  text_phdr ← pack_fields (
      (4, 1)
      ∷ (4, 5)
      ∷ (8, 0x1000)
      ∷ (8, 0x0000008000100000)
      ∷ (8, 0)
      ∷ (8, length code)
      ∷ (8, length code)
      ∷ (8, 0x1000)
      ∷ [])
  data_phdr ← pack_fields (
      (4, 1)
      ∷ (4, 6)
      ∷ (8, 0x2000)
      ∷ (8, 0x0000008000102000)
      ∷ (8, 0)
      ∷ (8, length page)
      ∷ (8, 0x2000)
      ∷ (8, 0x1000)
      ∷ [])
  let i0 = zeros (0x2000 + length page)
  let i1 = set_slice i0 0 64 (ident ++ fields)
  let i2 = set_slice i1 64 120 text_phdr
  let i3 = set_slice i2 120 176 data_phdr
  let i4 = put i3 0x1000 code
  ok (put i4 0x2000 page)
