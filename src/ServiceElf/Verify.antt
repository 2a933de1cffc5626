-- ===== src/ServiceElf/Verify.antt =====
-- The checks of `main` of scripts/verify-x86-64-user-elf.py on the bytes of the file, with
-- `hashlib.sha256(…).hexdigest().upper()` as a parameter. (`fail` puts one prefix before each message.)
use zig_os.Base.{
  ℕ, ◌+◌, ◌%◌, ◌||◌, ◌&&◌, ◌==◌, ◌!=◌, not, ltb, Bool, bytes_eq, List, [], ◌∷◌, ◌++◌, length, slice,
  ascii,
}
use zig_os.Base.{String, Result, raise_if, system_exit, ◌>>=◌, ◌>>◌}
use zig_os.Bytes.{Bytes, unpack_from}
use zig_os.Fnv.{fnv1a64}
use zig_os.Legacy.Content.{count}
use zig_os.Elf64.{Header, Segment, read_header, read_segment}
use zig_os.ServiceElf.{message, pipe_payload}

abbrev pub expected_payload_bytes : ℕ
expected_payload_bytes = 2628

abbrev pub expected_code_fnv : ℕ
expected_code_fnv = 0x8B9C77E6A0D03758

abbrev pub expected_elf_sha256 : Bytes
expected_elf_sha256 = ascii "A166FAE8BCFD94663CA1CE0904AE2BF5D2044E831179910C173F9E4BCA1A8E28"

-- `if bad: fail(message)`
abbrev pub reject_if : Bool → String → List ℕ → Result (Unit {0})
reject_if bad text holes = raise_if bad (system_exit text holes)

unfoldable pub is_service_header : Header → Bool
is_service_header h =
    h.e_type == 2
    && h.machine == 0x3E
    && h.version == 1
    && h.entry == 0x0000008000100000
    && h.phoff == 64
    && h.shoff == 0
    && h.flags == 0

unfoldable pub is_service_table : Header → Bool
is_service_table h =
    h.ehsize == 64
    && h.phentsize == 56
    && h.phnum == 2
    && h.section_size == 0
    && h.section_count == 0
    && h.section_name_index == 0

-- `text[:5] != expected[0][:5] or text[5] == 0 or …`
unfoldable pub is_text : Segment → Bool
is_text s =
    s.kind == 1
    && s.flags == 5
    && s.offset == 0x1000
    && s.virtual == 0x0000008000100000
    && s.physical == 0
    && not (s.file_size == 0)
    && not (ltb 0x1000 s.file_size)
    && s.memory_size == s.file_size
    && s.alignment == 0x1000

-- `phdrs[1] != expected[1]`
unfoldable pub is_service_data : Segment → Bool
is_service_data s =
    s.kind == 1
    && s.flags == 6
    && s.offset == 0x2000
    && s.virtual == 0x0000008000102000
    && s.physical == 0
    && s.file_size == 0x800
    && s.memory_size == 0x2000
    && s.alignment == 0x1000

unfoldable pub check_service_page : Bytes → Bytes → Result (Unit {0})
check_service_page code page = do
  reject_if (not (bytes_eq (slice page 0x400 (0x400 + length message)) message))
      "message bytes mismatch" []
  reject_if (not (bytes_eq (slice page 0x440 (0x440 + length pipe_payload)) pipe_payload))
      "pipe payload bytes mismatch" []
  marker ← unpack_from 8 page 0x7C0
  reject_if (marker != 0x4543495652455336) "data identity marker mismatch" []
  code_hash ← unpack_from 8 page 0x7C8
  reject_if (code_hash != fnv1a64 code) "embedded code FNV mismatch" []
  page_hash ← unpack_from 8 page 0x7D0
  reject_if (page_hash != fnv1a64 (slice page 0 0x7D0)) "embedded data FNV mismatch" []

unfoldable pub verify_service : (Bytes → Bytes) → Bytes → Result (Unit {0})
verify_service sha256 image = do
  reject_if (length image != 0x2800) "image size {} is not 0x2800" (length image ∷ [])
  h ← read_header image
  reject_if (not (bytes_eq (slice image 0 8) (0x7F ∷ ascii "ELF" ++ (2 ∷ 1 ∷ 1 ∷ 0 ∷ []))))
      "ELF identification is not ELF64 little-endian System V" []
  reject_if (not (is_service_header h)) "ELF executable header contract mismatch" []
  reject_if (not (is_service_table h)) "ELF table sizes/counts mismatch" []
  text ← read_segment image 64
  data_segment ← read_segment image 120
  reject_if (not (is_text text)) "RX PT_LOAD contract mismatch" []
  reject_if (not (is_service_data data_segment)) "RW PT_LOAD contract mismatch" []
  reject_if
      (text.offset % text.alignment != text.virtual % text.alignment
        || data_segment.offset % 0x1000 != data_segment.virtual % 0x1000)
      "PT_LOAD offset/virtual alignment mismatch" []
  let code = slice image 0x1000 (0x1000 + text.file_size)
  let page = slice image 0x2000 0x2800
  reject_if (length code != expected_payload_bytes) "payload size {} is not {}"
      (length code ∷ expected_payload_bytes ∷ [])
  reject_if (fnv1a64 code != expected_code_fnv) "payload FNV {} is not {}"
      (fnv1a64 code ∷ expected_code_fnv ∷ [])
  reject_if (not (bytes_eq (sha256 image) expected_elf_sha256)) "ELF SHA-256 {} is not {}"
      (sha256 image ++ expected_elf_sha256)
  check_service_page code page
  let syscall_count = count (0xCD ∷ 0x80 ∷ []) code
  reject_if (syscall_count != 51) "expected 51 int 0x80 instructions, found {}" (syscall_count ∷ [])
  reject_if (count (0x0F ∷ 0x0B ∷ []) code != 4) "expected exactly four terminal/fault UD2 guards"
      []
