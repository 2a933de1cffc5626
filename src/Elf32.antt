-- ===== src/Elf32.antt =====
-- The 32-bit executables of the legacy volume: `build_elf` of scripts/create-legacy-fat12.py and
-- `verify_elf` of scripts/verify-legacy-bios.py.
pub mod Verified
use zig_os.Base.{
  ℕ, ◌+◌, ltb, ◌!=◌, ◌||◌, not, bytes_eq, List, [], ◌∷◌, ◌++◌, length, slice, set_slice,
}
use zig_os.Base.{ascii, Result, ok, fail_if, ◌>>=◌, ◌>>◌, if◌then◌else◌}
use zig_os.Bytes.{Bytes, zeros, put, pack_fields_into, unpack_from, decode_ascii}

abbrev pub base : ℕ
base = 0x00400000

-- "<HHIIIIIHHHHHH" at 16
abbrev pub header_fields : List (ℕ × ℕ)
header_fields =
    (2, 2)
    ∷ (2, 3)
    ∷ (4, 1)
    ∷ (4, base)
    ∷ (4, 52)
    ∷ (4, 0)
    ∷ (4, 0)
    ∷ (2, 52)
    ∷ (2, 32)
    ∷ (2, 1)
    ∷ (2, 0)
    ∷ (2, 0)
    ∷ (2, 0)
    ∷ []

-- "<IIIIIIII" at 52
abbrev pub load_fields : ℕ → ℕ → List (ℕ × ℕ)
load_fields file_size memory_size =
    (4, 1)
    ∷ (4, 0x100)
    ∷ (4, base)
    ∷ (4, base)
    ∷ (4, file_size)
    ∷ (4, memory_size)
    ∷ (4, 5)
    ∷ (4, 0x1000)
    ∷ []

unfoldable pub build_elf : Bytes → ℕ → Result Bytes
build_elf segment memory_size = do
  let blank = zeros (0x100 + length segment)
  let e0 =
      put blank 0 ((0x7F ∷ ascii "ELF") ++ (1 ∷ 1 ∷ 1 ∷ 0 ∷ 0 ∷ 0 ∷ 0 ∷ 0 ∷ 0 ∷ 0 ∷ 0 ∷ 0 ∷ []))
  e1 ← pack_fields_into header_fields e0 16
  e2 ← pack_fields_into (load_fields (length segment) memory_size) e1 52
  ok (set_slice e2 0x100 (length e2) segment)

-- The program header that `verify_elf` unpacks; two of its fields are not looked at.
unfoldable pub verify_load : Bytes → Bytes → Result (Unit {0})
verify_load label image = do
  p_type ← unpack_from 4 image 52
  p_offset ← unpack_from 4 image 56
  p_vaddr ← unpack_from 4 image 60
  _ ← unpack_from 4 image 64
  p_filesz ← unpack_from 4 image 68
  p_memsz ← unpack_from 4 image 72
  p_flags ← unpack_from 4 image 76
  _ ← unpack_from 4 image 80
  fail_if (p_type != 1 || p_offset != 0x100 || p_vaddr != 0x00400000) "{} PT_LOAD identity invalid"
      label
  fail_if
      (p_offset + p_filesz != length image
        || ltb p_memsz p_filesz
        || ltb 4096 p_memsz
        || p_flags != 5)
      "{} PT_LOAD bounds/flags invalid" label

unfoldable pub verify_elf : Bytes → Bytes → Result (Unit {0})
verify_elf name image = do
  label ← decode_ascii name
  fail_if (ltb (length image) 84 || not (bytes_eq (slice image 0 4) (0x7F ∷ ascii "ELF")))
      "{} ELF identity invalid" label
  fail_if (not (bytes_eq (slice image 4 7) (1 ∷ 1 ∷ 1 ∷ []))) "{} ELF class/data/version invalid"
      label
  kind ← unpack_from 2 image 16
  machine ← unpack_from 2 image 18
  fail_if (kind != 2 || machine != 3) "{} ELF type/machine invalid" label
  entry ← unpack_from 4 image 24
  fail_if (entry != 0x00400000) "{} entry invalid" label
  phoff ← unpack_from 4 image 28
  fail_if (phoff != 52) "{} program-header offset invalid" label
  phentsize ← unpack_from 2 image 42
  phnum ← unpack_from 2 image 44
  fail_if (phentsize != 32 || phnum != 1) "{} program-header geometry invalid" label
  verify_load label image
