-- ===== src/Efi.antt =====
-- The checks of `main` of scripts/verify-efi.py on the bytes of the file.
pub mod Outcomes
mod Examples
use zig_os.Base.{ℕ, ◌+◌, ◌++◌, ltb, ◌==◌, ◌!=◌, ◌||◌, not, bytes_eq, [], ◌∷◌, length, slice, ascii}
use zig_os.Base.{Result, ok, fail_if, ◌>>=◌, ◌>>◌}
use zig_os.Bytes.{Bytes, unpack_from}

-- What is read of the optional header, at `optional`.
pub record OptionalHeader : Type 0 where
  pub magic : ℕ
  pub entry_rva : ℕ
  pub image_size : ℕ
  pub subsystem : ℕ

unfoldable pub read_optional : Bytes → ℕ → Result OptionalHeader
read_optional image optional = do
  magic ← unpack_from 2 image optional
  entry_rva ← unpack_from 4 image (optional + 16)
  image_size ← unpack_from 4 image (optional + 56)
  subsystem ← unpack_from 2 image (optional + 68)
  ok (record {
    magic = magic;
    entry_rva = entry_rva;
    image_size = image_size;
    subsystem = subsystem;
  })

unfoldable pub check_efi : ℕ → ℕ → OptionalHeader → Result (Unit {0})
check_efi machine section_count h = do
  fail_if (machine != 0x8664) "wrong machine type: {}" (machine ∷ [])
  fail_if (h.magic != 0x020B) "not PE32+: {}" (h.magic ∷ [])
  fail_if (h.subsystem != 10) "wrong subsystem: {}; expected EFI application (10)"
      (h.subsystem ∷ [])
  fail_if (section_count == 0 || h.entry_rva == 0 || h.image_size == 0)
      "PE image has empty sections, entry point, or image size" []

unfoldable pub verify_efi : Bytes → Result (Unit {0})
verify_efi image = do
  fail_if (ltb (length image) 256) "EFI image is unexpectedly small" []
  fail_if (not (bytes_eq (slice image 0 2) (ascii "MZ"))) "missing DOS MZ header" []
  pe_offset ← unpack_from 4 image 0x3C
  fail_if (ltb (length image) (pe_offset + 24)) "invalid PE header offset" []
  fail_if (not (bytes_eq (slice image pe_offset (pe_offset + 4)) (ascii "PE" ++ 0 ∷ 0 ∷ [])))
      "missing PE signature" []
  machine ← unpack_from 2 image (pe_offset + 4)
  section_count ← unpack_from 2 image (pe_offset + 6)
  optional_size ← unpack_from 2 image (pe_offset + 20)
  let optional = pe_offset + 24
  fail_if (ltb (length image) (optional + optional_size)) "truncated PE optional header" []
  h ← read_optional image optional
  check_efi machine section_count h
