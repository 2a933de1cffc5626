-- ===== src/SdkElf.antt =====
-- scripts/verify-zigos-sdk-elf.py: the acceptance check of a directly linked SDK executable.
pub mod Sound
use zig_os.Base.{
  ℕ, zero, suc, ◌+◌, ◌-◌, ◌*◌, ◌/◌, ◌%◌, ◌^◌, bit_and, ltb, leb, ◌==◌, ◌!=◌, Bool, true, false, not,
  ◌&&◌, ◌||◌,
}
use zig_os.Base.{
  bytes_eq, List, [], ◌∷◌, ◌++◌, length, slice, ascii, Result, ok, fail_if, ◌>>=◌, ◌>>◌,
  if◌then◌else◌,
}
use zig_os.Bytes.{Bytes}
use zig_os.Elf64.{Segment, read_segment, Header, read_header}

abbrev pub page_size : ℕ
page_size = 4096

abbrev pub user_base : ℕ
user_base = 0x0000008000000000

abbrev pub mmap_floor : ℕ
mmap_floor = user_base + 64 * 1024 * 1024

-- The flags of a segment: PF_R, PF_W and PF_X.
unfoldable pub has_flag : ℕ → ℕ → Bool
has_flag flags flag = bit_and flags flag != 0

-- `x & ~(2 ** k - 1)`
unfoldable pub clear_low : ℕ → ℕ → ℕ
clear_low k x = x / 2 ^ k * 2 ^ k

-- `(end + PAGE_SIZE - 1) & ~(PAGE_SIZE - 1)`
unfoldable pub page_end : ℕ → ℕ
page_end end = clear_low 12 (end + page_size - 1)

-- What the loop over the program headers carries along.
pub record Scan : Type 0 where
  pub previous_end : ℕ
  pub executable_entry : Bool
  pub writable_segments : ℕ

-- The checks in the loop's body.
unfoldable pub check_segment : Bytes → ℕ → ℕ → Segment → Result (Unit {0})
check_segment image previous_end index s = do
  fail_if (s.kind != 1) "SDK ELF program header {} is not PT_LOAD" (index ∷ [])
  fail_if (s.flags == 0 || clear_low 3 s.flags != 0)
      "SDK ELF program header {} has invalid flags {}" (index ∷ s.flags ∷ [])
  fail_if (not (has_flag s.flags 4) || (has_flag s.flags 2 && has_flag s.flags 1))
      "SDK ELF program header {} violates readable/W^X policy" (index ∷ [])
  fail_if (not (s.physical == 0 || s.physical == s.virtual))
      "SDK ELF program header {} has unsupported physical address" (index ∷ [])
  fail_if (s.memory_size == 0 || ltb s.memory_size s.file_size)
      "SDK ELF program header {} has invalid file/memory sizes" (index ∷ [])
  fail_if (s.alignment != page_size || s.offset % page_size != s.virtual % page_size)
      "SDK ELF program header {} is not page-congruent" (index ∷ [])
  fail_if (ltb (length image) s.offset || ltb (length image - s.offset) s.file_size)
      "SDK ELF program header {} exceeds the file" (index ∷ [])
  let end = s.virtual + s.memory_size
  fail_if (ltb s.virtual user_base || leb end s.virtual || ltb mmap_floor end)
      "SDK ELF program header {} leaves the image window" (index ∷ [])
  fail_if (ltb s.virtual previous_end) "SDK ELF program header {} overlaps or is unsorted"
      (index ∷ [])

-- The updates behind the checks.
unfoldable pub note_segment : ℕ → Scan → Segment → Scan
note_segment entry scan s =
    let end = s.virtual + s.memory_size in
    record {
      previous_end = page_end end;
      executable_entry =
          if has_flag s.flags 1 && (leb s.virtual entry && ltb entry end)
          then true
          else scan.executable_entry;
      writable_segments =
          if has_flag s.flags 2 then scan.writable_segments + 1 else scan.writable_segments;
    }

-- `for index in range(phnum)`, with the number of headers that are left.
unfoldable pub scan_segments : Bytes → ℕ → ℕ → ℕ → ℕ → Scan → Result Scan
scan_segments image entry phoff zero index scan = ok scan
scan_segments image entry phoff (suc left) index scan = do
  s ← read_segment image (phoff + index * 56)
  check_segment image scan.previous_end index s
  scan_segments image entry phoff left (index + 1) (note_segment entry scan s)

unfoldable pub check_sections : Bytes → ℕ → ℕ → ℕ → ℕ → Result (Unit {0})
check_sections image shoff section_size section_count section_name_index =
    if shoff != 0
    then (do
      fail_if (section_size != 64 || section_count == 0 || ltb 256 section_count)
          "SDK ELF section table has invalid dimensions" []
      fail_if
          (leb section_count section_name_index
            || ltb (length image) (shoff + section_count * section_size))
          "SDK ELF section table exceeds the file" [])
    else fail_if (section_size != 0 || section_count != 0 || section_name_index != 0)
        "SDK ELF has section metadata without a section table" []

unfoldable pub check_header : Bytes → Header → Result (Unit {0})
check_header image h = do
  fail_if
      (h.e_type != 2
        || h.machine != 0x3E
        || h.version != 1
        || h.flags != 0
        || h.ehsize != 64
        || h.phentsize != 56)
      "unsupported SDK ELF header fields: {}" []
  fail_if (h.phnum == 0 || ltb 4 h.phnum) "SDK ELF must contain 1..4 load segments, got {}"
      (h.phnum ∷ [])
  fail_if (ltb (length image) h.phoff || ltb (length image - h.phoff) (h.phnum * 56))
      "SDK ELF program header table exceeds the file" []
  fail_if (ltb h.entry user_base || leb mmap_floor h.entry)
      "SDK ELF entry is outside the image window: {}" (h.entry ∷ [])

-- The checks of `main`, on the bytes of the file.
unfoldable pub verify_sdk_elf : Bytes → Result (Unit {0})
verify_sdk_elf image = do
  fail_if (ltb (length image) 64) "SDK ELF is smaller than one ELF64 header" []
  fail_if
      (not (
        bytes_eq (slice image 0 16)
          ((0x7F ∷ ascii "ELF") ++ (2 ∷ 1 ∷ 1 ∷ 0 ∷ 0 ∷ 0 ∷ 0 ∷ 0 ∷ 0 ∷ 0 ∷ 0 ∷ 0 ∷ []))))
      "SDK ELF identity is not ELF64 little-endian System V" []
  h ← read_header image
  check_header image h
  scan ←
      scan_segments image h.entry h.phoff h.phnum 0
        (record { previous_end = user_base; executable_entry = false; writable_segments = 0 })
  fail_if (not scan.executable_entry) "SDK ELF entry is not contained in an executable segment" []
  fail_if (ltb 1 scan.writable_segments) "SDK ELF contains more than one writable segment" []
  check_sections image h.shoff h.section_size h.section_count h.section_name_index
