-- ===== src/Elf64/Executable.antt =====
-- The image of an executable with one segment of code and one of data, and what the verifiers read of it.
use zig_os.Base.{
  ℕ, ◌^◌, ◌<◌, ◌≤◌, ◌≡◌, refl, arith, ◌∙◌, [], ◌∷◌, ◌++◌, length, slice, set_slice, take, drop,
  length-append, ok, ascii,
}
use zig_os.Bytes.{Bytes, zeros, put}
use zig_os.Bytes.Image.{slice_front}
use zig_os.Elf64.{Segment, read_header, read_segment}
use zig_os.Elf64.Runtime.{ident}
use zig_os.Elf64.TwoSegments.{
  entry_fields, segment_fields, fields_bytes, length-entry_fields, length-segment_fields,
  entry_header, read_segment-segment_fields, read_header-entry_fields,
}
use zig_os.Elf64.Placed.{place, Placed, place-Placed, place-set_slice, to_end}

abbrev pub code_segment : ℕ → ℕ → Segment
code_segment entry size = record {
  kind = 1;
  flags = 5;
  offset = 0x1000;
  virtual = entry;
  physical = 0;
  file_size = size;
  memory_size = size;
  alignment = 0x1000;
}

abbrev pub page_segment : ℕ → Segment
page_segment base = record {
  kind = 1;
  flags = 6;
  offset = 0x2000;
  virtual = base;
  physical = 0;
  file_size = 0x800;
  memory_size = 0x2000;
  alignment = 0x1000;
}

abbrev pub first_bytes : Bytes
first_bytes = 0x7F ∷ ascii "ELF" ++ (2 ∷ 1 ∷ 1 ∷ 0 ∷ [])

module _ (entry base : ℕ) (code page : Bytes) where
  pub header : Bytes
  header = ident ++ fields_bytes (entry_fields entry)

  pub code_header : Bytes
  code_header = fields_bytes (segment_fields 5 0x1000 entry (length code) (length code))

  pub data_header : Bytes
  data_header = fields_bytes (segment_fields 6 0x2000 base 0x800 0x2000)

  pub executable : Bytes
  executable = place header code_header data_header code page

  module _ (e : entry < 2 ^ 64) (b : base < 2 ^ 64) (small : length code ≤ 4096)
      (p : length page ≡ 0x800) where
    length-header : length header ≡ 64
    unfolding header
    length-header =
        omega (
          arith,
          length-append ident (fields_bytes (entry_fields entry)),
          length-entry_fields entry,
        )

    length-code_header : length code_header ≡ 56
    unfolding code_header
    length-code_header = length-segment_fields 5 0x1000 entry (length code) (length code)

    length-data_header : length data_header ≡ 56
    unfolding data_header
    length-data_header = length-segment_fields 6 0x2000 base 0x800 0x2000

    pub executable-Placed : Placed header code_header data_header code page executable
    unfolding executable
    executable-Placed =
        place-Placed header code_header data_header code page length-header length-code_header
          length-data_header small p

    -- The writes of the build scripts, the last one to its end or to the end of the image.
    pub written :
        put
          (put
            (set_slice
              (set_slice
                (set_slice (zeros 0x2800) 0 64 (ident ++ fields_bytes (entry_fields entry)))
                64
                120
                (fields_bytes (segment_fields 5 0x1000 entry (length code) (length code))))
              120
              176
              (fields_bytes (segment_fields 6 0x2000 base 0x800 0x2000)))
            0x1000
            code)
          0x2000
          page
        ≡ executable
    unfolding executable header code_header data_header
    written =
        place-set_slice (ident ++ fields_bytes (entry_fields entry)) _ _ code page length-header
          length-code_header length-data_header small p

    pub written_to_end :
        (front : Bytes)
        → front
          ≡ put
              (set_slice
                (set_slice
                  (set_slice (zeros 0x2800) 0 64 (ident ++ fields_bytes (entry_fields entry)))
                  64
                  120
                  (fields_bytes (segment_fields 5 0x1000 entry (length code) (length code))))
                120
                176
                (fields_bytes (segment_fields 6 0x2000 base 0x800 0x2000)))
              0x1000
              code
        → set_slice front 0x2000 (length front) page ≡ executable
    unfolding executable header code_header data_header
    written_to_end =
        to_end (ident ++ fields_bytes (entry_fields entry)) _ _ code page length-header
          length-code_header length-data_header small p

    pub executable-first_bytes : slice executable 0 8 ≡ first_bytes
    executable-first_bytes =
        slice_front executable header 64 0 8 (omega arith) (omega arith)
          executable-Placed.header_bytes
        ∙ (unfold header slice take drop in refl)

    pub executable-headers :
        (read_header executable ≡ ok (entry_header entry))
        × (read_segment executable 64 ≡ ok (code_segment entry (length code)))
        × (read_segment executable 120 ≡ ok (page_segment base))
    executable-headers =
        let n = executable-Placed.size in
        (
          read_header-entry_fields executable entry (omega arith)
              (unfold header in executable-Placed.header_bytes) e,
          read_segment-segment_fields executable 64 5 0x1000 entry (length code) (length code)
              (omega arith) (unfold code_header in executable-Placed.code_header_bytes)
              (omega arith, omega arith, e, omega arith, omega arith),
          read_segment-segment_fields executable 120 6 0x2000 base 0x800 0x2000 (omega arith)
              (unfold data_header in executable-Placed.data_header_bytes)
              (omega arith, omega arith, b, omega arith, omega arith),
        )
