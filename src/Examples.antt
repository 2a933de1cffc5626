-- ===== src/Examples.antt =====
-- The theorems at concrete inputs.
use zig_os.Base.{
  ℕ, ◌+◌, ◌*◌, ◌%◌, ◌^◌, ◌<◌, ◌≡◌, ◌≢◌, refl, arith, List, [], ◌∷◌, ◌++◌, length, slice, range_from,
  ascii, ok, raise, index_error, if◌then◌else◌, ◌==◌,
}
use zig_os.Base.{take, drop, bytes_eq}
use zig_os.Bytes.{Bytes, zeros, from_le, unpack_from, decode_ascii}
use zig_os.Bytes.Words.{IsBytes, length-zeros}
use zig_os.Fnv.{fnv1a32, fnv1a64}
use zig_os.Fnv.Corruption.{fnv1a-lt, fnv1a-ne_of_changed}
use zig_os.Fat12.Entry.{set_fat12_entry, fat_entry}
use zig_os.Fat12.Entry.Laws.{at_offset, set_fat12_entry_lem, fat12_entry-outside}
use zig_os.Fat12.Volume.{
  File, build_volume, link_chain, allocate, root_entry, write_chunks, write_files, cluster_count,
}
use zig_os.Fat12.Linked.{
  Links, link_chain-Links, Allocates, allocate-Allocates, placements, clusters_needed,
}
use zig_os.Fat12.Reserved.{blank_table}
use zig_os.Fat12.Chunks.{Stored, write_chunks-Stored}
use zig_os.Fat12.Slots.{Entered, root_entry-Entered}
use zig_os.Fat12.Files.{Fits, Files, write_files-Files}
use zig_os.Fat12.ReadBack.{Built, build_volume-Built, blank_table-IsTable}
use zig_os.Elf32.{build_elf, verify_elf}
use zig_os.Elf32.Verified.{verify_elf-build_elf}
use zig_os.Elf64.{read_segment, read_header}
use zig_os.Elf64.Runtime.{build, verify}
use zig_os.Elf64.Verified.{Parts, verify-build}
use zig_os.Workloads.Accepted.{exec_code, verify_elf-build_exec_elf}
use zig_os.Workloads.Tasks.{build_exec_elf}
use zig_os.Base.{◌⊎◌, value_error}
use zig_os.Nvme.Layout.{Layout, Coherent, layout_for, layout_for-Coherent}
use zig_os.Nvme.Gpt.{make_gpt_header}
use zig_os.Nvme.Sealed.{gpt_front, make_gpt_header-gpt_front}
use zig_os.ServiceElf.{message, pipe_payload, service_page}
use zig_os.ServiceElf.Page.{service_page-fnv1a64}
use zig_os.SdkElf.{
  verify_sdk_elf, check_header, check_segment, check_sections, scan_segments, note_segment,
  has_flag, clear_low, page_end,
}
use zig_os.SdkElf.Sound.{Loadable, verify_sdk_elf-Loadable}

abbrev two_files : List File
two_files =
    record { name = ascii "HELLO   TXT"; content = ascii "hello" }
    ∷ record {
      name = ascii "BIG     TXT";
      content = range_from 0 200 ++ (range_from 0 200 ++ range_from 0 200);
    }
    ∷ []

clusters-two_files : clusters_needed two_files ≡ 3
unfolding clusters_needed cluster_count range_from
clusters-two_files = refl

two_files-Fits : Fits two_files
two_files-Fits = record {
  named = (refl, (refl, tt));
  slots = omega arith;
  clusters = omega (arith, clusters-two_files);
}

build_volume-Built_example : Built 256 two_files (build_volume 256 two_files)
build_volume-Built_example = build_volume-Built 256 two_files (omega arith) two_files-Fits

abbrev small_table : Bytes
small_table = 0xF0 ∷ 0xFF ∷ 0xFF ∷ 0x03 ∷ 0x40 ∷ 0x00 ∷ []

small_table-IsBytes : IsBytes small_table
small_table-IsBytes =
    (omega arith, (omega arith, (omega arith, (omega arith, (omega arith, (omega arith, tt))))))

set_fat12_entry_lem_example :
    (fat' : Bytes) × (set_fat12_entry small_table 3 0xFFF ≡ ok fat')
    × (length fat' ≡ length small_table)
    × IsBytes fat'
    × ((other : ℕ)
        → at_offset other + 1 < length small_table
        → fat_entry fat' other
          ≡ (if 3 == other then ok (0xFFF % 4096) else fat_entry small_table other))
set_fat12_entry_lem_example =
    set_fat12_entry_lem small_table 3 0xFFF small_table-IsBytes (omega arith)

fat12_entry-outside_example :
    (set_fat12_entry small_table 4 0 ≡ raise index_error)
    × (fat_entry small_table 4 ≡ raise index_error)
fat12_entry-outside_example = fat12_entry-outside small_table 4 0 (omega arith)

link_chain-Links_example : Links blank_table 2 3 (link_chain blank_table (range_from 2 3))
link_chain-Links_example = link_chain-Links 2 blank_table 2 blank_table-IsTable (omega arith)

allocate-Allocates_example : Allocates blank_table 2 two_files (allocate blank_table 2 two_files)
allocate-Allocates_example =
    allocate-Allocates two_files blank_table 2 blank_table-IsTable
      (omega (arith, clusters-two_files))

write_chunks-Stored_example :
    Stored
      (ascii "hello")
      (zeros 20000)
      0
      2
      1
      (write_chunks (ascii "hello") 0 (range_from 2 1) (zeros 20000))
write_chunks-Stored_example =
    write_chunks-Stored 0 (ascii "hello") 0 2 (zeros 20000) (omega arith)
      (omega (arith, length-zeros 20000)) (omega arith) (λ h. omega arith)

root_entry-Entered_example :
    Entered
      (zeros 20000)
      1
      (ascii "HELLO   TXT")
      2
      5
      (root_entry (zeros 20000) 1 (ascii "HELLO   TXT") 2 5)
root_entry-Entered_example =
    root_entry-Entered (zeros 20000) 1 (ascii "HELLO   TXT") 2 5 (omega (arith, length-zeros 20000))
      refl (omega arith) (omega arith)

write_files-Files_example :
    Files
      (zeros (2880 * 512))
      0
      2
      two_files
      (write_files (zeros (2880 * 512)) 0 two_files (placements 2 two_files))
write_files-Files_example =
    write_files-Files two_files (zeros (2880 * 512)) 0 2 (length-zeros (2880 * 512))
      (refl, (refl, tt)) (omega arith) (omega arith) (omega (arith, clusters-two_files))

fnv1a-lt_example : (fnv1a32 small_table < 2 ^ 32) × (fnv1a64 small_table < 2 ^ 64)
fnv1a-lt_example = fnv1a-lt small_table small_table-IsBytes

fnv1a-ne_of_changed_example :
    (fnv1a32 ((1 ∷ []) ++ 2 ∷ 3 ∷ []) ≢ fnv1a32 ((1 ∷ []) ++ 7 ∷ 3 ∷ []))
    × (fnv1a64 ((1 ∷ []) ++ 2 ∷ 3 ∷ []) ≢ fnv1a64 ((1 ∷ []) ++ 7 ∷ 3 ∷ []))
fnv1a-ne_of_changed_example =
    fnv1a-ne_of_changed (1 ∷ []) (3 ∷ []) 2 7 (omega arith, (omega arith, (omega arith, tt)))
      (omega arith) (λ e. absurd (omega arith))

decode_name : decode_ascii (ascii "INIT    ELF") ≡ ok (ascii "INIT    ELF")
unfolding decode_ascii
decode_name = refl

verify_elf-build_elf_example :
    (image : Bytes) × (build_elf (0xF4 ∷ []) 0x200 ≡ ok image)
    × (length image ≡ 0x101)
    × (slice image 0x100 (length image) ≡ 0xF4 ∷ [])
    × (verify_elf (ascii "INIT    ELF") image ≡ ok tt)
verify_elf-build_elf_example =
    verify_elf-build_elf (ascii "INIT    ELF") (0xF4 ∷ []) 0x200 decode_name (omega arith)
      (omega arith)

verify_elf-build_exec_elf_example :
    (image : Bytes) × (build_exec_elf 0xA1 1 ≡ ok image)
    × (length image ≡ 660)
    × (slice image 0x100 (0x100 + 83) ≡ exec_code 0xA1 1)
    × (verify_elf (ascii "INIT    ELF") image ≡ ok tt)
verify_elf-build_exec_elf_example =
    verify_elf-build_exec_elf (ascii "INIT    ELF") 0xA1 1 decode_name (omega arith) (omega arith)

verify-build_example :
    (image : Bytes) × (build (0xF4 ∷ []) (ascii "data") ≡ ok image)
    × Parts (0xF4 ∷ []) (ascii "data" ++ zeros 4092) image
    × (verify image ≡ ok tt)
verify-build_example =
    verify-build (0xF4 ∷ []) (ascii "data") (omega arith) (omega arith) (omega arith)

-- One readable and executable segment, the whole file, entered behind its headers.
abbrev sdk_image : Bytes
sdk_image =
    (0x7F ∷ ascii "ELF")
    ++ ((2 ∷ 1 ∷ 1 ∷ 0 ∷ 0 ∷ 0 ∷ 0 ∷ 0 ∷ 0 ∷ 0 ∷ 0 ∷ 0 ∷ [])
        ++ (2 ∷ 0 ∷ 0x3E ∷ 0 ∷ 1 ∷ 0 ∷ 0 ∷ 0 ∷ 0x78 ∷ 0 ∷ 0 ∷ 0 ∷ 0x80 ∷ 0 ∷ 0 ∷ 0 ∷ 64 ∷ 0 ∷ 0 ∷ 0
            ∷ 0 ∷ 0 ∷ 0 ∷ 0 ∷ 0 ∷ 0 ∷ 0 ∷ 0 ∷ 0 ∷ 0 ∷ 0 ∷ 0 ∷ 0 ∷ 0 ∷ 0 ∷ 0 ∷ 64 ∷ 0 ∷ 56 ∷ 0 ∷ 1
            ∷ 0 ∷ 0 ∷ 0 ∷ 0 ∷ 0 ∷ 0 ∷ 0 ∷ 1 ∷ 0 ∷ 0 ∷ 0 ∷ 5 ∷ 0 ∷ 0 ∷ 0 ∷ 0 ∷ 0 ∷ 0 ∷ 0 ∷ 0 ∷ 0 ∷ 0
            ∷ 0 ∷ 0 ∷ 0 ∷ 0 ∷ 0 ∷ 0x80 ∷ 0 ∷ 0 ∷ 0 ∷ 0 ∷ 0 ∷ 0 ∷ 0 ∷ 0x80 ∷ 0 ∷ 0 ∷ 0 ∷ 121 ∷ 0 ∷ 0
            ∷ 0 ∷ 0 ∷ 0 ∷ 0 ∷ 0 ∷ 121 ∷ 0 ∷ 0 ∷ 0 ∷ 0 ∷ 0 ∷ 0 ∷ 0 ∷ 0 ∷ 0x10 ∷ 0 ∷ 0 ∷ 0 ∷ 0 ∷ 0 ∷ 0
            ∷ 0xF4 ∷ []))

sdk_image-accepted : verify_sdk_elf sdk_image ≡ ok tt
unfolding verify_sdk_elf read_header check_header scan_segments read_segment check_segment
    note_segment check_sections has_flag clear_low page_end unpack_from slice take drop from_le
    bytes_eq
sdk_image-accepted = refl

verify_sdk_elf-Loadable_example : Loadable sdk_image
verify_sdk_elf-Loadable_example = verify_sdk_elf-Loadable sdk_image sdk_image-accepted

abbrev large : ℕ
large = 4096

layout_for-Coherent_example :
    (((large ≡ 512) ⊎ (large ≡ 4096)) × ((l : Layout) × (layout_for large ≡ ok l) × Coherent l))
    ⊎ ((large ≢ 512)
        × (large ≢ 4096)
        × (layout_for large ≡ raise (value_error "block size must be 512 or 4096" [])))
layout_for-Coherent_example = layout_for-Coherent large

-- The primary header of the 512-byte layout, with a hash in the place of the checksum.
make_gpt_header-gpt_front_example :
    make_gpt_header fnv1a32 512 1 32767 34 32734 2 0x12345678
    ≡ ok (
        gpt_front
          (fnv1a32 (gpt_front 0 1 32767 34 32734 2 0x12345678) % 2 ^ 32)
          1
          32767
          34
          32734
          2
          0x12345678
        ++ zeros 420)
make_gpt_header-gpt_front_example =
    make_gpt_header-gpt_front fnv1a32 512 1 32767 34 32734 2 0x12345678 (omega arith) (omega arith)
      (omega arith) (omega arith) (omega arith) (omega arith) (omega arith)

service_page-fnv1a64_example :
    (page : Bytes) × (service_page (0xF4 ∷ []) ≡ ok page)
    × (length page ≡ 0x800)
    × (slice page 0x400 0x422 ≡ message)
    × (slice page 0x440 0x458 ≡ pipe_payload)
    × (unpack_from 8 page 0x7C0 ≡ ok 0x4543495652455336)
    × (unpack_from 8 page 0x7C8 ≡ ok (fnv1a64 (0xF4 ∷ [])))
    × (unpack_from 8 page 0x7D0 ≡ ok (fnv1a64 (slice page 0 0x7D0)))
service_page-fnv1a64_example = service_page-fnv1a64 (0xF4 ∷ [])
