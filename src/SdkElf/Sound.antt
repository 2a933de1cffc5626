-- ===== src/SdkElf/Sound.antt =====
-- What an SDK executable that passes the check is like.
use zig_os.Base.{ℕ, zero, suc, ◌+◌, ◌*◌, ◌%◌, ◌<◌, ◌≤◌, ◌≡◌, ◌⊎◌, inl, inr, refl, arith}
use zig_os.Base.{true, false, not, ◌&&◌, ltb, leb, if◌then◌else◌, List, [], ◌∷◌, length, ok}
use zig_os.Base.{ap, >>=-eq-ok, sym, ◌∙◌}
use zig_os.Base.{fail_if, ascii, ◌++◌, ◌>>◌, Bool-cases, bytes_eq, slice}
use mathlib.Core.Path.{subst}
use zig_os.Bytes.{Bytes}
use zig_os.Elf64.{Segment, Header, read_segment, read_header}
use zig_os.SdkElf.{
  Scan, page_size, user_base, mmap_floor, has_flag, clear_low, page_end, check_segment,
  note_segment, scan_segments, check_sections, check_header, verify_sdk_elf,
}

-- A segment that the loader may map: readable, never both writable and executable, inside the image
-- window and the file, and congruent to its file offset by pages.
pub record Mappable (image : Bytes) (s : Segment) : Type 0 where
  pub loadable : s.kind ≡ 1
  pub known_flags : s.flags < 8
  pub readable : has_flag s.flags 4 ≡ true
  pub write_xor_execute : (has_flag s.flags 2 && has_flag s.flags 1) ≡ false
  pub physical : (s.physical ≡ 0) ⊎ (s.physical ≡ s.virtual)
  pub sizes : (0 < s.memory_size) × (s.file_size ≤ s.memory_size)
  pub congruent : (s.alignment ≡ page_size) × (s.offset % page_size ≡ s.virtual % page_size)
  pub inside_file : s.offset + s.file_size ≤ length image
  pub inside_window : (user_base ≤ s.virtual) × (s.virtual + s.memory_size ≤ mmap_floor)

check_segment-Mappable :
    (image : Bytes) (previous_end index : ℕ) (s : Segment)
    → check_segment image previous_end index s ≡ ok tt
    → Mappable image s × (previous_end ≤ s.virtual)
unfolding check_segment clear_low
check_segment-Mappable image previous_end index s h = (
  record {
    loadable = ground arith;
    known_flags = ground arith;
    readable = ground arith;
    write_xor_execute = ground arith;
    physical = ground arith;
    sizes = (ground arith, ground arith);
    congruent = (ground arith, ground arith);
    inside_file = ground arith;
    inside_window = (ground arith, ground arith);
  },
  ground arith,
)

-- The segments begin at `floor` or above it, each on a page behind the one before.
abbrev pub Maps : Bytes → ℕ → List Segment → Type 0
Maps image floor [] = Unit {0}
Maps image floor (s ∷ segments) =
    Mappable image s
    × (floor ≤ s.virtual)
    × Maps image (page_end (s.virtual + s.memory_size)) segments

-- The program headers from `index` on are these segments.
abbrev pub Headers : Bytes → ℕ → ℕ → List Segment → Type 0
Headers image phoff index [] = Unit {0}
Headers image phoff index (s ∷ segments) =
    (read_segment image (phoff + index * 56) ≡ ok s) × Headers image phoff (index + 1) segments

abbrev pub Holds : ℕ → Segment → Type 0
Holds entry s =
    (has_flag s.flags 1 ≡ true) × (s.virtual ≤ entry) × (entry < s.virtual + s.memory_size)

-- Some segment is executable and holds the entry.
pub data Enters (entry : ℕ) : List Segment → Type 0 where
  here : {s : Segment} {segments : List Segment} → Holds entry s → Enters entry (s ∷ segments)
  there :
      {s : Segment} {segments : List Segment} → Enters entry segments → Enters entry (s ∷ segments)

unfoldable pub writable_count : List Segment → ℕ
writable_count [] = 0
writable_count (s ∷ segments) =
    let rest = writable_count segments in if has_flag s.flags 2 then 1 + rest else rest

-- What the loop has established when it ends.
record Scanned (image : Bytes) (entry phoff index : ℕ) (scan final : Scan) (left : ℕ) : Type 0 where
  segments : List Segment
  count : length segments ≡ left
  headers : Headers image phoff index segments
  maps : Maps image scan.previous_end segments
  entered : final.executable_entry ≡ true → (scan.executable_entry ≡ true) ⊎ Enters entry segments
  writable : final.writable_segments ≡ scan.writable_segments + writable_count segments

note_entry :
    (entry : ℕ) (scan : Scan) (s : Segment)
    → (note_segment entry scan s).executable_entry ≡ true
    → (scan.executable_entry ≡ true) ⊎ Holds entry s
unfolding note_segment
note_entry entry scan s h =
    elim (Bool-cases
      (has_flag s.flags 1 && (leb s.virtual entry && ltb entry (s.virtual + s.memory_size)))) [
        | inl inside ↦ inr (ground arith, ground arith, ground arith)
        | inr outside ↦ inl (ground arith)
      ]

note_end :
    (entry : ℕ) (scan : Scan) (s : Segment)
    → (note_segment entry scan s).previous_end ≡ page_end (s.virtual + s.memory_size)
unfolding note_segment
note_end entry scan s = refl

note_writable :
    (entry : ℕ) (scan : Scan) (s : Segment) (segments : List Segment)
    → (note_segment entry scan s).writable_segments + writable_count segments
      ≡ scan.writable_segments + writable_count (s ∷ segments)
unfolding note_segment writable_count
note_writable entry scan s segments = ground arith

entered_step :
    (entry : ℕ) (scan : Scan) (s : Segment) (segments : List Segment)
    → ((note_segment entry scan s).executable_entry ≡ true) ⊎ Enters entry segments
    → (scan.executable_entry ≡ true) ⊎ Enters entry (s ∷ segments)
entered_step entry scan s segments (inr later) = inr (there later)
entered_step entry scan s segments (inl now) = elim (note_entry entry scan s now) [
  | inl before ↦ inl before
  | inr holds ↦ inr (here holds)
]

scan_segments-Scanned :
    (left : ℕ) (image : Bytes) (entry phoff index : ℕ) (scan final : Scan)
    → scan_segments image entry phoff left index scan ≡ ok final
    → Scanned image entry phoff index scan final left
unfolding scan_segments writable_count
scan_segments-Scanned zero image entry phoff index scan final h =
    let same : scan ≡ final = cc in
    record {
      segments = [];
      count = refl;
      headers = tt;
      maps = tt;
      entered = λ e. inl (ap (λ t. t.executable_entry) same ∙ e);
      writable = ap (λ t. t.writable_segments) (sym same) ∙ omega arith;
    }
scan_segments-Scanned (suc left) image entry phoff index scan final h =
    let (s, h1, read) = >>=-eq-ok (read_segment image (phoff + index * 56)) _ h in
    let (u, h2, checked) = >>=-eq-ok (check_segment image scan.previous_end index s) _ h1 in
    let good = check_segment-Mappable image scan.previous_end index s checked in
    let rest =
      scan_segments-Scanned left image entry phoff (index + 1) (note_segment entry scan s) final
        h2 in
    record {
      segments = s ∷ rest.segments;
      count = ap suc rest.count;
      headers = (read, rest.headers);
      maps = (
        good.0,
        good.1,
        subst (λ t. Maps image t rest.segments) (note_end entry scan s) rest.maps,
      );
      entered = λ e. entered_step entry scan s rest.segments (rest.entered e);
      writable = rest.writable ∙ note_writable entry scan s rest.segments;
    }

-- An executable that the system can load: its headers, the segments they stand for, and the entry.
pub record Loadable (image : Bytes) : Type 0 where
  pub header : Header
  pub segments : List Segment
  pub header_read : read_header image ≡ ok header
  pub executable : (header.e_type ≡ 2) × (header.machine ≡ 0x3E)
  pub count : (length segments ≡ header.phnum) × (0 < header.phnum) × (header.phnum ≤ 4)
  pub table_inside : header.phoff + header.phnum * 56 ≤ length image
  pub headers : Headers image header.phoff 0 segments
  pub maps : Maps image user_base segments
  pub enters : Enters header.entry segments
  pub one_writable : writable_count segments ≤ 1

check_header_lem :
    (image : Bytes) (h : Header)
    → check_header image h ≡ ok tt
    → (h.e_type ≡ 2)
      × (h.machine ≡ 0x3E)
      × (0 < h.phnum)
      × (h.phnum ≤ 4)
      × (h.phoff + h.phnum * 56 ≤ length image)
unfolding check_header
check_header_lem image h e = (ground arith, ground arith, ground arith, ground arith, ground arith)

abbrev start : Scan
start = record { previous_end = user_base; executable_entry = false; writable_segments = 0 }

abbrev elf64_identity : Bytes
elf64_identity = (0x7F ∷ ascii "ELF") ++ (2 ∷ 1 ∷ 1 ∷ 0 ∷ 0 ∷ 0 ∷ 0 ∷ 0 ∷ 0 ∷ 0 ∷ 0 ∷ 0 ∷ [])

-- What the end of the check adds to the scan.
end_lem :
    (image : Bytes) (h : Header) (scan : Scan)
    → (do
      fail_if
          (not scan.executable_entry)
          "SDK ELF entry is not contained in an executable segment"
          []
      fail_if (ltb 1 scan.writable_segments) "SDK ELF contains more than one writable segment" []
      check_sections image h.shoff h.section_size h.section_count h.section_name_index)
      ≡ ok tt
    → (scan.executable_entry ≡ true) × (scan.writable_segments ≤ 1)
end_lem image h scan e = (ground arith, ground arith)

only_later :
    {entry : ℕ} {segments : List Segment}
    → (false ≡ true) ⊎ Enters entry segments
    → Enters entry segments
only_later (inl h) = cc
only_later (inr h) = h

-- An executable that `verify_sdk_elf` accepts can be loaded: it is an x86-64 executable whose one to
-- four program headers lie in the file and stand for segments, each readable and never both writable
-- and executable, within the file and the image window, page-congruent, sorted and on pages of their
-- own; the entry lies in an executable segment, and at most one segment is writable.
pub verify_sdk_elf-Loadable : (image : Bytes) → verify_sdk_elf image ≡ ok tt → Loadable image
unfolding verify_sdk_elf
verify_sdk_elf-Loadable image e =
    let (u0, e0, a0) =
      >>=-eq-ok (fail_if (ltb (length image) 64) "SDK ELF is smaller than one ELF64 header" []) _
        e in
    let (u1, e1, a1) =
      >>=-eq-ok
        (fail_if (not (bytes_eq (slice image 0 16) elf64_identity))
          "SDK ELF identity is not ELF64 little-endian System V" [])
        _ e0 in
    let (h, e2, read) = >>=-eq-ok (read_header image) _ e1 in
    let (u2, e3, checked) = >>=-eq-ok (check_header image h) _ e2 in
    let (final, e4, scanned) =
      >>=-eq-ok (scan_segments image h.entry h.phoff h.phnum 0 start) _ e3 in
    let good = check_header_lem image h checked in
    let ends = end_lem image h final e4 in
    let s = scan_segments-Scanned h.phnum image h.entry h.phoff 0 start final scanned in
    record {
      header = h;
      segments = s.segments;
      header_read = read;
      executable = (good.0, good.1);
      count = (s.count, good.2, good.3);
      table_inside = good.4;
      headers = s.headers;
      maps = s.maps;
      enters = only_later (s.entered ends.0);
      one_writable = omega (arith, s.writable, ends.1);
    }
