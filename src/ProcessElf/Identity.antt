-- ===== src/ProcessElf/Identity.antt =====
-- On what `build_process` returns, the process verifier checks nothing but the identity of the program.
use zig_os.Base.{
  ℕ, ◌<◌, ◌≤◌, ◌≡◌, refl, arith, ap, [], ◌∷◌, length, ok, bytes_eq, bytes_eq_refl, Bool, true,
  false, ◌==◌, ◌!=◌, ◌||◌, ltb, not, Result, fail_if, ◌>>◌,
}
use zig_os.Bytes.{Bytes}
use zig_os.Fnv.{fnv1a64}
use zig_os.Legacy.Content.{count}
use zig_os.Elf64.TwoSegments.{pack_entry_fields, pack_segment_fields}
use zig_os.Elf64.Executable.{
  executable, executable-Placed, executable-headers, executable-first_bytes, written_to_end,
  first_bytes,
}
use zig_os.ProcessElf.{
  Kind, build_process, expected_payload, expected_syscalls, expected_code_fnv, expected_elf_fnv,
  expected_sha, other_start, verify_process,
}
use zig_os.ProcessElf.Page.{sealed, length-sealed, check_page-process_page}

-- The image is one of the known programs: the size of its code, the number of its system calls, and the
-- hashes of the code and of the whole.
unfoldable pub identify : (Bytes → Bytes) → Bytes → Bytes → Kind → Result (Unit {0})
identify sha256 code image kind = do
  fail_if (length code != expected_payload kind) "bad RX sizing" []
  fail_if (count (0xCD ∷ 0x80 ∷ []) code != expected_syscalls kind) "bad syscall count" []
  fail_if (fnv1a64 code != expected_code_fnv kind) "unexpected code identity" []
  fail_if (fnv1a64 image != expected_elf_fnv kind) "unexpected ELF FNV identity" []
  fail_if (not (bytes_eq (sha256 image) (expected_sha kind))) "unexpected ELF SHA-256 identity" []
  ok tt

or_false : (b : Bool) → (b || false) ≡ b
or_false true = refl
or_false false = refl

module _ (code : Bytes) (kind : Kind) (some : 0 < length code) (small : length code ≤ 4096) where
  image : Bytes
  image = executable 0x0000008000000000 0x0000008000002000 code (sealed code kind)

  build_process-image : build_process code kind ≡ ok image
  unfolding build_process
  build_process-image =
      let sized : (length code == 0) ≡ false = ground arith in
      let bound : ltb 0x1000 (length code) ≡ false = ground arith in
      rw
        (
          sized,
          bound,
          (check_page-process_page code kind).0,
          pack_entry_fields 0x0000008000000000 (omega arith),
          length-sealed code kind,
          pack_segment_fields 5 0x1000 0x0000008000000000 (length code) (length code)
              (omega arith, omega arith, omega arith, omega arith, omega arith),
          pack_segment_fields 6 0x2000 0x0000008000002000 0x800 0x2000
              (omega arith, omega arith, omega arith, omega arith, omega arith),
        )
        (ap ok (
          unfold image in
          written_to_end 0x0000008000000000 0x0000008000002000 code (sealed code kind) (omega arith)
            (omega arith) small (length-sealed code kind) _ refl))

  verify_process-image :
      (sha256 : Bytes → Bytes) → verify_process sha256 image kind ≡ identify sha256 code image kind
  unfolding verify_process identify other_start image
  verify_process-image sha256 =
      let p = length-sealed code kind in
      let placed =
        executable-Placed 0x0000008000000000 0x0000008000002000 code (sealed code kind)
          (omega arith) (omega arith) small p in
      let headers =
        executable-headers 0x0000008000000000 0x0000008000002000 code (sealed code kind)
          (omega arith) (omega arith) small p in
      let differs : (n : ℕ) → (n != n) ≡ false = λ n. ground arith in
      let b = length code != expected_payload kind in
      rw
        (
          placed.size,
          headers.0,
          executable-first_bytes 0x0000008000000000 0x0000008000002000 code (sealed code kind)
              (omega arith) (omega arith) small p,
          bytes_eq_refl first_bytes,
          headers.1,
          headers.2,
          differs (length code),
          or_false b,
          or_false b,
          placed.code_bytes,
          placed.page_bytes,
          (check_page-process_page code kind).1,
        )
        refl

-- For code of 1 to 4096 bytes, whatever the digest is: `build_process` returns an image, and on it the
-- verifier does exactly what `identify` does: it checks the size of the code, its number of system calls
-- and the three hashes, in this order, and finds no fault with the headers or with the data page.
pub verify_process-build_process :
    (sha256 : Bytes → Bytes) (code : Bytes) (kind : Kind)
    → 0 < length code
    → length code ≤ 4096
    → (image : Bytes) × (build_process code kind ≡ ok image)
      × (verify_process sha256 image kind ≡ identify sha256 code image kind)
verify_process-build_process sha256 code kind some small = (
  image code kind some small,
  build_process-image code kind some small,
  verify_process-image code kind some small sha256,
)
