-- ===== src/ServiceElf/Identity.antt =====
-- On what `build_elf` returns, the service verifier checks nothing but the identity of the program.
use zig_os.Base.{
  ℕ, ◌<◌, ◌≤◌, ◌≡◌, refl, arith, ap, [], ◌∷◌, ◌++◌, length, slice, ok, bytes_eq, bytes_eq_refl,
  true, false, ◌==◌, ◌!=◌, ltb, not, Result, ◌>>◌,
}
use zig_os.Bytes.{Bytes, unpack_from}
use zig_os.Fnv.{fnv1a64}
use zig_os.Legacy.Content.{count}
use zig_os.Elf64.TwoSegments.{pack_entry_fields, pack_segment_fields}
use zig_os.Elf64.Executable.{
  executable, executable-Placed, executable-headers, executable-first_bytes, written, first_bytes,
}
use zig_os.ServiceElf.{message, pipe_payload, service_page, build_service_image}
use zig_os.ServiceElf.Page.{service_page-fnv1a64}
use zig_os.ServiceElf.Verify.{
  expected_payload_bytes, expected_code_fnv, expected_elf_sha256, reject_if, is_service_header,
  is_service_table, is_text, is_service_data, check_service_page, verify_service,
}

-- The image is the known service: the size of its code, the hashes of the code and of the whole, and the
-- numbers of its system calls and of its guards.
unfoldable pub identify_service : (Bytes → Bytes) → Bytes → Bytes → Result (Unit {0})
identify_service sha256 code image = do
  reject_if (length code != expected_payload_bytes) "payload size {} is not {}"
      (length code ∷ expected_payload_bytes ∷ [])
  reject_if (fnv1a64 code != expected_code_fnv) "payload FNV {} is not {}"
      (fnv1a64 code ∷ expected_code_fnv ∷ [])
  reject_if (not (bytes_eq (sha256 image) expected_elf_sha256)) "ELF SHA-256 {} is not {}"
      (sha256 image ++ expected_elf_sha256)
  let syscall_count = count (0xCD ∷ 0x80 ∷ []) code
  reject_if (syscall_count != 51) "expected 51 int 0x80 instructions, found {}" (syscall_count ∷ [])
  reject_if (count (0x0F ∷ 0x0B ∷ []) code != 4) "expected exactly four terminal/fault UD2 guards"
      []

module _ (code page : Bytes) (some : 0 < length code) (small : length code ≤ 4096)
    (p : length page ≡ 0x800) where
  image : Bytes
  image = executable 0x0000008000100000 0x0000008000102000 code page

  build_service-image : service_page code ≡ ok page → build_service_image code ≡ ok image
  unfolding build_service_image
  build_service-image returned =
      let sized : (length code == 0) ≡ false = ground arith in
      let bound : ltb 0x1000 (length code) ≡ false = ground arith in
      rw
        (
          sized,
          bound,
          returned,
          pack_entry_fields 0x0000008000100000 (omega arith),
          p,
          pack_segment_fields 5 0x1000 0x0000008000100000 (length code) (length code)
              (omega arith, omega arith, omega arith, omega arith, omega arith),
          pack_segment_fields 6 0x2000 0x0000008000102000 0x800 0x2000
              (omega arith, omega arith, omega arith, omega arith, omega arith),
        )
        (ap ok (
          unfold image in
          written 0x0000008000100000 0x0000008000102000 code page (omega arith) (omega arith) small
            p))

  verify_service-image :
      (sha256 : Bytes → Bytes)
      → check_service_page code page ≡ ok tt
      → verify_service sha256 image ≡ identify_service sha256 code image
  unfolding verify_service identify_service is_service_header is_service_table is_text
      is_service_data image
  verify_service-image sha256 checked =
      let placed =
        executable-Placed 0x0000008000100000 0x0000008000102000 code page (omega arith)
          (omega arith) small p in
      let headers =
        executable-headers 0x0000008000100000 0x0000008000102000 code page (omega arith)
          (omega arith) small p in
      let sized : (length code == 0) ≡ false = ground arith in
      let bound : ltb 0x1000 (length code) ≡ false = ground arith in
      let same : (length code == length code) ≡ true = ground arith in
      rw
        (
          placed.size,
          headers.0,
          executable-first_bytes 0x0000008000100000 0x0000008000102000 code page (omega arith)
              (omega arith) small p,
          bytes_eq_refl first_bytes,
          headers.1,
          headers.2,
          sized,
          bound,
          same,
          placed.code_bytes,
          placed.page_bytes,
          checked,
        )
        refl

-- The page of `service_page` passes the checks on it.
check_service_page-service_page :
    (code page : Bytes)
    → (slice page 0x400 0x422 ≡ message)
      × (slice page 0x440 0x458 ≡ pipe_payload)
      × (unpack_from 8 page 0x7C0 ≡ ok 0x4543495652455336)
      × (unpack_from 8 page 0x7C8 ≡ ok (fnv1a64 code))
      × (unpack_from 8 page 0x7D0 ≡ ok (fnv1a64 (slice page 0 0x7D0)))
    → check_service_page code page ≡ ok tt
unfolding check_service_page
check_service_page-service_page code page (a, b, c, d, e) =
    let differs : (n : ℕ) → (n != n) ≡ false = λ n. ground arith in
    rw
      (
        a,
        b,
        bytes_eq_refl message,
        bytes_eq_refl pipe_payload,
        c,
        d,
        differs (fnv1a64 code),
        e,
        differs (fnv1a64 (slice page 0 0x7D0)),
      )
      refl

-- For code of 1 to 4096 bytes, whatever the digest is: `build_elf` of the service returns an image, and on
-- it the service verifier does exactly what `identify_service` does: it checks the size of the code, the
-- hashes of the code and of the image, and the numbers of system calls and of guards, in this order, and
-- finds no fault with the headers or with the data page.
pub verify_service-build_service_image :
    (sha256 : Bytes → Bytes) (code : Bytes)
    → 0 < length code
    → length code ≤ 4096
    → (image : Bytes) × (build_service_image code ≡ ok image)
      × (verify_service sha256 image ≡ identify_service sha256 code image)
verify_service-build_service_image sha256 code some small =
    let (page, returned, size, a, b, c, d, e) = service_page-fnv1a64 code in
    (
      image code page some small size,
      build_service-image code page some small size returned,
      verify_service-image code page some small size sha256
          (check_service_page-service_page code page (a, b, c, d, e)),
    )
