-- ===== src/Assets/Programs.antt =====
-- Every runtime program is built and verified, whatever code of at most a page it is assembled to.
use zig_os.Base.{
  ascii, ◌-◌, ◌≤◌, ◌<◌, ◌≡◌, refl, arith, List, [], ◌∷◌, ◌++◌, length, ok, replicate, set_slice,
  take, drop,
}
use zig_os.Bytes.{Bytes, zeros, put, write_fields}
use zig_os.Workloads.Emit.{crlf}
use zig_os.Elf64.Runtime.{verify}
use zig_os.Elf64.Verified.{Parts, verify-build}
use zig_os.Assets.{
  runtime_wait_data, runtime_tty_data, runtime_io_data, runtime_vm_data, runtime_program_data,
  build_programs, build_runtime_programs,
}
use zig_os.Assets.Filled.{runtime_socket_data-SocketData}

-- Every program's data fits a page.
abbrev AllFit : List (Bytes × Bytes) → Type 0
AllFit [] = Unit {0}
AllFit ((program_name, data_bytes) ∷ rest) = (length data_bytes ≤ 4096) × AllFit rest

-- The images are those of the programs, in order: each has the code that was assembled for its program's
-- name, and its data padded to a page.
abbrev pub Images : (Bytes → Bytes) → List (Bytes × Bytes) → List Bytes → Type 0
Images nasm [] [] = Unit {0}
Images nasm [] (image ∷ images) = ⊥
Images nasm (program ∷ rest) [] = ⊥
Images nasm ((program_name, data_bytes) ∷ rest) (image ∷ images) =
    Parts (nasm program_name) (data_bytes ++ zeros (4096 - length data_bytes)) image
    × (verify image ≡ ok tt)
    × Images nasm rest images

build_programs-Images :
    (nasm : Bytes → Bytes) (programs : List (Bytes × Bytes))
    → ((program_name : Bytes)
        → (0 < length (nasm program_name)) × (length (nasm program_name) ≤ 4096))
    → AllFit programs
    → (images : List Bytes) × (build_programs nasm programs ≡ ok images)
      × Images nasm programs images
unfolding build_programs
build_programs-Images nasm [] assembled fit = ([], refl, tt)
build_programs-Images nasm ((program_name, data_bytes) ∷ rest) assembled (fits, fit) =
    let (some, small) = assembled program_name in
    let (image, built, parts, accepted) =
      verify-build (nasm program_name) data_bytes some small fits in
    let (images, returned, all) = build_programs-Images nasm rest assembled fit in
    (image ∷ images, rw (built, accepted, returned) refl, (parts, accepted, all))

module _ (socket : Bytes) (page : length socket ≡ 4096) where
  abbrev programs : List (Bytes × Bytes)
  programs =
      (ascii "hello", ascii "hello from VFS-loaded CPL3 ELF64" ++ crlf)
      ∷ (
        ascii "sleep",
        (ascii "sleep: before" ++ crlf) ++ (zeros 17 ++ (ascii "sleep: after" ++ crlf)),
      )
      ∷ (ascii "wait-short", ascii "wait-any short child")
      ∷ (ascii "crash", ascii "crash: real page fault follows" ++ crlf)
      ∷ (ascii "spin", ascii "runtime spin loop")
      ∷ (ascii "pipe-reader", ascii "pipe reader data")
      ∷ (ascii "pipe-writer", ascii "PIPE-CPL")
      ∷ (ascii "wait", runtime_wait_data)
      ∷ (ascii "vm", runtime_vm_data)
      ∷ (ascii "io", runtime_io_data)
      ∷ (ascii "tty", runtime_tty_data)
      ∷ (ascii "socket", socket)
      ∷ []

  programs-AllFit : AllFit programs
  unfolding runtime_wait_data runtime_vm_data runtime_io_data runtime_tty_data write_fields zeros
      replicate put set_slice take drop
  programs-AllFit = (
    omega arith,
    (
      omega arith,
      (
        omega arith,
        (
          omega arith,
          (
            omega arith,
            (
              omega arith,
              (
                omega arith,
                (
                  omega arith,
                  (omega arith, (omega arith, (omega arith, (omega (arith, page), tt)))),
                ),
              ),
            ),
          ),
        ),
      ),
    ),
  )

-- When every program assembles to 1 up to 4096 bytes of code: `runtime_program_data` returns the twelve
-- programs, and the loop over them returns an image for each, in order, which the runtime verifier
-- accepts and which holds the assembled code and the program's data, padded to a page.
pub build_runtime_programs-Images :
    (nasm : Bytes → Bytes)
    → ((program_name : Bytes)
        → (0 < length (nasm program_name)) × (length (nasm program_name) ≤ 4096))
    → (programs : List (Bytes × Bytes)) × (images : List Bytes) × (runtime_program_data
        ≡ ok programs)
      × (length programs ≡ 12)
      × (build_runtime_programs nasm ≡ ok images)
      × Images nasm programs images
unfolding runtime_program_data build_runtime_programs
build_runtime_programs-Images nasm assembled =
    let (socket, returned, made) = runtime_socket_data-SocketData in
    let (images, built, all) =
      build_programs-Images nasm (programs socket made.size) assembled
        (programs-AllFit socket made.size) in
    (programs socket made.size, images, rw returned refl, refl, rw (returned, built) refl, all)
