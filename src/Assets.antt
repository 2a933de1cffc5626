-- ===== src/Assets.antt =====
-- The runtime programs of scripts/build-assets.py: the data that each of them is given, and the loop of
-- `main` that builds and verifies their executables. The code that NASM assembles is a parameter.
pub mod Filled
pub mod Programs
mod Examples
use zig_os.Base.{ℕ, zero, suc, ◌+◌, ◌*◌, bit_and, List, [], ◌∷◌, ◌++◌, ascii}
use zig_os.Base.{Result, ok, ◌>>=◌, ◌>>◌}
use zig_os.Bytes.{Bytes, zeros, set_byte, write_fields}
use zig_os.Workloads.Emit.{crlf}
use zig_os.Elf64.Runtime.{build, verify}

unfoldable pub runtime_wait_data : Bytes
runtime_wait_data =
    write_fields
      ((0, ascii "wait-api: start" ++ crlf)
        ∷ (32, ascii "wait-api: concurrent wait-any ordering passed" ++ crlf)
        ∷ (128, ascii "/bin/runtime-sleep.elf")
        ∷ (160, ascii "/bin/wait-short.elf")
        ∷ [])
      (zeros 280)

unfoldable pub runtime_tty_data : Bytes
runtime_tty_data =
    write_fields
      ((0, ascii "tty-api: start" ++ crlf)
        ∷ (64, ascii "tty-api: blocking read/poll/line discipline passed" ++ crlf)
        ∷ [])
      (zeros 512)

unfoldable pub runtime_io_data : Bytes
runtime_io_data =
    write_fields
      ((0, ascii "io-api: start" ++ crlf)
        ∷ (64, ascii "io-api: open/read/fstat/getdents/poll passed" ++ crlf)
        ∷ (160, ascii "/proc/version" ++ 0 ∷ [])
        ∷ (192, ascii "/bin" ++ 0 ∷ [])
        ∷ (224, ascii "/dev/zero" ++ 0 ∷ [])
        ∷ [])
      (zeros 2048)

unfoldable pub runtime_vm_data : Bytes
runtime_vm_data =
    write_fields
      ((0, ascii "vm-api: start" ++ crlf)
        ∷ (64, ascii "vm-api: ABI/mmap/mprotect/munmap/brk passed" ++ crlf)
        ∷ [])
      (zeros 512)

abbrev pub socket_fields : List (ℕ × Bytes)
socket_fields =
    (0, ascii "socket-api: start" ++ crlf)
    ∷ (
      64,
      ascii
            "socket-api: UDP partial-send + TCP connect/listen/accept/shutdown + sockopt + txwake passed"
          ++ crlf,
    )
    ∷ (160, ascii "UDP-CPL3")
    ∷ (
      192,
      0x5A ∷ 0x5A ∷ 0x01 ∷ 0x00 ∷ 0x00 ∷ 0x01 ∷ 0x00 ∷ 0x00 ∷ 0x00 ∷ 0x00 ∷ 0x00 ∷ 0x00 ∷ 0x09
          ∷ 0x6C ∷ 0x6F ∷ 0x63 ∷ 0x61 ∷ 0x6C ∷ 0x68 ∷ 0x6F ∷ 0x73 ∷ 0x74 ∷ 0x00 ∷ 0x00 ∷ 0x01 ∷ 0x00
          ∷ 0x01 ∷ [],
    )
    ∷ []

-- `for index in range(count): data[at + index] = value(index)`, with the number of rounds that are left.
unfoldable pub fill : (ℕ → ℕ) → ℕ → ℕ → ℕ → Bytes → Result Bytes
fill value at zero index buf = ok buf
fill value at (suc left) index buf = do
  buf' ← set_byte buf (at + index) (value index)
  fill value at left (index + 1) buf'

unfoldable pub runtime_socket_data : Result Bytes
runtime_socket_data = do
  let data0 = write_fields socket_fields (zeros 4096)
  data1 ← fill (λ index. bit_and (index * 3 + 7) 0xFF) 1024 1476 0 data0
  fill (λ index. bit_and (index * 5 + 11) 0xFF) 3072 1024 0 data1

unfoldable pub runtime_program_data : Result (List (Bytes × Bytes))
runtime_program_data = do
  socket ← runtime_socket_data
  ok (
      (ascii "hello", ascii "hello from VFS-loaded CPL3 ELF64" ++ crlf)
      ∷ (
        ascii "sleep",
        (ascii "sleep: before" ++ crlf) ++ (zeros 17 ++ (ascii "sleep: after" ++ crlf)),
      )
      ∷ (ascii "wait-short", ascii "wait-any short child")
      ∷ (ascii "crash", ascii "crash: real page fault follows" ++ crlf)
      ∷ (ascii "spin", ascii "runtime spin loop")
      ∷ (ascii "pipe-reader", ascii "pipe reader data")
      ∷ (ascii "pipe-writer", ascii "PIPE-CPL")
      ∷ (ascii "wait", runtime_wait_data)
      ∷ (ascii "vm", runtime_vm_data)
      ∷ (ascii "io", runtime_io_data)
      ∷ (ascii "tty", runtime_tty_data)
      ∷ (ascii "socket", socket)
      ∷ [])

-- The loop over `runtime_program_data`: a program is assembled, built and verified.
unfoldable pub build_programs : (Bytes → Bytes) → List (Bytes × Bytes) → Result (List Bytes)
build_programs nasm [] = ok []
build_programs nasm ((program_name, data_bytes) ∷ rest) = do
  image ← build (nasm program_name) data_bytes
  verify image
  images ← build_programs nasm rest
  ok (image ∷ images)

unfoldable pub build_runtime_programs : (Bytes → Bytes) → Result (List Bytes)
build_runtime_programs nasm = do programs ← runtime_program_data; build_programs nasm programs
