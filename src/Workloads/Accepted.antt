-- ===== src/Workloads/Accepted.antt =====
-- The replaceable workload of scripts/create-legacy-fat12.py, for every exit code and sleep time.
use zig_os.Base.{
  ℕ, ◌+◌, ◌^◌, ◌<◌, ◌≡◌, refl, arith, ◌∙◌, [], ◌∷◌, ◌++◌, length, slice, ok, lt→ltb, take, drop,
  replicate, set_slice,
}
use zig_os.Bytes.{Bytes, zeros, put, le_bytes, pack, decode_ascii}
use zig_os.Elf32.{build_elf, verify_elf}
use zig_os.Elf32.Verified.{verify_elf-build_elf}
use zig_os.Bytes.Image.{slice_part}
use zig_os.Workloads.Emit.{◌+++◌, mov_imm, syscall, store}
use zig_os.Workloads.Tasks.{build_exec_elf}

-- Four system calls and their stores, then `mov ebx, sleep_ticks` and the sleep call with its store,
-- then `mov ebx, exit_code`, the exit call and `hlt`.
unfoldable pub exec_code : ℕ → ℕ → Bytes
exec_code exit_code sleep_ticks =
    (0xB8 ∷ 0x34 ∷ 0x00 ∷ 0x00 ∷ 0x00 ∷ 0xCD ∷ 0x80 ∷ 0xA3 ∷ 0x80 ∷ 0x01 ∷ 0x40 ∷ 0x00 ∷ 0xB8 ∷ 0x02
      ∷ 0x00 ∷ 0x00 ∷ 0x00 ∷ 0xCD ∷ 0x80 ∷ 0xA3 ∷ 0x84 ∷ 0x01 ∷ 0x40 ∷ 0x00 ∷ 0xB8 ∷ 0x0C ∷ 0x00
      ∷ 0x00 ∷ 0x00 ∷ 0xCD ∷ 0x80 ∷ 0xA3 ∷ 0x88 ∷ 0x01 ∷ 0x40 ∷ 0x00 ∷ 0xBB ∷ 0x00 ∷ 0x00 ∷ 0x00
      ∷ 0x00 ∷ 0xB8 ∷ 0x1D ∷ 0x00 ∷ 0x00 ∷ 0x00 ∷ 0xCD ∷ 0x80 ∷ 0xA3 ∷ 0x8C ∷ 0x01 ∷ 0x40 ∷ 0x00
      ∷ 0xBB ∷ [])
    ++ (le_bytes 4 sleep_ticks
        ++ ((0xB8 ∷ 0x2C ∷ 0x00 ∷ 0x00 ∷ 0x00 ∷ 0xCD ∷ 0x80 ∷ 0xA3 ∷ 0x90 ∷ 0x01 ∷ 0x40 ∷ 0x00
              ∷ 0xBB ∷ [])
            ++ (le_bytes 4 exit_code
                ++ (0xB8 ∷ 0x03 ∷ 0x00 ∷ 0x00 ∷ 0x00 ∷ 0xCD ∷ 0x80 ∷ 0xF4 ∷ []))))

exec_segment : ℕ → ℕ → Bytes
exec_segment exit_code sleep_ticks = exec_code exit_code sleep_ticks ++ replicate 321 0

build_exec_elf-segment :
    (exit_code sleep_ticks : ℕ)
    → exit_code < 2 ^ 32
    → sleep_ticks < 2 ^ 32
    → build_exec_elf exit_code sleep_ticks ≡ build_elf (exec_segment exit_code sleep_ticks) 0x1000
unfolding build_exec_elf exec_segment exec_code ◌+++◌ mov_imm syscall store pack zeros replicate put
    set_slice take drop le_bytes
build_exec_elf-segment exit_code sleep_ticks a b = rw (lt→ltb _ _ a, lt→ltb _ _ b) refl

length-segment : (exit_code sleep_ticks : ℕ) → length (exec_segment exit_code sleep_ticks) ≡ 404
unfolding exec_segment exec_code le_bytes replicate
length-segment exit_code sleep_ticks = refl

segment_code :
    (exit_code sleep_ticks : ℕ)
    → slice (exec_segment exit_code sleep_ticks) 0 83 ≡ exec_code exit_code sleep_ticks
unfolding exec_segment exec_code le_bytes replicate slice take drop
segment_code exit_code sleep_ticks = refl

-- For every 32-bit exit code and every 32-bit number of ticks, `build_exec_elf` returns an image of
-- 660 bytes that `verify_elf` accepts under every ASCII name, and whose code is the sequence of calls
-- with these two numbers in the operands of its sleep and its exit.
pub verify_elf-build_exec_elf :
    (name : Bytes) (exit_code sleep_ticks : ℕ)
    → decode_ascii name ≡ ok name
    → exit_code < 2 ^ 32
    → sleep_ticks < 2 ^ 32
    → (image : Bytes) × (build_exec_elf exit_code sleep_ticks ≡ ok image)
      × (length image ≡ 660)
      × (slice image 0x100 (0x100 + 83) ≡ exec_code exit_code sleep_ticks)
      × (verify_elf name image ≡ ok tt)
verify_elf-build_exec_elf name exit_code sleep_ticks text a b =
    let segment = exec_segment exit_code sleep_ticks in
    let n = length-segment exit_code sleep_ticks in
    let built = verify_elf-build_elf name segment 0x1000 text (omega arith) (omega arith) in
    (
      built.0,
      build_exec_elf-segment exit_code sleep_ticks a b ∙ built.1,
      omega (arith, built.2, n),
      slice_part built.0 segment 0x100 (length built.0) 0 83 (omega arith)
            (omega (arith, built.2, n)) built.3
          ∙ segment_code exit_code sleep_ticks,
      built.4,
    )
