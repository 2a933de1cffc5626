-- ===== src/Workloads/Orchestration.antt =====
-- scripts/create-legacy-fat12.py: the orchestrating parent and its child.
use zig_os.Base.{ℕ, ◌+◌, ◌*◌, bit_or, ltb, ◌==◌, ◌!=◌, [], ◌∷◌, length}
use zig_os.Base.{Result, ok, raise_if, runtime_error, ◌>>=◌, ◌>>◌}
use zig_os.Bytes.{Bytes, zeros, put, pack}
use zig_os.Elf32.{base, build_elf}
use zig_os.Workloads.Emit.{
  hello_name, open_read, open_cloexec, orch_request, child_reply, child_name, ◌+++◌, mov_imm,
  syscall, store, for_each, as_number,
}

unfoldable pub build_child_elf : Result Bytes
build_child_elf = do
  let patch_offset : ℕ = 0x200
  let results_offset : ℕ = 0x220
  let request_offset : ℕ = 0x260
  let reply_offset : ℕ = 0x280
  let patch_va : ℕ = base + patch_offset
  let results_va : ℕ = base + results_offset
  let request_va : ℕ = base + request_offset
  let reply_va : ℕ = base + reply_offset
  code1 ←
      syscall 2
      +++ store results_va 0
      +++ syscall 12
      +++ store results_va 1
      +++ ok (0x8B ∷ 0x1D ∷ [])
      +++ pack 4 (patch_va + 8)
      +++ syscall 29
      +++ store results_va 2
      +++ syscall 22
      +++ store results_va 3
      +++ mov_imm 0xB8 5
      +++ ok (0x8B ∷ 0x1D ∷ [])
      +++ pack 4 patch_va
      +++ mov_imm 0xB9 request_va
      +++ mov_imm 0xBA (length orch_request)
      +++ ok (0xCD ∷ 0x80 ∷ [])
      +++ store results_va 4
      +++ mov_imm 0xB8 7
      +++ ok (0x8B ∷ 0x1D ∷ [])
      +++ pack 4 (patch_va + 4)
      +++ mov_imm 0xB9 reply_va
      +++ mov_imm 0xBA (length child_reply)
      +++ ok (0xCD ∷ 0x80 ∷ [])
      +++ store results_va 5
      +++ mov_imm 0xB8 3
      +++ mov_imm 0xBB 119
      +++ ok (0xCD ∷ 0x80 ∷ 0xF4 ∷ [])
  raise_if (ltb patch_offset (length code1))
      (runtime_error "CHILD.ELF code overlaps patch data: {}" (length code1 ∷ []))
  let segment0 = zeros (reply_offset + length child_reply)
  let segment1 = put segment0 0 code1
  let segment2 = put segment1 reply_offset child_reply
  build_elf segment2 0x1000

unfoldable pub build_orch_elf : Result Bytes
build_orch_elf = do
  let child_name_offset : ℕ = 0x500
  let hello_name_offset : ℕ = 0x510
  let request_offset : ℕ = 0x530
  let pipe_fds_offset : ℕ = 0x550
  let file_fd_offset : ℕ = 0x558
  let results_offset : ℕ = 0x580
  let status_offset : ℕ = 0x620
  let info_offset : ℕ = 0x640
  let reply_offset : ℕ = 0x680
  let child_name_va : ℕ = base + child_name_offset
  let hello_name_va : ℕ = base + hello_name_offset
  let request_va : ℕ = base + request_offset
  let pipe_fds_va : ℕ = base + pipe_fds_offset
  let file_fd_va : ℕ = base + file_fd_offset
  let results_va : ℕ = base + results_offset
  let status_va : ℕ = base + status_offset
  let info_va : ℕ = base + info_offset
  let reply_va : ℕ = base + reply_offset
  code1 ←
      mov_imm 0xBB 0
      +++ syscall 9
      +++ store results_va 0
      +++ mov_imm 0xBB 0x405000
      +++ syscall 9
      +++ store results_va 1
      +++ ok (0xC7 ∷ 0x05 ∷ [])
      +++ pack 4 0x403000
      +++ pack 4 0xDEADBEEF
      +++ mov_imm 0xBB 0x405000
      +++ mov_imm 0xB9 0x1000
      +++ mov_imm 0xBA 3
      +++ syscall 10
      +++ store results_va 2
      +++ ok (0xC7 ∷ 0x05 ∷ [])
      +++ pack 4 0x405000
      +++ pack 4 0xCAFEBABE
      +++ mov_imm 0xBB hello_name_va
      +++ mov_imm 0xB9 11
      +++ mov_imm 0xBA (bit_or open_read open_cloexec)
      +++ syscall 4
      +++ store results_va 3
      +++ ok (0xA3 ∷ [])
      +++ pack 4 file_fd_va
      +++ mov_imm 0xBB pipe_fds_va
      +++ syscall 18
      +++ store results_va 4
      +++ mov_imm 0xB8 7
      +++ ok (0x8B ∷ 0x1D ∷ [])
      +++ pack 4 (pipe_fds_va + 4)
      +++ mov_imm 0xB9 request_va
      +++ mov_imm 0xBA (length orch_request)
      +++ ok (0xCD ∷ 0x80 ∷ [])
      +++ store results_va 5
      +++ syscall 23
      +++ store results_va 6
      +++ mov_imm 0xB8 24
      +++ ok (0x8B ∷ 0x1D ∷ [])
      +++ pack 4 (results_va + 6 * 4)
      +++ mov_imm 0xB9 0x403000
      +++ ok (0xCD ∷ 0x80 ∷ [])
      +++ store results_va 7
      +++ mov_imm 0xB8 25
      +++ ok (0x8B ∷ 0x1D ∷ [])
      +++ pack 4 (results_va + 6 * 4)
      +++ mov_imm 0xB9 0x403000
      +++ mov_imm 0xBA 0xAABBCCDD
      +++ ok (0xCD ∷ 0x80 ∷ [])
      +++ store results_va 8
      +++ mov_imm 0xB8 24
      +++ ok (0x8B ∷ 0x1D ∷ [])
      +++ pack 4 (results_va + 6 * 4)
      +++ mov_imm 0xB9 0x403000
      +++ ok (0xCD ∷ 0x80 ∷ [])
      +++ store results_va 9
      +++ ok (0xA1 ∷ [])
      +++ pack 4 0x403000
      +++ store results_va 10
      +++ mov_imm 0xB8 28
      +++ ok (0x8B ∷ 0x1D ∷ [])
      +++ pack 4 (results_va + 6 * 4)
      +++ ok (0x89 ∷ 0xD9 ∷ 0xCD ∷ 0x80 ∷ [])
      +++ store results_va 11
      +++ mov_imm 0xB8 29
      +++ ok (0x8B ∷ 0x1D ∷ [])
      +++ pack 4 (results_va + 6 * 4)
      +++ ok (0xCD ∷ 0x80 ∷ [])
      +++ store results_va 12
      +++ mov_imm 0xB8 30
      +++ ok (0x8B ∷ 0x1D ∷ [])
      +++ pack 4 (results_va + 6 * 4)
      +++ mov_imm 0xB9 12
      +++ ok (0xCD ∷ 0x80 ∷ [])
      +++ store results_va 13
      +++ mov_imm 0xB8 26
      +++ ok (0x8B ∷ 0x1D ∷ [])
      +++ pack 4 (results_va + 6 * 4)
      +++ mov_imm 0xB9 child_name_va
      +++ mov_imm 0xBA 11
      +++ ok (0xCD ∷ 0x80 ∷ [])
      +++ store results_va 14
      +++ mov_imm 0xB8 31
      +++ ok (0x8B ∷ 0x1D ∷ [])
      +++ pack 4 (results_va + 6 * 4)
      +++ mov_imm 0xB9 info_va
      +++ ok (0xCD ∷ 0x80 ∷ [])
      +++ store results_va 15
      +++ mov_imm 0xB8 27
      +++ ok (0x8B ∷ 0x1D ∷ [])
      +++ pack 4 (results_va + 6 * 4)
      +++ mov_imm 0xB9 status_va
      +++ ok (0xCD ∷ 0x80 ∷ [])
      +++ store results_va 16
      +++ mov_imm 0xB8 5
      +++ ok (0x8B ∷ 0x1D ∷ [])
      +++ pack 4 pipe_fds_va
      +++ mov_imm 0xB9 reply_va
      +++ mov_imm 0xBA (length child_reply)
      +++ ok (0xCD ∷ 0x80 ∷ [])
      +++ store results_va 17
      +++ for_each (file_fd_va ∷ pipe_fds_va ∷ (pipe_fds_va + 4) ∷ []) (λ fd_va.
        mov_imm 0xB8 6
        +++ ok (0x8B ∷ 0x1D ∷ [])
        +++ pack 4 fd_va
        +++ ok (0xCD ∷ 0x80 ∷ [])
        +++ store results_va
            (18 + as_number (fd_va != file_fd_va) + as_number (fd_va == pipe_fds_va + 4)))
      +++ mov_imm 0xBB 0x405000
      +++ mov_imm 0xB9 0x1000
      +++ syscall 11
      +++ store results_va 21
      +++ mov_imm 0xBB 0x403000
      +++ syscall 9
      +++ store results_va 22
      +++ mov_imm 0xBB 112
      +++ syscall 3
      +++ ok (0xF4 ∷ [])
  raise_if (ltb child_name_offset (length code1))
      (runtime_error "ORCH.ELF code overlaps data: {}" (length code1 ∷ []))
  let segment0 = zeros (reply_offset + length child_reply)
  let segment1 = put segment0 0 code1
  let segment2 = put segment1 child_name_offset child_name
  let segment3 = put segment2 hello_name_offset hello_name
  let segment4 = put segment3 request_offset orch_request
  build_elf segment4 0x1000
