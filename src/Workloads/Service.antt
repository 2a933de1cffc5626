-- ===== src/Workloads/Service.antt =====
-- scripts/create-legacy-fat12.py: the service program.
use zig_os.Base.{ℕ, ◌+◌, ◌*◌, bit_or, ltb, [], ◌∷◌, ◌++◌, length, ascii}
use zig_os.Base.{Result, ok, raise_if, runtime_error, ◌>>=◌, ◌>>◌}
use zig_os.Bytes.{Bytes, zeros, put, pack}
use zig_os.Elf32.{base, build_elf}
use zig_os.Workloads.Emit.{
  open_read, open_write, open_create, open_truncate, crlf, ◌+++◌, mov_imm, syscall, store, for_each,
}

unfoldable pub build_service_elf : Result Bytes
build_service_elf = do
  let old_name_offset : ℕ = 0x350
  let new_name_offset : ℕ = 0x360
  let payload_offset : ℕ = 0x380
  let pipe_fds_offset : ℕ = 0x3A0
  let stat_offset : ℕ = 0x3B0
  let results_offset : ℕ = 0x3D0
  let read_buffer_offset : ℕ = 0x440
  let old_name_va : ℕ = base + old_name_offset
  let new_name_va : ℕ = base + new_name_offset
  let payload_va : ℕ = base + payload_offset
  let pipe_fds_va : ℕ = base + pipe_fds_offset
  let stat_va : ℕ = base + stat_offset
  let results_va : ℕ = base + results_offset
  let read_buffer_va : ℕ = base + read_buffer_offset
  let payload = (ascii "SERVICE-PIPE-OK!" ++ crlf)
  code1 ←
      mov_imm 0xBB 0
      +++ syscall 9
      +++ store results_va 0
      +++ mov_imm 0xBB 0x405000
      +++ syscall 9
      +++ store results_va 1
      +++ ok (0xC7 ∷ 0x05 ∷ [])
      +++ pack 4 0x403000
      +++ pack 4 0xDEADBEEF
      +++ mov_imm 0xBB 0x405000
      +++ mov_imm 0xB9 0x1000
      +++ mov_imm 0xBA 3
      +++ syscall 10
      +++ store results_va 2
      +++ ok (0xC7 ∷ 0x05 ∷ [])
      +++ pack 4 0x405000
      +++ pack 4 0xCAFEBABE
      +++ mov_imm 0xBB 0x405000
      +++ mov_imm 0xB9 0x1000
      +++ syscall 11
      +++ store results_va 3
      +++ syscall 12
      +++ store results_va 4
      +++ syscall 13
      +++ store results_va 5
      +++ mov_imm 0xBB 2
      +++ syscall 14
      +++ store results_va 6
      +++ syscall 13
      +++ store results_va 7
      +++ mov_imm 0xBB old_name_va
      +++ mov_imm 0xB9 11
      +++ mov_imm 0xBA (bit_or (bit_or (bit_or open_read open_write) open_create) open_truncate)
      +++ syscall 4
      +++ ok (0xA3 ∷ [])
      +++ pack 4 (pipe_fds_va + 8)
      +++ ok (0x89 ∷ 0xC3 ∷ [])
      +++ mov_imm 0xB9 payload_va
      +++ mov_imm 0xBA (length payload)
      +++ syscall 7
      +++ store results_va 8
      +++ mov_imm 0xB8 6
      +++ ok (0x8B ∷ 0x1D ∷ [])
      +++ pack 4 (pipe_fds_va + 8)
      +++ ok (0xCD ∷ 0x80 ∷ [])
      +++ mov_imm 0xBB old_name_va
      +++ mov_imm 0xB9 11
      +++ mov_imm 0xBA stat_va
      +++ syscall 15
      +++ store results_va 9
      +++ mov_imm 0xBB old_name_va
      +++ mov_imm 0xB9 11
      +++ mov_imm 0xBA new_name_va
      +++ mov_imm 0xBE 11
      +++ syscall 16
      +++ store results_va 10
      +++ mov_imm 0xBB new_name_va
      +++ mov_imm 0xB9 11
      +++ mov_imm 0xBA stat_va
      +++ syscall 15
      +++ store results_va 11
      +++ mov_imm 0xBB new_name_va
      +++ mov_imm 0xB9 11
      +++ syscall 17
      +++ store results_va 12
      +++ mov_imm 0xBB pipe_fds_va
      +++ syscall 18
      +++ store results_va 13
      +++ mov_imm 0xB8 7
      +++ ok (0x8B ∷ 0x1D ∷ [])
      +++ pack 4 (pipe_fds_va + 4)
      +++ mov_imm 0xB9 payload_va
      +++ mov_imm 0xBA (length payload)
      +++ ok (0xCD ∷ 0x80 ∷ [])
      +++ store results_va 14
      +++ mov_imm 0xB8 19
      +++ ok (0x8B ∷ 0x1D ∷ [])
      +++ pack 4 pipe_fds_va
      +++ ok (0xCD ∷ 0x80 ∷ [])
      +++ store results_va 15
      +++ mov_imm 0xB8 20
      +++ ok (0x8B ∷ 0x1D ∷ [])
      +++ pack 4 (pipe_fds_va + 4)
      +++ mov_imm 0xB9 7
      +++ ok (0xCD ∷ 0x80 ∷ [])
      +++ store results_va 16
      +++ mov_imm 0xB8 5
      +++ ok (0x8B ∷ 0x1D ∷ [])
      +++ pack 4 (results_va + 15 * 4)
      +++ mov_imm 0xB9 read_buffer_va
      +++ mov_imm 0xBA (length payload)
      +++ ok (0xCD ∷ 0x80 ∷ [])
      +++ store results_va 17
      +++ for_each (pipe_fds_va ∷ (pipe_fds_va + 4) ∷ []) (λ fd_address.
        mov_imm 0xB8 6 +++ ok (0x8B ∷ 0x1D ∷ []) +++ pack 4 fd_address +++ ok (0xCD ∷ 0x80 ∷ []))
      +++ mov_imm 0xB8 6
      +++ mov_imm 0xBB 7
      +++ ok (0xCD ∷ 0x80 ∷ [])
      +++ mov_imm 0xB8 5
      +++ ok (0x8B ∷ 0x1D ∷ [])
      +++ pack 4 (results_va + 15 * 4)
      +++ mov_imm 0xB9 read_buffer_va
      +++ mov_imm 0xBA 1
      +++ ok (0xCD ∷ 0x80 ∷ [])
      +++ store results_va 18
      +++ mov_imm 0xB8 6
      +++ ok (0x8B ∷ 0x1D ∷ [])
      +++ pack 4 (results_va + 15 * 4)
      +++ ok (0xCD ∷ 0x80 ∷ [])
      +++ syscall 2
      +++ store results_va 19
      +++ ok (0x89 ∷ 0xC3 ∷ [])
      +++ mov_imm 0xB9 9
      +++ syscall 21
      +++ store results_va 20
      +++ syscall 22
      +++ store results_va 21
      +++ mov_imm 0xBB 0x403000
      +++ syscall 9
      +++ store results_va 22
      +++ mov_imm 0xBB 102
      +++ syscall 3
      +++ ok (0xF4 ∷ [])
  raise_if (ltb old_name_offset (length code1))
      (runtime_error "SERVICE.ELF code overlaps data: {}" (length code1 ∷ []))
  let segment0 = zeros (read_buffer_offset + length payload)
  let segment1 = put segment0 0 code1
  let segment2 = put segment1 old_name_offset (ascii "TEMP2   BIN")
  let segment3 = put segment2 new_name_offset (ascii "RENAMED BIN")
  let segment4 = put segment3 payload_offset payload
  build_elf segment4 0x1000
