-- ===== src/Workloads/Simple.antt =====
-- scripts/create-legacy-fat12.py: the one-shot programs: INIT, CAT, the spinners, the faulting program and WRITER.
use zig_os.Base.{ℕ, ◌+◌, bit_or, ltb, [], ◌∷◌, length, set_slice}
use zig_os.Base.{Result, ok, raise_if, runtime_error, ◌>>=◌, ◌>>◌}
use zig_os.Bytes.{Bytes, zeros, put, pack}
use zig_os.Elf32.{base, build_elf}
use zig_os.Workloads.Emit.{
  hello_name, hello, init_message, open_read, open_write, open_create, open_truncate, open_append,
  notes_name, writer_base, writer_suffix, writer_result, ◌+++◌, mov_imm,
}

unfoldable pub build_init_elf : Result Bytes
build_init_elf = do
  let message_va : ℕ = base + 128
  let pid_va : ℕ = base + 112
  code1 ←
      ok (0xB8 ∷ 0x01 ∷ 0x00 ∷ 0x00 ∷ 0x00 ∷ [])
      +++ ok (0xBB ∷ [])
      +++ pack 4 message_va
      +++ ok (0xB9 ∷ [])
      +++ pack 4 (length init_message)
      +++ ok (0xCD ∷ 0x80 ∷ [])
      +++ ok (0xB8 ∷ 0x02 ∷ 0x00 ∷ 0x00 ∷ 0x00 ∷ 0xCD ∷ 0x80 ∷ [])
      +++ ok (0xA3 ∷ [])
      +++ pack 4 pid_va
      +++ ok (0xB8 ∷ 0x03 ∷ 0x00 ∷ 0x00 ∷ 0x00 ∷ [])
      +++ ok (0xBB ∷ 0x33 ∷ 0x00 ∷ 0x00 ∷ 0x00 ∷ 0xCD ∷ 0x80 ∷ 0xF4 ∷ [])
  let segment0 = zeros (128 + length init_message)
  let segment1 = put segment0 0 code1
  let segment2 = set_slice segment1 128 (length segment1) init_message
  build_elf segment2 0x200

unfoldable pub build_cat_elf : Result Bytes
build_cat_elf = do
  let name_offset : ℕ = 144
  let fd_offset : ℕ = 160
  let read_offset : ℕ = 164
  let buffer_offset : ℕ = 168
  let name_va : ℕ = base + name_offset
  let fd_va : ℕ = base + fd_offset
  let read_va : ℕ = base + read_offset
  let buffer_va : ℕ = base + buffer_offset
  code1 ←
      ok (0xB8 ∷ 0x04 ∷ 0x00 ∷ 0x00 ∷ 0x00 ∷ [])
      +++ ok (0xBB ∷ [])
      +++ pack 4 name_va
      +++ ok (0xB9 ∷ 0x0B ∷ 0x00 ∷ 0x00 ∷ 0x00 ∷ [])
      +++ ok (0xBA ∷ [])
      +++ pack 4 open_read
      +++ ok (0xCD ∷ 0x80 ∷ [])
      +++ ok (0xA3 ∷ [])
      +++ pack 4 fd_va
      +++ ok (0x89 ∷ 0xC3 ∷ [])
      +++ ok (0xB8 ∷ 0x05 ∷ 0x00 ∷ 0x00 ∷ 0x00 ∷ [])
      +++ ok (0xB9 ∷ [])
      +++ pack 4 buffer_va
      +++ ok (0xBA ∷ [])
      +++ pack 4 (length hello)
      +++ ok (0xCD ∷ 0x80 ∷ [])
      +++ ok (0xA3 ∷ [])
      +++ pack 4 read_va
      +++ ok (0x89 ∷ 0xC1 ∷ [])
      +++ ok (0xB8 ∷ 0x01 ∷ 0x00 ∷ 0x00 ∷ 0x00 ∷ [])
      +++ ok (0xBB ∷ [])
      +++ pack 4 buffer_va
      +++ ok (0xCD ∷ 0x80 ∷ [])
      +++ ok (0xB8 ∷ 0x06 ∷ 0x00 ∷ 0x00 ∷ 0x00 ∷ [])
      +++ ok (0x8B ∷ 0x1D ∷ [])
      +++ pack 4 fd_va
      +++ ok (0xCD ∷ 0x80 ∷ [])
      +++ ok (0xB8 ∷ 0x03 ∷ 0x00 ∷ 0x00 ∷ 0x00 ∷ [])
      +++ ok (0xBB ∷ 0x44 ∷ 0x00 ∷ 0x00 ∷ 0x00 ∷ 0xCD ∷ 0x80 ∷ 0xF4 ∷ [])
  raise_if (ltb name_offset (length code1)) (runtime_error "CAT.ELF code overlaps data" [])
  let segment0 = zeros (buffer_offset + length hello)
  let segment1 = put segment0 0 code1
  let segment2 = put segment1 name_offset hello_name
  build_elf segment2 0x200

unfoldable pub build_spin_elf : Result Bytes
build_spin_elf = build_elf (0xFF ∷ 0x05 ∷ 0x00 ∷ 0x01 ∷ 0x40 ∷ 0x00 ∷ 0xEB ∷ 0xF8 ∷ []) 0x200

unfoldable pub build_fault_elf : Result Bytes
build_fault_elf = build_elf (0xA1 ∷ 0x00 ∷ 0x00 ∷ 0x80 ∷ 0x00 ∷ 0xF4 ∷ []) 0x100

unfoldable pub build_writer_elf : Result Bytes
build_writer_elf = do
  let name_offset : ℕ = 0x180
  let fd_offset : ℕ = 0x190
  let write_result_offset : ℕ = 0x194
  let read_result_offset : ℕ = 0x198
  let payload_offset : ℕ = 0x200
  let verify_offset : ℕ = 0x600
  let name_va : ℕ = base + name_offset
  let fd_va : ℕ = base + fd_offset
  let payload_va : ℕ = base + payload_offset
  let verify_va : ℕ = base + verify_offset
  let suffix_va : ℕ = payload_va + length writer_base
  code1 ←
      mov_imm 0xB8 4
      +++ mov_imm 0xBB name_va
      +++ mov_imm 0xB9 11
      +++ mov_imm 0xBA (bit_or (bit_or (bit_or open_read open_write) open_create) open_truncate)
      +++ ok (0xCD ∷ 0x80 ∷ 0xA3 ∷ [])
      +++ pack 4 (base + fd_offset)
      +++ ok (0x89 ∷ 0xC3 ∷ [])
      +++ mov_imm 0xB8 7
      +++ mov_imm 0xB9 payload_va
      +++ mov_imm 0xBA (length writer_base)
      +++ ok (0xCD ∷ 0x80 ∷ 0xA3 ∷ [])
      +++ pack 4 (base + write_result_offset)
      +++ mov_imm 0xB8 8
      +++ ok (0x8B ∷ 0x1D ∷ [])
      +++ pack 4 (base + fd_offset)
      +++ mov_imm 0xB9 0
      +++ mov_imm 0xBA 0
      +++ ok (0xCD ∷ 0x80 ∷ [])
      +++ mov_imm 0xB8 5
      +++ ok (0x8B ∷ 0x1D ∷ [])
      +++ pack 4 (base + fd_offset)
      +++ mov_imm 0xB9 verify_va
      +++ mov_imm 0xBA (length writer_base)
      +++ ok (0xCD ∷ 0x80 ∷ 0xA3 ∷ [])
      +++ pack 4 (base + read_result_offset)
      +++ mov_imm 0xB8 6
      +++ ok (0x8B ∷ 0x1D ∷ [])
      +++ pack 4 (base + fd_offset)
      +++ ok (0xCD ∷ 0x80 ∷ [])
      +++ mov_imm 0xB8 4
      +++ mov_imm 0xBB name_va
      +++ mov_imm 0xB9 11
      +++ mov_imm 0xBA (bit_or open_write open_append)
      +++ ok (0xCD ∷ 0x80 ∷ 0xA3 ∷ [])
      +++ pack 4 (base + fd_offset)
      +++ ok (0x89 ∷ 0xC3 ∷ [])
      +++ mov_imm 0xB8 7
      +++ mov_imm 0xB9 suffix_va
      +++ mov_imm 0xBA (length writer_suffix)
      +++ ok (0xCD ∷ 0x80 ∷ [])
      +++ mov_imm 0xB8 6
      +++ ok (0x8B ∷ 0x1D ∷ [])
      +++ pack 4 (base + fd_offset)
      +++ ok (0xCD ∷ 0x80 ∷ [])
      +++ mov_imm 0xB8 3
      +++ mov_imm 0xBB 85
      +++ ok (0xCD ∷ 0x80 ∷ 0xF4 ∷ [])
  raise_if (ltb name_offset (length code1))
      (runtime_error "WRITER.ELF code overlaps data: {}" (length code1 ∷ []))
  let segment0 = zeros (payload_offset + length writer_result)
  let segment1 = put segment0 0 code1
  let segment2 = put segment1 name_offset notes_name
  let segment3 = put segment2 payload_offset writer_result
  build_elf segment3 0x1000
