-- ===== src/Workloads/Tasks.antt =====
-- scripts/create-legacy-fat12.py: the asynchronous workers, their parent, and the reusable and executed images.
use zig_os.Base.{ℕ, ◌+◌, ◌*◌, ltb, [], ◌∷◌, length, ascii}
use zig_os.Base.{Result, ok, raise_if, runtime_error, ◌>>=◌, ◌>>◌}
use zig_os.Bytes.{Bytes, zeros, put, pack}
use zig_os.Elf32.{base, build_elf}
use zig_os.Workloads.Emit.{
  leaf_name, worka_name, workb_name, ◌+++◌, mov_imm, syscall, store, load_ebx, for_range,
  pack_difference_into,
}

unfoldable pub build_worka_elf : Result Bytes
build_worka_elf = do
  let leaf_name_offset : ℕ = 0x200
  let results_offset : ℕ = 0x220
  let leaf_name_va : ℕ = base + leaf_name_offset
  let results_va : ℕ = base + results_offset
  code1 ←
      syscall 2
      +++ store results_va 0
      +++ syscall 12
      +++ store results_va 1
      +++ mov_imm 0xBB leaf_name_va
      +++ mov_imm 0xB9 11
      +++ syscall 42
      +++ store results_va 2
      +++ syscall 43
      +++ store results_va 3
      +++ mov_imm 0xBB 2
      +++ syscall 44
      +++ store results_va 4
      +++ syscall 12
      +++ store results_va 5
      +++ mov_imm 0xBB 129
      +++ syscall 3
      +++ ok (0xF4 ∷ [])
  raise_if (ltb leaf_name_offset (length code1))
      (runtime_error "WORKA.ELF code overlaps data: {}" (length code1 ∷ []))
  let segment0 = zeros (results_offset + 6 * 4)
  let segment1 = put segment0 0 code1
  let segment2 = put segment1 leaf_name_offset leaf_name
  build_elf segment2 0x1000

unfoldable pub build_workb_elf : Result Bytes
build_workb_elf = do
  let results_offset : ℕ = 0x200
  let results_va : ℕ = base + results_offset
  code1 ←
      syscall 2
      +++ store results_va 0
      +++ syscall 12
      +++ store results_va 1
      +++ syscall 43
      +++ store results_va 2
      +++ mov_imm 0xB9 0x5F5E100
  let spin = length code1
  code2 ← ok code1 +++ ok (0x49 ∷ [])
  let jnz_spin = length code2
  code3 ← ok code2 +++ ok (0x0F ∷ 0x85 ∷ 0x00 ∷ 0x00 ∷ 0x00 ∷ 0x00 ∷ [])
  code4 ← pack_difference_into code3 (jnz_spin + 2) spin (jnz_spin + 6)
  code5 ←
      ok code4
      +++ syscall 22
      +++ store results_va 3
      +++ mov_imm 0xBB 143
      +++ syscall 3
      +++ ok (0xF4 ∷ [])
  raise_if (ltb results_offset (length code5))
      (runtime_error "WORKB.ELF code overlaps data: {}" (length code5 ∷ []))
  let segment0 = zeros (results_offset + 4 * 4)
  let segment1 = put segment0 0 code5
  build_elf segment1 0x1000

unfoldable pub build_leaf_elf : Result Bytes
build_leaf_elf = do
  let results_offset : ℕ = 0x180
  let results_va : ℕ = base + results_offset
  code1 ←
      syscall 2
      +++ store results_va 0
      +++ syscall 12
      +++ store results_va 1
      +++ for_range 0 10 (λ index. mov_imm 0xBB 20 +++ syscall 44 +++ store results_va (2 + index))
      +++ syscall 12
      +++ store results_va 12
      +++ mov_imm 0xBB 131
      +++ syscall 3
      +++ ok (0xF4 ∷ [])
  raise_if (ltb results_offset (length code1))
      (runtime_error "LEAF.ELF code overlaps data: {}" (length code1 ∷ []))
  let segment0 = zeros (results_offset + 13 * 4)
  let segment1 = put segment0 0 code1
  build_elf segment1 0x1000

unfoldable pub build_async_elf : Result Bytes
build_async_elf = do
  let at_worka : ℕ = 0x600
  let at_workb : ℕ = 0x610
  let at_missing : ℕ = 0x620
  let at_results : ℕ = 0x680
  let at_status_a_poll : ℕ = 0x740
  let at_status_a_wait : ℕ = 0x760
  let at_status_b : ℕ = 0x780
  let at_status_leaf_before : ℕ = 0x7A0
  let at_info_leaf : ℕ = 0x7C0
  let at_status_leaf_after : ℕ = 0x7E0
  let at_scratch : ℕ = 0x800
  let results_va : ℕ = base + at_results
  code1 ←
      mov_imm 0xBB (base + at_worka)
      +++ mov_imm 0xB9 11
      +++ syscall 42
      +++ store results_va 0
      +++ mov_imm 0xBB (base + at_workb)
      +++ mov_imm 0xB9 11
      +++ syscall 42
      +++ store results_va 1
      +++ ok (0xA1 ∷ [])
      +++ pack 4 (results_va + 4)
      +++ ok (0x40 ∷ [])
      +++ store results_va 2
      +++ load_ebx (results_va + 0 * 4)
      +++ mov_imm 0xB9 (base + at_status_a_poll)
      +++ syscall 45
      +++ store results_va 3
      +++ mov_imm 0xBB (base + at_status_a_wait)
      +++ syscall 47
      +++ store results_va 4
      +++ load_ebx (results_va + 2 * 4)
      +++ mov_imm 0xB9 (base + at_info_leaf)
      +++ syscall 31
      +++ store results_va 5
      +++ load_ebx (results_va + 2 * 4)
      +++ mov_imm 0xB9 (base + at_status_leaf_before)
      +++ syscall 45
      +++ store results_va 6
      +++ load_ebx (results_va + 1 * 4)
      +++ mov_imm 0xB9 15
      +++ syscall 21
      +++ store results_va 7
      +++ load_ebx (results_va + 1 * 4)
      +++ mov_imm 0xB9 (base + at_status_b)
      +++ syscall 46
      +++ store results_va 8
      +++ syscall 48
      +++ store results_va 9
      +++ load_ebx (results_va + 2 * 4)
      +++ mov_imm 0xB9 (base + at_status_leaf_after)
      +++ syscall 45
      +++ store results_va 10
      +++ load_ebx (results_va + 0 * 4)
      +++ mov_imm 0xB9 (base + at_scratch)
      +++ syscall 46
      +++ store results_va 11
      +++ mov_imm 0xBB (base + at_scratch)
      +++ syscall 47
      +++ store results_va 12
      +++ mov_imm 0xBB (base + at_missing)
      +++ mov_imm 0xB9 11
      +++ syscall 42
      +++ store results_va 13
      +++ mov_imm 0xBB 0xFFFF
      +++ mov_imm 0xB9 (base + at_scratch)
      +++ syscall 45
      +++ store results_va 14
      +++ syscall 2
      +++ store results_va 15
      +++ syscall 12
      +++ store results_va 16
      +++ mov_imm 0xBB 115
      +++ syscall 3
      +++ ok (0xF4 ∷ [])
  raise_if (ltb at_worka (length code1))
      (runtime_error "ASYNC.ELF code overlaps data: {}" (length code1 ∷ []))
  let segment0 = zeros (at_scratch + 32)
  let segment1 = put segment0 0 code1
  let segment2 = put segment1 at_worka worka_name
  let segment3 = put segment2 at_workb workb_name
  let segment4 = put segment3 at_missing (ascii "MISSING ELF")
  build_elf segment4 0x1000

unfoldable pub build_reuse_elf : Result Bytes
build_reuse_elf = do
  let results_offset : ℕ = 0x180
  let results_va : ℕ = base + results_offset
  code1 ←
      syscall 52
      +++ store results_va 0
      +++ syscall 2
      +++ store results_va 1
      +++ syscall 12
      +++ store results_va 2
      +++ syscall 22
      +++ store results_va 3
      +++ syscall 43
      +++ store results_va 4
      +++ mov_imm 0xBB 1
      +++ syscall 44
      +++ store results_va 5
      +++ mov_imm 0xBB 144
      +++ syscall 3
      +++ ok (0xF4 ∷ [])
  raise_if (ltb results_offset (length code1))
      (runtime_error "REUSE.ELF code overlaps data: {}" (length code1 ∷ []))
  let segment0 = zeros (results_offset + 6 * 4)
  let segment1 = put segment0 0 code1
  build_elf segment1 0x1000

unfoldable pub build_exec_elf : ℕ → ℕ → Result Bytes
build_exec_elf exit_code sleep_ticks = do
  let results_offset : ℕ = 0x180
  let results_va : ℕ = base + results_offset
  code1 ←
      syscall 52
      +++ store results_va 0
      +++ syscall 2
      +++ store results_va 1
      +++ syscall 12
      +++ store results_va 2
      +++ mov_imm 0xBB 0
      +++ syscall 29
      +++ store results_va 3
      +++ mov_imm 0xBB sleep_ticks
      +++ syscall 44
      +++ store results_va 4
      +++ mov_imm 0xBB exit_code
      +++ syscall 3
      +++ ok (0xF4 ∷ [])
  raise_if (ltb results_offset (length code1))
      (runtime_error "exec workload overlaps data: {}" (length code1 ∷ []))
  let segment0 = zeros (results_offset + 5 * 4)
  let segment1 = put segment0 0 code1
  build_elf segment1 0x1000
