-- ===== src/Workloads/Forker.antt =====
-- scripts/create-legacy-fat12.py: the forking program and the generation runner.
use zig_os.Base.{ℕ, ◌+◌, ◌*◌, bit_or, ltb, ◌==◌, [], ◌∷◌, length, ascii}
use zig_os.Base.{Result, ok, raise_if, runtime_error, ◌>>=◌, ◌>>◌}
use zig_os.Bytes.{Bytes, zeros, put}
use zig_os.Elf32.{base, build_elf}
use zig_os.Workloads.Emit.{
  hello_name, open_read, open_cloexec, reuse_name, forker_name, fault_name, execa_name, execb_name,
  ◌+++◌, mov_imm, syscall, store, load_ebx, spawn, for_range, when, pack_difference_into,
}

unfoldable pub build_forker_elf : Result Bytes
build_forker_elf = do
  let at_hello : ℕ = 0x300
  let at_missing : ℕ = 0x310
  let at_execa : ℕ = 0x320
  let at_execb : ℕ = 0x330
  let at_pipe : ℕ = 0x340
  let at_results : ℕ = 0x360
  let results_va : ℕ = base + at_results
  code1 ←
      mov_imm 0xBB (base + at_hello)
      +++ mov_imm 0xB9 11
      +++ mov_imm 0xBA open_read
      +++ syscall 4
      +++ store results_va 0
      +++ mov_imm 0xBB (base + at_hello)
      +++ mov_imm 0xB9 11
      +++ mov_imm 0xBA (bit_or open_read open_cloexec)
      +++ syscall 4
      +++ store results_va 1
      +++ mov_imm 0xBB (base + at_pipe)
      +++ syscall 18
      +++ store results_va 2
      +++ syscall 50
      +++ store results_va 3
      +++ ok (0x85 ∷ 0xC0 ∷ [])
  let child_jump = length code1
  code2 ←
      ok code1
      +++ ok (0x0F ∷ 0x84 ∷ 0x00 ∷ 0x00 ∷ 0x00 ∷ 0x00 ∷ [])
      +++ mov_imm 0xBB (base + at_missing)
      +++ mov_imm 0xB9 11
      +++ syscall 51
      +++ store results_va 4
      +++ mov_imm 0xBB (base + at_execa)
      +++ mov_imm 0xB9 11
      +++ syscall 51
      +++ ok (0xF4 ∷ [])
  let child_target = length code2
  code3 ← pack_difference_into code2 (child_jump + 2) child_target (child_jump + 6)
  code4 ←
      ok code3
      +++ mov_imm 0xBB (base + at_missing)
      +++ mov_imm 0xB9 11
      +++ syscall 51
      +++ store results_va 5
      +++ mov_imm 0xBB (base + at_execb)
      +++ mov_imm 0xB9 11
      +++ syscall 51
      +++ ok (0xF4 ∷ [])
  raise_if (ltb at_hello (length code4))
      (runtime_error "FORKER.ELF code overlaps data: {}" (length code4 ∷ []))
  let segment0 = zeros (at_results + 6 * 4)
  let segment1 = put segment0 0 code4
  let segment2 = put segment1 at_hello hello_name
  let segment3 = put segment2 at_missing (ascii "MISSING ELF")
  let segment4 = put segment3 at_execa execa_name
  let segment5 = put segment4 at_execb execb_name
  build_elf segment5 0x1000

unfoldable pub build_genrun_elf : Result Bytes
build_genrun_elf = do
  let at_reuse : ℕ = 0x700
  let at_forker : ℕ = 0x710
  let at_fault : ℕ = 0x720
  let at_missing : ℕ = 0x730
  let at_results : ℕ = 0x800
  let at_status : ℕ = 0xA00
  let results_va : ℕ = base + at_results
  let status_va : ℕ = base + at_status
  code1 ←
      syscall 2
      +++ store results_va 0
      +++ syscall 12
      +++ store results_va 1
      +++ syscall 52
      +++ store results_va 2
      +++ for_range 0 6 (λ generation.
        spawn (base + at_reuse) results_va (3 + generation)
        +++ load_ebx (results_va + (3 + generation) * 4)
        +++ mov_imm 0xB9 status_va
        +++ syscall 53
        +++ store results_va (9 + generation)
        +++ when (generation == 2) (
            load_ebx (results_va + (3 + generation) * 4)
            +++ mov_imm 0xB9 7
            +++ syscall 55
            +++ store results_va 21)
        +++ load_ebx (results_va + (3 + generation) * 4)
        +++ mov_imm 0xB9 status_va
        +++ syscall 54
        +++ store results_va (15 + generation)
        +++ when (generation == 0) (
            load_ebx (results_va + (3 + generation) * 4)
            +++ mov_imm 0xB9 status_va
            +++ syscall 53
            +++ store results_va 22)
        +++ when (generation == 5) (
            load_ebx (results_va + (3 + generation) * 4)
            +++ mov_imm 0xB9 status_va
            +++ syscall 53
            +++ store results_va 23))
      +++ spawn (base + at_missing) results_va 24
      +++ spawn (base + at_forker) results_va 25
      +++ load_ebx (results_va + 25 * 4)
      +++ mov_imm 0xB9 status_va
      +++ syscall 54
      +++ store results_va 26
      +++ syscall 48
      +++ store results_va 27
      +++ load_ebx (results_va + 25 * 4)
      +++ mov_imm 0xB9 status_va
      +++ syscall 53
      +++ store results_va 28
      +++ spawn (base + at_fault) results_va 29
      +++ load_ebx (results_va + 29 * 4)
      +++ mov_imm 0xB9 status_va
      +++ syscall 54
      +++ store results_va 30
      +++ load_ebx (results_va + 29 * 4)
      +++ mov_imm 0xB9 9
      +++ syscall 55
      +++ store results_va 31
      +++ load_ebx (results_va + 29 * 4)
      +++ mov_imm 0xB9 status_va
      +++ syscall 54
      +++ store results_va 32
      +++ spawn (base + at_reuse) results_va 33
      +++ load_ebx (results_va + 33 * 4)
      +++ mov_imm 0xB9 status_va
      +++ syscall 54
      +++ store results_va 34
      +++ syscall 2
      +++ store results_va 35
      +++ syscall 12
      +++ store results_va 36
      +++ mov_imm 0xBB 116
      +++ syscall 3
      +++ ok (0xF4 ∷ [])
  raise_if (ltb at_reuse (length code1))
      (runtime_error "GENRUN.ELF code overlaps data: {}" (length code1 ∷ []))
  let segment0 = zeros (at_status + 48)
  let segment1 = put segment0 0 code1
  let segment2 = put segment1 at_reuse reuse_name
  let segment3 = put segment2 at_forker forker_name
  let segment4 = put segment3 at_fault fault_name
  let segment5 = put segment4 at_missing (ascii "MISSING ELF")
  build_elf segment5 0x1000
