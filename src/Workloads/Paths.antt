-- ===== src/Workloads/Paths.antt =====
-- scripts/create-legacy-fat12.py: the directory program.
use zig_os.Base.{ℕ, ◌+◌, ltb, [], ◌∷◌, length, ascii}
use zig_os.Base.{Result, ok, raise_if, runtime_error, ◌>>=◌, ◌>>◌}
use zig_os.Bytes.{Bytes, zeros, put}
use zig_os.Elf32.{base, build_elf}
use zig_os.Workloads.Emit.{path_payload, ◌+++◌, mov_imm, syscall, store, path_args, put_each}

unfoldable pub build_paths_elf : Result Bytes
build_paths_elf = do
  let at_root : ℕ = 0x600
  let at_home : ℕ = 0x610
  let at_docs : ℕ = 0x620
  let at_dot_docs : ℕ = 0x630
  let at_empty : ℕ = 0x640
  let at_temp : ℕ = 0x650
  let at_dot_temp : ℕ = 0x660
  let at_moved_up : ℕ = 0x670
  let at_archive : ℕ = 0x680
  let at_moved : ℕ = 0x690
  let at_log_target : ℕ = 0x6A0
  let at_renamed : ℕ = 0x6B0
  let at_scratch : ℕ = 0x6C0
  let at_reuse : ℕ = 0x6D8
  let at_log_abs : ℕ = 0x6F0
  let at_results : ℕ = 0x740
  let at_cwd0 : ℕ = 0x7C0
  let at_cwd1 : ℕ = 0x7F0
  let at_cwd2 : ℕ = 0x820
  let at_stat : ℕ = 0x850
  let at_list0 : ℕ = 0x880
  let at_list1 : ℕ = 0x900
  let at_payload : ℕ = 0xA00
  let at_readback : ℕ = 0xC60
  let text_root = ascii "/"
  let text_home = ascii "/HOME"
  let text_docs = ascii "DOCS"
  let text_dot_docs = ascii "./DOCS"
  let text_empty = ascii "../EMPTY"
  let text_temp = ascii "TEMP.BIN"
  let text_dot_temp = ascii "./TEMP.BIN"
  let text_moved_up = ascii "../MOVED.BIN"
  let text_archive = ascii "ARCHIVE"
  let text_moved = ascii "MOVED.BIN"
  let text_log_target = ascii "ARCHIVE/LOG.TXT"
  let text_renamed = ascii "RENAMED.BIN"
  let text_scratch = ascii "DOCS/SCRATCH.BIN"
  let text_reuse = ascii "DOCS/REUSE.BIN"
  let text_log_abs = ascii "/HOME//ARCHIVE///LOG.TXT"
  let payload = path_payload
  code1 ←
      mov_imm 0xBB (base + at_cwd0)
      +++ mov_imm 0xB9 48
      +++ syscall 32
      +++ store (base + at_results) 0
      +++ path_args (base + at_home) text_home
      +++ syscall 34
      +++ store (base + at_results) 1
      +++ path_args (base + at_home) text_home
      +++ syscall 33
      +++ store (base + at_results) 2
      +++ mov_imm 0xBB (base + at_cwd1)
      +++ mov_imm 0xB9 48
      +++ syscall 32
      +++ store (base + at_results) 3
      +++ path_args (base + at_docs) text_docs
      +++ syscall 34
      +++ store (base + at_results) 4
      +++ path_args (base + at_dot_docs) text_dot_docs
      +++ syscall 33
      +++ store (base + at_results) 5
      +++ mov_imm 0xBB (base + at_cwd2)
      +++ mov_imm 0xB9 48
      +++ syscall 32
      +++ store (base + at_results) 6
      +++ path_args (base + at_empty) text_empty
      +++ syscall 34
      +++ store (base + at_results) 7
      +++ path_args (base + at_empty) text_empty
      +++ syscall 35
      +++ store (base + at_results) 8
      +++ path_args (base + at_temp) text_temp
      +++ mov_imm 0xBA (base + at_payload)
      +++ mov_imm 0xBE (length payload)
      +++ mov_imm 0xBF 3
      +++ syscall 37
      +++ store (base + at_results) 9
      +++ path_args (base + at_dot_temp) text_dot_temp
      +++ mov_imm 0xBA (base + at_stat)
      +++ syscall 36
      +++ store (base + at_results) 10
      +++ path_args (base + at_temp) text_temp
      +++ mov_imm 0xBA (base + at_readback)
      +++ mov_imm 0xBE (length payload)
      +++ syscall 38
      +++ store (base + at_results) 11
      +++ path_args (base + at_temp) text_temp
      +++ mov_imm 0xBA (base + at_renamed)
      +++ mov_imm 0xBE (length text_renamed)
      +++ syscall 39
      +++ store (base + at_results) 12
      +++ path_args (base + at_renamed) text_renamed
      +++ mov_imm 0xBA (base + at_moved_up)
      +++ mov_imm 0xBE (length text_moved_up)
      +++ syscall 39
      +++ store (base + at_results) 13
      +++ path_args (base + at_empty) text_empty
      +++ syscall 33
      +++ store (base + at_results) 14
      +++ path_args (base + at_root) text_root
      +++ syscall 33
      +++ store (base + at_results) 15
      +++ path_args (base + at_home) text_home
      +++ syscall 33
      +++ store (base + at_results) 16
      +++ path_args (base + at_archive) text_archive
      +++ syscall 34
      +++ store (base + at_results) 17
      +++ path_args (base + at_moved) text_moved
      +++ mov_imm 0xBA (base + at_log_target)
      +++ mov_imm 0xBE (length text_log_target)
      +++ syscall 39
      +++ store (base + at_results) 18
      +++ path_args (base + at_archive) text_archive
      +++ syscall 35
      +++ store (base + at_results) 19
      +++ mov_imm 0xBB (base + at_home)
      +++ mov_imm 0xB9 (length text_home)
      +++ mov_imm 0xBA (base + at_list0)
      +++ mov_imm 0xBE 128
      +++ syscall 41
      +++ store (base + at_results) 20
      +++ path_args (base + at_archive) text_archive
      +++ mov_imm 0xBA (base + at_list1)
      +++ mov_imm 0xBE 128
      +++ syscall 41
      +++ store (base + at_results) 21
      +++ path_args (base + at_log_abs) text_log_abs
      +++ mov_imm 0xBA (base + at_stat)
      +++ syscall 36
      +++ store (base + at_results) 22
      +++ path_args (base + at_log_abs) text_log_abs
      +++ mov_imm 0xBA (base + at_readback)
      +++ mov_imm 0xBE (length payload)
      +++ syscall 38
      +++ store (base + at_results) 23
      +++ path_args (base + at_scratch) text_scratch
      +++ mov_imm 0xBA (base + at_payload)
      +++ mov_imm 0xBE 1
      +++ mov_imm 0xBF 3
      +++ syscall 37
      +++ store (base + at_results) 24
      +++ path_args (base + at_scratch) text_scratch
      +++ syscall 40
      +++ store (base + at_results) 25
      +++ path_args (base + at_reuse) text_reuse
      +++ mov_imm 0xBA (base + at_payload)
      +++ mov_imm 0xBE 1
      +++ mov_imm 0xBF 3
      +++ syscall 37
      +++ store (base + at_results) 26
      +++ path_args (base + at_reuse) text_reuse
      +++ syscall 40
      +++ store (base + at_results) 27
      +++ path_args (base + at_root) text_root
      +++ syscall 33
      +++ store (base + at_results) 28
      +++ mov_imm 0xBB (base + at_cwd0)
      +++ mov_imm 0xB9 48
      +++ syscall 32
      +++ store (base + at_results) 29
      +++ mov_imm 0xBB 114
      +++ syscall 3
      +++ ok (0xF4 ∷ [])
  raise_if (ltb at_root (length code1))
      (runtime_error "PATHS.ELF code overlaps data: {}" (length code1 ∷ []))
  let segment0 = zeros (at_readback + length payload)
  let segment1 = put segment0 0 code1
  let segment2 =
      put_each
        ((at_root, text_root)
          ∷ (at_home, text_home)
          ∷ (at_docs, text_docs)
          ∷ (at_dot_docs, text_dot_docs)
          ∷ (at_empty, text_empty)
          ∷ (at_temp, text_temp)
          ∷ (at_dot_temp, text_dot_temp)
          ∷ (at_moved_up, text_moved_up)
          ∷ (at_archive, text_archive)
          ∷ (at_moved, text_moved)
          ∷ (at_log_target, text_log_target)
          ∷ (at_renamed, text_renamed)
          ∷ (at_scratch, text_scratch)
          ∷ (at_reuse, text_reuse)
          ∷ (at_log_abs, text_log_abs)
          ∷ [])
        segment1
  let segment3 = put segment2 at_payload payload
  build_elf segment3 0x1000
