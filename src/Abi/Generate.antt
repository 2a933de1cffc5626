-- ===== src/Abi/Generate.antt =====
-- `generate`, `generate_c` and `generate_c_abi_description` of scripts/generate-abi.py.
use zig_os.Base.{ℕ, ◌+◌, [], ◌∷◌, ◌++◌, slice, drop, ascii, Option, none, some, if◌then◌else◌}
use zig_os.Base.{Result, ok, raise, value_error, ◌>>=◌}
use zig_os.Bytes.{Bytes}
use zig_os.Legacy.Content.{starts_with}
use zig_os.Abi.{Spec, join, syscall_count}
use zig_os.Abi.Zig.{zig_lines}
use zig_os.Abi.Nasm.{nasm_lines}
use zig_os.Abi.Sdk.{sdk_lines}
use zig_os.Abi.Constants.{c_constants}
use zig_os.Abi.Declarations.{c_declarations}

pub record Generated : Type 0 where
  pub zig : Bytes
  pub nasm : Bytes
  pub sdk : Bytes

unfoldable pub generate : Spec → Result Generated
generate spec = do
  count ← syscall_count spec.syscalls
  ok (record {
    zig = join (zig_lines spec count);
    nasm = join (nasm_lines spec count);
    sdk = join (zig_lines spec count ++ sdk_lines);
  })

unfoldable pub generate_c : Spec → Result Bytes
generate_c spec = do
  count ← syscall_count spec.syscalls
  ok (join (c_constants spec count ++ c_declarations))

-- `text.find(needle)`, from the place `index` of the text on.
unfoldable pub find_at : Bytes → ℕ → Bytes → Option ℕ
find_at needle index [] = if starts_with needle [] then some index else none
find_at needle index (b ∷ text) =
    let later = find_at needle (index + 1) text in
    if starts_with needle (b ∷ text) then some index else later

-- `text.find(needle, start)`
unfoldable pub find_from : Bytes → Bytes → ℕ → Option ℕ
find_from text needle start = find_at needle start (drop start text)

abbrev pub start_marker : Bytes
start_marker = ascii "#ifndef ZIGOS_ABI_H\n#define ZIGOS_ABI_H\n"

abbrev pub end_marker : Bytes
end_marker = ascii "#endif /* ZIGOS_ABI_H */\n"

abbrev pub markers_missing : Result Bytes
markers_missing = raise (value_error "generated C ABI description markers missing" [])

abbrev pub generated_notice : Bytes
generated_notice =
    ascii "/* Generated by scripts/generate-abi.py from abi/zigos-abi.json. Do not edit. */\n"

abbrev pub entry_point : Bytes
entry_point =
    ascii "#ifdef __cplusplus\nextern \"C\" {\n#endif\n"
    ++ (ascii
          "uint32_t zigos_main(size_t argc, const uintptr_t *argv, const uintptr_t *envp, const zigos_auxv_entry *auxv);\n"
        ++ ascii "#ifdef __cplusplus\n}\n#endif\n\n")

-- The description cut out of the whole header, at the end that was found.
unfoldable pub cut_end : Bytes → ℕ → Option ℕ → Result Bytes
cut_end full start none = markers_missing
cut_end full start (some end) =
    ok (generated_notice ++ (slice full start end ++ (entry_point ++ end_marker)))

-- (`full.find(end_marker, -1)` is not written out: where the start is missing, the code raises whatever
-- that call returns.)
unfoldable pub cut_start : Bytes → Option ℕ → Result Bytes
cut_start full none = markers_missing
cut_start full (some start) = cut_end full start (find_from full end_marker start)

unfoldable pub cut_description : Bytes → Result Bytes
cut_description full = cut_start full (find_from full start_marker 0)

unfoldable pub generate_c_abi_description : Spec → Result Bytes
generate_c_abi_description spec = do full ← generate_c spec; cut_description full
