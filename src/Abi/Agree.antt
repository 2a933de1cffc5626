-- ===== src/Abi/Agree.antt =====
-- The system calls and the error numbers have the same values in all texts.
use zig_os.Base.{◌≡◌, ◌≢◌, refl, sym, [], ◌∷◌, ◌++◌, ascii, take, drop, ok}
use zig_os.Bytes.{Bytes}
use zig_os.Abi.{ℤ, Group, Spec, zig_name, join, show_int, upper}
use zig_os.Abi.Zig.{zig_parts, zig_lines}
use zig_os.Abi.Nasm.{nasm_parts, nasm_lines}
use zig_os.Abi.Sdk.{sdk_lines}
use zig_os.Abi.Constants.{c_parts, c_constants}
use zig_os.Abi.Declarations.{c_declarations}
use zig_os.Abi.Generate.{Generated, generate, generate_c}
use zig_os.Abi.Text.{Within, Within-left, join-append}
use zig_os.Abi.Lines.{Within-parts}
use zig_os.Abi.Description.{counts}
use mathlib.Core.Path.{subst}

-- What the texts say of a system call.
pub record StatedCall (name : Bytes) (value : ℤ) (texts : Generated) (header : Bytes) : Type 0 where
  pub in_zig :
      Within
        (ascii "pub const syscall_" ++ name ++ ascii ": u64 = " ++ show_int value ++ ascii ";\n")
        texts.zig
  pub in_sdk :
      Within
        (ascii "pub const syscall_" ++ name ++ ascii ": u64 = " ++ show_int value ++ ascii ";\n")
        texts.sdk
  pub in_nasm :
      Within
        (ascii "%define SYS_" ++ upper name ++ ascii " " ++ show_int value ++ ascii "\n")
        texts.nasm
  pub in_header :
      Within
        (ascii "#define ZIGOS_SYS_"
          ++ upper name
          ++ ascii " UINT64_C("
          ++ show_int value
          ++ ascii ")\n")
        header

-- For a description with a system call of some name and number: the four texts are generated, and all of
-- them, the kernel's constants, the SDK's, the assembler's and the C header, give the call that name, in
-- capitals in the last two, and that number.
pub generate-StatedCall :
    (spec : Spec) (before : Group) (name : Bytes) (value : ℤ) (after : Group)
    → spec.syscalls ≡ before ++ (name, value) ∷ after
    → (texts : Generated) × (header : Bytes) × (generate spec ≡ ok texts)
      × (generate_c spec ≡ ok header)
      × StatedCall name value texts header
unfolding generate generate_c zig_lines nasm_lines c_constants zig_parts nasm_parts c_parts take
    drop zig_name
generate-StatedCall spec before name value after e =
    let (count, counted) = counts spec.syscalls (not_empty before e) in
    let zig_line =
      Within-parts (zig_parts spec count) (take 25 (zig_parts spec count)) _ spec.syscalls before
        name value after (drop 26 (zig_parts spec count)) refl e in
    (
      record {
        zig = join (zig_lines spec count);
        nasm = join (nasm_lines spec count);
        sdk = join (zig_lines spec count ++ sdk_lines);
      },
      join (c_constants spec count ++ c_declarations),
      rw counted refl,
      rw counted refl,
      record {
        in_zig = zig_line;
        in_sdk =
            subst (Within _) (sym (join-append (zig_lines spec count) sdk_lines))
              (Within-left _ (join (zig_lines spec count)) (join sdk_lines) zig_line);
        in_nasm =
            Within-parts (nasm_parts spec count) (take 26 (nasm_parts spec count)) _ spec.syscalls
              before name value after (drop 27 (nasm_parts spec count)) refl e;
        in_header = subst (Within _) (sym (join-append (c_constants spec count) c_declarations)) (
            Within-left _ (join (c_constants spec count)) (join c_declarations) (
              Within-parts (c_parts spec count) (take 24 (c_parts spec count)) _ spec.syscalls
                before name value after (drop 25 (c_parts spec count)) refl e));
      },
    )
  where
    not_empty :
        {group : Group} (front : Group) → group ≡ front ++ (name, value) ∷ after → group ≢ []
    not_empty [] e none_left = cc
    not_empty (entry ∷ front) e none_left = cc
