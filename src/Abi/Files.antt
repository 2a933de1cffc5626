-- ===== src/Abi/Files.antt =====
-- `write_or_check` and `main` of scripts/generate-abi.py. The files under the repository's root are their
-- paths and contents; directories are not modelled.
use zig_os.Base.{
  List, [], ◌∷◌, ascii, Option, none, some, Bool, true, false, not, ◌==◌, ◌&&◌, bytes_eq,
  if◌then◌else◌,
}
use zig_os.Base.{Result, ok, raise, fail_if, system_exit, ◌>>=◌, ◌>>◌}
use zig_os.Bytes.{Bytes}
use zig_os.Abi.{Spec}
use zig_os.Abi.Generate.{generate, generate_c, generate_c_abi_description}

abbrev pub Files : Type 0
Files = List (Bytes × Bytes)

unfoldable pub read_file : Bytes → Files → Option Bytes
read_file path [] = none
read_file path ((name, content) ∷ files) =
    if bytes_eq name path then some content else read_file path files

unfoldable pub write_file : Bytes → Bytes → Files → Files
write_file path content [] = (path, content) ∷ []
write_file path content ((name, old) ∷ files) =
    let rest = write_file path content files in
    if bytes_eq name path then (name, content) ∷ files else (name, old) ∷ rest

-- What `read_text` makes of the ends of lines: `after` tells that the last byte was a return.
unfoldable pub newlines : Bool → Bytes → Bytes
newlines after [] = []
newlines after (b ∷ text) =
    let next = newlines true text in
    let rest = newlines false text in
    if b == 13 then 10 ∷ next else (if after && b == 10 then rest else b ∷ rest)

unfoldable pub decode_text : Option Bytes → Option Bytes
decode_text none = none
decode_text (some content) = some (newlines false content)

-- `path.read_text(encoding="utf-8")` of a file that may be missing.
unfoldable pub read_text : Bytes → Files → Option Bytes
read_text path files = decode_text (read_file path files)

unfoldable pub check_text : Bytes → Bytes → Option Bytes → Result (Unit {0})
check_text path content none = raise (system_exit "generated ABI file is stale: {}" path)
check_text path content (some text) =
    fail_if (not (bytes_eq text content)) "generated ABI file is stale: {}" path

unfoldable pub write_or_check : Bytes → Bytes → Bool → Files → Result Files
write_or_check path content true files = do check_text path content (read_text path files); ok files
write_or_check path content false files = ok (write_file path content files)

abbrev pub zig_path : Bytes
zig_path = ascii "src/generated/runtime_abi_constants.zig"

abbrev pub nasm_path : Bytes
nasm_path = ascii "src/user/zigos_abi.inc"

abbrev pub sdk_path : Bytes
sdk_path = ascii "sdk/zig/abi.zig"

abbrev pub header_path : Bytes
header_path = ascii "sdk/c/include/zigos.h"

abbrev pub description_path : Bytes
description_path = ascii "sdk/c/include/zigos_abi.h"

unfoldable pub generate_abi : Spec → Bool → Files → Result Files
generate_abi spec check files0 = do
  texts ← generate spec
  c_header ← generate_c spec
  c_abi_description ← generate_c_abi_description spec
  files1 ← write_or_check zig_path texts.zig check files0
  files2 ← write_or_check nasm_path texts.nasm check files1
  files3 ← write_or_check sdk_path texts.sdk check files2
  files4 ← write_or_check header_path c_header check files3
  write_or_check description_path c_abi_description check files4
