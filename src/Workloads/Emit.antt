-- ===== src/Workloads/Emit.antt =====
-- scripts/create-legacy-fat12.py: the module's constants, and the closures of the `build_*_elf`
-- functions that append machine code. `code += a; code += b` is the sum `a +++ b` of two pieces.
use zig_os.Base.{ℕ, ◌+◌, ◌*◌, ◌-◌, ◌^◌, ◌%◌, bit_and, ltb, leb, Bool, true, false}
use zig_os.Base.{List, [], ◌∷◌, ◌++◌, length, ascii, map, range_from, if◌then◌else◌}
use zig_os.Base.{Result, ok, raise, struct_error, ◌>>=◌}
use zig_os.Bytes.{Bytes, put, pack, pack_into}

abbrev pub open_read : ℕ
open_read = 0x01

abbrev pub open_write : ℕ
open_write = 0x02

abbrev pub open_create : ℕ
open_create = 0x04

abbrev pub open_truncate : ℕ
open_truncate = 0x08

abbrev pub open_append : ℕ
open_append = 0x10

abbrev pub open_cloexec : ℕ
open_cloexec = 0x20

abbrev pub crlf : Bytes
crlf = 13 ∷ 10 ∷ []

abbrev pub hello : Bytes
hello =
    ascii "ZigOs legacy FAT12 filesystem is online."
    ++ (crlf ++ (ascii "Loaded through ATA PIO by the i686 kernel." ++ crlf))

abbrev pub init_message : Bytes
init_message = ascii "INIT.ELF executed in ring3 via FAT12." ++ crlf

abbrev pub hello_name : Bytes
hello_name = ascii "HELLO   TXT"

abbrev pub init_name : Bytes
init_name = ascii "INIT    ELF"

abbrev pub cat_name : Bytes
cat_name = ascii "CAT     ELF"

abbrev pub big_name : Bytes
big_name = ascii "BIG     TXT"

abbrev pub spina_name : Bytes
spina_name = ascii "SPINA   ELF"

abbrev pub spinb_name : Bytes
spinb_name = ascii "SPINB   ELF"

abbrev pub fault_name : Bytes
fault_name = ascii "FAULT   ELF"

abbrev pub writer_name : Bytes
writer_name = ascii "WRITER  ELF"

abbrev pub service_name : Bytes
service_name = ascii "SERVICE ELF"

abbrev pub orch_name : Bytes
orch_name = ascii "ORCH    ELF"

abbrev pub child_name : Bytes
child_name = ascii "CHILD   ELF"

abbrev pub async_name : Bytes
async_name = ascii "ASYNC   ELF"

abbrev pub worka_name : Bytes
worka_name = ascii "WORKA   ELF"

abbrev pub workb_name : Bytes
workb_name = ascii "WORKB   ELF"

abbrev pub leaf_name : Bytes
leaf_name = ascii "LEAF    ELF"

abbrev pub genrun_name : Bytes
genrun_name = ascii "GENRUN  ELF"

abbrev pub reuse_name : Bytes
reuse_name = ascii "REUSE   ELF"

abbrev pub forker_name : Bytes
forker_name = ascii "FORKER  ELF"

abbrev pub execa_name : Bytes
execa_name = ascii "EXECA   ELF"

abbrev pub execb_name : Bytes
execb_name = ascii "EXECB   ELF"

abbrev pub paths_name : Bytes
paths_name = ascii "PATHS   ELF"

abbrev pub notes_name : Bytes
notes_name = ascii "NOTES   TXT"

abbrev pub big_prefix : Bytes
big_prefix = ascii "ZigOs multi-cluster FAT12 read contract." ++ crlf

abbrev pub big : Bytes
big = big_prefix ++ map (λ i. 65 + i % 26) (range_from 0 (1300 - length big_prefix))

abbrev pub writer_base : Bytes
writer_base = map (λ i. 97 + i % 26) (range_from 0 700)

abbrev pub writer_suffix : Bytes
writer_suffix = ascii "APPEND-PERSIST-OK!" ++ crlf

abbrev pub writer_result : Bytes
writer_result = writer_base ++ writer_suffix

abbrev pub orch_request : Bytes
orch_request = ascii "PARENT-TO-CHILD" ++ crlf

abbrev pub child_reply : Bytes
child_reply = ascii "CHILD-TO-PARENT" ++ crlf

-- The `payload` of `build_paths_elf`.
abbrev pub path_payload : Bytes
path_payload = map (λ index. bit_and (index * 29 + 7) 0xFF) (range_from 0 600)

infixr 5 ◌+++◌
unfoldable pub ◌+++◌ : Result Bytes → Result Bytes → Result Bytes
first +++ second = do a ← first; b ← second; ok (a ++ b)

unfoldable pub mov_imm : ℕ → ℕ → Result Bytes
mov_imm reg_opcode value = ok (reg_opcode ∷ []) +++ pack 4 value

unfoldable pub syscall : ℕ → Result Bytes
syscall number = mov_imm 0xB8 number +++ ok (0xCD ∷ 0x80 ∷ [])

unfoldable pub store : ℕ → ℕ → Result Bytes
store results_va index = ok (0xA3 ∷ []) +++ pack 4 (results_va + index * 4)

-- mov ebx, [address]
unfoldable pub load_ebx : ℕ → Result Bytes
load_ebx address = ok (0x8B ∷ 0x1D ∷ []) +++ pack 4 address

unfoldable pub path_args : ℕ → Bytes → Result Bytes
path_args address text = mov_imm 0xBB address +++ mov_imm 0xB9 (length text)

unfoldable pub spawn : ℕ → ℕ → ℕ → Result Bytes
spawn name_va results_va result_index =
    mov_imm 0xBB name_va +++ mov_imm 0xB9 11 +++ syscall 49 +++ store results_va result_index

-- A loop that appends the code of each item.
unfoldable pub for_each : List ℕ → (ℕ → Result Bytes) → Result Bytes
for_each [] body = ok []
for_each (item ∷ items) body = body item +++ for_each items body

unfoldable pub for_range : ℕ → ℕ → (ℕ → Result Bytes) → Result Bytes
for_range start count body = for_each (range_from start count) body

unfoldable pub when : Bool → Result Bytes → Result Bytes
when test piece = if test then piece else ok []

-- A Python truth value in arithmetic.
unfoldable pub as_number : Bool → ℕ
as_number true = 1
as_number false = 0

-- `struct.pack_into("<i", code, offset, target - origin)`: a signed difference of 32 bits.
unfoldable pub pack_difference_into : Bytes → ℕ → ℕ → ℕ → Result Bytes
pack_difference_into code offset target origin =
    if leb origin target
    then (if ltb (target - origin) (2 ^ 31)
        then pack_into 4 code offset (target - origin)
        else raise struct_error)
    else (if leb (origin - target) (2 ^ 31)
        then pack_into 4 code offset (2 ^ 32 - (origin - target))
        else raise struct_error)

-- The loop over the strings of `build_paths_elf`.
unfoldable pub put_each : List (ℕ × Bytes) → Bytes → Bytes
put_each [] segment = segment
put_each ((offset, text) ∷ strings) segment = put_each strings (put segment offset text)
