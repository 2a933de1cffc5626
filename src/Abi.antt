-- ===== src/Abi.antt =====
-- scripts/generate-abi.py: the constants and the texts that it prints for a description of the ABI. The
-- description is the JSON document of abi/zigos-abi.json, whose groups keep the document's order; a group
-- that the document leaves out is empty, names are ASCII, and the values of the first two groups are not
-- negative.
pub mod Zig
pub mod Nasm
pub mod Sdk
pub mod Constants
pub mod Declarations
pub mod Generate
pub mod Files
pub mod Text
pub mod Lines
pub mod Agree
pub mod Description
pub mod Numbers
pub mod Checked
mod Examples
use zig_os.Base.{
  ℕ, zero, suc, ◌+◌, ◌-◌, ◌/◌, ◌%◌, ltb, leb, ◌&&◌, if◌then◌else◌, List, [], ◌∷◌, ◌++◌, length,
  replicate, ascii, map, max, min,
}
use zig_os.Base.{Result, ok, raise, value_error}
use zig_os.Bytes.{Bytes}

-- An integer of the document: `pos n`, or `negsuc n` for `-(n + 1)`.
pub data ℤ : Type 0 where
  pos : ℕ → ℤ
  negsuc : ℕ → ℤ

abbrev pub Group : Type 0
Group = List (Bytes × ℤ)

pub record Spec : Type 0 where
  pub magic : ℕ
  pub major : ℕ
  pub minor : ℕ
  pub page_size : ℕ
  pub syscall_base : ℕ
  pub maximum_arguments : ℕ
  pub maximum_argument_bytes : ℕ
  pub maximum_environment : ℕ
  pub maximum_environment_bytes : ℕ
  pub maximum_iovecs : ℕ
  pub auxiliary_vector : Group
  pub seek_whence : Group
  pub message_flags : Group
  pub socket_shutdown : Group
  pub socket_option_levels : Group
  pub socket_options : Group
  pub spawn_flags : Group
  pub spawn_io : Group
  pub wait_flags : Group
  pub directory_fds : Group
  pub ioctl_requests : Group
  pub tty_flags : Group
  pub fallocate_flags : Group
  pub mount_flags : Group
  pub filesystem_types : Group
  pub filesystem_stat_flags : Group
  pub flock_operations : Group
  pub directory_event_flags : Group
  pub capabilities : Group
  pub syscalls : Group
  pub errno : Group

-- A digit, with capital letters above 9.
unfoldable pub digit : ℕ → ℕ
digit d = if ltb d 10 then 48 + d else 55 + d

-- The digits of a number in a base, at most `fuel` of them.
unfoldable pub digits : ℕ → ℕ → ℕ → Bytes
digits base zero n = []
digits base (suc fuel) n =
    let front = digits base fuel (n / base) in
    if ltb n base then digit n ∷ [] else front ++ digit (n % base) ∷ []

-- `f"{value}"`
unfoldable pub decimal : ℕ → Bytes
decimal n = digits 10 (suc n) n

unfoldable pub show_int : ℤ → Bytes
show_int (pos n) = decimal n
show_int (negsuc n) = ascii "-" ++ decimal (suc n)

-- `f"{value:08X}"`
unfoldable pub hex8 : ℕ → Bytes
hex8 n = let shown = digits 16 (suc n) n in replicate (8 - length shown) 48 ++ shown

-- `name.upper()`
unfoldable pub upper : Bytes → Bytes
upper name = map (λ c. if leb 97 c && leb c 122 then c - 32 else c) name

-- The three groups of the last loop.
pub data ConstantGroup : Type 0 where
  capability_group : ConstantGroup
  syscall_group : ConstantGroup
  errno_group : ConstantGroup

unfoldable pub zig_name : ConstantGroup → Bytes → Bytes
zig_name syscall_group name = ascii "syscall_" ++ name
zig_name capability_group name = ascii "capability_" ++ name
zig_name errno_group name = ascii "errno_" ++ name

-- `for name, value in group.items(): lines.append(…)`
unfoldable pub constant_lines : Group → (Bytes → ℤ → Bytes) → List Bytes
constant_lines [] line = []
constant_lines ((name, value) ∷ rest) line = line name value ∷ constant_lines rest line

-- The lines of all statements, one after the other.
unfoldable pub flatten : List (List Bytes) → List Bytes
flatten [] = []
flatten (part ∷ parts) = part ++ flatten parts

-- `"".join(lines)`
unfoldable pub join : List Bytes → Bytes
join [] = []
join (line ∷ lines) = line ++ join lines

-- `max(values) - min(values) + 1`: the values from the least, at `low`, to the greatest.
unfoldable pub greater : ℤ → ℤ → ℤ
greater (pos a) (pos b) = pos (max a b)
greater (pos a) (negsuc b) = pos a
greater (negsuc a) (pos b) = pos b
greater (negsuc a) (negsuc b) = negsuc (min a b)

unfoldable pub lesser : ℤ → ℤ → ℤ
lesser (pos a) (pos b) = pos (min a b)
lesser (pos a) (negsuc b) = negsuc b
lesser (negsuc a) (pos b) = negsuc a
lesser (negsuc a) (negsuc b) = negsuc (max a b)

-- `high - low + 1` where `low` is at most `high`.
unfoldable pub span : ℤ → ℤ → ℕ
span (pos high) (pos low) = high - low + 1
span (pos high) (negsuc low) = high + low + 2
span (negsuc high) (pos low) = 0
span (negsuc high) (negsuc low) = low - high + 1

unfoldable pub fold_values : (ℤ → ℤ → ℤ) → ℤ → Group → ℤ
fold_values choose value [] = value
fold_values choose value ((name, next) ∷ rest) = fold_values choose (choose value next) rest

unfoldable pub syscall_count : Group → Result ℕ
syscall_count [] = raise (value_error "max() arg is an empty sequence" [])
syscall_count ((name, value) ∷ rest) =
    ok (span (fold_values greater value rest) (fold_values lesser value rest))
