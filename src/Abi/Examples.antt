-- ===== src/Abi/Examples.antt =====
-- The theorems on the ABI generator at a small description.
use zig_os.Base.{
  ℕ, ◌≤◌, ◌<◌, ◌≡◌, ◌≢◌, refl, [], ◌∷◌, ◌++◌, ascii, length, slice, replicate, take, drop, false,
  true, ok, some,
}
use zig_os.Bytes.{Bytes}
use zig_os.Abi.{
  ℤ, pos, negsuc, Group, Spec, digit, digits, decimal, show_int, hex8, upper, zig_name,
  constant_lines, flatten, join, greater, lesser, span, fold_values, syscall_count,
}
use zig_os.Base.{bytes_eq}
use zig_os.Legacy.Content.{starts_with}
use zig_os.Abi.Zig.{zig_parts, zig_lines}
use zig_os.Abi.Nasm.{nasm_parts, nasm_lines}
use zig_os.Abi.Sdk.{sdk_lines}
use zig_os.Abi.Constants.{c_parts, c_constants}
use zig_os.Abi.Declarations.{c_declarations}
use zig_os.Abi.Generate.{
  Generated, generate, generate_c, generate_c_abi_description, find_at, cut_description, cut_start,
  cut_end, start_marker, end_marker, generated_notice, entry_point, find_from,
}
use zig_os.Abi.Files.{
  Files, read_text, generate_abi, zig_path, nasm_path, sdk_path, header_path, description_path,
}
use zig_os.Abi.Agree.{StatedCall, generate-StatedCall}
use zig_os.Abi.Description.{generate_c_abi_description-returns}
use zig_os.Abi.Checked.{has_return, Texts, generate_abi-check, generate_abi-stale}

abbrev small_spec : Spec
small_spec = record {
  magic = 0x49424134;
  major = 1;
  minor = 32;
  page_size = 4096;
  syscall_base = 64;
  maximum_arguments = 8;
  maximum_argument_bytes = 8;
  maximum_environment = 8;
  maximum_environment_bytes = 8;
  maximum_iovecs = 8;
  auxiliary_vector = [];
  seek_whence = [];
  message_flags = [];
  socket_shutdown = [];
  socket_option_levels = [];
  socket_options = [];
  spawn_flags = [];
  spawn_io = [];
  wait_flags = [];
  directory_fds = (ascii "cwd", negsuc 99) ∷ [];
  ioctl_requests = [];
  tty_flags = [];
  fallocate_flags = [];
  mount_flags = [];
  filesystem_types = [];
  filesystem_stat_flags = [];
  flock_operations = [];
  directory_event_flags = [];
  capabilities = (ascii "process", pos 0) ∷ [];
  syscalls = (ascii "exit", pos 64) ∷ (ascii "write", pos 65) ∷ [];
  errno = (ascii "permission", negsuc 0) ∷ [];
}

not_empty : {entry : Bytes × ℤ} {group : Group} → (entry ∷ group) ≢ []
not_empty e = cc

generate-StatedCall_example :
    (texts : Generated) × (header : Bytes) × (generate small_spec ≡ ok texts)
    × (generate_c small_spec ≡ ok header)
    × StatedCall (ascii "write") (pos 65) texts header
generate-StatedCall_example =
    generate-StatedCall small_spec ((ascii "exit", pos 64) ∷ []) (ascii "write") (pos 65) [] refl

generate_c_abi_description-returns_example :
    (full : Bytes) × (start : ℕ) × (end : ℕ) × (generate_c small_spec ≡ ok full)
    × (find_from full start_marker 0 ≡ some start)
    × (find_from full end_marker start ≡ some end)
    × (start ≤ end)
    × (end < length full)
    × (generate_c_abi_description small_spec
        ≡ ok (generated_notice ++ (slice full start end ++ (entry_point ++ end_marker))))
generate_c_abi_description-returns_example = generate_c_abi_description-returns small_spec not_empty

abbrev small_zig : Bytes
unfolding zig_lines zig_parts flatten join constant_lines zig_name decimal digits digit hex8
    show_int
small_zig = join (zig_lines small_spec 2)

abbrev small_nasm : Bytes
unfolding nasm_lines nasm_parts flatten join constant_lines decimal digits digit hex8 show_int upper
small_nasm = join (nasm_lines small_spec 2)

abbrev small_header : Bytes
unfolding c_constants c_parts c_declarations flatten join constant_lines decimal digits digit hex8
    show_int upper
small_header = join (c_constants small_spec 2 ++ c_declarations)

abbrev small_description : Bytes
unfolding small_header slice take drop
small_description = generated_notice ++ (slice small_header 114 4262 ++ (entry_point ++ end_marker))

small_texts : Texts small_spec
unfolding generate generate_c generate_c_abi_description cut_description cut_start cut_end find_from
    find_at starts_with bytes_eq syscall_count span fold_values greater lesser replicate
small_texts = record {
  texts = record {
    zig = small_zig;
    nasm = small_nasm;
    sdk = join (zig_lines small_spec 2 ++ sdk_lines);
  };
  header = small_header;
  description = small_description;
  generated = unfold small_zig small_nasm in refl;
  header_made = unfold small_header in refl;
  description_made = unfold small_description small_header in refl;
}

no_return :
    (has_return small_texts.texts.zig ≡ false)
    × (has_return small_texts.texts.nasm ≡ false)
    × (has_return small_texts.texts.sdk ≡ false)
    × (has_return small_texts.header ≡ false)
    × (has_return small_texts.description ≡ false)
unfolding small_texts has_return small_zig small_nasm small_header small_description sdk_lines join
no_return = (refl, refl, refl, refl, refl)

small_written :
    (files' : Files) × (generate_abi small_spec false [] ≡ ok files')
    × (generate_abi small_spec true files' ≡ ok files')
small_written =
    generate_abi-check small_spec [] small_texts no_return.0 no_return.1 no_return.2 no_return.3
      no_return.4

generate_abi-check_example :
    (files' : Files) × (generate_abi small_spec false [] ≡ ok files')
    × (generate_abi small_spec true files' ≡ ok files')
generate_abi-check_example =
    generate_abi-check small_spec [] small_texts no_return.0 no_return.1 no_return.2 no_return.3
      no_return.4

generate_abi-stale_example :
    (small_written.0 ≡ small_written.0)
    × (read_text zig_path small_written.0 ≡ some small_texts.texts.zig)
    × (read_text nasm_path small_written.0 ≡ some small_texts.texts.nasm)
    × (read_text sdk_path small_written.0 ≡ some small_texts.texts.sdk)
    × (read_text header_path small_written.0 ≡ some small_texts.header)
    × (read_text description_path small_written.0 ≡ some small_texts.description)
generate_abi-stale_example =
    generate_abi-stale small_spec small_written.0 small_written.0 small_texts small_written.2
