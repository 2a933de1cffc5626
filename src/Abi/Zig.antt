-- ===== src/Abi/Zig.antt =====
-- The lines of `zig` in `generate` of scripts/generate-abi.py: the constants of the kernel.
use zig_os.Base.{ℕ, List, [], ◌∷◌, ◌++◌, ascii}
use zig_os.Bytes.{Bytes}
use zig_os.Abi.{
  Spec, capability_group, syscall_group, errno_group, zig_name, constant_lines, flatten, decimal,
  show_int, hex8,
}

-- What the statements append, in their order.
unfoldable pub zig_parts : Spec → ℕ → List (List Bytes)
zig_parts spec count =
    (ascii "// Generated by scripts/generate-abi.py from abi/zigos-abi.json. Do not edit.\n"
      ∷ (ascii "pub const abi_magic: u32 = 0x" ++ hex8 spec.magic ++ ascii ";\n")
      ∷ (ascii "pub const abi_major: u16 = " ++ decimal spec.major ++ ascii ";\n")
      ∷ (ascii "pub const abi_minor: u16 = " ++ decimal spec.minor ++ ascii ";\n")
      ∷ (ascii "pub const abi_page_size: u32 = " ++ decimal spec.page_size ++ ascii ";\n")
      ∷ (ascii "pub const syscall_base: u16 = " ++ decimal spec.syscall_base ++ ascii ";\n")
      ∷ [])
    ∷ ((ascii "pub const maximum_arguments: usize = "
          ++ decimal spec.maximum_arguments
          ++ ascii ";\n")
        ∷ (ascii "pub const maximum_argument_bytes: usize = "
            ++ decimal spec.maximum_argument_bytes
            ++ ascii ";\n")
        ∷ (ascii "pub const maximum_environment: usize = "
            ++ decimal spec.maximum_environment
            ++ ascii ";\n")
        ∷ (ascii "pub const maximum_environment_bytes: usize = "
            ++ decimal spec.maximum_environment_bytes
            ++ ascii ";\n")
        ∷ (ascii "pub const maximum_iovecs: usize = " ++ decimal spec.maximum_iovecs ++ ascii ";\n")
        ∷ [])
    ∷ (ascii "\n" ∷ [])
    ∷ (constant_lines spec.auxiliary_vector (λ name value.
        ascii "pub const aux_" ++ name ++ ascii ": u64 = " ++ show_int value ++ ascii ";\n"))
    ∷ (ascii "\n" ∷ [])
    ∷ (constant_lines spec.seek_whence (λ name value.
        ascii "pub const seek_" ++ name ++ ascii ": u64 = " ++ show_int value ++ ascii ";\n"))
    ∷ (constant_lines spec.message_flags (λ name value.
        ascii "pub const message_" ++ name ++ ascii ": u64 = " ++ show_int value ++ ascii ";\n"))
    ∷ (constant_lines spec.socket_shutdown (λ name value.
        ascii "pub const socket_shutdown_"
        ++ name
        ++ ascii ": u64 = "
        ++ show_int value
        ++ ascii ";\n"))
    ∷ (constant_lines spec.socket_option_levels (λ name value.
        ascii "pub const socket_option_level_"
        ++ name
        ++ ascii ": u64 = "
        ++ show_int value
        ++ ascii ";\n"))
    ∷ (constant_lines spec.socket_options (λ name value.
        ascii "pub const socket_option_"
        ++ name
        ++ ascii ": u64 = "
        ++ show_int value
        ++ ascii ";\n"))
    ∷ (constant_lines spec.spawn_flags (λ name value.
        ascii "pub const spawn_"
        ++ name
        ++ ascii ": u16 = @as(u16, 1) << "
        ++ show_int value
        ++ ascii ";\n"))
    ∷ (constant_lines spec.spawn_io (λ name value.
        ascii "pub const spawn_io_" ++ name ++ ascii ": u16 = " ++ show_int value ++ ascii ";\n"))
    ∷ (constant_lines spec.wait_flags (λ name value.
        ascii "pub const wait_"
        ++ name
        ++ ascii ": u64 = @as(u64, 1) << "
        ++ show_int value
        ++ ascii ";\n"))
    ∷ (constant_lines spec.directory_fds (λ name value.
        ascii "pub const directory_fd_"
        ++ name
        ++ ascii ": i64 = "
        ++ show_int value
        ++ ascii ";\n"))
    ∷ (constant_lines spec.ioctl_requests (λ name value.
        ascii "pub const ioctl_" ++ name ++ ascii ": u64 = " ++ show_int value ++ ascii ";\n"))
    ∷ (constant_lines spec.tty_flags (λ name value.
        ascii "pub const tty_"
        ++ name
        ++ ascii ": u64 = @as(u64, 1) << "
        ++ show_int value
        ++ ascii ";\n"))
    ∷ (constant_lines spec.fallocate_flags (λ name value.
        ascii "pub const fallocate_"
        ++ name
        ++ ascii ": u64 = @as(u64, 1) << "
        ++ show_int value
        ++ ascii ";\n"))
    ∷ (constant_lines spec.mount_flags (λ name value.
        ascii "pub const mount_"
        ++ name
        ++ ascii ": u64 = @as(u64, 1) << "
        ++ show_int value
        ++ ascii ";\n"))
    ∷ (constant_lines spec.filesystem_types (λ name value.
        ascii "pub const filesystem_type_"
        ++ name
        ++ ascii ": u16 = "
        ++ show_int value
        ++ ascii ";\n"))
    ∷ (constant_lines spec.filesystem_stat_flags (λ name value.
        ascii "pub const filesystem_stat_"
        ++ name
        ++ ascii ": u16 = @as(u16, 1) << "
        ++ show_int value
        ++ ascii ";\n"))
    ∷ (constant_lines spec.flock_operations (λ name value.
        ascii "pub const flock_" ++ name ++ ascii ": u64 = " ++ show_int value ++ ascii ";\n"))
    ∷ (constant_lines spec.directory_event_flags (λ name value.
        ascii "pub const directory_event_"
        ++ name
        ++ ascii ": u8 = @as(u8, 1) << "
        ++ show_int value
        ++ ascii ";\n"))
    ∷ (ascii "\n" ∷ [])
    ∷ (constant_lines spec.capabilities (λ name value.
        ascii "pub const "
        ++ zig_name capability_group name
        ++ ascii ": u64 = @as(u64, 1) << "
        ++ show_int value
        ++ ascii ";\n"))
    ∷ (ascii "\n" ∷ [])
    ∷ (constant_lines spec.syscalls (λ name value.
        ascii "pub const "
        ++ zig_name syscall_group name
        ++ ascii ": u64 = "
        ++ show_int value
        ++ ascii ";\n"))
    ∷ (ascii "\n" ∷ [])
    ∷ (constant_lines spec.errno (λ name value.
        ascii "pub const "
        ++ zig_name errno_group name
        ++ ascii ": i64 = "
        ++ show_int value
        ++ ascii ";\n"))
    ∷ ((ascii "\npub const syscall_count: u16 = " ++ decimal count ++ ascii ";\n") ∷ [])
    ∷ []

unfoldable pub zig_lines : Spec → ℕ → List Bytes
zig_lines spec count = flatten (zig_parts spec count)
