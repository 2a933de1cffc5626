-- ===== src/Abi/Constants.antt =====
-- The lines of `generate_c` of scripts/generate-abi.py up to the error numbers.
use zig_os.Base.{ℕ, List, [], ◌∷◌, ◌++◌, ascii}
use zig_os.Bytes.{Bytes}
use zig_os.Abi.{Spec, constant_lines, flatten, decimal, show_int, hex8, upper}

-- What the statements append, in their order.
unfoldable pub c_parts : Spec → ℕ → List (List Bytes)
c_parts spec count =
    (ascii "/* Generated by scripts/generate-abi.py from abi/zigos-abi.json. Do not edit. */\n"
      ∷ ascii "#ifndef ZIGOS_H\n#define ZIGOS_H\n\n"
      ∷ ascii "#ifndef ZIGOS_ABI_H\n#define ZIGOS_ABI_H\n\n"
      ∷ ascii "#include <stddef.h>\n#include <stdint.h>\n\n"
      ∷ (ascii "#define ZIGOS_ABI_MAGIC UINT32_C(0x" ++ hex8 spec.magic ++ ascii ")\n")
      ∷ (ascii "#define ZIGOS_ABI_MAJOR UINT16_C(" ++ decimal spec.major ++ ascii ")\n")
      ∷ (ascii "#define ZIGOS_ABI_MINOR UINT16_C(" ++ decimal spec.minor ++ ascii ")\n")
      ∷ (ascii "#define ZIGOS_PAGE_SIZE UINT32_C(" ++ decimal spec.page_size ++ ascii ")\n")
      ∷ (ascii "#define ZIGOS_SYSCALL_BASE UINT16_C(" ++ decimal spec.syscall_base ++ ascii ")\n")
      ∷ (ascii "#define ZIGOS_SYSCALL_COUNT UINT16_C(" ++ decimal count ++ ascii ")\n")
      ∷ (ascii "#define ZIGOS_MAX_IOVECS UINT64_C(" ++ decimal spec.maximum_iovecs ++ ascii ")\n")
      ∷ ascii "\n"
      ∷ [])
    ∷ (constant_lines spec.auxiliary_vector (λ name value.
        ascii "#define ZIGOS_AUX_"
        ++ upper name
        ++ ascii " UINT64_C("
        ++ show_int value
        ++ ascii ")\n"))
    ∷ (constant_lines spec.seek_whence (λ name value.
        ascii "#define ZIGOS_SEEK_"
        ++ upper name
        ++ ascii " UINT64_C("
        ++ show_int value
        ++ ascii ")\n"))
    ∷ (constant_lines spec.message_flags (λ name value.
        ascii "#define ZIGOS_MSG_"
        ++ upper name
        ++ ascii " UINT64_C("
        ++ show_int value
        ++ ascii ")\n"))
    ∷ (constant_lines spec.socket_shutdown (λ name value.
        ascii "#define ZIGOS_SOCKET_SHUTDOWN_"
        ++ upper name
        ++ ascii " UINT64_C("
        ++ show_int value
        ++ ascii ")\n"))
    ∷ (constant_lines spec.socket_option_levels (λ name value.
        ascii "#define ZIGOS_SOL_"
        ++ upper name
        ++ ascii " UINT64_C("
        ++ show_int value
        ++ ascii ")\n"))
    ∷ (constant_lines spec.socket_options (λ name value.
        ascii "#define ZIGOS_SO_"
        ++ upper name
        ++ ascii " UINT64_C("
        ++ show_int value
        ++ ascii ")\n"))
    ∷ (constant_lines spec.spawn_flags (λ name value.
        ascii "#define ZIGOS_SPAWN_"
        ++ upper name
        ++ ascii " (UINT16_C(1) << "
        ++ show_int value
        ++ ascii ")\n"))
    ∷ (constant_lines spec.spawn_io (λ name value.
        ascii "#define ZIGOS_SPAWN_IO_"
        ++ upper name
        ++ ascii " UINT16_C("
        ++ show_int value
        ++ ascii ")\n"))
    ∷ (constant_lines spec.directory_fds (λ name value.
        ascii "#define ZIGOS_AT_"
        ++ upper name
        ++ ascii " INT64_C("
        ++ show_int value
        ++ ascii ")\n"))
    ∷ (constant_lines spec.ioctl_requests (λ name value.
        ascii "#define ZIGOS_IOCTL_"
        ++ upper name
        ++ ascii " UINT64_C("
        ++ show_int value
        ++ ascii ")\n"))
    ∷ (constant_lines spec.tty_flags (λ name value.
        ascii "#define ZIGOS_TTY_"
        ++ upper name
        ++ ascii " (UINT64_C(1) << "
        ++ show_int value
        ++ ascii ")\n"))
    ∷ (constant_lines spec.fallocate_flags (λ name value.
        ascii "#define ZIGOS_FALLOCATE_"
        ++ upper name
        ++ ascii " (UINT64_C(1) << "
        ++ show_int value
        ++ ascii ")\n"))
    ∷ (constant_lines spec.mount_flags (λ name value.
        ascii "#define ZIGOS_MOUNT_"
        ++ upper name
        ++ ascii " (UINT64_C(1) << "
        ++ show_int value
        ++ ascii ")\n"))
    ∷ (constant_lines spec.filesystem_types (λ name value.
        ascii "#define ZIGOS_FS_TYPE_"
        ++ upper name
        ++ ascii " UINT16_C("
        ++ show_int value
        ++ ascii ")\n"))
    ∷ (constant_lines spec.filesystem_stat_flags (λ name value.
        ascii "#define ZIGOS_FS_STAT_"
        ++ upper name
        ++ ascii " (UINT16_C(1) << "
        ++ show_int value
        ++ ascii ")\n"))
    ∷ (constant_lines spec.flock_operations (λ name value.
        ascii "#define ZIGOS_LOCK_"
        ++ upper name
        ++ ascii " UINT64_C("
        ++ show_int value
        ++ ascii ")\n"))
    ∷ (constant_lines spec.wait_flags (λ name value.
        ascii "#define ZIGOS_WAIT_"
        ++ upper name
        ++ ascii " (UINT64_C(1) << "
        ++ show_int value
        ++ ascii ")\n"))
    ∷ (ascii "#define ZIGOS_AF_INET UINT16_C(2)\n"
        ∷ ascii "#define ZIGOS_SOCKET_STREAM UINT16_C(1)\n"
        ∷ ascii "#define ZIGOS_SOCKET_DATAGRAM UINT16_C(2)\n"
        ∷ ascii "#define ZIGOS_PROTOCOL_TCP UINT16_C(6)\n"
        ∷ ascii "#define ZIGOS_PROTOCOL_UDP UINT16_C(17)\n"
        ∷ [])
    ∷ (ascii "\n" ∷ [])
    ∷ (constant_lines spec.directory_event_flags (λ name value.
        ascii "#define ZIGOS_DIRECTORY_EVENT_"
        ++ upper name
        ++ ascii " (UINT8_C(1) << "
        ++ show_int value
        ++ ascii ")\n"))
    ∷ (ascii "\n" ∷ [])
    ∷ (constant_lines spec.capabilities (λ name value.
        ascii "#define ZIGOS_CAP_"
        ++ upper name
        ++ ascii " (UINT64_C(1) << "
        ++ show_int value
        ++ ascii ")\n"))
    ∷ (ascii "\n" ∷ [])
    ∷ (constant_lines spec.syscalls (λ name value.
        ascii "#define ZIGOS_SYS_"
        ++ upper name
        ++ ascii " UINT64_C("
        ++ show_int value
        ++ ascii ")\n"))
    ∷ (ascii "\n" ∷ [])
    ∷ (constant_lines spec.errno (λ name value.
        ascii "#define ZIGOS_ERRNO_"
        ++ upper name
        ++ ascii " INT64_C("
        ++ show_int value
        ++ ascii ")\n"))
    ∷ []

unfoldable pub c_constants : Spec → ℕ → List Bytes
c_constants spec count = flatten (c_parts spec count)
