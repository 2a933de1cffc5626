-- ===== src/Abi/Nasm.antt =====
-- The lines of `nasm` in `generate` of scripts/generate-abi.py: the constants of the assembler programs.
use zig_os.Base.{ℕ, List, [], ◌∷◌, ◌++◌, ascii}
use zig_os.Bytes.{Bytes}
use zig_os.Abi.{Spec, constant_lines, flatten, decimal, show_int, hex8, upper}

-- What the statements append, in their order.
unfoldable pub nasm_parts : Spec → ℕ → List (List Bytes)
nasm_parts spec count =
    (ascii "; Generated by scripts/generate-abi.py from abi/zigos-abi.json. Do not edit.\n"
      ∷ (ascii "%define ZIGOS_ABI_MAGIC 0x" ++ hex8 spec.magic ++ ascii "\n")
      ∷ (ascii "%define ZIGOS_ABI_MAJOR " ++ decimal spec.major ++ ascii "\n")
      ∷ (ascii "%define ZIGOS_ABI_MINOR " ++ decimal spec.minor ++ ascii "\n")
      ∷ (ascii "%define ZIGOS_PAGE_SIZE " ++ decimal spec.page_size ++ ascii "\n")
      ∷ [])
    ∷ ((ascii "%define ZIGOS_MAX_ARGUMENTS " ++ decimal spec.maximum_arguments ++ ascii "\n")
        ∷ (ascii "%define ZIGOS_MAX_ARGUMENT_BYTES "
            ++ decimal spec.maximum_argument_bytes
            ++ ascii "\n")
        ∷ (ascii "%define ZIGOS_MAX_ENVIRONMENT " ++ decimal spec.maximum_environment ++ ascii "\n")
        ∷ (ascii "%define ZIGOS_MAX_ENVIRONMENT_BYTES "
            ++ decimal spec.maximum_environment_bytes
            ++ ascii "\n")
        ∷ (ascii "%define ZIGOS_MAX_IOVECS " ++ decimal spec.maximum_iovecs ++ ascii "\n")
        ∷ [])
    ∷ (ascii "\n" ∷ [])
    ∷ (constant_lines spec.auxiliary_vector (λ name value.
        ascii "%define ZIGOS_AUX_" ++ upper name ++ ascii " " ++ show_int value ++ ascii "\n"))
    ∷ (ascii "\n" ∷ [])
    ∷ (constant_lines spec.seek_whence (λ name value.
        ascii "%define ZIGOS_SEEK_" ++ upper name ++ ascii " " ++ show_int value ++ ascii "\n"))
    ∷ (constant_lines spec.message_flags (λ name value.
        ascii "%define ZIGOS_MSG_" ++ upper name ++ ascii " " ++ show_int value ++ ascii "\n"))
    ∷ (constant_lines spec.socket_shutdown (λ name value.
        ascii "%define ZIGOS_SOCKET_SHUTDOWN_"
        ++ upper name
        ++ ascii " "
        ++ show_int value
        ++ ascii "\n"))
    ∷ (constant_lines spec.socket_option_levels (λ name value.
        ascii "%define ZIGOS_SOL_" ++ upper name ++ ascii " " ++ show_int value ++ ascii "\n"))
    ∷ (constant_lines spec.socket_options (λ name value.
        ascii "%define ZIGOS_SO_" ++ upper name ++ ascii " " ++ show_int value ++ ascii "\n"))
    ∷ (ascii "%define ZIGOS_AF_INET 2\n"
        ∷ ascii "%define ZIGOS_SOCKET_STREAM 1\n"
        ∷ ascii "%define ZIGOS_SOCKET_DATAGRAM 2\n"
        ∷ ascii "%define ZIGOS_PROTOCOL_TCP 6\n"
        ∷ ascii "%define ZIGOS_PROTOCOL_UDP 17\n"
        ∷ [])
    ∷ (constant_lines spec.spawn_flags (λ name value.
        ascii "%define ZIGOS_SPAWN_"
        ++ upper name
        ++ ascii " (1 << "
        ++ show_int value
        ++ ascii ")\n"))
    ∷ (constant_lines spec.spawn_io (λ name value.
        ascii "%define ZIGOS_SPAWN_IO_" ++ upper name ++ ascii " " ++ show_int value ++ ascii "\n"))
    ∷ (constant_lines spec.wait_flags (λ name value.
        ascii "%define ZIGOS_WAIT_"
        ++ upper name
        ++ ascii " (1 << "
        ++ show_int value
        ++ ascii ")\n"))
    ∷ (constant_lines spec.directory_fds (λ name value.
        ascii "%define ZIGOS_AT_" ++ upper name ++ ascii " " ++ show_int value ++ ascii "\n"))
    ∷ (constant_lines spec.ioctl_requests (λ name value.
        ascii "%define ZIGOS_IOCTL_" ++ upper name ++ ascii " " ++ show_int value ++ ascii "\n"))
    ∷ (constant_lines spec.tty_flags (λ name value.
        ascii "%define ZIGOS_TTY_"
        ++ upper name
        ++ ascii " (1 << "
        ++ show_int value
        ++ ascii ")\n"))
    ∷ (constant_lines spec.fallocate_flags (λ name value.
        ascii "%define ZIGOS_FALLOCATE_"
        ++ upper name
        ++ ascii " (1 << "
        ++ show_int value
        ++ ascii ")\n"))
    ∷ (constant_lines spec.mount_flags (λ name value.
        ascii "%define ZIGOS_MOUNT_"
        ++ upper name
        ++ ascii " (1 << "
        ++ show_int value
        ++ ascii ")\n"))
    ∷ (constant_lines spec.filesystem_types (λ name value.
        ascii "%define ZIGOS_FS_TYPE_" ++ upper name ++ ascii " " ++ show_int value ++ ascii "\n"))
    ∷ (constant_lines spec.filesystem_stat_flags (λ name value.
        ascii "%define ZIGOS_FS_STAT_"
        ++ upper name
        ++ ascii " (1 << "
        ++ show_int value
        ++ ascii ")\n"))
    ∷ (constant_lines spec.flock_operations (λ name value.
        ascii "%define ZIGOS_LOCK_" ++ upper name ++ ascii " " ++ show_int value ++ ascii "\n"))
    ∷ (constant_lines spec.directory_event_flags (λ name value.
        ascii "%define ZIGOS_DIRECTORY_EVENT_"
        ++ upper name
        ++ ascii " (1 << "
        ++ show_int value
        ++ ascii ")\n"))
    ∷ (ascii "\n" ∷ [])
    ∷ (constant_lines spec.capabilities (λ name value.
        ascii "%define ZIGOS_CAP_"
        ++ upper name
        ++ ascii " (1 << "
        ++ show_int value
        ++ ascii ")\n"))
    ∷ (ascii "\n" ∷ [])
    ∷ (constant_lines spec.syscalls (λ name value.
        ascii "%define SYS_" ++ upper name ++ ascii " " ++ show_int value ++ ascii "\n"))
    ∷ (ascii "\n" ∷ [])
    ∷ (constant_lines spec.errno (λ name value.
        ascii "%define ERRNO_" ++ upper name ++ ascii " " ++ show_int value ++ ascii "\n"))
    ∷ ((ascii "\n%define ZIGOS_SYSCALL_COUNT " ++ decimal count ++ ascii "\n") ∷ [])
    ∷ []

unfoldable pub nasm_lines : Spec → ℕ → List Bytes
nasm_lines spec count = flatten (nasm_parts spec count)
