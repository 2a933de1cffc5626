-- ===== src/Abi/Declarations.antt =====
-- The rest of the lines of `generate_c` of scripts/generate-abi.py.
use zig_os.Base.{List, [], ◌∷◌, ascii}
use zig_os.Bytes.{Bytes}

unfoldable pub c_declarations : List Bytes
c_declarations =
    (ascii "#define ZIGOS_OPEN_READ (UINT64_C(1) << 0)\n"
      ∷ ascii "#define ZIGOS_OPEN_WRITE (UINT64_C(1) << 1)\n"
      ∷ ascii "#define ZIGOS_OPEN_CREATE (UINT64_C(1) << 2)\n"
      ∷ ascii "#define ZIGOS_OPEN_TRUNCATE (UINT64_C(1) << 3)\n"
      ∷ ascii "#define ZIGOS_OPEN_APPEND (UINT64_C(1) << 4)\n"
      ∷ ascii "#define ZIGOS_OPEN_CLOSE_ON_EXEC (UINT64_C(1) << 5)\n"
      ∷ ascii "#define ZIGOS_PROT_READ (UINT64_C(1) << 0)\n"
      ∷ ascii "#define ZIGOS_PROT_WRITE (UINT64_C(1) << 1)\n"
      ∷ ascii "#define ZIGOS_PROT_EXECUTE (UINT64_C(1) << 2)\n"
      ∷ ascii "#define ZIGOS_MAP_PRIVATE (UINT64_C(1) << 0)\n"
      ∷ ascii "#define ZIGOS_MAP_ANONYMOUS (UINT64_C(1) << 1)\n"
      ∷ ascii "#define ZIGOS_MAP_FIXED (UINT64_C(1) << 2)\n"
      ∷ ascii "#define ZIGOS_MAP_FIXED_NO_REPLACE (UINT64_C(1) << 3)\n"
      ∷ ascii "#define ZIGOS_MAP_SHARED (UINT64_C(1) << 4)\n"
      ∷ ascii "#define ZIGOS_POLL_READABLE (UINT16_C(1) << 0)\n"
      ∷ ascii "#define ZIGOS_POLL_WRITABLE (UINT16_C(1) << 1)\n"
      ∷ ascii "#define ZIGOS_POLL_ERROR (UINT16_C(1) << 2)\n"
      ∷ ascii "#define ZIGOS_POLL_HANGUP (UINT16_C(1) << 3)\n\n"
      ∷ ascii "typedef struct zigos_abi_info {\n"
      ∷ ascii
          "    uint32_t magic; uint16_t size; uint16_t major; uint16_t minor; uint16_t reserved0;\n"
      ∷ ascii
          "    uint32_t page_size; uint16_t syscall_base; uint16_t syscall_count; uint32_t reserved1;\n"
      ∷ ascii "    uint64_t capabilities; uint64_t user_base; uint64_t user_end;\n"
      ∷ ascii "    uint32_t maximum_io_bytes; uint32_t maximum_path_bytes;\n"
      ∷ ascii
          "    uint16_t maximum_processes; uint16_t maximum_descriptors; uint16_t maximum_sockets; uint16_t reserved2;\n"
      ∷ ascii "} zigos_abi_info;\n\n"
      ∷ ascii "typedef struct zigos_stat {\n"
      ∷ ascii "    uint32_t node; uint16_t generation; uint8_t kind; uint8_t readonly;\n"
      ∷ ascii
          "    uint16_t mode; uint8_t mount_id; uint8_t link_count; uint64_t size; uint64_t modified_tick;\n"
      ∷ ascii "} zigos_stat;\n\n"
      ∷ ascii "typedef struct zigos_file_times {\n"
      ∷ ascii
          "    uint64_t created_tick; uint64_t modified_tick; uint64_t changed_tick; uint64_t accessed_tick;\n"
      ∷ ascii "} zigos_file_times;\n\n"
      ∷ ascii
          "typedef struct zigos_file_owner { uint32_t uid; uint32_t gid; } zigos_file_owner;\n\n"
      ∷ ascii "typedef struct zigos_filesystem_stat {\n"
      ∷ ascii
          "    uint64_t block_size; uint64_t total_blocks; uint64_t free_blocks; uint64_t available_blocks;\n"
      ∷ ascii
          "    uint64_t total_nodes; uint64_t free_nodes; uint32_t mount_id; uint16_t filesystem_kind; uint16_t flags; uint64_t reserved;\n"
      ∷ ascii "} zigos_filesystem_stat;\n\n"
      ∷ ascii "typedef struct zigos_poll_descriptor {\n"
      ∷ ascii "    uint16_t fd; uint16_t requested; uint16_t returned; uint16_t reserved;\n"
      ∷ ascii "} zigos_poll_descriptor;\n\n"
      ∷ ascii "typedef struct zigos_directory_event {\n"
      ∷ ascii
          "    uint64_t sequence; uint32_t node; uint16_t generation; uint8_t kind; uint8_t flags;\n"
      ∷ ascii
          "    uint16_t name_length; uint8_t reserved0[6]; uint8_t name[32]; uint8_t reserved1[8];\n"
      ∷ ascii "} zigos_directory_event;\n\n"
      ∷ ascii "typedef struct zigos_iovec { uint64_t pointer; uint64_t length; } zigos_iovec;\n\n"
      ∷ ascii
          "typedef struct zigos_auxv_entry { uint64_t kind; uint64_t value; } zigos_auxv_entry;\n\n"
      ∷ ascii
          "typedef struct zigos_ipv4_socket_address { uint16_t family; uint16_t port_be; uint32_t address_be; } zigos_ipv4_socket_address;\n\n"
      ∷ ascii "_Static_assert(sizeof(zigos_abi_info) == 64, \"zigos_abi_info layout\");\n"
      ∷ ascii "_Static_assert(sizeof(zigos_stat) == 32, \"zigos_stat layout\");\n"
      ∷ ascii "_Static_assert(sizeof(zigos_file_times) == 32, \"zigos_file_times layout\");\n"
      ∷ ascii "_Static_assert(sizeof(zigos_file_owner) == 8, \"zigos_file_owner layout\");\n"
      ∷ ascii
          "_Static_assert(sizeof(zigos_filesystem_stat) == 64, \"zigos_filesystem_stat layout\");\n"
      ∷ ascii
          "_Static_assert(sizeof(zigos_poll_descriptor) == 8, \"zigos_poll_descriptor layout\");\n"
      ∷ ascii
          "_Static_assert(sizeof(zigos_directory_event) == 64, \"zigos_directory_event layout\");\n"
      ∷ ascii "_Static_assert(sizeof(zigos_iovec) == 16, \"zigos_iovec layout\");\n"
      ∷ ascii
          "_Static_assert(sizeof(zigos_ipv4_socket_address) == 8, \"zigos_ipv4_socket_address layout\");\n\n"
      ∷ ascii "#endif /* ZIGOS_ABI_H */\n\n"
      ∷ ascii "#ifdef __cplusplus\nextern \"C\" {\n#endif\n"
      ∷ ascii
          "uint64_t zigos_syscall6(uint64_t number, uint64_t a1, uint64_t a2, uint64_t a3, uint64_t a4, uint64_t a5, uint64_t a6);\n"
      ∷ ascii "int64_t zigos_exit(uint32_t status);\n"
      ∷ ascii "int64_t zigos_write(uint16_t fd, const void *bytes, size_t length);\n"
      ∷ ascii "int64_t zigos_read(uint16_t fd, void *bytes, size_t length);\n"
      ∷ ascii "int64_t zigos_readv(uint16_t fd, const zigos_iovec *vectors, size_t count);\n"
      ∷ ascii "int64_t zigos_writev(uint16_t fd, const zigos_iovec *vectors, size_t count);\n"
      ∷ ascii "int64_t zigos_close(uint16_t fd);\n"
      ∷ ascii "int64_t zigos_socket(uint16_t domain, uint16_t type, uint16_t protocol);\n"
      ∷ ascii "int64_t zigos_bind(uint16_t fd, const zigos_ipv4_socket_address *address);\n"
      ∷ ascii "int64_t zigos_connect(uint16_t fd, const zigos_ipv4_socket_address *address);\n"
      ∷ ascii "int64_t zigos_listen(uint16_t fd, uint16_t backlog);\n"
      ∷ ascii "int64_t zigos_accept(uint16_t fd, zigos_ipv4_socket_address *address);\n"
      ∷ ascii "int64_t zigos_socket_shutdown(uint16_t fd, uint64_t how);\n"
      ∷ ascii "int64_t zigos_getsockopt(uint16_t fd, uint64_t level, uint64_t option);\n"
      ∷ ascii
          "int64_t zigos_setsockopt(uint16_t fd, uint64_t level, uint64_t option, uint64_t value);\n"
      ∷ ascii "int64_t zigos_getsockname(uint16_t fd, zigos_ipv4_socket_address *address);\n"
      ∷ ascii "int64_t zigos_getpeername(uint16_t fd, zigos_ipv4_socket_address *address);\n"
      ∷ ascii "int64_t zigos_open(const char *path, uint64_t flags, uint16_t mode);\n"
      ∷ ascii
          "int64_t zigos_openat(int64_t directory_fd, const char *path, uint64_t flags, uint16_t mode);\n"
      ∷ ascii "int64_t zigos_fstat(uint16_t fd, zigos_stat *info);\n"
      ∷ ascii "int64_t zigos_stat_path(const char *path, zigos_stat *info);\n"
      ∷ ascii "int64_t zigos_stattimes(const char *path, zigos_file_times *times);\n"
      ∷ ascii "int64_t zigos_statowner(const char *path, zigos_file_owner *owner);\n"
      ∷ ascii "int64_t zigos_statfs(const char *path, zigos_filesystem_stat *info);\n"
      ∷ ascii "int64_t zigos_umask(uint16_t mask);\n"
      ∷ ascii "int64_t zigos_flock(uint16_t fd, uint64_t operation);\n"
      ∷ ascii
          "int64_t zigos_lockrange(uint16_t fd, uint64_t start, uint64_t length, uint64_t operation);\n"
      ∷ ascii "int64_t zigos_watchdir(uint16_t directory_fd);\n"
      ∷ ascii "int64_t zigos_kill(uint32_t pid, uint8_t signal);\n"
      ∷ ascii "int64_t zigos_fscheck(void);\n"
      ∷ ascii "int64_t zigos_ioctl(uint16_t fd, uint64_t request, uint64_t argument);\n"
      ∷ ascii "int64_t zigos_fsync(uint16_t fd);\n"
      ∷ ascii "int64_t zigos_fdatasync(uint16_t fd);\n"
      ∷ ascii
          "int64_t zigos_mount(const char *source, const char *target, const char *filesystem, uint64_t flags, const void *data);\n"
      ∷ ascii "int64_t zigos_umount(const char *target, uint64_t flags);\n"
      ∷ ascii
          "int64_t zigos_fallocate(uint16_t fd, uint64_t mode, uint64_t offset, uint64_t length);\n"
      ∷ ascii
          "int64_t zigos_mmap_file(uint64_t address, size_t length, uint64_t protection, uint64_t flags, uint16_t fd, uint64_t offset);\n"
      ∷ ascii "int64_t zigos_munmap(const void *address, size_t length);\n"
      ∷ ascii "int64_t zigos_symlink(const char *target, const char *path);\n"
      ∷ ascii "int64_t zigos_readlink(const char *path, void *bytes, size_t length);\n"
      ∷ ascii "int64_t zigos_link(const char *old_path, const char *new_path);\n"
      ∷ ascii "int64_t zigos_abi_query(zigos_abi_info *info);\n"
      ∷ ascii
          "uint32_t zigos_main(size_t argc, const uintptr_t *argv, const uintptr_t *envp, const zigos_auxv_entry *auxv);\n"
      ∷ ascii "#ifdef __cplusplus\n}\n#endif\n\n#endif\n"
      ∷ [])
