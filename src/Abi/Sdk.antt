-- ===== src/Abi/Sdk.antt =====
-- What `sdk` adds to `zig` in `generate` of scripts/generate-abi.py.
use zig_os.Base.{List, [], ◌∷◌, ascii}
use zig_os.Bytes.{Bytes}

unfoldable pub sdk_lines : List Bytes
sdk_lines =
    (ascii "pub const open_read: u64 = 1 << 0;\n"
      ∷ ascii "pub const open_write: u64 = 1 << 1;\n"
      ∷ ascii "pub const open_create: u64 = 1 << 2;\n"
      ∷ ascii "pub const open_truncate: u64 = 1 << 3;\n"
      ∷ ascii "pub const open_append: u64 = 1 << 4;\n"
      ∷ ascii "pub const open_close_on_exec: u64 = 1 << 5;\n"
      ∷ ascii "pub const protection_read: u64 = 1 << 0;\n"
      ∷ ascii "pub const protection_write: u64 = 1 << 1;\n"
      ∷ ascii "pub const protection_execute: u64 = 1 << 2;\n"
      ∷ ascii "pub const map_private: u64 = 1 << 0;\n"
      ∷ ascii "pub const map_anonymous: u64 = 1 << 1;\n"
      ∷ ascii "pub const map_fixed: u64 = 1 << 2;\n"
      ∷ ascii "pub const map_fixed_no_replace: u64 = 1 << 3;\n"
      ∷ ascii "pub const map_shared: u64 = 1 << 4;\n"
      ∷ ascii "pub const poll_readable: u16 = 1 << 0;\n"
      ∷ ascii "pub const poll_writable: u16 = 1 << 1;\n"
      ∷ ascii "pub const poll_error: u16 = 1 << 2;\n"
      ∷ ascii "pub const poll_hangup: u16 = 1 << 3;\n"
      ∷ ascii "pub const address_family_ipv4: u16 = 2;\n"
      ∷ ascii "pub const socket_stream: u16 = 1;\n"
      ∷ ascii "pub const socket_datagram: u16 = 2;\n"
      ∷ ascii "pub const protocol_tcp: u16 = 6;\n"
      ∷ ascii "pub const protocol_udp: u16 = 17;\n"
      ∷ ascii "\npub const AbiInfo = extern struct {\n"
      ∷ ascii "    magic: u32,\n"
      ∷ ascii "    size: u16,\n"
      ∷ ascii "    major: u16,\n"
      ∷ ascii "    minor: u16,\n"
      ∷ ascii "    reserved0: u16,\n"
      ∷ ascii "    page_size: u32,\n"
      ∷ ascii "    syscall_base: u16,\n"
      ∷ ascii "    syscall_count: u16,\n"
      ∷ ascii "    reserved1: u32,\n"
      ∷ ascii "    capabilities: u64,\n"
      ∷ ascii "    user_base: u64,\n"
      ∷ ascii "    user_end: u64,\n"
      ∷ ascii "    maximum_io_bytes: u32,\n"
      ∷ ascii "    maximum_path_bytes: u32,\n"
      ∷ ascii "    maximum_processes: u16,\n"
      ∷ ascii "    maximum_descriptors: u16,\n"
      ∷ ascii "    maximum_sockets: u16,\n"
      ∷ ascii "    reserved2: u16,\n"
      ∷ ascii "};\n\n"
      ∷ ascii "pub const WaitStatus = extern struct {\n"
      ∷ ascii "    pid: u32,\n"
      ∷ ascii "    exit_status: u32,\n"
      ∷ ascii "    state: u32,\n"
      ∷ ascii "    fault_vector: u32,\n"
      ∷ ascii "    fault_address: u64,\n"
      ∷ ascii "};\n\n"
      ∷ ascii "pub const Stat = extern struct {\n"
      ∷ ascii "    node: u32,\n"
      ∷ ascii "    generation: u16,\n"
      ∷ ascii "    kind: u8,\n"
      ∷ ascii "    readonly: u8,\n"
      ∷ ascii "    mode: u16,\n"
      ∷ ascii "    mount_id: u8,\n"
      ∷ ascii "    link_count: u8,\n"
      ∷ ascii "    size: u64,\n"
      ∷ ascii "    modified_tick: u64,\n"
      ∷ ascii "};\n\n"
      ∷ ascii "pub const FileTimes = extern struct {\n"
      ∷ ascii "    created_tick: u64,\n"
      ∷ ascii "    modified_tick: u64,\n"
      ∷ ascii "    changed_tick: u64,\n"
      ∷ ascii "    accessed_tick: u64,\n"
      ∷ ascii "};\n\n"
      ∷ ascii "pub const FileOwner = extern struct {\n"
      ∷ ascii "    uid: u32,\n"
      ∷ ascii "    gid: u32,\n"
      ∷ ascii "};\n\n"
      ∷ ascii "pub const FilesystemStat = extern struct {\n"
      ∷ ascii "    block_size: u64,\n"
      ∷ ascii "    total_blocks: u64,\n"
      ∷ ascii "    free_blocks: u64,\n"
      ∷ ascii "    available_blocks: u64,\n"
      ∷ ascii "    total_nodes: u64,\n"
      ∷ ascii "    free_nodes: u64,\n"
      ∷ ascii "    mount_id: u32,\n"
      ∷ ascii "    filesystem_kind: u16,\n"
      ∷ ascii "    flags: u16,\n"
      ∷ ascii "    reserved: u64,\n"
      ∷ ascii "};\n\n"
      ∷ ascii "pub const DirectoryEntry = extern struct {\n"
      ∷ ascii "    node: u32,\n"
      ∷ ascii "    kind: u8,\n"
      ∷ ascii "    readonly: u8,\n"
      ∷ ascii "    name_length: u16,\n"
      ∷ ascii "    size: u64,\n"
      ∷ ascii "    name: [32]u8,\n"
      ∷ ascii "};\n\n"
      ∷ ascii "pub const PollDescriptor = extern struct {\n"
      ∷ ascii "    fd: u16,\n"
      ∷ ascii "    requested: u16,\n"
      ∷ ascii "    returned: u16,\n"
      ∷ ascii "    reserved: u16,\n"
      ∷ ascii "};\n\n"
      ∷ ascii "pub const DirectoryEvent = extern struct {\n"
      ∷ ascii "    sequence: u64,\n"
      ∷ ascii "    node: u32,\n"
      ∷ ascii "    generation: u16,\n"
      ∷ ascii "    kind: u8,\n"
      ∷ ascii "    flags: u8,\n"
      ∷ ascii "    name_length: u16,\n"
      ∷ ascii "    reserved0: [6]u8,\n"
      ∷ ascii "    name: [32]u8,\n"
      ∷ ascii "    reserved1: [8]u8,\n"
      ∷ ascii "};\n\n"
      ∷ ascii "pub const IoVector = extern struct {\n"
      ∷ ascii "    pointer: u64,\n"
      ∷ ascii "    length: u64,\n"
      ∷ ascii "};\n\n"
      ∷ ascii "pub const Ipv4SocketAddress = extern struct {\n"
      ∷ ascii "    family: u16,\n"
      ∷ ascii "    port_be: u16,\n"
      ∷ ascii "    address_be: u32,\n"
      ∷ ascii "};\n"
      ∷ ascii "\npub const UserString = extern struct {\n"
      ∷ ascii "    pointer: u64,\n"
      ∷ ascii "    length: u16,\n"
      ∷ ascii "    reserved0: u16 = 0,\n"
      ∷ ascii "    reserved1: u32 = 0,\n"
      ∷ ascii "};\n\n"
      ∷ ascii "pub const SpawnRequest = extern struct {\n"
      ∷ ascii "    path_pointer: u64,\n"
      ∷ ascii "    arguments_pointer: u64,\n"
      ∷ ascii "    environment_pointer: u64,\n"
      ∷ ascii "    path_length: u16,\n"
      ∷ ascii "    argument_count: u16,\n"
      ∷ ascii "    environment_count: u16,\n"
      ∷ ascii "    flags: u16 = 0,\n"
      ∷ ascii "};\n\n"
      ∷ ascii "pub const AuxvEntry = extern struct {\n"
      ∷ ascii "    kind: u64,\n"
      ∷ ascii "    value: u64,\n"
      ∷ ascii "};\n"
      ∷ [])
