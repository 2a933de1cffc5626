-- ===== src/Lib.antt =====
-- Verification of ZigOs's image tooling: the Python scripts under scripts/ that build the system's
-- disk volumes, executables and ABI files, the independent scripts that check them, and the parts of the
-- boot tests that read what the system left or printed.
--
-- The parts and how they interact:
--
-- The legacy volume. scripts/create-legacy-fat12.py assembles the 32-bit executables (build_*_elf),
-- wraps each by build_elf, and writes all files into a FAT12 volume (build_volume).
-- scripts/verify-legacy-bios.py reads the disk image and that volume again: the parts of the image, the
-- volume's boot sector and both tables, and for each row of its table EXPECTED the directory entry, the
-- cluster chain (read_chain), the FNV-1a hash, and for executables the ELF headers (verify_elf).
--
-- The 64-bit executables. scripts/create-runtime-user-elf.py lays out a fixed-window ELF64 image
-- that scripts/verify-runtime-user-elf.py checks; scripts/create-x86-64-user-elf.py and
-- scripts/create-x86-64-process-elf.py use that layout for the service and the process executables, whose
-- verifiers check the data page and known hashes on top; scripts/verify-zigos-sdk-elf.py checks executables
-- that the SDK's linker made, scripts/verify-efi.py the boot application. scripts/build-assets.py assembles
-- the runtime programs, builds their images and verifies them.
--
-- The ABI. scripts/generate-abi.py makes Zig, assembler and C texts from one description, and writes them or
-- checks that the files hold them.
--
-- The boot tests. scripts/test-x86_64-persistence.py waits for markers on the serial console, parses the
-- journal that the system left on the disk, and damages bytes of it.
--
-- The files of this development:
--
-- Base: numbers, Boolean tests, lists, bit operations, and Result, the outcome of a Python call (a
-- value, or the exception raised, with its message).
-- Bytes: buffers as lists of numbers, slices and slice assignment, and the struct formats "<H", "<I"
-- and "<Q" (pack, pack_into, unpack_from), which raise struct_error as Python does.
-- Fnv: fnv1a32 and fnv1a64.
-- Fat12: the volume. Entry is set_fat12_entry and fat_entry, Volume is build_volume with one function
-- for each of its loops, Chain is read_chain. Linked, Chunks, Slots, Files, Reading, Boot, Reserved and
-- ReadBack are the proofs.
-- Elf32: build_elf and verify_elf. Elf64: the headers that the 64-bit verifiers unpack, the runtime
-- image (Runtime), and what every image of two segments passes (TwoSegments, Placed, Executable).
-- SdkElf: the checks of verify-zigos-sdk-elf.py, and what they guarantee (Sound).
-- ServiceElf: build_elf of scripts/create-x86-64-user-elf.py, its data page (Page), main of
-- scripts/verify-x86-64-user-elf.py (Verify), and the two together (Identity).
-- ProcessElf: build of scripts/create-x86-64-process-elf.py and verify of
-- scripts/verify-x86-64-process-elf.py, and the two together (Identity).
-- Assets: the data of the runtime programs and the loop over them in scripts/build-assets.py.
-- Abi: scripts/generate-abi.py. Zig, Nasm, Sdk, Constants and Declarations are the texts of generate and
-- generate_c, Generate is the three generating functions, Files is write_or_check and main, Numbers is how
-- numbers are printed in the texts.
-- Efi: the checks of scripts/verify-efi.py, and how they end (Outcomes).
-- Workloads: the 32-bit executables, one function for each build_*_elf; Emit has their shared constants and
-- closures.
-- Legacy: FILES (Contents), EXPECTED and the checks of the volume (Verify), the checks of single files'
-- bytes (Content), that the volume passes them (Accepted, Checked), the checks of the disk image and main
-- (Image, Disk), and the shipped volume as an example.
-- Nvme: layout_for (Layout) and make_gpt_header (Gpt, Sealed) of scripts/create-nvme-test-image.py.
-- Journal: parse_header, parse_records, timestamp_record and corrupt_block_byte of
-- scripts/test-x86_64-persistence.py. Serial: its read_available and wait_for.
-- Examples here and below the other folders: the theorems at concrete inputs.
--
-- How the code corresponds: a bytes or bytearray value is a list of numbers; a function that mutates a
-- buffer or a file returns the new one; for loops over sequences and ranges are structural recursions. The
-- loop of read_chain counts its limit of 2880 rounds down, as the code does, and the theorems show that it is
-- enough for every chain in the volume. The digits of a number n are taken with n + 1 rounds of fuel, more
-- than it has digits. Where Python could raise, the model returns the exception.
--
-- What is not the repository's is a parameter: binascii.crc32, the SHA-256 digest, the assembler that turns a
-- program's source to bytes, and the answers of the socket, the clock and the emulator's process, one after
-- the other.
--
-- Not modelled: the command lines, the reading of files (but for the ABI generator's), printed reports; the
-- parsing of the ABI's JSON text, whose result is the record Spec; starting and stopping the emulator and the
-- scenarios of the boot tests; build_image of scripts/create-nvme-test-image.py and
-- scripts/verify-legacy-persistence.py; the checks on the texts of the sources
-- (scripts/verify-permanent-userspace.py); and the kernel and SDK, which are Zig, C and assembly.
pub mod Base
pub mod Bytes
pub mod Fnv
pub mod Fat12
pub mod Elf32
pub mod Workloads
pub mod Legacy
pub mod SdkElf
pub mod Elf64
pub mod Examples
pub mod Nvme
pub mod ServiceElf
pub mod ProcessElf
pub mod Abi
pub mod Serial
pub mod Efi
pub mod Journal
pub mod Assets
