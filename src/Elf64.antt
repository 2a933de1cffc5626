-- ===== src/Elf64.antt =====
-- The ELF64 headers that the Python verifiers unpack, and the runtime executable's scripts
-- scripts/create-runtime-user-elf.py and scripts/verify-runtime-user-elf.py.
pub mod Runtime
pub mod Headers
pub mod Verified
pub mod TwoSegments
pub mod Placed
pub mod Executable
use zig_os.Base.{ℕ, ◌+◌, Result, ok, ◌>>=◌}
use zig_os.Bytes.{Bytes, unpack_from}

-- A program header, "<IIQQQQQQ".
pub record Segment : Type 0 where
  pub kind : ℕ
  pub flags : ℕ
  pub offset : ℕ
  pub virtual : ℕ
  pub physical : ℕ
  pub file_size : ℕ
  pub memory_size : ℕ
  pub alignment : ℕ

unfoldable pub read_segment : Bytes → ℕ → Result Segment
read_segment image at = do
  kind ← unpack_from 4 image at
  flags ← unpack_from 4 image (at + 4)
  offset ← unpack_from 8 image (at + 8)
  virtual ← unpack_from 8 image (at + 16)
  physical ← unpack_from 8 image (at + 24)
  file_size ← unpack_from 8 image (at + 32)
  memory_size ← unpack_from 8 image (at + 40)
  alignment ← unpack_from 8 image (at + 48)
  ok (record {
    kind = kind;
    flags = flags;
    offset = offset;
    virtual = virtual;
    physical = physical;
    file_size = file_size;
    memory_size = memory_size;
    alignment = alignment;
  })

-- "<HHIQQQIHHHHHH" at 16.
pub record Header : Type 0 where
  pub e_type : ℕ
  pub machine : ℕ
  pub version : ℕ
  pub entry : ℕ
  pub phoff : ℕ
  pub shoff : ℕ
  pub flags : ℕ
  pub ehsize : ℕ
  pub phentsize : ℕ
  pub phnum : ℕ
  pub section_size : ℕ
  pub section_count : ℕ
  pub section_name_index : ℕ

unfoldable pub read_header : Bytes → Result Header
read_header image = do
  e_type ← unpack_from 2 image 16
  machine ← unpack_from 2 image 18
  version ← unpack_from 4 image 20
  entry ← unpack_from 8 image 24
  phoff ← unpack_from 8 image 32
  shoff ← unpack_from 8 image 40
  flags ← unpack_from 4 image 48
  ehsize ← unpack_from 2 image 52
  phentsize ← unpack_from 2 image 54
  phnum ← unpack_from 2 image 56
  section_size ← unpack_from 2 image 58
  section_count ← unpack_from 2 image 60
  section_name_index ← unpack_from 2 image 62
  ok (record {
    e_type = e_type;
    machine = machine;
    version = version;
    entry = entry;
    phoff = phoff;
    shoff = shoff;
    flags = flags;
    ehsize = ehsize;
    phentsize = phentsize;
    phnum = phnum;
    section_size = section_size;
    section_count = section_count;
    section_name_index = section_name_index;
  })
