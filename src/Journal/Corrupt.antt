-- ===== src/Journal/Corrupt.antt =====
-- `corrupt_block_byte` of scripts/test-x86_64-persistence.py, with `hashlib.sha256` as a parameter. The
-- file that is changed in place is an argument, and its new bytes are part of the result.
use zig_os.Base.{ℕ, ◌+◌, ◌*◌, leb, ◌!=◌, not, bytes_eq, bit_xor, if◌then◌else◌}
use zig_os.Base.{List, [], ◌∷◌, length}
use zig_os.Base.{Result, ok, raise_if, runtime_error, ◌>>=◌, ◌>>◌}
use zig_os.Bytes.{Bytes, put, byte_at, set_byte}
use zig_os.Journal.Header.{read_at}

-- `[index for index, (old, new) in enumerate(zip(before, after)) if old != new]`, from `index` on.
unfoldable pub differences : ℕ → Bytes → Bytes → List ℕ
differences index [] after = []
differences index (old ∷ before) [] = []
differences index (old ∷ before) (new ∷ after) =
    let rest = differences (index + 1) before after in if old != new then index ∷ rest else rest

pub record Corrupted : Type 0 where
  pub image : Bytes
  pub before_hash : Bytes
  pub after_hash : Bytes

unfoldable pub corrupt_block_byte : (Bytes → Bytes) → Bytes → ℕ → ℕ → ℕ → ℕ → Result Corrupted
corrupt_block_byte sha256 image lba byte_offset xor_mask block_size = do
  raise_if (leb block_size byte_offset) (
      runtime_error "corruption byte offset {} was outside one {}-byte block"
        (byte_offset ∷ block_size ∷ []))
  let before = read_at image (lba * block_size) block_size
  raise_if (length before != block_size)
      (runtime_error "corruption target LBA {} was truncated" (lba ∷ []))
  old ← byte_at before byte_offset
  after ← set_byte before byte_offset (bit_xor old xor_mask)
  let found = differences 0 before after
  raise_if (not (bytes_eq found (byte_offset ∷ [])))
      (runtime_error "corruption mutation changed unexpected byte set: {}" found)
  raise_if (bytes_eq (sha256 before) (sha256 after))
      (runtime_error "corruption mutation did not change the target block hash" [])
  ok (record {
    image = put image (lba * block_size) after;
    before_hash = sha256 before;
    after_hash = sha256 after;
  })
