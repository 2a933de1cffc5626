-- ===== src/Fnv.antt =====
-- The FNV-1a hashes by which the image scripts name file contents
-- (scripts/create-legacy-fat12.py `fnv1a32`, scripts/create-nvme-test-image.py `fnv1a64`, and their
-- copies in the other scripts).
pub mod Corruption
use zig_os.Base.{ℕ, ◌*◌, bit_and, bit_xor, [], ◌∷◌}
use zig_os.Bytes.{Bytes}

-- `for byte in data: value = round(value, byte)`
unfoldable pub hash_loop : (ℕ → ℕ → ℕ) → ℕ → Bytes → ℕ
hash_loop round value [] = value
hash_loop round value (byte ∷ rest) = hash_loop round (round value byte) rest

-- `((value ^ byte) * 0x01000193) & 0xFFFFFFFF`
unfoldable pub round32 : ℕ → ℕ → ℕ
round32 value byte = bit_and (bit_xor value byte * 0x01000193) 0xFFFFFFFF

unfoldable pub fnv1a32 : Bytes → ℕ
unfolding hash_loop round32
fnv1a32 bytes = hash_loop round32 0x811C9DC5 bytes

unfoldable pub round64 : ℕ → ℕ → ℕ
round64 value byte = bit_and (bit_xor value byte * 0x100000001B3) 0xFFFFFFFFFFFFFFFF

unfoldable pub fnv1a64 : Bytes → ℕ
unfolding hash_loop round64
fnv1a64 bytes = hash_loop round64 0xCBF29CE484222325 bytes
