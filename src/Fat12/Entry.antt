-- ===== src/Fat12/Entry.antt =====
-- The packed 12-bit entries of the file allocation table: `set_fat12_entry` of
-- scripts/create-legacy-fat12.py and `fat_entry` of scripts/verify-legacy-bios.py.
pub mod Laws
use zig_os.Base.{ℕ, ◌+◌, ◌*◌, ◌/◌, ◌^◌, bit_and, bit_or, ◌!=◌, if◌then◌else◌, Result, ok, ◌>>=◌}
use zig_os.Bytes.{Bytes, byte_at, set_byte}

-- Two entries share three bytes: an odd cluster has the upper half of its first byte.
unfoldable pub set_fat12_entry : Bytes → ℕ → ℕ → Result Bytes
set_fat12_entry fat cluster wide =
    let offset = cluster + cluster / 2 in
    let value = bit_and wide 0x0FFF in
    if bit_and cluster 1 != 0
    then (do
      low ← byte_at fat offset
      fat' ← set_byte fat offset (bit_or (bit_and low 0x0F) (bit_and (value * 2 ^ 4) 0xF0))
      set_byte fat' (offset + 1) (bit_and (value / 2 ^ 4) 0xFF))
    else (do
      fat' ← set_byte fat offset (bit_and value 0xFF)
      high ← byte_at fat' (offset + 1)
      set_byte fat' (offset + 1) (bit_or (bit_and high 0xF0) (bit_and (value / 2 ^ 8) 0x0F)))

unfoldable pub fat_entry : Bytes → ℕ → Result ℕ
fat_entry fat cluster =
    let offset = cluster + cluster / 2 in
    do
      low ← byte_at fat offset
      high ← byte_at fat (offset + 1)
      let pair = bit_or low (high * 2 ^ 8)
      ok (if bit_and cluster 1 != 0 then bit_and (pair / 2 ^ 4) 0xFFF else bit_and pair 0xFFF)
