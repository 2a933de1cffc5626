-- ===== src/Fat12/Boot.antt =====
-- The boot sector that `build_volume` writes, against the layout of a FAT12 BIOS parameter block.
use zig_os.Base.{ℕ, ◌^◌, ◌<◌, ◌≡◌, refl, ok, [], ◌∷◌, ◌++◌, length, ascii, replicate, lt→ltb}
use zig_os.Bytes.{Bytes, zeros, le_bytes, put, pack_into, set_byte}
use zig_os.Fat12.Volume.{write_boot}

-- Jump, OEM name, bytes and sectors per cluster, reserved sectors, FATs, root entries, total
-- sectors, medium, sectors per FAT, sectors per track, heads.
abbrev pub parameters : Bytes
parameters =
    (0xEB ∷ 0x3C ∷ 0x90 ∷ [])
    ++ (ascii "ZIGOS   "
        ++ (0x00 ∷ 0x02 ∷ 1 ∷ 1 ∷ 0 ∷ 2 ∷ 224 ∷ 0 ∷ 0x40 ∷ 0x0B ∷ 0xF0 ∷ 9 ∷ 0 ∷ 18 ∷ 0 ∷ 2 ∷ 0
            ∷ []))

-- From byte 32 on: drive, signature, volume id, label, type, message, and the boot signature.
abbrev pub extension : Bytes
extension =
    (0 ∷ 0 ∷ 0 ∷ 0 ∷ 0x80 ∷ 0 ∷ 0x29 ∷ 0x4F ∷ 0x47 ∷ 0x49 ∷ 0x5A ∷ [])
    ++ (ascii "ZIGOS FAT12FAT12   ZigOs Capstone 14 FAT12"
        ++ (replicate 425 0 ++ (0x55 ∷ 0xAA ∷ [])))

-- For every 32-bit count of hidden sectors the boot sector is the parameter block with that count
-- in bytes 28 to 31.
pub write_boot-layout :
    (hidden : ℕ)
    → hidden < 2 ^ 32
    → write_boot hidden (zeros 512) ≡ ok (parameters ++ (le_bytes 4 hidden ++ extension))
unfolding write_boot zeros put pack_into set_byte replicate
write_boot-layout hidden h = rw (lt→ltb _ _ h) refl

pub length-boot : (hidden : ℕ) → length (parameters ++ (le_bytes 4 hidden ++ extension)) ≡ 512
unfolding replicate le_bytes
length-boot hidden = refl
