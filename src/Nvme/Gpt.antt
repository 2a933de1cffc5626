-- ===== src/Nvme/Gpt.antt =====
-- `make_gpt_header` of scripts/create-nvme-test-image.py, with `binascii.crc32` as a parameter.
use zig_os.Base.{ℕ, bit_and, [], ◌∷◌, slice, ascii, Result, ◌>>=◌}
use zig_os.Bytes.{Bytes, zeros, put, pack_into}

abbrev pub disk_guid : Bytes
disk_guid =
    0x78 ∷ 0x56 ∷ 0x34 ∷ 0x12 ∷ 0xBC ∷ 0x9A ∷ 0xF0 ∷ 0xDE ∷ 0x11 ∷ 0x22 ∷ 0x33 ∷ 0x44 ∷ 0x55 ∷ 0x66
    ∷ 0x77 ∷ 0x88 ∷ []

-- The argument `crc32` is `binascii.crc32`.
unfoldable pub make_gpt_header : (Bytes → ℕ) → ℕ → ℕ → ℕ → ℕ → ℕ → ℕ → ℕ → Result Bytes
make_gpt_header crc32 block_size current_lba backup_lba first_usable_lba last_usable_lba entry_lba
      entry_array_crc =
    do
      let h0 = zeros block_size
      let h1 = put h0 0 (ascii "EFI PART")
      h2 ← pack_into 4 h1 8 0x00010000
      h3 ← pack_into 4 h2 12 92
      h4 ← pack_into 8 h3 24 current_lba
      h5 ← pack_into 8 h4 32 backup_lba
      h6 ← pack_into 8 h5 40 first_usable_lba
      h7 ← pack_into 8 h6 48 last_usable_lba
      let h8 = put h7 56 disk_guid
      h9 ← pack_into 8 h8 72 entry_lba
      h10 ← pack_into 4 h9 80 128
      h11 ← pack_into 4 h10 84 128
      h12 ← pack_into 4 h11 88 entry_array_crc
      pack_into 4 h12 16 (bit_and (crc32 (slice h12 0 92)) 0xFFFFFFFF)
