-- ===== src/Nvme/Sealed.antt =====
-- The bytes of a GPT header that `make_gpt_header` returns.
use zig_os.Base.{
  ℕ, ◌+◌, ◌-◌, ◌%◌, ◌^◌, ◌≤◌, ◌<◌, ◌≡◌, refl, arith, ap, ◌∙◌, ◌++◌, length, slice, take, drop,
  set_slice, replicate, ascii, ok, length-append,
}
use zig_os.Base.Bits.{bit_and_mask}
use zig_os.Bytes.{Bytes, zeros, put, pack_into, le_bytes}
use zig_os.Bytes.Words.{length-zeros, zeros-add, length-le_bytes}
use zig_os.Bytes.Region.{length-put, pack_into-put}
use zig_os.Bytes.Image.{put-append}
use zig_os.Nvme.Gpt.{make_gpt_header, disk_guid}

-- Signature, revision 1.0, header size, checksum, reserved, the five block addresses around the GUID of
-- the disk, and the table of 128 entries of 128 bytes with its checksum.
unfoldable pub gpt_front : ℕ → ℕ → ℕ → ℕ → ℕ → ℕ → ℕ → Bytes
gpt_front checksum current_lba backup_lba first_usable_lba last_usable_lba entry_lba
      entry_array_crc =
    ascii "EFI PART"
    ++ (le_bytes 4 0x00010000
        ++ (le_bytes 4 92
            ++ (le_bytes 4 checksum
                ++ (le_bytes 4 0
                    ++ (le_bytes 8 current_lba
                        ++ (le_bytes 8 backup_lba
                            ++ (le_bytes 8 first_usable_lba
                                ++ (le_bytes 8 last_usable_lba
                                    ++ (disk_guid
                                        ++ (le_bytes 8 entry_lba
                                            ++ (le_bytes 4 128
                                                ++ (le_bytes 4 128
                                                    ++ le_bytes 4 entry_array_crc))))))))))))

-- Packing into the front of a longer buffer.
pack_front :
    (width : ℕ) (front tail : Bytes) (at value : ℕ)
    → length front ≡ 92
    → at + width ≤ 92
    → value < 256 ^ width
    → pack_into width (front ++ tail) at value ≡ ok (put front at (le_bytes width value) ++ tail)
pack_front width front tail at value n h v =
    pack_into-put width (front ++ tail) at value (omega (arith, length-append front tail)) v
    ∙ ap ok (
        put-append front tail at (le_bytes width value)
          (omega (arith, length-le_bytes width value)))

length-pack_front :
    (width : ℕ) (front : Bytes) (at value : ℕ)
    → length front ≡ 92
    → at + width ≤ 92
    → length (put front at (le_bytes width value)) ≡ 92
length-pack_front width front at value n h =
    length-put front at (le_bytes width value) (omega (arith, length-le_bytes width value)) ∙ n

module _
    (current_lba backup_lba first_usable_lba last_usable_lba entry_lba entry_array_crc : ℕ) where
  abbrev f1 : Bytes
  f1 = put (zeros 92) 0 (ascii "EFI PART")

  abbrev f2 : Bytes
  f2 = put f1 8 (le_bytes 4 0x00010000)

  abbrev f3 : Bytes
  f3 = put f2 12 (le_bytes 4 92)

  abbrev f4 : Bytes
  f4 = put f3 24 (le_bytes 8 current_lba)

  abbrev f5 : Bytes
  f5 = put f4 32 (le_bytes 8 backup_lba)

  abbrev f6 : Bytes
  f6 = put f5 40 (le_bytes 8 first_usable_lba)

  abbrev f7 : Bytes
  f7 = put f6 48 (le_bytes 8 last_usable_lba)

  abbrev f8 : Bytes
  f8 = put f7 56 disk_guid

  abbrev f9 : Bytes
  f9 = put f8 72 (le_bytes 8 entry_lba)

  abbrev f10 : Bytes
  f10 = put f9 80 (le_bytes 4 128)

  abbrev f11 : Bytes
  f11 = put f10 84 (le_bytes 4 128)

  abbrev f12 : Bytes
  f12 = put f11 88 (le_bytes 4 entry_array_crc)

  front_unsealed :
      f12
      ≡ gpt_front 0 current_lba backup_lba first_usable_lba last_usable_lba entry_lba
          entry_array_crc
  unfolding gpt_front put set_slice take drop zeros replicate le_bytes
  front_unsealed = refl

  front_sealed :
      (checksum : ℕ)
      → put f12 16 (le_bytes 4 checksum)
        ≡ gpt_front checksum current_lba backup_lba first_usable_lba last_usable_lba entry_lba
            entry_array_crc
  unfolding gpt_front put set_slice take drop zeros replicate le_bytes
  front_sealed checksum = refl

  front_slice :
      (tail : Bytes)
      → slice (f12 ++ tail) 0 92
        ≡ gpt_front 0 current_lba backup_lba first_usable_lba last_usable_lba entry_lba
            entry_array_crc
  unfolding gpt_front put set_slice slice take drop zeros replicate le_bytes
  front_slice tail = refl

-- For every block size of at least 92 bytes, 64-bit block addresses and a 32-bit table checksum, and
-- whatever function `crc32` is, `make_gpt_header` returns the 92 bytes of the GPT header, followed by
-- zeros to the end of the block; its checksum is the low 32 bits of `crc32` of these 92 bytes with the
-- checksum's own field zero.
pub make_gpt_header-gpt_front :
    (crc32 : Bytes → ℕ)
    (block_size current_lba backup_lba first_usable_lba last_usable_lba entry_lba
      entry_array_crc : ℕ)
    → 92 ≤ block_size
    → current_lba < 2 ^ 64
    → backup_lba < 2 ^ 64
    → first_usable_lba < 2 ^ 64
    → last_usable_lba < 2 ^ 64
    → entry_lba < 2 ^ 64
    → entry_array_crc < 2 ^ 32
    → make_gpt_header crc32 block_size current_lba backup_lba first_usable_lba last_usable_lba
        entry_lba entry_array_crc
      ≡ ok (
          gpt_front
            (crc32 (
                gpt_front 0 current_lba backup_lba first_usable_lba last_usable_lba entry_lba
                  entry_array_crc)
              % 2 ^ 32)
            current_lba
            backup_lba
            first_usable_lba
            last_usable_lba
            entry_lba
            entry_array_crc
          ++ zeros (block_size - 92))
unfolding make_gpt_header
make_gpt_header-gpt_front crc32 block_size current_lba backup_lba first_usable_lba last_usable_lba
      entry_lba entry_array_crc h a b c d e f =
    let tail = zeros (block_size - 92) in
    let split : block_size ≡ 92 + (block_size - 92) = omega arith in
    let blank : zeros block_size ≡ zeros 92 ++ tail =
      ap zeros split ∙ zeros-add 92 (block_size - 92) in
    let n0 = length-zeros 92 in
    let n1 : length
          (f1 current_lba backup_lba first_usable_lba last_usable_lba entry_lba entry_array_crc)
        ≡ 92 =
      length-put (zeros 92) 0 (ascii "EFI PART") (omega arith) ∙ n0 in
    let n2 =
      length-pack_front 4
        (f1 current_lba backup_lba first_usable_lba last_usable_lba entry_lba entry_array_crc) 8
        0x00010000 n1 (omega arith) in
    let n3 =
      length-pack_front 4
        (f2 current_lba backup_lba first_usable_lba last_usable_lba entry_lba entry_array_crc) 12 92
        n2 (omega arith) in
    let n4 =
      length-pack_front 8
        (f3 current_lba backup_lba first_usable_lba last_usable_lba entry_lba entry_array_crc) 24
        current_lba n3 (omega arith) in
    let n5 =
      length-pack_front 8
        (f4 current_lba backup_lba first_usable_lba last_usable_lba entry_lba entry_array_crc) 32
        backup_lba n4 (omega arith) in
    let n6 =
      length-pack_front 8
        (f5 current_lba backup_lba first_usable_lba last_usable_lba entry_lba entry_array_crc) 40
        first_usable_lba n5 (omega arith) in
    let n7 =
      length-pack_front 8
        (f6 current_lba backup_lba first_usable_lba last_usable_lba entry_lba entry_array_crc) 48
        last_usable_lba n6 (omega arith) in
    let n8 : length
          (f8 current_lba backup_lba first_usable_lba last_usable_lba entry_lba entry_array_crc)
        ≡ 92 =
      length-put
        (f7 current_lba backup_lba first_usable_lba last_usable_lba entry_lba entry_array_crc) 56
        disk_guid (omega arith)
      ∙ n7 in
    let n9 =
      length-pack_front 8
        (f8 current_lba backup_lba first_usable_lba last_usable_lba entry_lba entry_array_crc) 72
        entry_lba n8 (omega arith) in
    let n10 =
      length-pack_front 4
        (f9 current_lba backup_lba first_usable_lba last_usable_lba entry_lba entry_array_crc) 80
        128 n9 (omega arith) in
    let n11 =
      length-pack_front 4
        (f10 current_lba backup_lba first_usable_lba last_usable_lba entry_lba entry_array_crc) 84
        128 n10 (omega arith) in
    let n12 =
      length-pack_front 4
        (f11 current_lba backup_lba first_usable_lba last_usable_lba entry_lba entry_array_crc) 88
        entry_array_crc n11 (omega arith) in
    rw
      (
        blank,
        put-append (zeros 92) tail 0 (ascii "EFI PART") (omega arith),
        pack_front 4
            (f1 current_lba backup_lba first_usable_lba last_usable_lba entry_lba entry_array_crc)
            tail 8 0x00010000 n1 (omega arith) (omega arith),
        pack_front 4
            (f2 current_lba backup_lba first_usable_lba last_usable_lba entry_lba entry_array_crc)
            tail 12 92 n2 (omega arith) (omega arith),
        pack_front 8
            (f3 current_lba backup_lba first_usable_lba last_usable_lba entry_lba entry_array_crc)
            tail 24 current_lba n3 (omega arith) (omega arith),
        pack_front 8
            (f4 current_lba backup_lba first_usable_lba last_usable_lba entry_lba entry_array_crc)
            tail 32 backup_lba n4 (omega arith) (omega arith),
        pack_front 8
            (f5 current_lba backup_lba first_usable_lba last_usable_lba entry_lba entry_array_crc)
            tail 40 first_usable_lba n5 (omega arith) (omega arith),
        pack_front 8
            (f6 current_lba backup_lba first_usable_lba last_usable_lba entry_lba entry_array_crc)
            tail 48 last_usable_lba n6 (omega arith) (omega arith),
        put-append
            (f7 current_lba backup_lba first_usable_lba last_usable_lba entry_lba entry_array_crc)
            tail 56 disk_guid (omega arith),
        pack_front 8
            (f8 current_lba backup_lba first_usable_lba last_usable_lba entry_lba entry_array_crc)
            tail 72 entry_lba n8 (omega arith) (omega arith),
        pack_front 4
            (f9 current_lba backup_lba first_usable_lba last_usable_lba entry_lba entry_array_crc)
            tail 80 128 n9 (omega arith) (omega arith),
        pack_front 4
            (f10 current_lba backup_lba first_usable_lba last_usable_lba entry_lba entry_array_crc)
            tail 84 128 n10 (omega arith) (omega arith),
        pack_front 4
            (f11 current_lba backup_lba first_usable_lba last_usable_lba entry_lba entry_array_crc)
            tail 88 entry_array_crc n11 (omega arith) (omega arith),
        front_slice current_lba backup_lba first_usable_lba last_usable_lba entry_lba
            entry_array_crc tail,
        bit_and_mask 32 (
            crc32 (
              gpt_front 0 current_lba backup_lba first_usable_lba last_usable_lba entry_lba
                entry_array_crc)),
      )
      (pack_front 4
          (f12 current_lba backup_lba first_usable_lba last_usable_lba entry_lba entry_array_crc)
          tail 16
          (crc32 (
              gpt_front 0 current_lba backup_lba first_usable_lba last_usable_lba entry_lba
                entry_array_crc)
            % 2 ^ 32)
          n12 (omega arith) (omega arith)
        ∙ ap (λ t. ok (t ++ tail))
            (front_sealed current_lba backup_lba first_usable_lba last_usable_lba entry_lba
              entry_array_crc
              (crc32 (
                  gpt_front 0 current_lba backup_lba first_usable_lba last_usable_lba entry_lba
                    entry_array_crc)
                % 2 ^ 32)))
