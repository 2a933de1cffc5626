-- ===== src/Legacy/Image.antt =====
-- The checks of scripts/verify-legacy-bios.py on the disk image around the volume, and `main` as a whole.
-- (The checksum of the kernel is only printed.)
use zig_os.Base.{
  ℕ, ◌+◌, ◌-◌, ◌*◌, ◌/◌, ltb, leb, ◌!=◌, ◌&&◌, ◌||◌, not, bytes_eq, List, [], ◌∷◌, length, slice,
}
use zig_os.Base.{Result, fail_if, ◌>>=◌, ◌>>◌}
use zig_os.Bytes.{Bytes, any, byte_at, unpack_from}
use zig_os.Fat12.Geometry.{bps}
use zig_os.Legacy.Verify.{Expected, verify_volume}
use zig_os.Legacy.Content.{ContentCheck, verify_contents}

abbrev pub fat_lba : ℕ
fat_lba = 256

abbrev pub fat_sectors : ℕ
fat_sectors = 2880

abbrev pub signature : Bytes
signature = 0x55 ∷ 0xAA ∷ []

unfoldable pub verify_parts : Bytes → Bytes → Bytes → Bytes → Bytes → Result (Unit {0})
verify_parts boot stage1 kernel volume image = do
  fail_if (length boot != 512 || not (bytes_eq (slice boot 510 512) signature))
      "stage0 size/signature invalid" []
  fail_if (length stage1 != 4096) "stage1 must be exactly 4096 bytes" []
  fail_if (not (ltb 0 (length kernel) && leb (length kernel) (247 * bps)))
      "kernel payload size invalid" []
  fail_if (length volume != fat_sectors * bps) "FAT12 volume size invalid" []
  fail_if (length image != 2 * 1024 * 1024) "disk image size invalid" []

unfoldable pub verify_disk : Bytes → Bytes → Bytes → Bytes → Bytes → Result (Unit {0})
verify_disk boot stage1 kernel volume image = do
  fail_if
      (not (bytes_eq (slice boot 0 446) (slice image 0 446))
        || not (bytes_eq (slice image 462 510) (slice boot 462 510))
        || not (bytes_eq (slice image 510 512) signature))
      "stage0/MBR bytes differ" []
  fail_if (not (bytes_eq (slice image bps (9 * bps)) stage1)) "stage1 image bytes differ" []
  fail_if (not (bytes_eq (slice image (9 * bps) (9 * bps + length kernel)) kernel))
      "kernel image bytes differ" []
  let fat_offset = fat_lba * bps
  fail_if (not (bytes_eq (slice image fat_offset (fat_offset + length volume)) volume))
      "FAT12 volume bytes differ from disk" []
  kind ← byte_at image (446 + 4)
  fail_if (kind != 0x01) "partition is not FAT12 type 0x01" []
  lba ← unpack_from 4 image (446 + 8)
  fail_if (lba != fat_lba) "partition LBA invalid" []
  sectors ← unpack_from 4 image (446 + 12)
  fail_if (sectors != fat_sectors) "partition sector count invalid" []

unfoldable pub verify_gap : Bytes → Bytes → Result (Unit {0})
verify_gap kernel image = do
  let kernel_sectors = (length kernel + 511) / bps
  let kernel_end_lba = 9 + kernel_sectors - 1
  fail_if (leb fat_lba kernel_end_lba) "kernel overlaps FAT12 partition" []
  fail_if (any (slice image ((9 + kernel_sectors) * bps) (fat_lba * bps)))
      "protected kernel/FAT gap is not zero" []

-- The checks of `main` in their order. (The size of the volume is checked once in the source; it is part
-- of `verify_volume` too.)
unfoldable pub verify_legacy :
    List Expected → List ContentCheck → Bytes → Bytes → Bytes → Bytes → Bytes → Result (Unit {0})
verify_legacy table checks boot stage1 kernel volume image = do
  verify_parts boot stage1 kernel volume image
  verify_disk boot stage1 kernel volume image
  verify_volume table volume
  verify_contents volume checks
  verify_gap kernel image
