-- ===== src/Legacy/DiskExamples.antt =====
-- The theorem on disk images at a boot sector, a loader of zeros, a kernel of three bytes and a blank volume.
use zig_os.Base.{◌≡◌, refl, arith, [], ◌∷◌, ◌++◌, slice, take, drop, replicate}
use zig_os.Base.{◌>>◌}
use zig_os.Bytes.{Bytes, zeros, le_bytes}
use zig_os.Bytes.Words.{length-zeros}
use zig_os.Legacy.Verify.{verify_volume}
use zig_os.Legacy.Content.{verify_contents}
use zig_os.Legacy.Image.{signature, verify_legacy}
use zig_os.Legacy.Disk.{Parts, assemble, verify_legacy-assemble}

abbrev boot_sector : Bytes
boot_sector =
    zeros 450 ++ (1 ∷ 0 ∷ 0 ∷ 0 ∷ (le_bytes 4 256 ++ (le_bytes 4 2880 ++ (zeros 48 ++ signature))))

abbrev loader : Bytes
loader = zeros 4096

abbrev small_kernel : Bytes
small_kernel = 0xFA ∷ 0xFC ∷ 0xF4 ∷ []

abbrev blank : Bytes
blank = zeros 1474560

example_disk-Parts : Parts boot_sector boot_sector loader small_kernel blank
unfolding zeros replicate slice take drop le_bytes
example_disk-Parts = record {
  boot_size = refl;
  boot_signature = refl;
  mbr_size = refl;
  code = refl;
  kind = refl;
  lba = refl;
  sectors = refl;
  table = refl;
  mbr_signature = refl;
  stage1_size = length-zeros 4096;
  kernel_size = (omega arith, omega arith);
  volume_size = length-zeros 1474560;
}

verify_legacy-assemble_example :
    verify_legacy [] [] boot_sector loader small_kernel blank
      (assemble boot_sector loader small_kernel blank)
    ≡ (verify_volume [] blank >> verify_contents blank [])
verify_legacy-assemble_example =
    verify_legacy-assemble boot_sector boot_sector loader small_kernel blank example_disk-Parts []
      []
