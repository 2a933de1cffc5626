-- ===== src/Legacy/Disk.antt =====
-- A disk image that is put together as the verifier expects it passes all its checks but those of the
-- volume.
use zig_os.Base.{
  ℕ, ◌+◌, ◌-◌, ◌*◌, ◌/◌, ◌≤◌, ◌<◌, ◌≡◌, inl, inr, refl, arith, ◌∙◌, List, [], ◌∷◌, length, slice,
}
use zig_os.Base.{false, leb, lt→ltb, le→leb, lt→not_leb, bytes_eq_refl, Result, ok, raise, ◌>>◌}
use zig_os.Bytes.{Bytes, zeros, put, le_bytes}
use zig_os.Bytes.Words.{length-zeros, slice-zeros_inside}
use zig_os.Bytes.Region.{
  length-put, slice-put_self, slice-put_at, slice-put_other, byte_at-slice, unpack_from-le_bytes,
}
use zig_os.Bytes.Image.{slice_front}
use zig_os.Elf64.Verified.{any-zeros}
use zig_os.Legacy.Verify.{Expected, verify_volume}
use zig_os.Legacy.Content.{ContentCheck, verify_contents}
use zig_os.Legacy.Image.{signature, verify_parts, verify_disk, verify_gap, verify_legacy}

-- The first sector, the stage behind it, the kernel from sector 9 on, and the volume from sector 256 on.
unfoldable pub assemble : Bytes → Bytes → Bytes → Bytes → Bytes
assemble mbr stage1 kernel volume =
    put (put (put (put (zeros 2097152) 0 mbr) 512 stage1) 4608 kernel) 131072 volume

-- The parts have their sizes, and the first sector is the boot sector with the entry of the partition.
pub record Parts (boot mbr stage1 kernel volume : Bytes) : Type 0 where
  pub boot_size : length boot ≡ 512
  pub boot_signature : slice boot 510 512 ≡ signature
  pub mbr_size : length mbr ≡ 512
  pub code : slice mbr 0 446 ≡ slice boot 0 446
  pub kind : slice mbr 450 451 ≡ 1 ∷ []
  pub lba : slice mbr 454 458 ≡ le_bytes 4 256
  pub sectors : slice mbr 458 462 ≡ le_bytes 4 2880
  pub table : slice mbr 462 510 ≡ slice boot 462 510
  pub mbr_signature : slice mbr 510 512 ≡ signature
  pub stage1_size : length stage1 ≡ 4096
  pub kernel_size : (0 < length kernel) × (length kernel ≤ 247 * 512)
  pub volume_size : length volume ≡ 1474560

module _ (boot mbr stage1 kernel volume : Bytes) (p : Parts boot mbr stage1 kernel volume) where
  abbrev disk0 : Bytes
  disk0 = put (zeros 2097152) 0 mbr

  abbrev disk1 : Bytes
  disk1 = put disk0 512 stage1

  abbrev disk2 : Bytes
  disk2 = put disk1 4608 kernel

  abbrev disk : Bytes
  disk = assemble mbr stage1 kernel volume

  fits0 : 0 + length mbr ≤ length (zeros 2097152)
  fits0 = omega (arith, length-zeros 2097152, p.mbr_size)

  length0 : length disk0 ≡ 2097152
  length0 = length-put (zeros 2097152) 0 mbr fits0 ∙ length-zeros 2097152

  fits1 : 512 + length stage1 ≤ length disk0
  fits1 = omega (arith, length0, p.stage1_size)

  length1 : length disk1 ≡ 2097152
  length1 = length-put disk0 512 stage1 fits1 ∙ length0

  fits2 : 4608 + length kernel ≤ length disk1
  fits2 = omega (arith, length1, p.kernel_size)

  length2 : length disk2 ≡ 2097152
  length2 = length-put disk1 4608 kernel fits2 ∙ length1

  fits3 : 131072 + length volume ≤ length disk2
  fits3 = omega (arith, length2, p.volume_size)

  length-disk : length disk ≡ 2097152
  unfolding assemble
  length-disk = length-put disk2 131072 volume fits3 ∙ length2

  first_sector : slice disk 0 512 ≡ mbr
  unfolding assemble
  first_sector =
      slice-put_other disk2 131072 volume fits3 0 512 (omega arith) (inl (omega arith))
      ∙ slice-put_other disk1 4608 kernel fits2 0 512 (omega arith) (inl (omega arith))
      ∙ slice-put_other disk0 512 stage1 fits1 0 512 (omega arith) (inl (omega arith))
      ∙ slice-put_at (zeros 2097152) 0 mbr fits0 512 (omega (arith, p.mbr_size))

  in_first : (a b : ℕ) → a ≤ b → b ≤ 512 → slice disk a b ≡ slice mbr a b
  in_first a b o h = slice_front disk mbr 512 a b o h first_sector

  stage1_bytes : slice disk 512 4608 ≡ stage1
  unfolding assemble
  stage1_bytes =
      slice-put_other disk2 131072 volume fits3 512 4608 (omega arith) (inl (omega arith))
      ∙ slice-put_other disk1 4608 kernel fits2 512 4608 (omega arith) (inl (omega arith))
      ∙ slice-put_at disk0 512 stage1 fits1 4608 (omega (arith, p.stage1_size))

  kernel_bytes : slice disk 4608 (4608 + length kernel) ≡ kernel
  unfolding assemble
  kernel_bytes =
      slice-put_other disk2 131072 volume fits3 4608 (4608 + length kernel) (omega arith)
        (inl (omega (arith, p.kernel_size)))
      ∙ slice-put_self disk1 4608 kernel fits2

  volume_bytes : slice disk 131072 (131072 + length volume) ≡ volume
  unfolding assemble
  volume_bytes = slice-put_self disk2 131072 volume fits3

  gap_bytes :
      (a : ℕ) → 4608 + length kernel ≤ a → a ≤ 131072 → slice disk a 131072 ≡ zeros (131072 - a)
  unfolding assemble
  gap_bytes a lo hi =
      slice-put_other disk2 131072 volume fits3 a 131072 hi (inl (omega arith))
      ∙ slice-put_other disk1 4608 kernel fits2 a 131072 hi (inr lo)
      ∙ slice-put_other disk0 512 stage1 fits1 a 131072 hi (inr (omega (arith, p.stage1_size)))
      ∙ slice-put_other (zeros 2097152) 0 mbr fits0 a 131072 hi (inr (omega (arith, p.mbr_size)))
      ∙ slice-zeros_inside 2097152 a 131072 hi (omega arith)

  parts-ok : verify_parts boot stage1 kernel volume disk ≡ ok tt
  unfolding verify_parts
  parts-ok =
      rw
        (
          p.boot_size,
          p.boot_signature,
          bytes_eq_refl signature,
          p.stage1_size,
          lt→ltb 0 (length kernel) p.kernel_size.0,
          le→leb (length kernel) (247 * 512) p.kernel_size.1,
          p.volume_size,
          length-disk,
        )
        refl

  disk-ok : verify_disk boot stage1 kernel volume disk ≡ ok tt
  unfolding verify_disk
  disk-ok =
      let kind =
        byte_at-slice disk 450 1 (omega (arith, length-disk))
          (in_first 450 451 (omega arith) (omega arith) ∙ p.kind) in
      let lba =
        unpack_from-le_bytes 4 disk 454 256 (omega (arith, length-disk)) (omega arith)
          (in_first 454 458 (omega arith) (omega arith) ∙ p.lba) in
      let sectors =
        unpack_from-le_bytes 4 disk 458 2880 (omega (arith, length-disk)) (omega arith)
          (in_first 458 462 (omega arith) (omega arith) ∙ p.sectors) in
      rw
        (
          in_first 0 446 (omega arith) (omega arith) ∙ p.code,
          bytes_eq_refl (slice boot 0 446),
          in_first 462 510 (omega arith) (omega arith) ∙ p.table,
          bytes_eq_refl (slice boot 462 510),
          in_first 510 512 (omega arith) (omega arith) ∙ p.mbr_signature,
          bytes_eq_refl signature,
          stage1_bytes,
          bytes_eq_refl stage1,
          kernel_bytes,
          bytes_eq_refl kernel,
          volume_bytes,
          bytes_eq_refl volume,
          kind,
          lba,
          sectors,
        )
        refl

  gap-ok : verify_gap kernel disk ≡ ok tt
  unfolding verify_gap
  gap-ok =
      let sectors = (length kernel + 511) / 512 in
      let early : leb 256 (9 + sectors - 1) ≡ false =
        lt→not_leb 256 (9 + sectors - 1) (omega (arith, p.kernel_size)) in
      rw
        (
          early,
          gap_bytes ((9 + sectors) * 512) (omega arith) (omega (arith, p.kernel_size)),
          any-zeros (131072 - (9 + sectors) * 512),
        )
        refl

  -- For parts of the right sizes, the first sector holding the code of the boot sector and the entry of the
  -- partition, `main` accepts or rejects the disk image that is put together from them exactly as its checks
  -- of the volume and of the contents of files do: it finds no fault with the parts, the image, or the gap
  -- between kernel and volume.
  pub verify_legacy-assemble :
      (expected : List Expected) (checks : List ContentCheck)
      → verify_legacy expected checks boot stage1 kernel volume (assemble mbr stage1 kernel volume)
        ≡ (verify_volume expected volume >> verify_contents volume checks)
  unfolding verify_legacy
  verify_legacy-assemble expected checks =
      rw (parts-ok, disk-ok, gap-ok)
        (then_done (verify_volume expected volume) (verify_contents volume checks))
    where
      done : (r : Result (Unit {0})) → (r >> ok tt) ≡ r
      done (ok u) = refl
      done (raise e) = refl

      then_done : (r s : Result (Unit {0})) → (r >> (s >> ok tt)) ≡ (r >> s)
      then_done (ok u) s = done s
      then_done (raise e) s = refl
