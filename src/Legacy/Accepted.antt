-- ===== src/Legacy/Accepted.antt =====
-- The volume that the generator writes passes the verifier.
use zig_os.Base.{
  zero, sym, take, drop, replicate, ℕ, suc, ◌+◌, ◌*◌, ◌<◌, ◌≤◌, ◌≡◌, ◌!=◌, refl, arith, List, [],
  ◌∷◌, ◌++◌, length, slice, range_from,
}
use zig_os.Base.{false, true, ok, bytes_eq, bytes_eq_refl, ap, ◌∙◌}
use zig_os.Bytes.{Bytes, byte_at, unpack_from, le_bytes, from_le}
use zig_os.Fnv.{fnv1a32}
use zig_os.Bytes.Image.{slice_front, unpack_from_known}
use zig_os.Bytes.Region.{byte_at-slice}
use zig_os.Fat12.Entry.{fat_entry}
use zig_os.Fat12.Volume.{File, build_volume, cluster_count}
use zig_os.Fat12.Chain.{first_fat}
use zig_os.Fat12.Linked.{clusters_needed}
use zig_os.Fat12.Files.{Fits}
use zig_os.Fat12.Boot.{parameters, extension}
use zig_os.Fat12.ReadBack.{Readable, build_volume-Built}
use zig_os.Legacy.Verify.{
  Expected, check_elf, verify_entry, verify_entries, verify_boot, verify_fats, verify_notes,
  verify_free, verify_volume,
}

-- The table names the files in their order, each with its size, hash and chain from `next` on; no
-- file is empty, and the executables pass `verify_elf`.
abbrev pub Describes : ℕ → List File → List Expected → Type 0
Describes next [] [] = Unit {0}
Describes next [] (e ∷ table) = true ≡ false
Describes next (f ∷ files) [] = true ≡ false
Describes next (f ∷ files) (e ∷ table) =
    (e ≡ record {
      name = f.name;
      cluster = next;
      size = length f.content;
      hash = fnv1a32 f.content;
      chain = range_from next (cluster_count f.content);
    })
    × (0 < length f.content)
    × (check_elf f.name f.content ≡ ok tt)
    × Describes (next + cluster_count f.content) files table

ne_refl : (a : ℕ) → (a != a) ≡ false
ne_refl a = ground arith

verify_entries-Readable :
    (files : List File) (table : List Expected) (volume : Bytes) (index next : ℕ)
    → Readable volume index next files
    → Describes next files table
    → verify_entries volume index table ≡ ok tt
unfolding verify_entries verify_entry
verify_entries-Readable [] [] volume index next r d = refl
verify_entries-Readable [] (e ∷ table) volume index next r d = cc
verify_entries-Readable (f ∷ files) [] volume index next r d = cc
verify_entries-Readable (f ∷ files) (e ∷ table) volume index next r d =
    rw
      (
        d.0,
        r.0,
        r.1,
        r.2,
        r.3,
        r.4 d.1,
        bytes_eq_refl f.name,
        bytes_eq_refl (range_from next (cluster_count f.content)),
        ne_refl next,
        ne_refl (length f.content),
        ne_refl (fnv1a32 f.content),
        d.2,
      )
      (verify_entries-Readable files table volume (index + 1) (next + cluster_count f.content) r.5
        d.3)

-- The boot sector as `write_boot` leaves it for 256 hidden sectors.
abbrev sector : Bytes
sector = parameters ++ (le_bytes 4 256 ++ extension)

module _ (volume : Bytes) (size : length volume ≡ 2880 * 512)
    (boot : slice volume 0 512 ≡ sector) where
  boot_slice :
      (a b : ℕ) (bytes : Bytes)
      → a ≤ b
      → b ≤ 512
      → slice sector a b ≡ bytes
      → slice volume a b ≡ bytes
  boot_slice a b bytes o h e = slice_front volume sector 512 a b o h boot ∙ e

  boot_field :
      (width at : ℕ) (bytes : Bytes)
      → at + width ≤ 512
      → slice sector at (at + width) ≡ bytes
      → unpack_from width volume at ≡ ok (from_le bytes)
  boot_field width at bytes h e =
      unpack_from_known width volume at bytes (omega arith)
        (boot_slice at (at + width) bytes (omega arith) h e)

  boot_byte : (at v : ℕ) → at < 512 → slice sector at (at + 1) ≡ v ∷ [] → byte_at volume at ≡ ok v
  boot_byte at v h e =
      byte_at-slice volume at v (omega arith)
        (boot_slice at (at + 1) (v ∷ []) (omega arith) (omega arith) e)

  verify_boot-sector : verify_boot volume ≡ ok tt
  unfolding verify_boot slice take drop replicate le_bytes from_le bytes_eq
  verify_boot-sector =
      rw
        (
          boot_slice 510 512 (0x55 ∷ 0xAA ∷ []) (omega arith) (omega arith) refl,
          boot_field 2 11 (0 ∷ 2 ∷ []) (omega arith) refl,
          boot_byte 13 1 (omega arith) refl,
          boot_field 2 14 (1 ∷ 0 ∷ []) (omega arith) refl,
          boot_byte 16 2 (omega arith) refl,
          boot_field 2 17 (224 ∷ 0 ∷ []) (omega arith) refl,
          boot_field 2 19 (0x40 ∷ 0x0B ∷ []) (omega arith) refl,
          boot_field 2 22 (9 ∷ 0 ∷ []) (omega arith) refl,
          boot_field 4 28 (0 ∷ 1 ∷ 0 ∷ 0 ∷ []) (omega arith) refl,
        )
        refl

verify_fats-mirrored :
    (volume : Bytes)
    → first_fat volume ≡ slice volume (10 * 512) (19 * 512)
    → slice (first_fat volume) 0 3 ≡ 0xF0 ∷ 0xFF ∷ 0xFF ∷ []
    → verify_fats volume ≡ ok tt
unfolding verify_fats bytes_eq
verify_fats-mirrored volume mirrored media =
    rw (media, sym mirrored, bytes_eq_refl (first_fat volume)) refl

verify_notes-free :
    (volume : Bytes) (rows : ℕ)
    → byte_at volume (19 * 512 + rows * 32) ≡ ok 0
    → verify_notes volume rows ≡ ok tt
unfolding verify_notes
verify_notes-free volume rows e = rw e refl

verify_free-all :
    (fat : Bytes) (from count end : ℕ)
    → from + count ≤ end
    → ((c : ℕ) → from ≤ c → c < end → fat_entry fat c ≡ ok 0)
    → verify_free fat (range_from from count) ≡ ok tt
unfolding verify_free range_from
verify_free-all fat from zero end h e = refl
verify_free-all fat from (suc count) end h e =
    rw (e from (omega arith) (omega arith))
      (verify_free-all fat (from + 1) count end (omega arith) (λ c lo hi. e c (omega arith) hi))

-- The table has as many rows as there are files.
length-Describes :
    (files : List File) (table : List Expected) (next : ℕ)
    → Describes next files table
    → length table ≡ length files
length-Describes [] [] next d = refl
length-Describes [] (e ∷ table) next d = cc
length-Describes (f ∷ files) [] next d = cc
length-Describes (f ∷ files) (e ∷ table) next d =
    ap suc (length-Describes files table (next + cluster_count f.content) d.3)

-- For every list of files that fits, leaves the directory a slot and ends below cluster 57, and every
-- table of expectations that describes it (the names, sizes, hashes and consecutive chains of its
-- files, none of them empty, with executables that pass `verify_elf`), the volume that `build_volume`
-- makes for 256 hidden sectors passes all of the verifier's checks on a volume up to those of single
-- files' contents.
pub verify_volume-build_volume :
    (files : List File) (table : List Expected)
    → Fits files
    → length files < 224
    → 2 + clusters_needed files ≤ 57
    → Describes 2 files table
    → (volume : Bytes) × (build_volume 256 files ≡ ok volume) × (verify_volume table volume ≡ ok tt)
unfolding verify_volume
verify_volume-build_volume files table fits slots clusters d =
    let built = build_volume-Built 256 files (omega arith) fits in
    let rows = length-Describes files table 2 d in
    let size : (length built.volume != 2880 * 512) ≡ false = ground (arith, built.size) in
    (
      built.volume,
      built.returns,
      rw
          (
            size,
            verify_boot-sector built.volume built.size built.boot,
            verify_fats-mirrored built.volume built.mirrored built.media,
            verify_entries-Readable files table built.volume 0 2 built.readable d,
            rows,
            verify_notes-free built.volume (length files)
                (built.free_slots (19 * 512 + length files * 32) (omega arith) (omega arith)),
          )
          (verify_free-all (first_fat built.volume) 57 7 64 (omega arith)
            (λ c lo hi. built.free_clusters c (omega arith) (omega arith))),
    )
