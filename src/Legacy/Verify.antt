-- ===== src/Legacy/Verify.antt =====
-- The checks of scripts/verify-legacy-bios.py on the volume: size, boot sector, tables, and every row
-- of `EXPECTED`.
use zig_os.Base.{
  Bool, ℕ, ◌+◌, ◌-◌, ◌*◌, leb, ◌!=◌, ◌||◌, ◌&&◌, not, bytes_eq, List, [], ◌∷◌, length, range_from,
  drop, slice, ascii,
}
use zig_os.Base.{Result, ok, fail_if, ◌>>=◌, ◌>>◌, if◌then◌else◌}
use zig_os.Bytes.{Bytes, byte_at, unpack_from}
use zig_os.Fnv.{fnv1a32}
use zig_os.Elf32.{verify_elf}
use zig_os.Fat12.Geometry.{bps, spf, root_start}
use zig_os.Fat12.Chain.{read_chain, first_fat}
use zig_os.Fat12.Entry.{fat_entry}

-- A row of `EXPECTED`: its key, and the tuple.
pub record Expected : Type 0 where
  pub name : Bytes
  pub cluster : ℕ
  pub size : ℕ
  pub hash : ℕ
  pub chain : List ℕ

abbrev pub expected_files : List Expected
expected_files =
    record { name = ascii "HELLO   TXT"; cluster = 2; size = 86; hash = 0xA9F660F2; chain = 2 ∷ [] }
    ∷ record {
      name = ascii "INIT    ELF";
      cluster = 3;
      size = 423;
      hash = 0x4E34353F;
      chain = 3 ∷ [];
    }
    ∷ record {
      name = ascii "CAT     ELF";
      cluster = 4;
      size = 510;
      hash = 0x9CD11469;
      chain = 4 ∷ [];
    }
    ∷ record {
      name = ascii "BIG     TXT";
      cluster = 5;
      size = 1300;
      hash = 0xE5D120DF;
      chain = 5 ∷ 6 ∷ 7 ∷ [];
    }
    ∷ record {
      name = ascii "SPINA   ELF";
      cluster = 8;
      size = 264;
      hash = 0xFD5D48A0;
      chain = 8 ∷ [];
    }
    ∷ record {
      name = ascii "SPINB   ELF";
      cluster = 9;
      size = 264;
      hash = 0xFD5D48A0;
      chain = 9 ∷ [];
    }
    ∷ record {
      name = ascii "FAULT   ELF";
      cluster = 10;
      size = 262;
      hash = 0x3A59C4D6;
      chain = 10 ∷ [];
    }
    ∷ record {
      name = ascii "WRITER  ELF";
      cluster = 11;
      size = 1488;
      hash = 0x267B866B;
      chain = 11 ∷ 12 ∷ 13 ∷ [];
    }
    ∷ record {
      name = ascii "SERVICE ELF";
      cluster = 14;
      size = 1362;
      hash = 0x7C65C5CE;
      chain = 14 ∷ 15 ∷ 16 ∷ [];
    }
    ∷ record {
      name = ascii "ORCH    ELF";
      cluster = 17;
      size = 1937;
      hash = 0x11986FD8;
      chain = 17 ∷ 18 ∷ 19 ∷ 20 ∷ [];
    }
    ∷ record {
      name = ascii "CHILD   ELF";
      cluster = 21;
      size = 913;
      hash = 0x7E1C062C;
      chain = 21 ∷ 22 ∷ [];
    }
    ∷ record {
      name = ascii "ASYNC   ELF";
      cluster = 23;
      size = 2336;
      hash = 0x21F68871;
      chain = 23 ∷ 24 ∷ 25 ∷ 26 ∷ 27 ∷ [];
    }
    ∷ record {
      name = ascii "WORKA   ELF";
      cluster = 28;
      size = 824;
      hash = 0xC83AFC14;
      chain = 28 ∷ 29 ∷ [];
    }
    ∷ record {
      name = ascii "WORKB   ELF";
      cluster = 30;
      size = 784;
      hash = 0xCD43E95A;
      chain = 30 ∷ 31 ∷ [];
    }
    ∷ record {
      name = ascii "LEAF    ELF";
      cluster = 32;
      size = 692;
      hash = 0x769A282E;
      chain = 32 ∷ 33 ∷ [];
    }
    ∷ record {
      name = ascii "GENRUN  ELF";
      cluster = 34;
      size = 2864;
      hash = 0xD84697C0;
      chain = 34 ∷ 35 ∷ 36 ∷ 37 ∷ 38 ∷ 39 ∷ [];
    }
    ∷ record {
      name = ascii "REUSE   ELF";
      cluster = 40;
      size = 664;
      hash = 0x30A2BF85;
      chain = 40 ∷ 41 ∷ [];
    }
    ∷ record {
      name = ascii "FORKER  ELF";
      cluster = 42;
      size = 1144;
      hash = 0xADB21589;
      chain = 42 ∷ 43 ∷ 44 ∷ [];
    }
    ∷ record {
      name = ascii "EXECA   ELF";
      cluster = 45;
      size = 660;
      hash = 0x8E043930;
      chain = 45 ∷ 46 ∷ [];
    }
    ∷ record {
      name = ascii "EXECB   ELF";
      cluster = 47;
      size = 660;
      hash = 0x21F7AB51;
      chain = 47 ∷ 48 ∷ [];
    }
    ∷ record {
      name = ascii "PATHS   ELF";
      cluster = 49;
      size = 4024;
      hash = 0x38C1C0AD;
      chain = 49 ∷ 50 ∷ 51 ∷ 52 ∷ 53 ∷ 54 ∷ 55 ∷ 56 ∷ [];
    }
    ∷ []

-- `name.endswith(b"ELF")`
unfoldable pub ends_with_elf : Bytes → Bool
ends_with_elf name = leb 3 (length name) && bytes_eq (drop (length name - 3) name) (ascii "ELF")

unfoldable pub check_elf : Bytes → Bytes → Result (Unit {0})
check_elf name bytes = if ends_with_elf name then verify_elf name bytes else ok tt

-- The body of the loop over `EXPECTED`.
unfoldable pub verify_entry : Bytes → ℕ → Expected → Result (Unit {0})
verify_entry volume index expected = do
  let offset = root_start * bps + index * 32
  let actual_name = slice volume offset (offset + 11)
  attributes ← byte_at volume (offset + 11)
  cluster ← unpack_from 2 volume (offset + 26)
  size ← unpack_from 4 volume (offset + 28)
  fail_if
      (not (bytes_eq actual_name expected.name)
        || attributes != 0x20
        || cluster != expected.cluster
        || size != expected.size)
      "root entry {} invalid for {}" (index ∷ expected.name)
  file ← read_chain volume cluster size
  fail_if (not (bytes_eq file.chain expected.chain)) "chain mismatch for {}: {}" expected.name
  fail_if (fnv1a32 file.bytes != expected.hash) "hash mismatch for {}: {}" expected.name
  check_elf expected.name file.bytes

unfoldable pub verify_entries : Bytes → ℕ → List Expected → Result (Unit {0})
verify_entries volume index [] = ok tt
verify_entries volume index (expected ∷ rest) = do
  verify_entry volume index expected
  verify_entries volume (index + 1) rest

-- The boot sector's signature and parameter block.
unfoldable pub verify_boot : Bytes → Result (Unit {0})
verify_boot volume = do
  fail_if (not (bytes_eq (slice volume 510 512) (0x55 ∷ 0xAA ∷ []))) "FAT12 boot signature invalid"
      []
  bytes_per_sector ← unpack_from 2 volume 11
  per_cluster ← byte_at volume 13
  reserved ← unpack_from 2 volume 14
  fats ← byte_at volume 16
  root ← unpack_from 2 volume 17
  total ← unpack_from 2 volume 19
  per_fat ← unpack_from 2 volume 22
  hidden ← unpack_from 4 volume 28
  fail_if
      (bytes_per_sector != 512
        || per_cluster != 1
        || reserved != 1
        || fats != 2
        || root != 224
        || total != 2880
        || per_fat != 9
        || hidden != 256)
      "FAT12 BPB invalid: {}" []

unfoldable pub verify_fats : Bytes → Result (Unit {0})
verify_fats volume =
    fail_if
      (not (bytes_eq (first_fat volume) (slice volume ((1 + spf) * bps) ((1 + 2 * spf) * bps)))
        || not (bytes_eq (slice (first_fat volume) 0 3) (0xF0 ∷ 0xFF ∷ 0xFF ∷ [])))
      "FAT12 copies/reserved entries invalid" []

-- `volume[notes_slot] != 0`, with the number of rows of `EXPECTED`.
unfoldable pub verify_notes : Bytes → ℕ → Result (Unit {0})
verify_notes volume rows = do
  slot ← byte_at volume (root_start * bps + rows * 32)
  fail_if (slot != 0) "initial NOTES.TXT root slot is not free" []

-- `for cluster in range(57, 64)`, over the clusters that are left.
unfoldable pub verify_free : Bytes → List ℕ → Result (Unit {0})
verify_free fat [] = ok tt
verify_free fat (cluster ∷ clusters) = do
  entry ← fat_entry fat cluster
  fail_if (entry != 0) "runtime-reserved cluster {} is not initially free" (cluster ∷ [])
  verify_free fat clusters

-- The volume's checks in their order, up to the contents of single files.
unfoldable pub verify_volume : List Expected → Bytes → Result (Unit {0})
verify_volume table volume = do
  fail_if (length volume != 2880 * bps) "FAT12 volume size invalid" []
  verify_boot volume
  verify_fats volume
  verify_entries volume 0 table
  verify_notes volume (length table)
  verify_free (first_fat volume) (range_from 57 7)
