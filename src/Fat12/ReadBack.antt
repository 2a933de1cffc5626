-- ===== src/Fat12/ReadBack.antt =====
-- The volume as a whole: what `build_volume` writes, `read_chain` and the directory reads give back.
use zig_os.Base.{ℕ, suc, ◌+◌, ◌-◌, ◌*◌, ◌^◌, ◌≤◌, ◌<◌, ◌≡◌, inl, arith, ◌∙◌, sym}
use zig_os.Base.{List, [], ◌∷◌, ◌++◌, length, slice, range_from, Result, ok}
use mathlib.Core.Path.{subst}
use zig_os.Bytes.{Bytes, zeros, put, le_bytes, byte_at, unpack_from}
use zig_os.Bytes.Words.{IsBytes-put, IsBytes-zeros, length-zeros, slice-zeros}
use zig_os.Bytes.Region.{
  slice-put_at, slice-put_other, length-put, byte_at-slice, unpack_from-le_bytes,
}
use zig_os.Bytes.Frame.{slice_empty}
use zig_os.Fat12.Volume.{File, build_volume, copy_fats}
use zig_os.Fat12.Volume.{cluster_count, cluster_offset}
use zig_os.Fat12.Chain.{first_fat, read_chain}
use zig_os.Fat12.Linked.{
  IsTable, Linked, AllLinked, allocate-Allocates, cluster_count-pos, clusters_needed,
}
use zig_os.Fat12.Entry.{fat_entry}
use zig_os.Fat12.Reserved.{
  reserved_entries, reserved_bytes, blank_table, blank_table-free, blank_table-reserved,
}
use zig_os.Base.{inr, ap}
use zig_os.Bytes.Words.{slice-zeros_one}
use zig_os.Fat12.Slots.{slot_offset, entry_slices}
use zig_os.Fat12.Files.{Fits, AllStored, write_files-Files, cluster_count_lem, cluster_count-full}
use zig_os.Fat12.Reading.{read_loop_run}
use zig_os.Fat12.Boot.{parameters, extension, write_boot-layout, length-boot}

-- A file of linked clusters that hold its contents reads back with its chain.
pub read_chain-Linked :
    (volume content : Bytes) (first : ℕ)
    → length volume ≡ 2880 * 512
    → 2 ≤ first
    → first + cluster_count content ≤ 2849
    → 0 < length content
    → Linked (first_fat volume) first (cluster_count content)
    → slice volume (cluster_offset first) (cluster_offset first + length content) ≡ content
    → read_chain volume first (length content)
      ≡ ok (record { bytes = content; chain = range_from first (cluster_count content) })
unfolding read_chain
read_chain-Linked volume content first n two fits some linked stored =
    let count = cluster_count content in
    let pos = cluster_count-pos content in
    let from : first + 0 ≡ first = omega arith in
    let one : suc (count - 1) ≡ count = omega arith in
    let nothing : slice volume (cluster_offset first) (cluster_offset first + 0 * 512) ≡ [] =
      slice_empty volume (cluster_offset first) (cluster_offset first + 0 * 512) (omega arith) in
    let short : length content ≤ count * 512 = (cluster_count_lem content).0 in
    let run =
      read_loop_run volume (length content) first count (count - 1) 0 2880 [] n two fits linked
        (omega arith) (cluster_count-full content some) short (omega arith) in
    rw (from, one, stored, nothing) at run

-- What a reader finds of the files: each directory entry from `index` on gives the name, the
-- attribute, the first cluster and the size, and the chain from there gives the contents.
abbrev pub Readable : Bytes → ℕ → ℕ → List File → Type 0
Readable volume index next [] = Unit {0}
Readable volume index next (f ∷ files) =
    (slice volume (slot_offset index) (slot_offset index + 11) ≡ f.name)
    × (byte_at volume (slot_offset index + 11) ≡ ok 0x20)
    × (unpack_from 2 volume (slot_offset index + 26) ≡ ok next)
    × (unpack_from 4 volume (slot_offset index + 28) ≡ ok (length f.content))
    × (0 < length f.content
        → read_chain volume next (length f.content)
          ≡ ok (record { bytes = f.content; chain = range_from next (cluster_count f.content) }))
    × Readable volume (index + 1) (next + cluster_count f.content) files

AllStored-Readable :
    (files : List File) (volume : Bytes) (index next : ℕ)
    → length volume ≡ 2880 * 512
    → 2 ≤ next
    → index + length files ≤ 224
    → next + clusters_needed files ≤ 2849
    → AllLinked (first_fat volume) next files
    → AllStored volume index next files
    → Readable volume index next files
unfolding clusters_needed
AllStored-Readable [] volume index next n two slots fits linked stored = tt
AllStored-Readable (f ∷ files) volume index next n two slots fits (run, linked)
      (slot, content, stored) =
    (
      slot.name_bytes,
      byte_at-slice volume (slot_offset index + 11) 0x20 (omega arith) (entry_slices slot).0,
      unpack_from-le_bytes 2 volume (slot_offset index + 26) next (omega arith) (omega arith)
          (entry_slices slot).1,
      unpack_from-le_bytes 4 volume (slot_offset index + 28) (length f.content) (omega arith)
          (omega (arith, cluster_count_lem f.content)) (entry_slices slot).2,
      λ some. read_chain-Linked volume f.content next n two (omega arith) some run content,
      AllStored-Readable files volume (index + 1) (next + cluster_count f.content) n (omega arith)
          (omega arith) (omega arith) linked stored,
    )

-- Everything that holds of a finished volume.
pub record Built (hidden : ℕ) (files : List File) (result : Result Bytes) : Type 0 where
  pub volume : Bytes
  pub returns : result ≡ ok volume
  pub size : length volume ≡ 2880 * 512
  pub boot : slice volume 0 512 ≡ parameters ++ (le_bytes 4 hidden ++ extension)
  pub mirrored : first_fat volume ≡ slice volume (10 * 512) (19 * 512)
  pub readable : Readable volume 0 2 files
  pub media : slice (first_fat volume) 0 3 ≡ reserved_entries
  pub free_clusters :
      (c : ℕ) → 2 + clusters_needed files ≤ c → c < 3072 → fat_entry (first_fat volume) c ≡ ok 0
  pub free_slots : (a : ℕ) → slot_offset (length files) ≤ a → a < 33 * 512 → byte_at volume a ≡ ok 0

pub blank_table-IsTable : IsTable blank_table
blank_table-IsTable = record {
  size =
      length-put (zeros 4608) 0 reserved_entries (rw (length-zeros 4608) (omega arith))
      ∙ length-zeros 4608;
  bytes = IsBytes-put (zeros 4608) 0 reserved_entries (IsBytes-zeros 4608) (omega arith);
}

-- The volume with its boot sector and both tables, before the files.
record Prepared (sector table volume : Bytes) : Type 0 where
  size : length volume ≡ 2880 * 512
  boot : slice volume 0 512 ≡ sector
  first_table : slice volume 512 5120 ≡ table
  second_table : slice volume 5120 9728 ≡ table
  directory : (a : ℕ) → 9728 ≤ a → a < 33 * 512 → slice volume a (a + 1) ≡ 0 ∷ []

copy_fats-Prepared :
    (sector table : Bytes)
    → length sector ≡ 512
    → length table ≡ 4608
    → Prepared sector table (copy_fats 2 0 table (put (zeros (2880 * 512)) 0 sector))
unfolding copy_fats
copy_fats-Prepared sector table ns nt =
    let blank = zeros (2880 * 512) in
    let n = length-zeros (2880 * 512) in
    let v0 = put blank 0 sector in
    let f0 : 0 + length sector ≤ length blank = omega arith in
    let n0 = length-put blank 0 sector f0 in
    let v1 = put v0 512 table in
    let f1 : 512 + length table ≤ length v0 = omega arith in
    let n1 = length-put v0 512 table f1 in
    let f2 : 5120 + length table ≤ length v1 = omega arith in
    record {
      size = length-put v1 5120 table f2 ∙ n1 ∙ n0 ∙ n;
      boot =
          slice-put_other v1 5120 table f2 0 512 (omega arith) (inl (omega arith))
          ∙ slice-put_other v0 512 table f1 0 512 (omega arith) (inl (omega arith))
          ∙ slice-put_at blank 0 sector f0 512 (omega arith);
      first_table =
          slice-put_other v1 5120 table f2 512 5120 (omega arith) (inl (omega arith))
          ∙ slice-put_at v0 512 table f1 5120 (omega arith);
      second_table = slice-put_at v1 5120 table f2 9728 (omega arith);
      directory = λ a from to.
          slice-put_other v1 5120 table f2 a (a + 1) (omega arith) (inr (omega arith))
          ∙ slice-put_other v0 512 table f1 a (a + 1) (omega arith) (inr (omega arith))
          ∙ slice-put_other blank 0 sector f0 a (a + 1) (omega arith) (inr (omega arith))
          ∙ slice-zeros_one (2880 * 512) a (omega arith);
    }

-- For every list of files that fits, with 11-byte names, at most 224 entries and at most 2847
-- clusters, and every 32-bit count of hidden sectors, `build_volume` returns a volume of 2880 sectors:
-- its boot sector is the parameter block, its two tables are equal, and every file that is not empty
-- is read back by `read_chain` through its directory entry, with its contents and its chain. The
-- tables begin with the medium's bytes F0 FF FF, every entry behind the last file's clusters is 0,
-- and so is every byte of the directory behind the last file's slot.
pub build_volume-Built :
    (hidden : ℕ) (files : List File)
    → hidden < 2 ^ 32
    → Fits files
    → Built hidden files (build_volume hidden files)
unfolding build_volume
build_volume-Built hidden files small fits =
    let sector = parameters ++ (le_bytes 4 hidden ++ extension) in
    let done =
      allocate-Allocates files blank_table 2 blank_table-IsTable (omega (arith, fits.clusters)) in
    let ready = copy_fats-Prepared sector done.table (length-boot hidden) done.is_table.size in
    let written =
      write_files-Files files (copy_fats 2 0 done.table (put (zeros (2880 * 512)) 0 sector)) 0 2
        ready.size fits.named (omega (arith, fits.slots)) (omega arith)
        (omega (arith, fits.clusters)) in
    let table : first_fat written.after ≡ done.table =
      unfold first_fat in written.front 512 5120 (omega arith) (omega arith) ∙ ready.first_table in
    let second = written.front 5120 9728 (omega arith) (omega arith) ∙ ready.second_table in
    record {
      volume = written.after;
      returns =
          rw
            (
              slice-zeros (2880 * 512) 512 (omega arith),
              write_boot-layout hidden small,
              done.returns,
            )
            written.returns;
      size = written.size ∙ ready.size;
      boot = written.front 0 512 (omega arith) (omega arith) ∙ ready.boot;
      mirrored = table ∙ sym second;
      readable =
          AllStored-Readable files written.after 0 2 (written.size ∙ ready.size) (omega arith)
            (omega (arith, fits.slots)) (omega (arith, fits.clusters))
            (subst (λ t. AllLinked t 2 files) (sym table) done.linked) written.stored;
      media = rw table (
          reserved_bytes done.table done.is_table
            (done.others 0 (omega arith) (inl (omega arith)) ∙ blank_table-reserved.0)
            (done.others 1 (omega arith) (inl (omega arith)) ∙ blank_table-reserved.1));
      free_clusters = λ c behind small.
          ap (λ t. fat_entry t c) table
          ∙ done.others c small (inr behind)
          ∙ blank_table-free blank_table-IsTable c (omega arith) small;
      free_slots = λ a from to.
          byte_at-slice written.after a 0 (omega (arith, written.size, ready.size)) (
            written.behind a (a + 1) (omega arith) (omega arith) (omega arith)
            ∙ ready.directory a (omega arith) to);
    }
