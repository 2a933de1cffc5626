-- ===== src/Fat12/Volume.antt =====
-- `build_volume` of scripts/create-legacy-fat12.py, over the list of files that the script holds in
-- `FILES`.
use zig_os.Base.{
  ℕ, zero, suc, ◌+◌, ◌-◌, ◌*◌, ◌/◌, max, List, [], ◌∷◌, length, slice, set_slice, ascii,
}
use zig_os.Base.{range_from, Result, ok, raise, value_error, index_error, ◌>>=◌}
use zig_os.Bytes.{Bytes, zeros, put, set_byte, pack_into}
use zig_os.Fat12.Geometry.{bps, total, spc, reserved, fats, root_entries, spf, fat_start}
use zig_os.Fat12.Geometry.{root_start, data_start}
use zig_os.Fat12.Entry.{set_fat12_entry}

-- One pair of `FILES`: the 11 bytes of the short name, and the contents.
pub record File : Type 0 where
  pub name : Bytes
  pub content : Bytes

-- The writes through `boot`, the view of the first sector.
unfoldable pub write_boot : ℕ → Bytes → Result Bytes
write_boot hidden_sectors boot = do
  let b0 = put boot 0 (0xEB ∷ 0x3C ∷ 0x90 ∷ [])
  let b1 = put b0 3 (ascii "ZIGOS   ")
  b2 ← pack_into 2 b1 11 bps
  b3 ← set_byte b2 13 spc
  b4 ← pack_into 2 b3 14 reserved
  b5 ← set_byte b4 16 fats
  b6 ← pack_into 2 b5 17 root_entries
  b7 ← pack_into 2 b6 19 total
  b8 ← set_byte b7 21 0xF0
  b9 ← pack_into 2 b8 22 spf
  b10 ← pack_into 2 b9 24 18
  b11 ← pack_into 2 b10 26 2
  b12 ← pack_into 4 b11 28 hidden_sectors
  b13 ← set_byte b12 36 0x80
  b14 ← set_byte b13 38 0x29
  b15 ← pack_into 4 b14 39 0x5A49474F
  let b16 = put b15 43 (ascii "ZIGOS FAT12")
  let b17 = put b16 54 (ascii "FAT12   ")
  let b18 = put b17 62 (ascii "ZigOs Capstone 14 FAT12")
  ok (put b18 510 (0x55 ∷ 0xAA ∷ []))

unfoldable pub cluster_count : Bytes → ℕ
cluster_count content = max 1 ((length content + bps - 1) / bps)

-- `for index, cluster in enumerate(chain)`: each cluster points to the next, the last is 0xFFF.
unfoldable pub link_chain : Bytes → List ℕ → Result Bytes
link_chain fat [] = ok fat
link_chain fat (cluster ∷ []) = set_fat12_entry fat cluster 0x0FFF
link_chain fat (cluster ∷ next ∷ chain) = do
  fat' ← set_fat12_entry fat cluster next
  link_chain fat' (next ∷ chain)

pub record Allocation : Type 0 where
  pub size : ℕ
  pub chain : List ℕ

pub record Allocated : Type 0 where
  pub fat : Bytes
  pub allocations : List Allocation

-- The first loop over `FILES`, from `next_cluster` on.
unfoldable pub allocate : Bytes → ℕ → List File → Result Allocated
allocate fat next_cluster [] = ok (record { fat = fat; allocations = [] })
allocate fat next_cluster (file ∷ files) = do
  let count = cluster_count file.content
  let chain = range_from next_cluster count
  fat' ← link_chain fat chain
  rest ← allocate fat' (next_cluster + count) files
  ok (record {
    fat = rest.fat;
    allocations = record { size = length file.content; chain = chain } ∷ rest.allocations;
  })

-- `for copy in range(FATS)`, with the copies that are left and the number of the next one.
unfoldable pub copy_fats : ℕ → ℕ → Bytes → Bytes → Bytes
copy_fats zero copy fat volume = volume
copy_fats (suc left) copy fat volume =
    copy_fats left (copy + 1) fat (put volume ((fat_start + copy * spf) * bps) fat)

unfoldable pub root_entry : Bytes → ℕ → Bytes → ℕ → ℕ → Result Bytes
root_entry volume index name cluster size = do
  let offset = root_start * bps + index * 32
  let v0 = set_slice volume offset (offset + 11) name
  v1 ← set_byte v0 (offset + 11) 0x20
  v2 ← pack_into 2 v1 (offset + 26) cluster
  pack_into 4 v2 (offset + 28) size

-- The byte offset of a cluster's sector.
abbrev pub cluster_offset : ℕ → ℕ
cluster_offset cluster = (data_start + cluster - 2) * bps

-- `for chunk_index, cluster in enumerate(chain)`
unfoldable pub write_chunks : Bytes → ℕ → List ℕ → Bytes → Bytes
write_chunks content chunk_index [] volume = volume
write_chunks content chunk_index (cluster ∷ chain) volume =
    let chunk = slice content (chunk_index * bps) ((chunk_index + 1) * bps) in
    write_chunks content (chunk_index + 1) chain (put volume (cluster_offset cluster) chunk)

-- `chain[0]`
unfoldable pub first_cluster : List ℕ → Result ℕ
first_cluster [] = raise index_error
first_cluster (cluster ∷ chain) = ok cluster

-- The second loop, over `enumerate(zip(FILES, allocations, strict=True))`.
unfoldable pub write_files : Bytes → ℕ → List File → List Allocation → Result Bytes
write_files volume index [] [] = ok volume
write_files volume index [] (a ∷ allocations) = raise (value_error "zip() argument 2 is longer" [])
write_files volume index (f ∷ files) [] = raise (value_error "zip() argument 2 is shorter" [])
write_files volume index (f ∷ files) (a ∷ allocations) = do
  first ← first_cluster a.chain
  volume' ← root_entry volume index f.name first a.size
  write_files (write_chunks f.content 0 a.chain volume') (index + 1) files allocations

unfoldable pub build_volume : ℕ → List File → Result Bytes
build_volume hidden_sectors files = do
  let blank = zeros (total * bps)
  boot ← write_boot hidden_sectors (slice blank 0 bps)
  let booted = put blank 0 boot
  let fat = put (zeros (spf * bps)) 0 (0xF0 ∷ 0xFF ∷ 0xFF ∷ [])
  done ← allocate fat 2 files
  write_files (copy_fats fats 0 done.fat booted) 0 files done.allocations
