-- ===== src/Nvme/Layout.antt =====
-- `layout_for` of scripts/create-nvme-test-image.py.
use zig_os.Base.{
  ℕ, ◌+◌, ◌-◌, ◌*◌, ◌/◌, ◌≤◌, ◌<◌, ◌≡◌, ◌≢◌, ◌⊎◌, inl, inr, refl, arith, not, ltb, leb, ◌==◌, ◌&&◌,
  ◌||◌, [], ◌∷◌,
}
use zig_os.Base.{Result, ok, raise, raise_if, value_error, ◌>>=◌, ◌>>◌, if◌then◌else◌, Bool-cases}

-- The branch on the block size.
pub record Sizes : Type 0 where
  pub total_bytes : ℕ
  pub efi_partition_first_lba : ℕ
  pub efi_partition_sectors : ℕ
  pub data_partition_alignment : ℕ
  pub sectors_per_fat : ℕ
  pub root_entry_count : ℕ

unfoldable pub sizes_for : ℕ → Result Sizes
sizes_for block_size =
    if block_size == 512
    then ok (record {
      total_bytes = 16 * 1024 * 1024;
      efi_partition_first_lba = 2048;
      efi_partition_sectors = 16384;
      data_partition_alignment = 2048;
      sectors_per_fat = 120;
      root_entry_count = 512;
    })
    else (if block_size == 4096
        then ok (record {
          total_bytes = 64 * 1024 * 1024;
          efi_partition_first_lba = 256;
          efi_partition_sectors = 8192;
          data_partition_alignment = 256;
          sectors_per_fat = 8;
          root_entry_count = 512;
        })
        else raise (value_error "block size must be 512 or 4096" []))

-- The dictionary that is returned, less the aliases of the EFI partition's three entries.
pub record Layout : Type 0 where
  pub block_size : ℕ
  pub total_bytes : ℕ
  pub total_lbas : ℕ
  pub last_lba : ℕ
  pub entry_array_sectors : ℕ
  pub primary_entry_lba : ℕ
  pub backup_entry_lba : ℕ
  pub first_usable_lba : ℕ
  pub last_usable_lba : ℕ
  pub efi_partition_first_lba : ℕ
  pub efi_partition_last_lba : ℕ
  pub efi_partition_sectors : ℕ
  pub data_partition_first_lba : ℕ
  pub data_partition_last_lba : ℕ
  pub data_partition_sectors : ℕ
  pub sectors_per_cluster : ℕ
  pub sectors_per_fat : ℕ
  pub root_entry_count : ℕ
  pub root_directory_sectors : ℕ
  pub first_fat_lba : ℕ
  pub root_directory_lba : ℕ
  pub first_data_lba : ℕ
  pub cluster_count : ℕ

-- `math.ceil(a / b)`
unfoldable pub ceil_div : ℕ → ℕ → ℕ
ceil_div a b = (a + b - 1) / b

unfoldable pub layout_for : ℕ → Result Layout
layout_for block_size = do
  s ← sizes_for block_size
  let total_lbas = s.total_bytes / block_size
  let entry_array_bytes : ℕ = 128 * 128
  let entry_array_sectors = ceil_div entry_array_bytes block_size
  let first_usable_lba = 2 + entry_array_sectors
  let backup_entry_lba = total_lbas - 1 - entry_array_sectors
  let last_usable_lba = backup_entry_lba - 1
  let efi_partition_last_lba = s.efi_partition_first_lba + s.efi_partition_sectors - 1
  let data_partition_first_lba =
      ceil_div (efi_partition_last_lba + 1) s.data_partition_alignment * s.data_partition_alignment
  let data_partition_last_lba = last_usable_lba
  let data_partition_sectors = data_partition_last_lba + 1 - data_partition_first_lba
  raise_if (leb data_partition_first_lba efi_partition_last_lba || ltb data_partition_sectors 16)
      (value_error "the deterministic GPT split left no usable data partition" [])
  let root_directory_sectors = ceil_div (s.root_entry_count * 32) block_size
  let metadata_sectors = 1 + 2 * s.sectors_per_fat + root_directory_sectors
  let first_fat_lba = s.efi_partition_first_lba + 1
  let root_directory_lba = s.efi_partition_first_lba + 1 + 2 * s.sectors_per_fat
  let first_data_lba = s.efi_partition_first_lba + metadata_sectors
  let cluster_count = s.efi_partition_sectors - metadata_sectors
  raise_if (not (leb 4085 cluster_count && ltb cluster_count 65525))
      (value_error "layout does not classify as FAT16: {} clusters" (cluster_count ∷ []))
  ok (record {
    block_size = block_size;
    total_bytes = s.total_bytes;
    total_lbas = total_lbas;
    last_lba = total_lbas - 1;
    entry_array_sectors = entry_array_sectors;
    primary_entry_lba = 2;
    backup_entry_lba = backup_entry_lba;
    first_usable_lba = first_usable_lba;
    last_usable_lba = last_usable_lba;
    efi_partition_first_lba = s.efi_partition_first_lba;
    efi_partition_last_lba = efi_partition_last_lba;
    efi_partition_sectors = s.efi_partition_sectors;
    data_partition_first_lba = data_partition_first_lba;
    data_partition_last_lba = data_partition_last_lba;
    data_partition_sectors = data_partition_sectors;
    sectors_per_cluster = 1;
    sectors_per_fat = s.sectors_per_fat;
    root_entry_count = s.root_entry_count;
    root_directory_sectors = root_directory_sectors;
    first_fat_lba = first_fat_lba;
    root_directory_lba = root_directory_lba;
    first_data_lba = first_data_lba;
    cluster_count = cluster_count;
  })

-- What the parts of an image must satisfy, in terms of each other only.
pub record Coherent (l : Layout) : Type 0 where
  pub whole : l.total_lbas * l.block_size ≡ l.total_bytes
  pub entries_fit : 128 * 128 ≤ l.entry_array_sectors * l.block_size
  pub primary : l.primary_entry_lba + l.entry_array_sectors ≤ l.first_usable_lba
  pub backup :
      (l.last_usable_lba < l.backup_entry_lba)
      × (l.backup_entry_lba + l.entry_array_sectors ≡ l.last_lba)
  pub efi :
      (l.first_usable_lba ≤ l.efi_partition_first_lba)
      × (l.efi_partition_first_lba + l.efi_partition_sectors ≡ l.efi_partition_last_lba + 1)
  pub apart : l.efi_partition_last_lba < l.data_partition_first_lba
  pub data_partition :
      (l.data_partition_first_lba + l.data_partition_sectors ≡ l.data_partition_last_lba + 1)
      × (l.data_partition_last_lba ≤ l.last_usable_lba)
      × (16 ≤ l.data_partition_sectors)
  pub fat16 : (4085 ≤ l.cluster_count) × (l.cluster_count < 65525)
  pub fat_fits : (l.cluster_count + 2) * 2 ≤ l.sectors_per_fat * l.block_size
  pub regions :
      (l.first_fat_lba + 2 * l.sectors_per_fat ≡ l.root_directory_lba)
      × (l.root_directory_lba + l.root_directory_sectors ≡ l.first_data_lba)
      × (l.first_data_lba + l.cluster_count * l.sectors_per_cluster ≡ l.efi_partition_last_lba + 1)
  pub root_fits : l.root_entry_count * 32 ≤ l.root_directory_sectors * l.block_size

-- The layouts of the two block sizes.
both_layouts :
    (block_size : ℕ)
    → (block_size ≡ 512) ⊎ (block_size ≡ 4096)
    → (l : Layout) × (layout_for block_size ≡ ok l) × Coherent l
unfolding layout_for sizes_for ceil_div
both_layouts block_size (inl e) = rw e (
  _,
  refl,
  record {
    whole = refl;
    entries_fit = omega arith;
    primary = omega arith;
    backup = (omega arith, refl);
    efi = (omega arith, refl);
    apart = omega arith;
    data_partition = (refl, omega arith, omega arith);
    fat16 = (omega arith, omega arith);
    fat_fits = omega arith;
    regions = (refl, refl, refl);
    root_fits = omega arith;
  },
)
both_layouts block_size (inr e) = rw e (
  _,
  refl,
  record {
    whole = refl;
    entries_fit = omega arith;
    primary = omega arith;
    backup = (omega arith, refl);
    efi = (omega arith, refl);
    apart = omega arith;
    data_partition = (refl, omega arith, omega arith);
    fat16 = (omega arith, omega arith);
    fat_fits = omega arith;
    regions = (refl, refl, refl);
    root_fits = omega arith;
  },
)

-- `layout_for` returns for the block sizes 512 and 4096 only, and raises ValueError for every other
-- one. Its layouts are coherent: the backup table and both partitions lie apart and inside the
-- device, the partitions inside the usable range, and the FAT16 volume's regions follow each other,
-- fill the EFI partition and are large enough for what they hold.
pub layout_for-Coherent :
    (block_size : ℕ)
    → (((block_size ≡ 512) ⊎ (block_size ≡ 4096))
        × ((l : Layout) × (layout_for block_size ≡ ok l) × Coherent l))
      ⊎ ((block_size ≢ 512)
          × (block_size ≢ 4096)
          × (layout_for block_size ≡ raise (value_error "block size must be 512 or 4096" [])))
unfolding layout_for sizes_for
layout_for-Coherent block_size = elim (Bool-cases (block_size == 512)) [
  | inl small ↦
      let e : block_size ≡ 512 = ground arith in inl (inl e, both_layouts block_size (inl e))
  | inr not_small ↦ elim (Bool-cases (block_size == 4096)) [
    | inl large ↦
        let e : block_size ≡ 4096 = ground arith in inl (inr e, both_layouts block_size (inr e))
    | inr not_large ↦ inr (ground arith, ground arith, rw (not_small, not_large) refl)
  ]
]
