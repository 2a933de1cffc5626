-- ===== src/Fat12/Entry/Laws.antt =====
-- Writing an entry: it reads back, and no other entry changes.
use zig_os.Base.{ℕ, zero, suc, ◌+◌, ◌*◌, ◌/◌, ◌%◌, ◌<◌, ◌≡◌, arith, ok, ap, ◌∙◌, [], ◌∷◌}
use zig_os.Base.{length, get_or, set, length-set, get_or-set, get_or-set_ne, set_slice_one}
use zig_os.Base.{
  ◌≤◌, raise, index_error, lt→ltb, ltb→lt, le→not_ltb, ltb, bit_and, inl, inr, Bool-cases,
  if◌then◌else◌, ◌==◌,
}
use zig_os.Base.Bits.{bit_and_mask, bit_or_low, bit_and_high_nibble, bit_or_shifted}
use zig_os.Bytes.{Bytes, byte_at, set_byte}
use zig_os.Bytes.Words.{IsBytes}
use zig_os.Fat12.Entry.{set_fat12_entry, fat_entry}

pub IsBytes-get_or : (bs : Bytes) (i : ℕ) → IsBytes bs → get_or bs i 0 < 256
IsBytes-get_or [] i h = omega arith
IsBytes-get_or (b ∷ bs) zero (hb, hbs) = hb
IsBytes-get_or (b ∷ bs) (suc i) (hb, hbs) = IsBytes-get_or bs i hbs

pub IsBytes-set : (bs : Bytes) (i v : ℕ) → IsBytes bs → v < 256 → IsBytes (set bs i v)
IsBytes-set [] i v h hv = tt
IsBytes-set (b ∷ bs) zero v (hb, hbs) hv = (hv, hbs)
IsBytes-set (b ∷ bs) (suc i) v (hb, hbs) hv = (hb, IsBytes-set bs i v hbs hv)

byte_at-get_or : (bs : Bytes) (i : ℕ) → i < length bs → byte_at bs i ≡ ok (get_or bs i 0)
unfolding byte_at
byte_at-get_or bs i h = rw (lt→ltb _ _ h)

set_byte-set : (bs : Bytes) (i v : ℕ) → i < length bs → v < 256 → set_byte bs i v ≡ ok (set bs i v)
unfolding set_byte
set_byte-set bs i v h hv = rw (lt→ltb _ _ h, lt→ltb _ _ hv) (ap ok (set_slice_one bs i v h))

byte_at-outside : (bs : Bytes) (i : ℕ) → length bs ≤ i → byte_at bs i ≡ raise index_error
unfolding byte_at
byte_at-outside bs i h = rw (le→not_ltb _ _ h)

set_byte-outside : (bs : Bytes) (i v : ℕ) → length bs ≤ i → set_byte bs i v ≡ raise index_error
unfolding set_byte
set_byte-outside bs i v h = rw (le→not_ltb _ _ h)

abbrev pub at_offset : ℕ → ℕ
at_offset cluster = cluster + cluster / 2

-- The entry in plain arithmetic, from the two bytes that hold it.
unfoldable pub entry_value : ℕ → ℕ → ℕ → ℕ
entry_value cluster low high =
    if cluster % 2 == 0 then low + high % 16 * 256 else low / 16 + high * 16

new_low : ℕ → ℕ → ℕ → ℕ
new_low cluster low value = if cluster % 2 == 0 then value % 256 else value % 16 * 16 + low % 16

new_high : ℕ → ℕ → ℕ → ℕ
new_high cluster high value = if cluster % 2 == 0 then high / 16 * 16 + value / 256 else value / 16

-- The table with an entry written, for a value below 4096.
pub written : Bytes → ℕ → ℕ → Bytes
written fat cluster value =
    set (set fat (at_offset cluster) (new_low cluster (get_or fat (at_offset cluster) 0) value))
      (at_offset cluster + 1) (new_high cluster (get_or fat (at_offset cluster + 1) 0) value)

pub fat_entry-entry_value :
    (fat : Bytes) (cluster : ℕ)
    → IsBytes fat
    → at_offset cluster + 1 < length fat
    → fat_entry fat cluster
      ≡ ok (
          entry_value cluster
            (get_or fat (at_offset cluster) 0)
            (get_or fat (at_offset cluster + 1) 0))
unfolding fat_entry entry_value
fat_entry-entry_value fat cluster bytes inside =
    let lo = get_or fat (at_offset cluster) 0 in
    let hi = get_or fat (at_offset cluster + 1) 0 in
    ground (
      arith,
      byte_at-get_or fat (at_offset cluster) (omega arith),
      byte_at-get_or fat (at_offset cluster + 1) inside,
      IsBytes-get_or fat (at_offset cluster) bytes,
      IsBytes-get_or fat (at_offset cluster + 1) bytes,
      bit_and_mask 1 cluster,
      bit_or_low 8 hi lo,
      bit_and_mask 12 (hi * 256 + lo),
      bit_and_mask 12 ((hi * 256 + lo) / 16),
    )

pub set_fat12_entry-written :
    (fat : Bytes) (cluster value : ℕ)
    → IsBytes fat
    → at_offset cluster + 1 < length fat
    → set_fat12_entry fat cluster value ≡ ok (written fat cluster (value % 4096))
unfolding set_fat12_entry written new_low new_high
set_fat12_entry-written fat cluster value bytes inside =
    let at = at_offset cluster in
    let lo = get_or fat at 0 in
    let hi = get_or fat (at + 1) 0 in
    let v = value % 4096 in
    ground (
      arith,
      bit_and_mask 1 cluster,
      bit_and_mask 12 value,
      byte_at-get_or fat at (omega arith),
      bit_and_mask 4 lo,
      bit_and_high_nibble (v * 16),
      bit_or_low 4 (v % 16) (lo % 16),
      bit_and_mask 8 (v / 16),
      bit_and_mask 8 v,
      set_byte-set fat at (v % 16 * 16 + lo % 16) (omega arith) (omega arith),
      set_byte-set (set fat at (v % 16 * 16 + lo % 16)) (at + 1) (v / 16)
          (omega (arith, length-set fat at (v % 16 * 16 + lo % 16))) (omega arith),
      set_byte-set fat at (v % 256) (omega arith) (omega arith),
      byte_at-get_or (set fat at (v % 256)) (at + 1) (omega (arith, length-set fat at (v % 256))),
      get_or-set_ne fat at (at + 1) (v % 256) 0 (omega arith),
      IsBytes-get_or fat (at + 1) bytes,
      bit_and_high_nibble hi,
      bit_and_mask 4 (v / 256),
      bit_or_shifted 4 (hi / 16) (v / 256) (omega arith),
      set_byte-set (set fat at (v % 256)) (at + 1) (hi / 16 * 16 + v / 256)
          (omega (arith, length-set fat at (v % 256)))
          (omega (arith, IsBytes-get_or fat (at + 1) bytes)),
    )

-- The table keeps its size and stays a byte string.
pub written-IsTable :
    (fat : Bytes) (cluster value : ℕ)
    → IsBytes fat
    → value < 4096
    → (length (written fat cluster value) ≡ length fat) × IsBytes (written fat cluster value)
unfolding written new_low new_high
written-IsTable fat cluster value bytes small =
    let at = at_offset cluster in
    let lo = new_low cluster (get_or fat at 0) value in
    let hi = new_high cluster (get_or fat (at + 1) 0) value in
    (
      length-set (set fat at lo) (at + 1) hi ∙ length-set fat at lo,
      IsBytes-set (set fat at lo) (at + 1) hi (IsBytes-set fat at lo bytes (ground arith))
          (ground (arith, IsBytes-get_or fat (at + 1) bytes)),
    )

-- The byte at any place after an entry is written.
get_or-written :
    (fat : Bytes) (cluster value j : ℕ)
    → at_offset cluster + 1 < length fat
    → get_or (written fat cluster value) j 0 ≡ (
        if at_offset cluster + 1 == j
        then new_high cluster (get_or fat (at_offset cluster + 1) 0) value
        else if at_offset cluster == j
        then new_low cluster (get_or fat (at_offset cluster) 0) value
        else get_or fat j 0)
unfolding written
get_or-written fat cluster value j inside =
    let at = at_offset cluster in
    let lo = new_low cluster (get_or fat at 0) value in
    let hi = new_high cluster (get_or fat (at + 1) 0) value in
    get_or-set (set fat at lo) (at + 1) j hi 0 (rw length-set inside)
    ∙ ap (λ t. if at + 1 == j then hi else t) (get_or-set fat at j lo 0 (omega arith))

-- Reading a table with one entry written, at the same cluster or at any other.
pub fat_entry-written :
    (fat : Bytes) (cluster other value : ℕ)
    → IsBytes fat
    → at_offset cluster + 1 < length fat
    → at_offset other + 1 < length fat
    → value < 4096
    → fat_entry (written fat cluster value) other
      ≡ (if cluster == other then ok value else fat_entry fat other)
fat_entry-written fat cluster other value bytes inside inside' small =
    let (same, bytes') = written-IsTable fat cluster value bytes small in
    let at = at_offset other in
    fat_entry-entry_value (written fat cluster value) other bytes' (rw same inside')
    ∙ unfold entry_value new_low new_high in
      ground (
        arith,
        fat_entry-entry_value fat other bytes inside',
        get_or-written fat cluster value at inside,
        get_or-written fat cluster value (at + 1) inside,
        IsBytes-get_or fat at bytes,
        IsBytes-get_or fat (at + 1) bytes,
      )

-- `set_fat12_entry` inside the table: it succeeds and keeps the size; afterwards the cluster reads
-- as the low twelve bits of the value, and every other entry as before.
pub set_fat12_entry_lem :
    (fat : Bytes) (cluster value : ℕ)
    → IsBytes fat
    → at_offset cluster + 1 < length fat
    → (fat' : Bytes) × (set_fat12_entry fat cluster value ≡ ok fat')
      × (length fat' ≡ length fat)
      × IsBytes fat'
      × ((other : ℕ)
          → at_offset other + 1 < length fat
          → fat_entry fat' other
            ≡ (if cluster == other then ok (value % 4096) else fat_entry fat other))
set_fat12_entry_lem fat cluster value bytes inside =
    let small : value % 4096 < 4096 = omega arith in
    let (same, bytes') = written-IsTable fat cluster (value % 4096) bytes small in
    (
      written fat cluster (value % 4096),
      set_fat12_entry-written fat cluster value bytes inside,
      same,
      bytes',
      λ other inside'.
          fat_entry-written fat cluster other (value % 4096) bytes inside inside' small,
    )

-- A cluster whose second byte is past the end of the table raises `IndexError`, on both sides.
pub fat12_entry-outside :
    (fat : Bytes) (cluster value : ℕ)
    → length fat ≤ at_offset cluster + 1
    → (set_fat12_entry fat cluster value ≡ raise index_error)
      × (fat_entry fat cluster ≡ raise index_error)
unfolding set_fat12_entry fat_entry
fat12_entry-outside fat cluster value outside =
    elim (Bool-cases (ltb (at_offset cluster) (length fat))) [
      | inl t ↦
          let at = at_offset cluster in
          let lo = get_or fat at 0 in
          let v = value % 4096 in
          let inside : at < length fat = ltb→lt _ _ t in
          ground (
            arith,
            bit_and_mask 1 cluster,
            bit_and_mask 12 value,
            byte_at-get_or fat at inside,
            byte_at-outside fat (at + 1) outside,
            bit_and_mask 4 lo,
            bit_and_high_nibble (v * 16),
            bit_or_low 4 (v % 16) (lo % 16),
            bit_and_mask 8 (v / 16),
            bit_and_mask 8 v,
            set_byte-set fat at (v % 16 * 16 + lo % 16) inside (omega arith),
            set_byte-outside (set fat at (v % 16 * 16 + lo % 16)) (at + 1) (v / 16)
                (omega (arith, length-set fat at (v % 16 * 16 + lo % 16))),
            set_byte-set fat at (v % 256) inside (omega arith),
            byte_at-outside (set fat at (v % 256)) (at + 1)
                (omega (arith, length-set fat at (v % 256))),
          )
      | inr t ↦
          let at = at_offset cluster in
          let far : length fat ≤ at = ground arith in
          ground (
            arith,
            byte_at-outside fat at far,
            set_byte-outside fat at (bit_and (bit_and value 0x0FFF) 0xFF) far,
          )
    ]
