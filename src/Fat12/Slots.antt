-- ===== src/Fat12/Slots.antt =====
-- What `root_entry` and `write_files` store in the volume.
use zig_os.Base.{ℕ, ◌+◌, ◌*◌, ◌^◌, ◌≤◌, ◌<◌, ◌≡◌, inl, arith, ap, ◌∙◌}
use zig_os.Base.{[], ◌∷◌, length, slice, Result, ok}
use zig_os.Bytes.{Bytes, put, le_bytes}
use zig_os.Bytes.Words.{length-le_bytes}
use zig_os.Bytes.Region.{slice-put_at, length-put, set_byte-put, pack_into-put}
use zig_os.Bytes.Region.{set_slice-put}
use zig_os.Bytes.Frame.{Wrote, Wrote-put, Wrote-trans}
use zig_os.Fat12.Volume.{root_entry}

-- The byte offset of a directory entry in the root directory.
abbrev pub slot_offset : ℕ → ℕ
slot_offset index = 19 * 512 + index * 32

-- The directory entry at `index` names a file.
pub record Slot (volume : Bytes) (index : ℕ) (name : Bytes) (cluster size : ℕ) : Type 0 where
  pub name_bytes : slice volume (slot_offset index) (slot_offset index + 11) ≡ name
  pub attribute : slice volume (slot_offset index + 11) (slot_offset index + 12) ≡ 0x20 ∷ []
  pub first : slice volume (slot_offset index + 26) (slot_offset index + 28) ≡ le_bytes 2 cluster
  pub size_bytes : slice volume (slot_offset index + 28) (slot_offset index + 32) ≡ le_bytes 4 size

-- The same slices, as `unpack_from` and `byte_at` cut them.
pub entry_slices :
    {volume name : Bytes} {index cluster size : ℕ}
    → Slot volume index name cluster size
    → (slice volume (slot_offset index + 11) (slot_offset index + 11 + 1) ≡ 0x20 ∷ [])
      × (slice volume (slot_offset index + 26) (slot_offset index + 26 + 2) ≡ le_bytes 2 cluster)
      × (slice volume (slot_offset index + 28) (slot_offset index + 28 + 4) ≡ le_bytes 4 size)
entry_slices {volume} {index = index} s =
    let a : slot_offset index + 11 + 1 ≡ slot_offset index + 12 = omega arith in
    let b : slot_offset index + 26 + 2 ≡ slot_offset index + 28 = omega arith in
    let c : slot_offset index + 28 + 4 ≡ slot_offset index + 32 = omega arith in
    (
      ap (slice volume (slot_offset index + 11)) a ∙ s.attribute,
      ap (slice volume (slot_offset index + 26)) b ∙ s.first,
      ap (slice volume (slot_offset index + 28)) c ∙ s.size_bytes,
    )

-- A slot outlives writes elsewhere.
pub Slot-kept :
    {before after name : Bytes} {index cluster size : ℕ}
    → ((a b : ℕ) → a ≤ b → b ≤ slot_offset index + 32 → slice after a b ≡ slice before a b)
    → Slot before index name cluster size
    → Slot after index name cluster size
Slot-kept same s = record {
  name_bytes = same _ _ (omega arith) (omega arith) ∙ s.name_bytes;
  attribute = same _ _ (omega arith) (omega arith) ∙ s.attribute;
  first = same _ _ (omega arith) (omega arith) ∙ s.first;
  size_bytes = same _ _ (omega arith) (omega arith) ∙ s.size_bytes;
}

pub record Entered (before : Bytes) (index : ℕ) (name : Bytes) (cluster size : ℕ)
    (result : Result Bytes) : Type 0 where
  pub after : Bytes
  pub returns : result ≡ ok after
  pub wrote : Wrote before (slot_offset index) (slot_offset index + 32) after
  pub slot : Slot after index name cluster size

-- For a slot inside the volume, an 11-byte name, a 16-bit cluster and a 32-bit size, `root_entry`
-- succeeds: the slot holds the name, the attribute 0x20, the cluster and the size, and no byte outside
-- it changes.
pub root_entry-Entered :
    (volume : Bytes) (index : ℕ) (name : Bytes) (cluster size : ℕ)
    → slot_offset index + 32 ≤ length volume
    → length name ≡ 11
    → cluster < 2 ^ 16
    → size < 2 ^ 32
    → Entered volume index name cluster size (root_entry volume index name cluster size)
unfolding root_entry
root_entry-Entered volume index name cluster size fits eleven hc hs =
    let off = slot_offset index in
    let v0 = put volume off name in
    let f0 : off + length name ≤ length volume = omega arith in
    let n0 = length-put volume off name f0 in
    let v1 = put v0 (off + 11) (0x20 ∷ []) in
    let f1 : off + 11 + 1 ≤ length v0 = omega arith in
    let n1 = length-put v0 (off + 11) (0x20 ∷ []) f1 in
    let xs = le_bytes 2 cluster in
    let v2 = put v1 (off + 26) xs in
    let f2 : off + 26 + length xs ≤ length v1 = omega (arith, length-le_bytes 2 cluster) in
    let n2 = length-put v1 (off + 26) xs f2 in
    let ys = le_bytes 4 size in
    let f3 : off + 28 + length ys ≤ length v2 = omega (arith, length-le_bytes 4 size) in
    let v3 = put v2 (off + 28) ys in
    let w0 = Wrote-put volume off name off (off + 32) f0 (omega arith) (omega arith) in
    let w1 =
      Wrote-put v0 (off + 11) (0x20 ∷ []) (off + 11) (off + 32) f1 (omega arith) (omega arith) in
    let w2 =
      Wrote-put v1 (off + 26) xs (off + 26) (off + 32) f2 (omega arith)
        (omega (arith, length-le_bytes 2 cluster)) in
    let w3 =
      Wrote-put v2 (off + 28) ys (off + 28) (off + 32) f3 (omega arith)
        (omega (arith, length-le_bytes 4 size)) in
    let w23 =
      Wrote-trans (off + 26) (off + 32) w2 w3 (omega arith) (omega arith) (omega arith)
        (omega arith) in
    let w123 =
      Wrote-trans (off + 11) (off + 32) w1 w23 (omega arith) (omega arith) (omega arith)
        (omega arith) in
    record {
      after = v3;
      returns = rw (
        set_slice-put volume off (off + 11) name (omega arith),
        set_byte-put v0 (off + 11) 0x20 (omega arith) (omega arith),
        pack_into-put 2 v1 (off + 26) cluster (omega arith) hc,
        pack_into-put 4 v2 (off + 28) size (omega arith) hs,
      );
      wrote =
          Wrote-trans off (off + 32) w0 w123 (omega arith) (omega arith) (omega arith)
            (omega arith);
      slot = record {
        name_bytes =
            w123.others off (off + 11) (omega arith) (inl (omega arith))
            ∙ slice-put_at volume off name f0 (off + 11) (omega arith);
        attribute =
            w23.others (off + 11) (off + 12) (omega arith) (inl (omega arith))
            ∙ slice-put_at v0 (off + 11) (0x20 ∷ []) f1 (off + 12) (omega arith);
        first =
            w3.others (off + 26) (off + 28) (omega arith) (inl (omega arith))
            ∙ slice-put_at v1 (off + 26) xs f2 (off + 28)
                (omega (arith, length-le_bytes 2 cluster));
        size_bytes =
            slice-put_at v2 (off + 28) ys f3 (off + 32) (omega (arith, length-le_bytes 4 size));
      };
    }
