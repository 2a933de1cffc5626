-- ===== src/Fat12/Chunks.antt =====
-- What `write_chunks` stores: the contents, at the sectors of a run of clusters.
use zig_os.Base.{ℕ, zero, suc, ◌+◌, ◌-◌, ◌*◌, ◌≤◌, ◌<◌, ◌≡◌, inl, arith, ap₂, ◌∙◌, sym}
use zig_os.Base.{◌++◌, length, slice, range_from, length-slice, slice-append}
use native.Mathlib.Nat.{le_refl}
use zig_os.Bytes.{Bytes, put}
use zig_os.Bytes.Region.{slice-put_at, length-put}
use zig_os.Bytes.Frame.{Wrote, Wrote-put, Wrote-trans, slice_past_end}
use zig_os.Fat12.Volume.{write_chunks, cluster_offset}

pub record Stored (content before : Bytes) (index first count : ℕ) (after : Bytes) : Type 0 where
  pub wrote : Wrote before (cluster_offset first) (cluster_offset first + count * 512) after
  pub stored :
      slice after (cluster_offset first) (cluster_offset first + (length content - index * 512))
      ≡ slice content (index * 512) (length content)

-- Where the contents from chunk `index` on need exactly the given consecutive clusters, and these lie
-- inside the volume, `write_chunks` puts the rest of the contents there in one piece and changes
-- nothing else.
pub write_chunks-Stored :
    (count : ℕ) (content : Bytes) (index first : ℕ) (volume : Bytes)
    → 2 ≤ first
    → cluster_offset first + suc count * 512 ≤ length volume
    → length content ≤ (index + suc count) * 512
    → (0 < count → (index + count) * 512 < length content)
    → Stored content volume index first
        (suc count)
        (write_chunks content index (range_from first (suc count)) volume)
unfolding write_chunks range_from
write_chunks-Stored zero content index first volume two fits short long =
    let chunk = slice content (index * 512) (length content) in
    let whole : slice content (index * 512) ((index + 1) * 512) ≡ chunk =
      slice_past_end content (index * 512) ((index + 1) * 512) short in
    let n : length chunk ≡ length content - index * 512 =
      length-slice content (index * 512) (length content) (le_refl _) in
    let fits' : cluster_offset first + length chunk ≤ length volume = omega arith in
    rw whole (record {
      wrote = Wrote-put volume (cluster_offset first) chunk _ _ fits' (omega arith) (omega arith);
      stored = slice-put_at volume (cluster_offset first) chunk fits' _ (omega arith);
    })
write_chunks-Stored (suc count) content index first volume two fits short long =
    let off = cluster_offset first in
    let full : (index + 1) * 512 ≤ length content = ground (arith, long) in
    let chunk = slice content (index * 512) ((index + 1) * 512) in
    let n : length chunk ≡ 512 =
      omega (arith, length-slice content (index * 512) ((index + 1) * 512) full) in
    let fits' : off + length chunk ≤ length volume = omega arith in
    let v1 = put volume off chunk in
    let rest =
      write_chunks-Stored count content (index + 1) (first + 1) v1 (omega arith)
        (omega (arith, length-put volume off chunk fits')) (omega arith)
        (λ h. omega (arith, long)) in
    let next : cluster_offset (first + 1) ≡ off + 512 = omega arith in
    let end : off + 512 + (length content - (index + 1) * 512)
        ≡ off + (length content - index * 512) =
      omega arith in
    record {
      wrote =
          Wrote-trans off (off + suc (suc count) * 512)
            (Wrote-put volume off chunk off (off + 512) fits' (omega arith) (omega arith))
            rest.wrote (omega arith) (omega arith) (omega arith) (omega arith);
      stored =
          sym (
            slice-append _ off (off + 512) (off + (length content - index * 512)) (omega arith)
              (omega arith))
          ∙ ap₂ ◌++◌
              (rest.wrote.others off (off + 512) (omega arith) (inl (omega arith))
                ∙ slice-put_at volume off chunk fits' (off + 512) (omega arith))
              (rw (next, end) at rest.stored)
          ∙ slice-append content (index * 512) ((index + 1) * 512) (length content) (omega arith)
              full;
    }
