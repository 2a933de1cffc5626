-- ===== src/Fat12/Reading.antt =====
-- `read_chain` on a volume where a file's clusters are linked and hold its contents.
use zig_os.Base.{
  ℕ, zero, suc, ◌+◌, ◌-◌, ◌*◌, ◌≤◌, ◌<◌, ◌≡◌, arith, ap, ap₂, ◌∙◌, [], ◌∷◌, ◌++◌, List,
}
use zig_os.Base.{length, slice, take, range_from, ok, slice-append, length-slice, take-slice}
use zig_os.Base.{lt→ltb, le→not_ltb, lt→not_leb}
use mathlib.Core.List.{append_assoc}
use zig_os.Bytes.{Bytes}
use zig_os.Fat12.Volume.{cluster_offset}
use zig_os.Fat12.Entry.{fat_entry}
use zig_os.Fat12.Chain.{first_fat, read_loop}
use zig_os.Fat12.Linked.{Linked}

-- The sectors of a contiguous run, read one after the other.
next_sector :
    (volume : Bytes) (first done : ℕ)
    → 2 ≤ first
    → slice volume (cluster_offset first) (cluster_offset first + done * 512)
        ++ slice volume (cluster_offset (first + done)) (cluster_offset (first + done) + 512)
      ≡ slice volume (cluster_offset first) (cluster_offset first + (done + 1) * 512)
next_sector volume first done two =
    let here : cluster_offset (first + done) ≡ cluster_offset first + done * 512 = omega arith in
    let there : cluster_offset (first + done) + 512 ≡ cluster_offset first + (done + 1) * 512 =
      omega arith in
    ap₂
      (λ s t.
        slice volume (cluster_offset first) (cluster_offset first + done * 512) ++ slice volume s t)
      here there
    ∙ slice-append volume (cluster_offset first) (cluster_offset first + done * 512)
        (cluster_offset first + (done + 1) * 512) (omega arith) (omega arith)

cut_at_size :
    (volume : Bytes) (first size end : ℕ)
    → size ≤ end
    → take size (slice volume (cluster_offset first) (cluster_offset first + end))
      ≡ slice volume (cluster_offset first) (cluster_offset first + size)
cut_at_size volume first size end h =
    let off = cluster_offset first in
    let e : size ≡ off + size - off = omega arith in
    ap (λ t. take t (slice volume off (off + end))) e
    ∙ take-slice volume off (off + size) (off + end) (omega arith)

-- A round that goes on: the cluster is in range, its entry points on, and bytes are still missing.
round_on :
    (volume : Bytes) (size limit cluster next : ℕ) (result result' : Bytes) (chain : List ℕ)
    → length result < size
    → 2 ≤ cluster
    → cluster < 0xFF0
    → result ++ slice volume (cluster_offset cluster) (cluster_offset cluster + 512) ≡ result'
    → fat_entry (first_fat volume) cluster ≡ ok next
    → length result' < size
    → next < 0xFF8
    → read_loop volume size (suc limit) cluster result chain
      ≡ read_loop volume size limit next result' (chain ++ cluster ∷ [])
unfolding read_loop
round_on volume size limit cluster next result result' chain a b c e f g h =
    rw (lt→ltb _ _ a, le→not_ltb _ _ b, lt→not_leb _ _ c, f, e, lt→not_leb _ _ g, lt→not_leb _ _ h)

-- The numbers of the next round, as the loop writes them.
read_on :
    (volume : Bytes) (size first done left limit : ℕ) (chain : List ℕ)
    → read_loop volume size limit
        (first + (done + 1))
        (slice volume (cluster_offset first) (cluster_offset first + (done + 1) * 512))
        (chain ++ (first + done) ∷ [])
      ≡ ok (record {
        bytes = slice volume (cluster_offset first) (cluster_offset first + size);
        chain = (chain ++ (first + done) ∷ []) ++ range_from (first + (done + 1)) (suc left);
      })
    → read_loop volume size limit
        (suc (first + done))
        (slice volume (cluster_offset first) (cluster_offset first + (done + 1) * 512))
        (chain ++ (first + done) ∷ [])
      ≡ ok (record {
        bytes = slice volume (cluster_offset first) (cluster_offset first + size);
        chain = chain ++ range_from (first + done) (suc (suc left));
      })
unfolding range_from
read_on volume size first done left limit chain e =
    let a : first + (done + 1) ≡ suc (first + done) = omega arith in
    let b : first + done + 1 ≡ suc (first + done) = omega arith in rw b (rw (a, append_assoc) at e)

module _ (volume : Bytes) (size first count : ℕ) where
  -- The loop at the cluster `first + done`, with the sectors before it read.
  pub read_loop_run :
      (left done limit : ℕ) (chain : List ℕ)
      → length volume ≡ 2880 * 512
      → 2 ≤ first
      → first + count ≤ 2849
      → Linked (first_fat volume) first count
      → done + suc left ≡ count
      → (count - 1) * 512 < size
      → size ≤ count * 512
      → left < limit
      → read_loop volume size limit
          (first + done)
          (slice volume (cluster_offset first) (cluster_offset first + done * 512))
          chain
        ≡ ok (record {
          bytes = slice volume (cluster_offset first) (cluster_offset first + size);
          chain = chain ++ range_from (first + done) (suc left);
        })
  unfolding read_loop range_from
  read_loop_run zero done zero chain n two fits linked e full short h = absurd (omega arith)
  read_loop_run zero done (suc limit) chain n two fits linked e full short h =
      let off = cluster_offset first in
      let before : length (slice volume off (off + done * 512)) ≡ done * 512 =
        omega (arith, length-slice volume off (off + done * 512) (omega arith)) in
      let after : length (slice volume off (off + (done + 1) * 512)) ≡ (done + 1) * 512 =
        omega (arith, length-slice volume off (off + (done + 1) * 512) (omega arith)) in
      rw (next_sector volume first done two, linked (first + done) (omega arith) (omega arith))
        (ground
          (arith, before, after, cut_at_size volume first size ((done + 1) * 512) (omega arith)))
  read_loop_run (suc left) done zero chain n two fits linked e full short h = absurd (omega arith)
  read_loop_run (suc left) done (suc limit) chain n two fits linked e full short h =
      let off = cluster_offset first in
      let before : length (slice volume off (off + done * 512)) ≡ done * 512 =
        omega (arith, length-slice volume off (off + done * 512) (omega arith)) in
      let after : length (slice volume off (off + (done + 1) * 512)) ≡ (done + 1) * 512 =
        omega (arith, length-slice volume off (off + (done + 1) * 512) (omega arith)) in
      let mid = chain ++ (first + done) ∷ [] in
      let rest : read_loop volume size limit (suc (first + done))
            (slice volume off (off + (done + 1) * 512)) mid
          ≡ ok (record {
            bytes = slice volume off (off + size);
            chain = chain ++ range_from (first + done) (suc (suc left));
          }) =
        read_on volume size first done left limit chain (
          read_loop_run left (done + 1) limit mid n two fits linked (omega arith) full short
            (omega arith)) in
      let points : fat_entry (first_fat volume) (first + done) ≡ ok (suc (first + done)) =
        ground (arith, linked (first + done) (omega arith) (omega arith)) in
      round_on volume size limit (first + done) (suc (first + done)) _ _ chain (omega arith)
        (omega arith) (omega arith) (next_sector volume first done two) points (omega arith)
        (omega arith)
      ∙ rest
