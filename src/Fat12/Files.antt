-- ===== src/Fat12/Files.antt =====
-- What `write_files` stores: for every file its directory slot and its contents.
use zig_os.Base.{ℕ, suc, ◌+◌, ◌-◌, ◌*◌, ◌≤◌, ◌<◌, ◌≡◌, inl, inr, refl, arith, ap, sym, ◌∙◌}
use zig_os.Base.{List, [], ◌∷◌, length, slice, range_from, Result, ok}
use zig_os.Bytes.{Bytes}
use zig_os.Bytes.Frame.{slice_whole}
use zig_os.Fat12.Volume.{
  File, cluster_count, cluster_offset, first_cluster, write_chunks, write_files,
}
use zig_os.Fat12.Linked.{placements, clusters_needed, cluster_count-pos}
use zig_os.Fat12.Chunks.{Stored, write_chunks-Stored}
use zig_os.Fat12.Slots.{slot_offset, Slot, Slot-kept, root_entry-Entered}

-- What the script requires of `FILES`: 11-byte names, a slot for each in the root directory, and
-- clusters for all in the volume.
abbrev pub AllNamed : List File → Type 0
AllNamed [] = Unit {0}
AllNamed (f ∷ files) = (length f.name ≡ 11) × AllNamed files

pub record Fits (files : List File) : Type 0 where
  pub named : AllNamed files
  pub slots : length files ≤ 224
  pub clusters : 2 + clusters_needed files ≤ 2849

-- The slots from `index` on name the files, whose contents stand in the clusters from `next` on.
abbrev pub AllStored : Bytes → ℕ → ℕ → List File → Type 0
AllStored volume index next [] = Unit {0}
AllStored volume index next (f ∷ files) =
    Slot volume index f.name next (length f.content)
    × (slice volume (cluster_offset next) (cluster_offset next + length f.content) ≡ f.content)
    × AllStored volume (index + 1) (next + cluster_count f.content) files

pub record Files (before : Bytes) (index next : ℕ) (files : List File) (result : Result Bytes)
    : Type 0 where
  pub after : Bytes
  pub returns : result ≡ ok after
  pub size : length after ≡ length before
  pub front : (a b : ℕ) → a ≤ b → b ≤ slot_offset index → slice after a b ≡ slice before a b
  pub earlier :
      (a b : ℕ)
      → a ≤ b
      → 33 * 512 ≤ a
      → b ≤ cluster_offset next
      → slice after a b ≡ slice before a b
  pub behind :
      (a b : ℕ)
      → a ≤ b
      → slot_offset (index + length files) ≤ a
      → b ≤ 33 * 512
      → slice after a b ≡ slice before a b
  pub stored : AllStored after index next files

-- The clusters of a file hold its contents, and all but the last are full.
pub cluster_count_lem :
    (content : Bytes)
    → (length content ≤ cluster_count content * 512)
      × (1 < cluster_count content → (cluster_count content - 1) * 512 < length content)
unfolding cluster_count
cluster_count_lem content = (omega arith, λ h. omega arith)

-- Of a file that is not empty every cluster is in use.
pub cluster_count-full :
    (content : Bytes) → 0 < length content → (cluster_count content - 1) * 512 < length content
unfolding cluster_count
cluster_count-full content h = omega arith

whole_content :
    (content volume : Bytes) (next : ℕ)
    → 2 ≤ next
    → cluster_offset next + cluster_count content * 512 ≤ length volume
    → Stored content volume 0 next
        (cluster_count content)
        (write_chunks content 0 (range_from next (cluster_count content)) volume)
whole_content content volume next two fits =
    run (cluster_count content - 1) (omega (arith, cluster_count-pos content))
  where
    run :
        (k : ℕ)
        → cluster_count content ≡ suc k
        → Stored content volume 0 next
            (cluster_count content)
            (write_chunks content 0 (range_from next (cluster_count content)) volume)
    run k e = rw e (
        write_chunks-Stored k content 0 next volume two (omega arith)
          (omega (arith, cluster_count_lem content))
          (λ h. omega (arith, (cluster_count_lem content).1 (omega arith))))

-- `chain[0]` of a file's run.
first_of_run :
    (content : Bytes) (next : ℕ) → first_cluster (range_from next (cluster_count content)) ≡ ok next
unfolding first_cluster range_from
first_of_run content next =
    let e : cluster_count content ≡ suc (cluster_count content - 1) =
      omega (arith, cluster_count-pos content) in
    rw e refl

from_stored :
    (content after : Bytes) (next : ℕ)
    → slice after (cluster_offset next) (cluster_offset next + (length content - 0 * 512))
      ≡ slice content (0 * 512) (length content)
    → slice after (cluster_offset next) (cluster_offset next + length content) ≡ content
from_stored content after next e =
    let all : length content - 0 * 512 ≡ length content = omega arith in
    ap (λ t. slice after (cluster_offset next) (cluster_offset next + t)) (sym all)
    ∙ e
    ∙ slice_whole content

-- On a volume of 2880 sectors, for files with 11-byte names, slots from `index` on and clusters from
-- `next` on that are left for them all, `write_files` succeeds and keeps the size: every file has its
-- directory entry and its contents in its clusters, and neither the part before the first slot, nor
-- the rest of the directory, nor the clusters below `next` change.
pub write_files-Files :
    (files : List File) (volume : Bytes) (index next : ℕ)
    → length volume ≡ 2880 * 512
    → AllNamed files
    → index + length files ≤ 224
    → 2 ≤ next
    → next + clusters_needed files ≤ 2849
    → Files volume index next files (write_files volume index files (placements next files))
unfolding write_files placements clusters_needed
write_files-Files [] volume index next n named slots two fits = record {
  after = volume;
  returns = refl;
  size = refl;
  front = λ a b o h. refl;
  earlier = λ a b o h h'. refl;
  behind = λ a b o h h'. refl;
  stored = tt;
}
write_files-Files (f ∷ files) volume index next n (eleven, named) slots two fits =
    let count = cluster_count f.content in
    let entered =
      root_entry-Entered volume index f.name next (length f.content) (omega arith) eleven
        (omega arith) (omega (arith, cluster_count_lem f.content)) in
    let chunks =
      whole_content f.content entered.after next two (omega (arith, entered.wrote.size)) in
    let v2 = write_chunks f.content 0 (range_from next count) entered.after in
    let rest =
      write_files-Files files v2 (index + 1) (next + count)
        (chunks.wrote.size ∙ entered.wrote.size ∙ n) named (omega arith) (omega arith)
        (omega arith) in
    record {
      after = rest.after;
      returns = rw (first_of_run f.content next, entered.returns, rest.returns) refl;
      size = rest.size ∙ chunks.wrote.size ∙ entered.wrote.size;
      front = λ a b o h.
          rest.front a b o (omega arith)
          ∙ chunks.wrote.others a b o (inl (omega arith))
          ∙ entered.wrote.others a b o (inl (omega arith));
      earlier = λ a b o h h'.
          rest.earlier a b o h (omega arith)
          ∙ chunks.wrote.others a b o (inl h')
          ∙ entered.wrote.others a b o (inr (omega arith));
      behind = λ a b o h h'.
          rest.behind a b o (omega arith) h'
          ∙ chunks.wrote.others a b o (inl (omega arith))
          ∙ entered.wrote.others a b o (inr (omega arith));
      stored = (
        Slot-kept
            (λ a b o h.
              rest.front a b o (omega arith) ∙ chunks.wrote.others a b o (inl (omega arith)))
            entered.slot,
        rest.earlier _ _ (omega arith) (omega arith) (omega (arith, cluster_count_lem f.content))
            ∙ from_stored f.content v2 next chunks.stored,
        rest.stored,
      );
    }
