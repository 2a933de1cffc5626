-- ===== src/Fat12/Linked.antt =====
-- What `link_chain` and `allocate` leave in the file allocation table.
use zig_os.Base.{ℕ, zero, suc, ◌+◌, ◌-◌, ◌<◌, ◌≤◌, ◌≡◌, refl, arith, ok, ◌∙◌}
use zig_os.Base.{List, [], ◌∷◌, length, range_from, if◌then◌else◌, ◌==◌, Result, ◌⊎◌, inl}
use zig_os.Bytes.{Bytes}
use zig_os.Bytes.Words.{IsBytes}
use zig_os.Fat12.Entry.{fat_entry}
use zig_os.Fat12.Entry.Laws.{set_fat12_entry_lem}
use zig_os.Fat12.Volume.{File, Allocation, Allocated, cluster_count, link_chain, allocate}

-- A table as the script makes it: 9 sectors of bytes. It holds the entries below 3072.
pub record IsTable (fat : Bytes) : Type 0 where
  pub size : length fat ≡ 4608
  pub bytes : IsBytes fat

-- The `count` clusters from `first` on form a chain: each points to the next, the last is 0xFFF.
abbrev pub Linked : Bytes → ℕ → ℕ → Type 0
Linked fat first count =
    (c : ℕ)
    → first ≤ c
    → c < first + count
    → fat_entry fat c ≡ ok (if suc c == first + count then 0xFFF else suc c)

-- `after` differs from `before` at most at the clusters from `first` up to `end`.
abbrev pub SameOutside : Bytes → Bytes → ℕ → ℕ → Type 0
SameOutside before after first end =
    (c : ℕ) → c < 3072 → (c < first) ⊎ (end ≤ c) → fat_entry after c ≡ fat_entry before c

pub record Links (fat : Bytes) (first count : ℕ) (result : Result Bytes) : Type 0 where
  pub table : Bytes
  pub returns : result ≡ ok table
  pub is_table : IsTable table
  pub linked : Linked table first count
  pub others : SameOutside fat table first (first + count)

-- Linking a run of at least one cluster inside the table of 9 sectors succeeds, makes the run one
-- chain and changes no other entry.
pub link_chain-Links :
    (count : ℕ) (fat : Bytes) (first : ℕ)
    → IsTable fat
    → first + suc count ≤ 3072
    → Links fat first (suc count) (link_chain fat (range_from first (suc count)))
unfolding link_chain range_from
link_chain-Links zero fat first t fits =
    let (fat', done, size, bytes, reads) =
      set_fat12_entry_lem fat first 0x0FFF t.bytes (omega (arith, t.size)) in
    record {
      table = fat';
      returns = done;
      is_table = record { size = size ∙ t.size; bytes = bytes };
      linked = λ c lo hi. ground (arith, reads c (omega (arith, t.size)));
      others = λ c small out. ground (arith, reads c (omega (arith, t.size)));
    }
link_chain-Links (suc count) fat first t fits =
    let (fat', done, size, bytes, reads) =
      set_fat12_entry_lem fat first (first + 1) t.bytes (omega (arith, t.size)) in
    let t' : IsTable fat' = record { size = size ∙ t.size; bytes = bytes } in
    let rest = link_chain-Links count fat' (first + 1) t' (omega arith) in
    record {
      table = rest.table;
      returns = rw done rest.returns;
      is_table = rest.is_table;
      linked = λ c lo hi.
          ground
            (arith, reads c (omega (arith, t.size)), rest.others c (omega arith), rest.linked c);
      others = λ c small out. ground (arith, reads c (omega (arith, t.size)), rest.others c small);
    }

-- Where `allocate` puts the files: contiguous runs of clusters, one behind the other.
unfoldable pub placements : ℕ → List File → List Allocation
placements next [] = []
placements next (f ∷ files) =
    record { size = length f.content; chain = range_from next (cluster_count f.content) }
    ∷ placements (next + cluster_count f.content) files

unfoldable pub clusters_needed : List File → ℕ
clusters_needed [] = 0
clusters_needed (f ∷ files) = cluster_count f.content + clusters_needed files

abbrev pub AllLinked : Bytes → ℕ → List File → Type 0
AllLinked fat next [] = Unit {0}
AllLinked fat next (f ∷ files) =
    Linked fat next (cluster_count f.content) × AllLinked fat (next + cluster_count f.content) files

pub record Allocates (fat : Bytes) (next : ℕ) (files : List File) (result : Result Allocated)
    : Type 0 where
  pub table : Bytes
  pub returns : result ≡ ok (record { fat = table; allocations = placements next files })
  pub is_table : IsTable table
  pub linked : AllLinked table next files
  pub others : SameOutside fat table next (next + clusters_needed files)

pub cluster_count-pos : (content : Bytes) → 0 < cluster_count content
unfolding cluster_count
cluster_count-pos content = omega arith

-- While the clusters last, `allocate` succeeds, gives every file its own run of clusters, links it to a
-- chain, and changes no entry outside these runs.
pub allocate-Allocates :
    (files : List File) (fat : Bytes) (next : ℕ)
    → IsTable fat
    → next + clusters_needed files ≤ 3072
    → Allocates fat next files (allocate fat next files)
unfolding allocate placements clusters_needed
allocate-Allocates [] fat next t fits = record {
  table = fat;
  returns = refl;
  is_table = t;
  linked = tt;
  others = λ c small out. refl;
}
allocate-Allocates (f ∷ files) fat next t fits =
    let count = cluster_count f.content in
    let links = run (count - 1) (omega (arith, cluster_count-pos f.content)) in
    let rest = allocate-Allocates files links.table (next + count) links.is_table (omega arith) in
    record {
      table = rest.table;
      returns = rw (links.returns, rest.returns) refl;
      is_table = rest.is_table;
      linked =
          (λ c lo hi. rest.others c (omega arith) (inl hi) ∙ links.linked c lo hi, rest.linked);
      others =
          λ c small out. rest.others c small (ground arith) ∙ links.others c small (ground arith);
    }
  where
    run :
        (k : ℕ)
        → cluster_count f.content ≡ suc k
        → Links fat next
            (cluster_count f.content)
            (link_chain fat (range_from next (cluster_count f.content)))
    run k e = rw e (link_chain-Links k fat next t (omega arith))
