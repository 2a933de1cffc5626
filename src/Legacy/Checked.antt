-- ===== src/Legacy/Checked.antt =====
-- The checks of single files, on the volume that the generator writes.
use zig_os.Base.{ℕ, ◌+◌, ◌^◌, ◌<◌, ◌≡◌, refl, List, [], ◌∷◌, length, ok, ◌>>=◌, >>=-eq-ok}
use zig_os.Bytes.{Bytes}
use zig_os.Fat12.Volume.{File, build_volume, cluster_count}
use zig_os.Fat12.Files.{Fits}
use zig_os.Fat12.Chain.{read_chain}
use zig_os.Fat12.ReadBack.{Readable, build_volume-Built}
use zig_os.Legacy.Content.{ContentCheck, verify_contents}

-- Each check names the cluster and the size of a file whose contents pass. Files may be passed over or
-- named again, and neighbouring checks may be swapped, so their order is free.
pub data Covers : ℕ → List File → List ContentCheck → Type 0 where
  all_done : {next : ℕ} {files : List File} → Covers next files []
  passed_over :
      {next : ℕ} {f : File} {files : List File} {checks : List ContentCheck}
      → Covers (next + cluster_count f.content) files checks
      → Covers next (f ∷ files) checks
  checked :
      {next : ℕ} {f : File} {files : List File} {c : ContentCheck} {checks : List ContentCheck}
      → c.cluster ≡ next
      → c.size ≡ length f.content
      → 0 < length f.content
      → c.check f.content ≡ ok tt
      → Covers (next + cluster_count f.content) files checks
      → Covers next (f ∷ files) (c ∷ checks)
  checked_again :
      {next : ℕ} {f : File} {files : List File} {c : ContentCheck} {checks : List ContentCheck}
      → c.cluster ≡ next
      → c.size ≡ length f.content
      → 0 < length f.content
      → c.check f.content ≡ ok tt
      → Covers next (f ∷ files) checks
      → Covers next (f ∷ files) (c ∷ checks)
  swapped :
      {next : ℕ} {files : List File} {c d : ContentCheck} {checks : List ContentCheck}
      → Covers next files (c ∷ d ∷ checks)
      → Covers next files (d ∷ c ∷ checks)

-- Where one check passes and the ones behind it do, `verify_contents` passes them, and conversely.
Passes : Bytes → ContentCheck → Type 0
Passes volume c = (read_chain volume c.cluster c.size >>= λ file. c.check file.bytes) ≡ ok tt

passed_first :
    (volume : Bytes) (c : ContentCheck) (checks : List ContentCheck)
    → verify_contents volume (c ∷ checks) ≡ ok tt
    → Passes volume c × (verify_contents volume checks ≡ ok tt)
unfolding verify_contents Passes
passed_first volume c checks passes =
    let (file, rest, read) = >>=-eq-ok (read_chain volume c.cluster c.size) _ passes in
    let (done, others, looked) = >>=-eq-ok (c.check file.bytes) _ rest in (rw read looked, others)

pass_first :
    (volume : Bytes) (c : ContentCheck) (checks : List ContentCheck)
    → Passes volume c
    → verify_contents volume checks ≡ ok tt
    → verify_contents volume (c ∷ checks) ≡ ok tt
unfolding verify_contents Passes
pass_first volume c checks passes others =
    let (file, looked, read) = >>=-eq-ok (read_chain volume c.cluster c.size) _ passes in
    rw (read, looked) others

verify_contents-Covers :
    (files : List File) (checks : List ContentCheck) (volume : Bytes) (index next : ℕ)
    → Readable volume index next files
    → Covers next files checks
    → verify_contents volume checks ≡ ok tt
unfolding verify_contents
verify_contents-Covers files [] volume index next r all_done = refl
verify_contents-Covers files (d ∷ c ∷ checks) volume index next r (swapped covers) =
    let in_order = verify_contents-Covers files (c ∷ d ∷ checks) volume index next r covers in
    let (first, rest) = passed_first volume c (d ∷ checks) in_order in
    let (second, others) = passed_first volume d checks rest in
    pass_first volume d (c ∷ checks) second (pass_first volume c checks first others)
verify_contents-Covers (f ∷ files) (c ∷ checks) volume index next r
      (checked_again at size some pass rest) =
    rw (at, size, r.4 some, pass)
      (verify_contents-Covers (f ∷ files) checks volume index next r rest)
verify_contents-Covers (f ∷ files) checks volume index next r (passed_over rest) =
    verify_contents-Covers files checks volume (index + 1) (next + cluster_count f.content) r.5 rest
verify_contents-Covers (f ∷ files) (c ∷ checks) volume index next r
      (checked at size some pass rest) =
    rw (at, size, r.4 some, pass)
      (verify_contents-Covers files checks volume (index + 1) (next + cluster_count f.content) r.5
        rest)

-- For every list of files that fits and every 32-bit count of hidden sectors, and for checks that each
-- name one of the files, by first cluster and size, with contents that are not empty and
-- pass: the volume that `build_volume` returns passes `verify_contents`.
pub verify_contents-build_volume :
    (hidden : ℕ) (files : List File) (checks : List ContentCheck)
    → hidden < 2 ^ 32
    → Fits files
    → Covers 2 files checks
    → (volume : Bytes) × (build_volume hidden files ≡ ok volume)
      × (verify_contents volume checks ≡ ok tt)
verify_contents-build_volume hidden files checks small fits covers =
    let built = build_volume-Built hidden files small fits in
    (
      built.volume,
      built.returns,
      verify_contents-Covers files checks built.volume 0 2 built.readable covers,
    )
