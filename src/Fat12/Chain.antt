-- ===== src/Fat12/Chain.antt =====
-- `read_chain` of scripts/verify-legacy-bios.py.
use zig_os.Base.{ℕ, zero, suc, ◌+◌, ◌*◌, ltb, leb, ◌||◌, if◌then◌else◌, List, [], ◌∷◌, ◌++◌}
use zig_os.Base.{length, take, slice, Result, ok, raise, system_exit, fail_if, ◌>>=◌, ◌>>◌}
use zig_os.Bytes.{Bytes}
use zig_os.Fat12.Geometry.{bps, spf}
use zig_os.Fat12.Volume.{cluster_offset}
use zig_os.Fat12.Entry.{fat_entry}

-- `volume[BPS : (1 + SPF) * BPS]`
unfoldable pub first_fat : Bytes → Bytes
first_fat volume = slice volume bps ((1 + spf) * bps)

pub record Chained : Type 0 where
  pub bytes : Bytes
  pub chain : List ℕ

-- The `while` loop, which counts `limit` down, and the `return` behind it.
unfoldable pub read_loop : Bytes → ℕ → ℕ → ℕ → Bytes → List ℕ → Result Chained
read_loop volume size zero cluster result chain = raise (system_exit "FAT12 chain loop" [])
read_loop volume size (suc limit) cluster result chain =
    let round = do
      fail_if (ltb cluster 2 || leb 0xFF0 cluster) "invalid FAT12 data cluster {}" (cluster ∷ [])
      let chain' = chain ++ cluster ∷ []
      let result' = result ++ slice volume (cluster_offset cluster) (cluster_offset cluster + bps)
      next ← fat_entry (first_fat volume) cluster
      let stop = do
        fail_if (ltb next 0xFF8) "file chain does not terminate at cluster {}: {}"
            (cluster ∷ next ∷ [])
        ok (record { bytes = take size result'; chain = chain' })
      let more = do
        fail_if (leb 0xFF8 next) "file chain ended early at cluster {}" (cluster ∷ [])
        read_loop volume size limit next result' chain'
      if leb size (length result') then stop else more
    in if ltb (length result) size
      then round
      else ok (record { bytes = take size result; chain = chain })

unfoldable pub read_chain : Bytes → ℕ → ℕ → Result Chained
read_chain volume first size = read_loop volume size 2880 first [] []
