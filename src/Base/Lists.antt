-- ===== src/Base/Lists.antt =====
-- Sequences measured and indexed by native numbers, under the library's names.
mod Slices
mod Overwrite
mod Update
pub use Update.*
unfoldable pub use Slices.{take, drop, replicate, slice}
pub use Slices.*
unfoldable pub use Overwrite.{set_slice}
pub use Overwrite.*
use Prim.Native.Nat.{ℕ, ◌+◌}
use Prim.Native.Char.{code}
use Prim.Native.String
use Prim.Native.String.{String}
use mathlib.Core.List.{List, [], ◌∷◌}

-- The bytes of an ASCII literal.
abbrev pub ascii : String → List ℕ
ascii String.[] = []
ascii (String.◌∷◌ c s) = code c ∷ ascii s

-- `range(start, start + count)`.
unfoldable pub range_from : ℕ → ℕ → List ℕ
range_from start ℕ.zero = []
range_from start (ℕ.suc count) = start ∷ range_from (start + 1) count
