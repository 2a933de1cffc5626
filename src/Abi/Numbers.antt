-- ===== src/Abi/Numbers.antt =====
-- The numbers in the texts: what `show_int` and `hex8` print is read back as the number that was printed.
-- The readers here stand for those of the languages that the texts are in.
use zig_os.Base.{
  ℕ, zero, suc, ◌+◌, ◌-◌, ◌*◌, ltb, leb, ◌==◌, ◌&&◌, ◌||◌, if◌then◌else◌, [], ◌∷◌, Option, none,
  some,
}
use zig_os.Bytes.{Bytes}
use zig_os.Abi.{ℤ, pos, negsuc}

-- The value of one of the digits 0 to 9 and A to Z, where the base has it.
unfoldable pub digit_value : ℕ → ℕ → Option ℕ
digit_value base c =
    let value = if ltb c 58 then c - 48 else c - 55 in
    if (leb 48 c && (ltb c 58 || leb 65 c)) && ltb value base then some value else none

unfoldable pub read_more : ℕ → ℕ → Bytes → Option ℕ
read_more base value [] = some value
read_more base value (c ∷ rest) = elim (digit_value base c) [
  | none ↦ none
  | some d ↦ read_more base (value * base + d) rest
]

-- A number of at least one digit.
unfoldable pub read_number : ℕ → Bytes → Option ℕ
read_number base [] = none
read_number base (c ∷ rest) = read_more base 0 (c ∷ rest)

unfoldable pub as_positive : Option ℕ → Option ℤ
as_positive none = none
as_positive (some n) = some (pos n)

-- (`-0` is not printed, and not read.)
unfoldable pub as_negative : Option ℕ → Option ℤ
as_negative none = none
as_negative (some zero) = none
as_negative (some (suc n)) = some (negsuc n)

unfoldable pub read_int : Bytes → Option ℤ
read_int [] = none
read_int (c ∷ rest) =
    if c == 45 then as_negative (read_number 10 rest) else as_positive (read_number 10 (c ∷ rest))
