-- ===== src/Bytes.antt =====
-- Byte buffers: Python's `bytes` and `bytearray` as lists of numbers below 256, and the `struct`
-- formats "<H", "<I" and "<Q" that the image scripts pack and unpack with.
pub mod Words
pub mod Region
pub mod Frame
pub mod Image
pub mod Pointwise
pub mod Changed
use zig_os.Base.{
  ℕ, zero, suc, ◌+◌, ◌*◌, ◌/◌, ◌%◌, ◌^◌, List, [], ◌∷◌, ltb, leb, ◌!=◌, ◌&&◌, ◌||◌, Bool, false,
}
use zig_os.Base.{if◌then◌else◌, length, get_or, replicate, slice, set_slice}
use zig_os.Base.{
  ◌++◌, ◌>>=◌, unicode_error, Result, ok, raise, index_error, struct_error, value_error,
}

abbrev pub Bytes : Type 0
Bytes = List ℕ

-- `bytes(count)` and `bytearray(count)`.
unfoldable pub zeros : ℕ → Bytes
unfolding replicate
zeros count = replicate count 0

-- `buf[i]`
unfoldable pub byte_at : Bytes → ℕ → Result ℕ
byte_at buf i = if ltb i (length buf) then ok (get_or buf i 0) else raise index_error

-- `buf[i] = v`
unfoldable pub set_byte : Bytes → ℕ → ℕ → Result Bytes
unfolding set_slice
set_byte buf i v =
    if ltb i (length buf)
    then (if ltb v 256
        then ok (set_slice buf i (i + 1) (v ∷ []))
        else raise (value_error "byte must be in range(0, 256)" []))
    else raise index_error

-- `buf[offset : offset + len(xs)] = xs`
unfoldable pub put : Bytes → ℕ → Bytes → Bytes
unfolding set_slice
put buf offset xs = set_slice buf offset (offset + length xs) xs

-- The `width` little-endian bytes of a number.
unfoldable pub le_bytes : ℕ → ℕ → Bytes
le_bytes zero value = []
le_bytes (suc width) value = (value % 256) ∷ le_bytes width (value / 256)

-- The number that little-endian bytes stand for, `int.from_bytes(bs, "little")`.
unfoldable pub from_le : Bytes → ℕ
from_le [] = 0
from_le (b ∷ bs) = b + 256 * from_le bs

-- `struct.pack("<H", value)`, "<I" and "<Q": widths 2, 4 and 8.
unfoldable pub pack : ℕ → ℕ → Result Bytes
unfolding le_bytes
pack width value = if ltb value (256 ^ width) then ok (le_bytes width value) else raise struct_error

-- `struct.pack_into("<…", buf, offset, value)`
unfoldable pub pack_into : ℕ → Bytes → ℕ → ℕ → Result Bytes
unfolding put le_bytes
pack_into width buf offset value =
    if leb (offset + width) (length buf) && ltb value (256 ^ width)
    then ok (put buf offset (le_bytes width value))
    else raise struct_error

-- `struct.unpack_from("<…", buf, offset)[0]`
unfoldable pub unpack_from : ℕ → Bytes → ℕ → Result ℕ
unfolding slice from_le
unpack_from width buf offset =
    if leb (offset + width) (length buf)
    then ok (from_le (slice buf offset (offset + width)))
    else raise struct_error

-- A `struct` format of several little-endian fields, each with its width in bytes and its value.
unfoldable pub pack_fields : List (ℕ × ℕ) → Result Bytes
unfolding pack
pack_fields [] = ok []
pack_fields ((width, value) ∷ fields) = do
  field ← pack width value
  rest ← pack_fields fields
  ok (field ++ rest)

unfoldable pub pack_fields_into : List (ℕ × ℕ) → Bytes → ℕ → Result Bytes
unfolding pack_fields put
pack_fields_into fields buf offset = do
  packed ← pack_fields fields
  if leb (offset + length packed) (length buf)
      then ok (put buf offset packed)
      else raise struct_error

-- `name.decode("ascii")`
unfoldable pub decode_ascii : Bytes → Result Bytes
decode_ascii [] = ok []
decode_ascii (b ∷ bs) = do
  rest ← decode_ascii bs
  if ltb b 128 then ok (b ∷ rest) else raise unicode_error

-- `any(buf)`
unfoldable pub any : Bytes → Bool
any [] = false
any (b ∷ buf) = b != 0 || any buf

-- `for offset, value in fields.items(): buf[offset : offset + len(value)] = value`
unfoldable pub write_fields : List (ℕ × Bytes) → Bytes → Bytes
unfolding put
write_fields [] buf = buf
write_fields ((offset, value) ∷ fields) buf = write_fields fields (put buf offset value)
