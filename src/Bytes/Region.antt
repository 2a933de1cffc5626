-- ===== src/Bytes/Region.antt =====
-- What is read back after a write: `put` and `pack_into` against `slice` and `unpack_from`.
use zig_os.Base.{ℕ, ◌+◌, ◌^◌, ◌<◌, ◌≤◌, ◌≡◌, ◌⊎◌, inl, inr, length, ap, ◌∙◌, sym}
use zig_os.Base.{
  slice, set_slice, length-set_slice, slice-set_slice_self, slice-set_slice_before, ok,
}
use zig_os.Base.{slice-set_slice_after, le→leb, lt→ltb}
use zig_os.Base.{zero, suc, ◌-◌, [], ◌∷◌, get_or, refl, arith}
use zig_os.Bytes.{Bytes, byte_at, set_byte, put, pack_into, unpack_from, le_bytes, from_le}
use zig_os.Bytes.Words.{length-le_bytes, from_le-le_bytes}

module _ (buf : Bytes) (at : ℕ) (xs : Bytes) (fits : at + length xs ≤ length buf) where
  pub length-put : length (put buf at xs) ≡ length buf
  unfolding put
  length-put = length-set_slice buf at xs fits

  pub slice-put_self : slice (put buf at xs) at (at + length xs) ≡ xs
  unfolding put
  slice-put_self = slice-set_slice_self buf at xs fits

  pub slice-put_at : (end : ℕ) → at + length xs ≡ end → slice (put buf at xs) at end ≡ xs
  slice-put_at end e = ap (λ t. slice (put buf at xs) at t) (sym e) ∙ slice-put_self

  -- A read that ends before the write or starts behind it does not see it.
  pub slice-put_other :
      (c d : ℕ)
      → c ≤ d
      → (d ≤ at) ⊎ (at + length xs ≤ c)
      → slice (put buf at xs) c d ≡ slice buf c d
  unfolding put
  slice-put_other c d o (inl h) = slice-set_slice_before buf at xs fits c d o h
  slice-put_other c d o (inr h) = slice-set_slice_after buf at xs fits c d h

pub pack_into-put :
    (width : ℕ) (buf : Bytes) (at value : ℕ)
    → at + width ≤ length buf
    → value < 256 ^ width
    → pack_into width buf at value ≡ ok (put buf at (le_bytes width value))
unfolding pack_into
pack_into-put width buf at value p q = rw (le→leb _ _ p, lt→ltb _ _ q)

pub unpack_from-slice :
    (width : ℕ) (buf : Bytes) (at : ℕ)
    → at + width ≤ length buf
    → unpack_from width buf at ≡ ok (from_le (slice buf at (at + width)))
unfolding unpack_from
unpack_from-slice width buf at p = rw (le→leb _ _ p)

-- A packed value is unpacked from the same place.
pub unpack_from-put :
    (width : ℕ) (buf : Bytes) (at value : ℕ)
    → at + width ≤ length buf
    → value < 256 ^ width
    → unpack_from width (put buf at (le_bytes width value)) at ≡ ok value
unpack_from-put width buf at value p q =
    let n = length-le_bytes width value in
    let fits : at + length (le_bytes width value) ≤ length buf = rw n p in
    unpack_from-slice width _ at (rw (length-put buf at _ fits) p)
    ∙ ap (λ t. ok (from_le t)) (rw n at (slice-put_self buf at (le_bytes width value) fits))
    ∙ ap ok (from_le-le_bytes width value q)

-- `buf[i] = v` and `buf[i]` as a write and a read of one byte.
pub set_byte-put :
    (buf : Bytes) (i v : ℕ) → i < length buf → v < 256 → set_byte buf i v ≡ ok (put buf i (v ∷ []))
unfolding set_byte put
set_byte-put buf i v h hv = rw (lt→ltb _ _ h, lt→ltb _ _ hv) refl

slice_one : (buf : Bytes) (i : ℕ) → i < length buf → slice buf i (suc i) ≡ get_or buf i 0 ∷ []
unfolding slice
slice_one [] i h = absurd (omega arith)
slice_one (b ∷ bs) zero h = refl
slice_one (b ∷ bs) (suc i) h =
    let e : suc (suc i) - suc i ≡ suc i - i = omega arith in rw e (slice_one bs i (omega arith))

head_of : Bytes → ℕ
head_of [] = 0
head_of (b ∷ bs) = b

pub byte_at-slice :
    (buf : Bytes) (i v : ℕ) → i < length buf → slice buf i (i + 1) ≡ v ∷ [] → byte_at buf i ≡ ok v
unfolding byte_at head_of
byte_at-slice buf i v h e =
    let next : i + 1 ≡ suc i = omega arith in
    rw (lt→ltb _ _ h)
      (ap (λ t. ok (head_of t)) (sym (slice_one buf i h) ∙ ap (slice buf i) (sym next) ∙ e))

-- A value packed at `at` is unpacked wherever its bytes still stand.
pub unpack_from-le_bytes :
    (width : ℕ) (buf : Bytes) (at value : ℕ)
    → at + width ≤ length buf
    → value < 256 ^ width
    → slice buf at (at + width) ≡ le_bytes width value
    → unpack_from width buf at ≡ ok value
unpack_from-le_bytes width buf at value p q e =
    unpack_from-slice width buf at p
    ∙ ap (λ t. ok (from_le t)) e
    ∙ ap ok (from_le-le_bytes width value q)

-- `buf[at:end] = xs` where the slice has the size of `xs`.
pub set_slice-put :
    (buf : Bytes) (at end : ℕ) (xs : Bytes)
    → at + length xs ≡ end
    → set_slice buf at end xs ≡ put buf at xs
unfolding put
set_slice-put buf at end xs e = ap (λ t. set_slice buf at t xs) (sym e)
