-- ===== src/Bytes/Image.antt =====
-- Images that are put together from a front of known size and a tail.
use zig_os.Base.{
  drop-drop, take-take, drop-take, ℕ, ◌+◌, ◌≤◌, ◌≡◌, arith, ok, ap, ap₂, ◌∙◌, sym, ◌++◌, List,
  length, take, drop, max,
}
use zig_os.Base.{
  set_slice, take-append_le, drop-append_le, drop_all, le→leb, length-append, take_all,
}
use zig_os.Base.{◌-◌, slice, drop-append_ge}
use zig_os.Bytes.{Bytes, put, pack_fields, pack_fields_into, unpack_from, from_le}
use zig_os.Bytes.Region.{unpack_from-slice}
use mathlib.Core.List.{append_assoc, append-nil}

-- A write that ends in the front leaves the tail as it is.
pub put-append :
    (front tail : Bytes) (at : ℕ) (xs : Bytes)
    → at + length xs ≤ length front
    → put (front ++ tail) at xs ≡ put front at xs ++ tail
unfolding put set_slice
put-append front tail at xs h =
    let end = max at (at + length xs) in
    ap₂ (λ s t. s ++ (xs ++ t)) (take-append_le at front tail (omega arith))
      (drop-append_le end front tail (omega arith))
    ∙ ap (λ t. take at front ++ t) (sym (append_assoc xs (drop end front) tail))
    ∙ sym (append_assoc (take at front) (xs ++ drop end front) tail)

-- `buf[a:] = xs`
pub set_slice_tail :
    (front tail : Bytes) (a : ℕ) (xs : Bytes)
    → length front ≡ a
    → set_slice (front ++ tail) a (length (front ++ tail)) xs ≡ front ++ xs
unfolding set_slice
set_slice_tail front tail a xs e =
    let all = front ++ tail in
    ap₂ (λ s t. s ++ (xs ++ t))
      (take-append_le a front tail (omega arith) ∙ take_all a front (omega arith))
      (drop_all (max a (length all)) all (omega arith))
    ∙ ap (λ t. front ++ t) (append-nil xs)

pub pack_fields_into-put :
    (fields : List (ℕ × ℕ)) (buf packed : Bytes) (at : ℕ)
    → pack_fields fields ≡ ok packed
    → at + length packed ≤ length buf
    → pack_fields_into fields buf at ≡ ok (put buf at packed)
unfolding pack_fields_into
pack_fields_into-put fields buf packed at e h = rw (e, le→leb _ _ h)

pub slice_tail :
    (front tail : Bytes) (a : ℕ)
    → length front ≡ a
    → slice (front ++ tail) a (length (front ++ tail)) ≡ tail
unfolding slice drop
slice_tail front tail a e =
    ap (take (length (front ++ tail) - a)) (drop-append_ge a 0 front tail (omega arith))
    ∙ take_all (length (front ++ tail) - a) tail (omega (arith, length-append front tail))

-- `unpack_from` where the bytes of the field are known.
pub unpack_from_known :
    (width : ℕ) (buf : Bytes) (at : ℕ) (field : Bytes)
    → at + width ≤ length buf
    → slice buf at (at + width) ≡ field
    → unpack_from width buf at ≡ ok (from_le field)
unpack_from_known width buf at field h e =
    unpack_from-slice width buf at h ∙ ap (λ t. ok (from_le t)) e

-- A slice of a known front.
pub slice_front :
    (xs front : Bytes) (n a b : ℕ)
    → a ≤ b
    → b ≤ n
    → slice xs 0 n ≡ front
    → slice xs a b ≡ slice front a b
unfolding slice drop
slice_front xs front n a b o h e =
    let all : n - 0 ≡ a + (n - a) = omega arith in
    sym (take-take (b - a) (n - a) (drop a xs) (omega arith))
    ∙ ap (take (b - a)) (sym (drop-take a (n - a) xs))
    ∙ ap (λ t. take (b - a) (drop a (take t xs))) (sym all)
    ∙ ap (λ t. take (b - a) (drop a t)) e

-- A slice inside a known part.
pub slice_part :
    (xs part : Bytes) (lo hi i j : ℕ)
    → i ≤ j
    → lo + j ≤ hi
    → slice xs lo hi ≡ part
    → slice xs (lo + i) (lo + j) ≡ slice part i j
unfolding slice
slice_part xs part lo hi i j o h e =
    let width : lo + j - (lo + i) ≡ j - i = omega arith in
    let all : hi - lo ≡ i + (hi - lo - i) = omega arith in
    rw (width, sym (drop-drop i lo xs))
      (sym (take-take (j - i) (hi - lo - i) (drop i (drop lo xs)) (omega arith))
        ∙ ap (take (j - i)) (sym (drop-take i (hi - lo - i) (drop lo xs)))
        ∙ ap (λ t. take (j - i) (drop i (take t (drop lo xs)))) (sym all)
        ∙ ap (λ t. take (j - i) (drop i t)) e)
