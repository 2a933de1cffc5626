-- ===== src/Bytes/Words.antt =====
-- Little-endian numbers: `le_bytes` and `from_le` are inverse at every width.
use zig_os.Base.{
  ◌∙◌, ℕ, zero, suc, ◌+◌, ◌-◌, ◌*◌, ◌/◌, ◌%◌, ◌^◌, ◌<◌, ◌≡◌, refl, arith, length, ap, ◌≤◌,
}
use zig_os.Base.{◌++◌, take, drop, replicate, slice, length-replicate, replicate-add}
use zig_os.Base.{[], ◌∷◌}
use zig_os.Bytes.{Bytes, le_bytes, from_le, put, zeros}
use native.Mathlib.Nat.{pow-suc}

abbrev pub IsBytes : Bytes → Type 0
IsBytes [] = Unit {0}
IsBytes (b ∷ bs) = (b < 256) × IsBytes bs

pub length-le_bytes : (width value : ℕ) → length (le_bytes width value) ≡ width
unfolding le_bytes
length-le_bytes zero value = refl
length-le_bytes (suc width) value = ap suc (length-le_bytes width (value / 256))

pub le_bytes-IsBytes : (width value : ℕ) → IsBytes (le_bytes width value)
unfolding le_bytes
le_bytes-IsBytes zero value = tt
le_bytes-IsBytes (suc width) value = (omega arith, le_bytes-IsBytes width (value / 256))

pub from_le-le_bytes :
    (width value : ℕ) → value < 256 ^ width → from_le (le_bytes width value) ≡ value
unfolding le_bytes from_le
from_le-le_bytes zero value h = omega arith
from_le-le_bytes (suc width) value h =
    omega (arith, from_le-le_bytes width (value / 256) (omega (arith, pow-suc 256 width)))

pub from_le-lt : (bs : Bytes) → IsBytes bs → from_le bs < 256 ^ length bs
unfolding from_le
from_le-lt [] h = omega arith
from_le-lt (b ∷ bs) (hb, hbs) = omega (arith, pow-suc 256 (length bs), from_le-lt bs hbs)

pub le_bytes-from_le : (bs : Bytes) → IsBytes bs → le_bytes (length bs) (from_le bs) ≡ bs
unfolding le_bytes from_le
le_bytes-from_le [] h = refl
le_bytes-from_le (b ∷ bs) (hb, hbs) =
    let e : (b + 256 * from_le bs) / 256 ≡ from_le bs = omega arith in
    let f : (b + 256 * from_le bs) % 256 ≡ b = omega arith in
    rw (e, f) (ap (λ t. b ∷ t) (le_bytes-from_le bs hbs))

pub IsBytes-append : (xs ys : Bytes) → IsBytes xs → IsBytes ys → IsBytes (xs ++ ys)
IsBytes-append [] ys p q = q
IsBytes-append (x ∷ xs) ys (h, p) q = (h, IsBytes-append xs ys p q)

pub IsBytes-take : (n : ℕ) (xs : Bytes) → IsBytes xs → IsBytes (take n xs)
unfolding take
IsBytes-take zero xs p = tt
IsBytes-take (suc n) [] p = tt
IsBytes-take (suc n) (x ∷ xs) (h, p) = (h, IsBytes-take n xs p)

pub IsBytes-drop : (n : ℕ) (xs : Bytes) → IsBytes xs → IsBytes (drop n xs)
unfolding drop
IsBytes-drop zero xs p = p
IsBytes-drop (suc n) [] p = tt
IsBytes-drop (suc n) (x ∷ xs) (h, p) = IsBytes-drop n xs p

pub IsBytes-zeros : (n : ℕ) → IsBytes (zeros n)
unfolding zeros replicate
IsBytes-zeros zero = tt
IsBytes-zeros (suc n) = (omega arith, IsBytes-zeros n)

pub IsBytes-put :
    (buf : Bytes) (at : ℕ) (xs : Bytes) → IsBytes buf → IsBytes xs → IsBytes (put buf at xs)
unfolding put
IsBytes-put buf at xs p q =
    IsBytes-append (take at buf) (xs ++ drop _ buf) (IsBytes-take at buf p)
      (IsBytes-append xs (drop _ buf) q (IsBytes-drop _ buf p))

pub length-zeros : (n : ℕ) → length (zeros n) ≡ n
unfolding zeros
length-zeros n = length-replicate n 0

take-zeros : (n m : ℕ) → m ≤ n → take m (zeros n) ≡ zeros m
unfolding take zeros replicate
take-zeros n zero h = refl
take-zeros zero (suc m) h = absurd (omega arith)
take-zeros (suc n) (suc m) h = ap (λ t. 0 ∷ t) (take-zeros n m (omega arith))

pub slice-zeros : (n m : ℕ) → m ≤ n → slice (zeros n) 0 m ≡ zeros m
unfolding slice drop
slice-zeros n m h = let e : m - 0 ≡ m = omega arith in rw e (take-zeros n m h)

pub zeros-add : (m n : ℕ) → zeros (m + n) ≡ zeros m ++ zeros n
unfolding zeros
zeros-add m n = replicate-add m n 0

drop-zeros : (n a : ℕ) → drop a (zeros n) ≡ zeros (n - a)
unfolding zeros drop replicate
drop-zeros zero zero = refl
drop-zeros (suc n) zero = let e : suc n ≡ suc n - 0 = omega arith in ap (λ t. replicate t 0) e
drop-zeros zero (suc a) = let e : 0 ≡ 0 - suc a = omega arith in ap (λ t. replicate t 0) e
drop-zeros (suc n) (suc a) =
    let e : n - a ≡ suc n - suc a = omega arith in drop-zeros n a ∙ ap (λ t. replicate t 0) e

-- One byte of a blank buffer.
pub slice-zeros_one : (n a : ℕ) → a < n → slice (zeros n) a (a + 1) ≡ 0 ∷ []
unfolding slice
slice-zeros_one n a h =
    let one : a + 1 - a ≡ 1 = omega arith in
    let left : n - a ≡ suc (n - a - 1) = omega arith in
    rw (drop-zeros n a, one, left) (unfold zeros replicate take in refl)

pub slice-zeros_inside : (n a b : ℕ) → a ≤ b → b ≤ n → slice (zeros n) a b ≡ zeros (b - a)
unfolding slice
slice-zeros_inside n a b o h = rw (drop-zeros n a) (take-zeros (n - a) (b - a) (omega arith))

pub IsBytes-slice : (xs : Bytes) (a b : ℕ) → IsBytes xs → IsBytes (slice xs a b)
unfolding slice
IsBytes-slice xs a b p = IsBytes-take (b - a) (drop a xs) (IsBytes-drop a xs p)
