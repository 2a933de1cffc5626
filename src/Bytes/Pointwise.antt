-- ===== src/Bytes/Pointwise.antt =====
-- Buffers compared byte by byte: what `get_or` reads of a slice, a join and a write.
use zig_os.Base.{
  ℕ, zero, suc, ◌+◌, ◌-◌, ◌<◌, ◌≤◌, ◌≡◌, refl, arith, ap, ap₂, sym, ◌∙◌, max, [], ◌∷◌, ◌++◌,
}
use zig_os.Base.{length, get_or, take, drop, slice, set_slice}
use zig_os.Base.{length-take}
use zig_os.Bytes.{Bytes, put}

-- Two buffers of one size that agree at every place are equal.
pub bytes_ext :
    (xs ys : Bytes)
    → length xs ≡ length ys
    → ((j : ℕ) → j < length xs → get_or xs j 0 ≡ get_or ys j 0)
    → xs ≡ ys
bytes_ext [] [] n e = refl
bytes_ext [] (y ∷ ys) n e = absurd (omega arith)
bytes_ext (x ∷ xs) [] n e = absurd (omega arith)
bytes_ext (x ∷ xs) (y ∷ ys) n e =
    ap₂ (λ a b. a ∷ b) (e 0 (omega arith))
      (bytes_ext xs ys (omega arith) (λ j h. e (suc j) (omega arith)))

pub get_or-take : (n : ℕ) (xs : Bytes) (j : ℕ) → j < n → get_or (take n xs) j 0 ≡ get_or xs j 0
unfolding take
get_or-take zero xs j h = absurd (omega arith)
get_or-take (suc n) [] j h = refl
get_or-take (suc n) (x ∷ xs) zero h = refl
get_or-take (suc n) (x ∷ xs) (suc j) h = get_or-take n xs j (omega arith)

pub get_or-drop : (n : ℕ) (xs : Bytes) (j : ℕ) → get_or (drop n xs) j 0 ≡ get_or xs (n + j) 0
unfolding drop
get_or-drop zero xs j = let e : j ≡ 0 + j = omega arith in ap (λ t. get_or xs t 0) e
get_or-drop (suc n) [] j = refl
get_or-drop (suc n) (x ∷ xs) j =
    let e : suc (n + j) ≡ suc n + j = omega arith in
    get_or-drop n xs j ∙ ap (λ t. get_or (x ∷ xs) t 0) e

pub get_or-append_lt :
    (xs ys : Bytes) (j : ℕ) → j < length xs → get_or (xs ++ ys) j 0 ≡ get_or xs j 0
get_or-append_lt [] ys j h = absurd (omega arith)
get_or-append_lt (x ∷ xs) ys zero h = refl
get_or-append_lt (x ∷ xs) ys (suc j) h = get_or-append_lt xs ys j (omega arith)

pub get_or-append_ge : (xs ys : Bytes) (j : ℕ) → get_or (xs ++ ys) (length xs + j) 0 ≡ get_or ys j 0
get_or-append_ge [] ys j = let e : 0 + j ≡ j = omega arith in ap (λ t. get_or ys t 0) e
get_or-append_ge (x ∷ xs) ys j =
    let e : suc (length xs) + j ≡ suc (length xs + j) = omega arith in
    ap (λ t. get_or (x ∷ (xs ++ ys)) t 0) e ∙ get_or-append_ge xs ys j

pub get_or_outside : (xs : Bytes) (j : ℕ) → length xs ≤ j → get_or xs j 0 ≡ 0
get_or_outside [] j h = refl
get_or_outside (x ∷ xs) zero h = absurd (omega arith)
get_or_outside (x ∷ xs) (suc j) h = get_or_outside xs j (omega arith)

pub get_or-slice :
    (xs : Bytes) (a b j : ℕ) → a + j < b → get_or (slice xs a b) j 0 ≡ get_or xs (a + j) 0
unfolding slice
get_or-slice xs a b j h = get_or-take (b - a) (drop a xs) j (omega arith) ∙ get_or-drop a xs j

module _ (buf : Bytes) (at : ℕ) (xs : Bytes) (fits : at + length xs ≤ length buf) where
  front_length : length (take at buf) ≡ at
  front_length = omega (arith, length-take at buf)

  pub get_or-put_before : (j : ℕ) → j < at → get_or (put buf at xs) j 0 ≡ get_or buf j 0
  unfolding put set_slice
  get_or-put_before j h =
      get_or-append_lt (take at buf) _ j (omega (arith, front_length)) ∙ get_or-take at buf j h

  pub get_or-put_self : (j : ℕ) → j < length xs → get_or (put buf at xs) (at + j) 0 ≡ get_or xs j 0
  unfolding put set_slice
  get_or-put_self j h =
      ap (λ t. get_or (put buf at xs) (t + j) 0) (sym front_length)
      ∙ get_or-append_ge (take at buf) _ j
      ∙ get_or-append_lt xs _ j h

  pub get_or-put_behind : (j : ℕ) → at + length xs ≤ j → get_or (put buf at xs) j 0 ≡ get_or buf j 0
  unfolding put set_slice
  get_or-put_behind j h =
      let k = j - (at + length xs) in
      let e : length (take at buf) + (length xs + k) ≡ j = omega (arith, front_length) in
      let end : max at (at + length xs) + k ≡ j = omega arith in
      ap (λ t. get_or (put buf at xs) t 0) (sym e)
      ∙ get_or-append_ge (take at buf) _ (length xs + k)
      ∙ get_or-append_ge xs _ k
      ∙ get_or-drop (max at (at + length xs)) buf k
      ∙ ap (λ t. get_or buf t 0) end
