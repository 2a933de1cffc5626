-- ===== src/Base/Lists/Overwrite.antt =====
-- Overwriting a slice of a `bytearray`, `buf[a:b] = xs`, and what later reads see of it.
use zig_os.Base.Lists.Slices.{length, take, drop, slice, length-append, length-take, length-drop}
use zig_os.Base.Lists.Slices.{take_all, take-append_le, drop-append_le, drop-append_ge}
use zig_os.Base.Lists.Slices.{drop-take, take-take, drop-drop, take_split}
use Prim.Native.Nat.{ℕ, ◌+◌, ◌-◌, ◌≤◌, max}
use mathlib.Core.Path.{◌≡◌, ap, sym, ◌∙◌}
use mathlib.Core.List.{List, ◌++◌}
use native.Mathlib.Omega.{arith}

module _ {ℓ} {A : Type ℓ} where
  -- Python cuts both ends at the end of `buf`, so a write past the end lengthens it.
  unfoldable pub set_slice : List A → ℕ → ℕ → List A → List A
  unfolding take drop
  set_slice buf a b xs = take a buf ++ (xs ++ drop (max a b) buf)

  pub length-slice : (xs : List A) (a b : ℕ) → b ≤ length xs → length (slice xs a b) ≡ b - a
  unfolding slice
  length-slice xs a b h = omega (arith, length-take (b - a) (drop a xs), length-drop a xs)

  pub slice-append :
      (xs : List A) (a b c : ℕ) → a ≤ b → b ≤ c → slice xs a b ++ slice xs b c ≡ slice xs a c
  unfolding slice
  slice-append xs a b c p q =
      let e : b ≡ a + (b - a) = omega arith in
      let f : c - a ≡ (b - a) + (c - b) = omega arith in
      ap (λ t. take (b - a) (drop a xs) ++ take (c - b) t)
        (ap (λ t. drop t xs) e ∙ sym (drop-drop (b - a) a xs))
      ∙ take_split (b - a) (c - b) (drop a xs)
      ∙ ap (λ t. take t (drop a xs)) (sym f)

  pub take-slice : (xs : List A) (a b c : ℕ) → b ≤ c → take (b - a) (slice xs a c) ≡ slice xs a b
  unfolding slice
  take-slice xs a b c h = take-take (b - a) (c - a) (drop a xs) (omega arith)

  -- A slice of a slice.
  pub slice-slice :
      (xs : List A) (a b c d : ℕ)
      → c ≤ d
      → a + d ≤ b
      → slice (slice xs a b) c d ≡ slice xs (a + c) (a + d)
  unfolding slice
  slice-slice xs a b c d o h =
      let e : b - a ≡ c + (b - a - c) = omega arith in
      ap (λ t. take (d - c) (drop c (take t (drop a xs)))) e
      ∙ ap (take (d - c)) (drop-take c (b - a - c) (drop a xs))
      ∙ take-take (d - c) (b - a - c) (drop c (drop a xs)) (omega arith)
      ∙ ap (take (d - c)) (drop-drop c a xs)
      ∙ ap (λ t. take t (drop (a + c) xs)) (omega arith)

module _ {ℓ} {A : Type ℓ} (buf : List A) (a : ℕ) (xs : List A)
    (fits : a + length xs ≤ length buf) where
  pub length-set_slice : length (set_slice buf a (a + length xs) xs) ≡ length buf
  unfolding set_slice
  length-set_slice = omega (
    arith,
    length-append (take a buf) (xs ++ drop (max a (a + length xs)) buf),
    length-append xs (drop (max a (a + length xs)) buf),
    length-take a buf,
    length-drop (max a (a + length xs)) buf,
  )

  length-front : length (take a buf) ≡ a
  length-front = omega (arith, length-take a buf)

  pub slice-set_slice_self : slice (set_slice buf a (a + length xs) xs) a (a + length xs) ≡ xs
  unfolding set_slice slice
  slice-set_slice_self =
      let e : a + length xs - a ≡ length xs = omega arith in
      rw
        (drop-append_ge a 0 (take a buf) (xs ++ drop (max a (a + length xs)) buf)
          (omega (arith, length-front)))
        (rw e (
          unfold drop in
          take-append_le (length xs) xs _ (omega arith) ∙ take_all (length xs) xs (omega arith)))

  pub slice-set_slice_before :
      (c d : ℕ) → c ≤ d → d ≤ a → slice (set_slice buf a (a + length xs) xs) c d ≡ slice buf c d
  unfolding set_slice slice
  slice-set_slice_before c d o h =
      let rest = xs ++ drop (max a (a + length xs)) buf in
      let e : a ≡ c + (a - c) = omega arith in
      ap (take (d - c)) (drop-append_le c (take a buf) rest (omega (arith, length-front)))
      ∙ take-append_le (d - c) (drop c (take a buf)) rest
          (omega (arith, length-front, length-drop c (take a buf)))
      ∙ ap (λ t. take (d - c) (drop c (take t buf))) e
      ∙ ap (take (d - c)) (drop-take c (a - c) buf)
      ∙ take-take (d - c) (a - c) (drop c buf) (omega arith)

  pub slice-set_slice_after :
      (c d : ℕ) → a + length xs ≤ c → slice (set_slice buf a (a + length xs) xs) c d ≡ slice buf c d
  unfolding set_slice slice
  slice-set_slice_after c d h =
      let m = max a (a + length xs) in
      ap (take (d - c)) (
        drop-append_ge c (c - a) (take a buf) (xs ++ drop m buf) (omega (arith, length-front))
        ∙ drop-append_ge (c - a) (c - m) xs (drop m buf) (omega arith)
        ∙ drop-drop (c - m) m buf
        ∙ ap (λ t. drop t buf) (omega arith))
