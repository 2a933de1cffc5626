-- ===== src/Bytes/Changed.antt =====
-- Two buffers that differ in one byte, and what parts and writes make of the difference.
use zig_os.Base.{
  ℕ, zero, suc, ◌+◌, ◌-◌, ◌≤◌, ◌<◌, ◌≡◌, ◌≢◌, ◌⊎◌, inl, inr, refl, arith, ap, ap₂, sym, ◌∙◌, [],
  ◌∷◌, ◌++◌,
}
use zig_os.Base.{length, get_or, slice, length-slice}
use native.Mathlib.Decide.{dec_lt, ℕ_discrete}
use zig_os.Bytes.{Bytes, put}
use zig_os.Bytes.Words.{IsBytes}
use zig_os.Bytes.Region.{length-put}
use zig_os.Bytes.Pointwise.{
  bytes_ext, get_or_outside, get_or-slice, get_or-put_before, get_or-put_self, get_or-put_behind,
}

-- Two buffers of one size that differ at exactly one place.
pub record Changed (before after : Bytes) (i : ℕ) : Type 0 where
  pub size : length after ≡ length before
  pub inside : i < length before
  pub changed : get_or before i 0 ≢ get_or after i 0
  pub same : (j : ℕ) → j ≢ i → get_or after j 0 ≡ get_or before j 0

pub around_change :
    (before after : Bytes) (i : ℕ)
    → Changed before after i
    → (front : Bytes) × (back : Bytes) × (before ≡ front ++ get_or before i 0 ∷ back)
      × (after ≡ front ++ get_or after i 0 ∷ back)
around_change [] after i c = absurd (omega (arith, c.inside))
around_change (b ∷ before) [] i c = absurd (omega (arith, c.size))
around_change (b ∷ before) (a ∷ after) zero c = (
  [],
  before,
  refl,
  ap (λ t. a ∷ t)
      (bytes_ext after before (omega (arith, c.size))
        (λ j h. c.same (suc j) (λ e. absurd (omega arith)))),
)
around_change (b ∷ before) (a ∷ after) (suc i) c =
    let (front, back, p, q) = around_change before after i (record {
      size = omega (arith, c.size);
      inside = omega (arith, c.inside);
      changed = c.changed;
      same = λ j ne. c.same (suc j) (λ e. ne (omega arith));
    }) in
    (
      b ∷ front,
      back,
      ap (λ t. b ∷ t) p,
      ap₂ (λ s t. s ∷ t) (c.same 0 (λ e. absurd (omega arith))) q,
    )

pub byte_lt : (bytes : Bytes) (i : ℕ) → IsBytes bytes → get_or bytes i 0 < 256
byte_lt [] i h = omega arith
byte_lt (b ∷ bytes) zero h = h.0
byte_lt (b ∷ bytes) (suc i) h = byte_lt bytes i h.1

module _ (before after : Bytes) (i : ℕ) (c : Changed before after i) where
  pub slice_unchanged :
      (a b : ℕ) → b ≤ length before → (i < a) ⊎ (b ≤ i) → slice after a b ≡ slice before a b
  slice_unchanged a b h out =
      let n = length-slice before a b h in
      let m = length-slice after a b (omega (arith, c.size)) in
      bytes_ext (slice after a b) (slice before a b) (m ∙ sym n) (λ j hj.
        get_or-slice after a b j (omega arith)
        ∙ c.same (a + j) (away a b j (omega arith) out)
        ∙ sym (get_or-slice before a b j (omega arith)))
    where
      away : (a b j : ℕ) → a + j < b → (i < a) ⊎ (b ≤ i) → a + j ≢ i
      away a b j h (inl p) e = absurd (omega arith)
      away a b j h (inr p) e = absurd (omega arith)

  pub slice-Changed :
      (a b : ℕ)
      → b ≤ length before
      → a ≤ i
      → i < b
      → Changed (slice before a b) (slice after a b) (i - a)
  slice-Changed a b h lo hi =
      let n = length-slice before a b h in
      let m = length-slice after a b (omega (arith, c.size)) in
      let at : a + (i - a) ≡ i = omega arith in
      record {
        size = m ∙ sym n;
        inside = omega (arith, n);
        changed = λ e. c.changed (
            ap (λ t. get_or before t 0) (sym at)
            ∙ sym (get_or-slice before a b (i - a) (omega arith))
            ∙ e
            ∙ get_or-slice after a b (i - a) (omega arith)
            ∙ ap (λ t. get_or after t 0) at);
        same = λ j ne. same_slice a b h j (λ e. ne (omega arith));
      }
    where
      same_slice :
          (a b : ℕ)
          → b ≤ length before
          → (j : ℕ) → a + j ≢ i
          → get_or (slice after a b) j 0 ≡ get_or (slice before a b) j 0
      same_slice a b h j ne = elim (dec_lt (a + j) b) [
        | yes p ↦ get_or-slice after a b j p ∙ c.same (a + j) ne ∙ sym (get_or-slice before a b j p)
        | no p ↦
            get_or_outside (slice after a b) j
              (omega (arith, length-slice after a b (omega (arith, c.size))))
            ∙ sym (get_or_outside (slice before a b) j (omega (arith, length-slice before a b h)))
      ]

module _ (before after : Bytes) (i at : ℕ) (xs : Bytes) (c : Changed before after i)
    (fits : at + length xs ≤ length before) where
  fits_after : at + length xs ≤ length after
  fits_after = omega (arith, c.size)

  -- A write that both buffers get agrees at a place where they agree, and at every place of its own.
  put_same :
      (j : ℕ)
      → (j ≢ i) ⊎ ((at ≤ j) × (j < at + length xs))
      → get_or (put after at xs) j 0 ≡ get_or (put before at xs) j 0
  put_same j out = elim (dec_lt j at) [
    | yes p ↦
        get_or-put_before after at xs fits_after j p
        ∙ c.same j (left p out)
        ∙ sym (get_or-put_before before at xs fits j p)
    | no p ↦ elim (dec_lt j (at + length xs)) [
      | yes q ↦
          let k : at + (j - at) ≡ j = omega arith in
          ap (λ t. get_or (put after at xs) t 0) (sym k)
          ∙ get_or-put_self after at xs fits_after (j - at) (omega arith)
          ∙ sym (get_or-put_self before at xs fits (j - at) (omega arith))
          ∙ ap (λ t. get_or (put before at xs) t 0) k
      | no q ↦
          get_or-put_behind after at xs fits_after j (omega arith)
          ∙ c.same j (right (omega arith) out)
          ∙ sym (get_or-put_behind before at xs fits j (omega arith))
    ]
  ]
    where
      left : {j : ℕ} → j < at → (j ≢ i) ⊎ ((at ≤ j) × (j < at + length xs)) → j ≢ i
      left p (inl ne) = ne
      left p (inr in_range) = absurd (omega (arith, in_range))

      right : {j : ℕ} → at + length xs ≤ j → (j ≢ i) ⊎ ((at ≤ j) × (j < at + length xs)) → j ≢ i
      right p (inl ne) = ne
      right p (inr in_range) = absurd (omega (arith, in_range))

  -- A write over the changed place hides the change.
  pub put_hides : at ≤ i → i < at + length xs → put after at xs ≡ put before at xs
  put_hides lo hi =
      bytes_ext (put after at xs) (put before at xs)
        (length-put after at xs fits_after ∙ c.size ∙ sym (length-put before at xs fits))
        (λ j hj. elim (ℕ_discrete j i) [
          | yes e ↦ put_same j (inr (omega arith, omega arith))
          | no ne ↦ put_same j (inl ne)
        ])

  put_outside :
      (i < at) ⊎ (at + length xs ≤ i)
      → (get_or (put before at xs) i 0 ≡ get_or before i 0)
        × (get_or (put after at xs) i 0 ≡ get_or after i 0)
  put_outside (inl p) =
      (get_or-put_before before at xs fits i p, get_or-put_before after at xs fits_after i p)
  put_outside (inr p) =
      (get_or-put_behind before at xs fits i p, get_or-put_behind after at xs fits_after i p)

  pub put-Changed : (i < at) ⊎ (at + length xs ≤ i) → Changed (put before at xs) (put after at xs) i
  put-Changed out =
      let (p, q) = put_outside out in
      record {
        size = length-put after at xs fits_after ∙ c.size ∙ sym (length-put before at xs fits);
        inside = omega (arith, c.inside, length-put before at xs fits);
        changed = λ e. c.changed (sym p ∙ e ∙ q);
        same = λ j ne. put_same j (inl ne);
      }
