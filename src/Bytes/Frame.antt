-- ===== src/Bytes/Frame.antt =====
-- Which part of a buffer a sequence of writes leaves alone.
use zig_os.Base.{ℕ, ◌+◌, ◌-◌, ◌≤◌, ◌≡◌, ◌⊎◌, inl, inr, refl, ◌∙◌, arith, length, slice, take_all}
use zig_os.Base.{take, drop, length-drop, [], sym}
use zig_os.Bytes.{Bytes, put}
use zig_os.Bytes.Region.{length-put, slice-put_other}

-- `after` has the size of `before`, and the same bytes outside `lo` up to `hi`.
pub record Wrote (before : Bytes) (lo hi : ℕ) (after : Bytes) : Type 0 where
  pub size : length after ≡ length before
  pub others : (a b : ℕ) → a ≤ b → (b ≤ lo) ⊎ (hi ≤ a) → slice after a b ≡ slice before a b

pub Wrote-refl : (buf : Bytes) (lo hi : ℕ) → Wrote buf lo hi buf
Wrote-refl buf lo hi = record { size = refl; others = λ a b o out. refl }

pub Wrote-put :
    (buf : Bytes) (at : ℕ) (xs : Bytes) (lo hi : ℕ)
    → at + length xs ≤ length buf
    → lo ≤ at
    → at + length xs ≤ hi
    → Wrote buf lo hi (put buf at xs)
Wrote-put buf at xs lo hi fits below above = record {
  size = length-put buf at xs fits;
  others = λ a b o out. slice-put_other buf at xs fits a b o (apart a b out);
}
  where
    apart : (a b : ℕ) → (b ≤ lo) ⊎ (hi ≤ a) → (b ≤ at) ⊎ (at + length xs ≤ a)
    apart a b (inl h) = inl (omega arith)
    apart a b (inr h) = inr (omega arith)

-- Writes one after the other, each within its own range, stay within a range that holds both.
pub Wrote-trans :
    {a b c : Bytes} {lo hi lo' hi' : ℕ} (from to : ℕ)
    → Wrote a lo hi b
    → Wrote b lo' hi' c
    → from ≤ lo
    → hi ≤ to
    → from ≤ lo'
    → hi' ≤ to
    → Wrote a from to c
Wrote-trans {lo = lo} {hi = hi} {lo' = lo'} {hi' = hi'} from to w v p q p' q' = record {
  size = v.size ∙ w.size;
  others = λ x y o out.
      v.others x y o (shrink lo' hi' p' q' x y out) ∙ w.others x y o (shrink lo hi p q x y out);
}
  where
    shrink : (l h : ℕ) → from ≤ l → h ≤ to → (x y : ℕ) → (y ≤ from) ⊎ (to ≤ x) → (y ≤ l) ⊎ (h ≤ x)
    shrink l h p q x y (inl e) = inl (omega arith)
    shrink l h p q x y (inr e) = inr (omega arith)

-- A slice that runs past the end stops there.
pub slice_past_end : (xs : Bytes) (a b : ℕ) → length xs ≤ b → slice xs a b ≡ slice xs a (length xs)
unfolding slice
slice_past_end xs a b h =
    take_all (b - a) (drop a xs) (omega (arith, length-drop a xs))
    ∙ sym (take_all (length xs - a) (drop a xs) (omega (arith, length-drop a xs)))

pub slice_whole : (xs : Bytes) → slice xs 0 (length xs) ≡ xs
unfolding slice drop
slice_whole xs = take_all (length xs - 0) xs (omega arith)

pub slice_empty : (xs : Bytes) (a b : ℕ) → b ≤ a → slice xs a b ≡ []
unfolding slice take
slice_empty xs a b h = let e : b - a ≡ 0 = omega arith in rw e refl
