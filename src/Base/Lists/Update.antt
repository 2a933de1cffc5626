-- ===== src/Base/Lists/Update.antt =====
-- One place of a buffer overwritten, and every place read afterwards.
use zig_os.Base.Lists.Slices.{length, get_or, take, drop}
use zig_os.Base.Lists.Overwrite.{set_slice}
use zig_os.Base.Tests.{◌==◌, ==_iff, if◌then◌else◌, Bool-cases}
use Prim.Native.Nat.{ℕ, zero, suc, ◌+◌, ◌<◌, max}
use mathlib.Core.Path.{◌≡◌, refl, ap, sym, ◌∙◌}
use mathlib.Core.Logic.{◌≢◌, inl, inr}
use mathlib.Core.Bool.{Bool, true, false}
use mathlib.Core.List.{List, [], ◌∷◌, ◌++◌}
use native.Mathlib.Omega.{arith}

module _ {ℓ} {A : Type ℓ} where
  abbrev pub set : List A → ℕ → A → List A
  set [] i v = []
  set (x ∷ xs) zero v = v ∷ xs
  set (x ∷ xs) (suc i) v = x ∷ set xs i v

module _ {ℓ} {A : Type ℓ} where
  pub length-set : (xs : List A) (i : ℕ) (v : A) → length (set xs i v) ≡ length xs
  length-set [] i v = refl
  length-set (x ∷ xs) zero v = refl
  length-set (x ∷ xs) (suc i) v = ap suc (length-set xs i v)

  pub get_or-set_self :
      (xs : List A) (i : ℕ) (v d : A) → i < length xs → get_or (set xs i v) i d ≡ v
  get_or-set_self [] i v d h = absurd (omega arith)
  get_or-set_self (x ∷ xs) zero v d h = refl
  get_or-set_self (x ∷ xs) (suc i) v d h = get_or-set_self xs i v d (omega arith)

  pub get_or-set_ne :
      (xs : List A) (i j : ℕ) (v d : A) → i ≢ j → get_or (set xs i v) j d ≡ get_or xs j d
  get_or-set_ne [] i j v d ne = refl
  get_or-set_ne (x ∷ xs) zero zero v d ne = absurd (ne refl)
  get_or-set_ne (x ∷ xs) zero (suc j) v d ne = refl
  get_or-set_ne (x ∷ xs) (suc i) zero v d ne = refl
  get_or-set_ne (x ∷ xs) (suc i) (suc j) v d ne = get_or-set_ne xs i j v d (λ e. ne (ap suc e))

  pub get_or-set :
      (xs : List A) (i j : ℕ) (v d : A)
      → i < length xs
      → get_or (set xs i v) j d ≡ (if i == j then v else get_or xs j d)
  get_or-set xs i j v d h = elim (Bool-cases (i == j)) [
    | inl e ↦
        let same : i ≡ j = (==_iff i j).0 e in
        rw e (ap (λ t. get_or (set xs i v) t d) (sym same) ∙ get_or-set_self xs i v d h)
    | inr e ↦ rw e (get_or-set_ne xs i j v d (λ p. differ e ((==_iff i j).1 p)))
  ]
    where
      differ : {b : Bool} → b ≡ false → b ≡ true → ⊥
      differ p q = cc

  around :
      (xs : List A) (i : ℕ) (v : A)
      → i < length xs
      → take i xs ++ (v ∷ drop (suc i) xs) ≡ set xs i v
  unfolding take drop
  around [] i v h = absurd (omega arith)
  around (x ∷ xs) zero v h = refl
  around (x ∷ xs) (suc i) v h = ap (λ t. x ∷ t) (around xs i v (omega arith))

  -- `buf[i:i+1] = [v]` within the buffer is `buf[i] = v`.
  pub set_slice_one :
      (xs : List A) (i : ℕ) (v : A) → i < length xs → set_slice xs i (i + 1) (v ∷ []) ≡ set xs i v
  unfolding set_slice
  set_slice_one xs i v h =
      let e : max i (i + 1) ≡ suc i = omega arith in
      ap (λ t. take i xs ++ (v ∷ drop t xs)) e ∙ around xs i v h
