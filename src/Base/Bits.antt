-- ===== src/Base/Bits.antt =====
-- The bitwise operators at variables: one equation for the lowest digit, masks as remainders, `|`
-- of separate fields as a sum, and `^` as an operation that undoes itself.
use Prim.Native.Nat.{ℕ, zero, suc, ◌+◌, ◌-◌, ◌*◌, ◌/◌, ◌%◌, ◌^◌, ◌≤◌, ◌<◌, min, max}
use Prim.Native.Nat.{bit_and, bit_or, bit_xor, digits, differ}
use Prim.Native.Nat.{bit_and-bitwise, bit_or-bitwise, bit_xor-bitwise}
use mathlib.Core.Path.{◌≡◌, refl, ap}
use native.Mathlib.Nat.{pow-suc, one-le-pow, div-add-mod, mod-lt}
use native.Mathlib.Decide.{dec_lt}
use native.Mathlib.Omega.{arith}

module _ (z : ℕ → ℕ) (f : ℕ → ℕ → ℕ) where
  -- A count of digits above the number changes nothing.
  digits_enough : (m n a b : ℕ) → a ≤ m → a ≤ n → digits z f m a b ≡ digits z f n a b
  digits_enough (suc m) (suc n) (suc a) b p q =
      rw (digits_enough m n (suc a / 2) (b / 2) (omega arith) (omega arith))
  digits_enough (suc m) (suc n) zero b p q = refl
  digits_enough zero n (suc a) b p q = absurd (omega arith)
  digits_enough (suc m) zero (suc a) b p q = absurd (omega arith)
  digits_enough zero zero zero b p q = refl
  digits_enough zero (suc n) zero b p q = refl
  digits_enough (suc m) zero zero b p q = refl

  digits-suc :
      (a b : ℕ)
      → digits z f (suc a) (suc a) b
        ≡ digits z f (suc a / 2) (suc a / 2) (b / 2) * 2 + f (suc a % 2) (b % 2)
  digits-suc a b =
      omega (arith, digits_enough a (suc a / 2) (suc a / 2) (b / 2) (omega arith) (omega arith))

pub bit_and_digit : (a b : ℕ) → bit_and a b ≡ bit_and (a / 2) (b / 2) * 2 + min (a % 2) (b % 2)
bit_and_digit zero b = simp bit_and-bitwise (omega arith)
bit_and_digit (suc a) b = simp bit_and-bitwise (digits-suc (λ y. 0) min a b)

pub bit_or_digit : (a b : ℕ) → bit_or a b ≡ bit_or (a / 2) (b / 2) * 2 + max (a % 2) (b % 2)
bit_or_digit zero b = simp bit_or-bitwise (omega arith)
bit_or_digit (suc a) b = simp bit_or-bitwise (digits-suc (λ y. y) max a b)

differ_digits : (p q : ℕ) → p < 2 → q < 2 → differ p q ≡ (p + q) % 2
differ_digits zero q hp hq = omega arith
differ_digits (suc zero) zero hp hq = omega arith
differ_digits (suc zero) (suc zero) hp hq = omega arith
differ_digits (suc zero) (suc (suc q)) hp hq = absurd (omega arith)
differ_digits (suc (suc p)) q hp hq = absurd (omega arith)

differ_step : (a b : ℕ) → bit_xor a b ≡ bit_xor (a / 2) (b / 2) * 2 + differ (a % 2) (b % 2)
differ_step zero b = simp bit_xor-bitwise (omega arith)
differ_step (suc a) b = simp bit_xor-bitwise (digits-suc (λ y. y) differ a b)

pub bit_xor_digit : (a b : ℕ) → bit_xor a b ≡ bit_xor (a / 2) (b / 2) * 2 + (a + b) % 2
bit_xor_digit a b =
    omega (arith, differ_step a b, differ_digits (a % 2) (b % 2) (omega arith) (omega arith))

-- Facts at a width of `k` digits, by induction on the width.
bit_and_zero : (k a : ℕ) → a < 2 ^ k → bit_and a 0 ≡ 0
bit_and_zero zero a h = let e : a ≡ 0 = omega arith in rw e
bit_and_zero (suc k) a h =
    omega
      (arith, pow-suc 2 k, bit_and_digit a 0, bit_and_zero k (a / 2) (omega (arith, pow-suc 2 k)))

lt-pow_self : (a : ℕ) → a < 2 ^ a
lt-pow_self zero = omega arith
lt-pow_self (suc a) = omega (arith, pow-suc 2 a, lt-pow_self a)

double : (q k : ℕ) → q * 2 ^ suc k ≡ q * 2 ^ k + q * 2 ^ k
double q k = omega (arith, ap (λ (t : ℕ). q * t) (pow-suc 2 k))

and_low : (k q r : ℕ) → r < 2 ^ k → bit_and (q * 2 ^ k + r) (2 ^ k - 1) ≡ r
and_low zero q r h = omega (arith, bit_and_zero (q * 1 + r) (q * 1 + r) (lt-pow_self _))
and_low (suc k) q r h =
    let small : r / 2 < 2 ^ k = omega (arith, pow-suc 2 k) in
    let half : (q * 2 ^ suc k + r) / 2 ≡ q * 2 ^ k + r / 2 = omega (arith, double q k) in
    let ones : (2 ^ suc k - 1) / 2 ≡ 2 ^ k - 1 = omega (arith, pow-suc 2 k, one-le-pow k 2) in
    ground (
      arith,
      double q k,
      pow-suc 2 k,
      one-le-pow k 2,
      bit_and_digit (q * 2 ^ suc k + r) (2 ^ suc k - 1),
      and_low k q (r / 2) small,
    )

-- `a & ((1 << k) - 1)` is the remainder by `2 ^ k`.
pub bit_and_mask : (k a : ℕ) → bit_and a (2 ^ k - 1) ≡ a % 2 ^ k
bit_and_mask k a =
    let below : a % 2 ^ k < 2 ^ k = mod-lt a (one-le-pow k 2 (omega arith)) in
    ground (arith, and_low k (a / 2 ^ k) (a % 2 ^ k) below, div-add-mod a (2 ^ k))

or_zero : (k a : ℕ) → a < 2 ^ k → bit_or a 0 ≡ a
or_zero zero a h = let e : a ≡ 0 = omega arith in rw e
or_zero (suc k) a h =
    omega (arith, bit_or_digit a 0, or_zero k (a / 2) (omega (arith, pow-suc 2 k)))

-- `(q << k) | r` is a sum when `r` has at most `k` digits.
pub bit_or_shifted : (k q r : ℕ) → r < 2 ^ k → bit_or (q * 2 ^ k) r ≡ q * 2 ^ k + r
bit_or_shifted zero q r h =
    let e : r ≡ 0 = omega arith in rw e (omega (arith, or_zero (q * 1) (q * 1) (lt-pow_self _)))
bit_or_shifted (suc k) q r h =
    let half : q * 2 ^ suc k / 2 ≡ q * 2 ^ k = omega (arith, double q k) in
    ground (
      arith,
      double q k,
      bit_or_digit (q * 2 ^ suc k) r,
      bit_or_shifted k q (r / 2) (omega (arith, pow-suc 2 k)),
    )

-- The exclusive or keeps a width, and is undone by doing it again.
pub bit_xor-lt : (k a b : ℕ) → a < 2 ^ k → b < 2 ^ k → bit_xor a b < 2 ^ k
bit_xor-lt zero a b p q =
    let e : a ≡ 0 = omega arith in let f : b ≡ 0 = omega arith in rw (e, f) (omega arith)
bit_xor-lt (suc k) a b p q =
    let half =
      bit_xor-lt k (a / 2) (b / 2) (omega (arith, pow-suc 2 k)) (omega (arith, pow-suc 2 k)) in
    omega (arith, pow-suc 2 k, bit_xor_digit a b, half)

pub bit_xor_undo : (k a b : ℕ) → a < 2 ^ k → b < 2 ^ k → bit_xor (bit_xor a b) b ≡ a
bit_xor_undo zero a b p q =
    let e : a ≡ 0 = omega arith in let f : b ≡ 0 = omega arith in rw (e, f) refl
bit_xor_undo (suc k) a b p q =
    let half : bit_xor a b / 2 ≡ bit_xor (a / 2) (b / 2) = omega (arith, bit_xor_digit a b) in
    ground (
      arith,
      bit_xor_digit a b,
      bit_xor_digit (bit_xor a b) b,
      bit_xor_undo k (a / 2) (b / 2) (omega (arith, pow-suc 2 k)) (omega (arith, pow-suc 2 k)),
    )

pub bit_xor_comm : (k a b : ℕ) → a < 2 ^ k → b < 2 ^ k → bit_xor a b ≡ bit_xor b a
bit_xor_comm zero a b p q =
    let e : a ≡ 0 = omega arith in let f : b ≡ 0 = omega arith in rw (e, f) refl
bit_xor_comm (suc k) a b p q = omega (
  arith,
  bit_xor_digit a b,
  bit_xor_digit b a,
  bit_xor_comm k (a / 2) (b / 2) (omega (arith, pow-suc 2 k)) (omega (arith, pow-suc 2 k)),
)

-- `r | (q << k)`, the other way round.
pub bit_or_low : (k q r : ℕ) → r < 2 ^ k → bit_or r (q * 2 ^ k) ≡ q * 2 ^ k + r
bit_or_low zero q r h = let e : r ≡ 0 = omega arith in rw e (simp bit_or-bitwise (omega arith))
bit_or_low (suc k) q r h =
    let half : q * 2 ^ suc k / 2 ≡ q * 2 ^ k = omega (arith, double q k) in
    ground (
      arith,
      double q k,
      bit_or_digit r (q * 2 ^ suc k),
      bit_or_low k q (r / 2) (omega (arith, pow-suc 2 k)),
    )

-- `a & 0xF0`
pub bit_and_high_nibble : (a : ℕ) → bit_and a 0xF0 ≡ a / 16 % 16 * 16
bit_and_high_nibble a = omega (
  arith,
  bit_and_digit a 0xF0,
  bit_and_digit (a / 2) 0x78,
  bit_and_digit (a / 2 / 2) 0x3C,
  bit_and_digit (a / 2 / 2 / 2) 0x1E,
  bit_and_mask 4 (a / 2 / 2 / 2 / 2),
)

-- A mask that is not zero changes every number.
pub bit_xor_ne : (k a b : ℕ) → a < 2 ^ k → 0 < b → b < 2 ^ k → bit_xor a b ≡ a → ⊥
bit_xor_ne zero a b p pos q e = absurd (omega arith)
bit_xor_ne (suc k) a b p pos q e = elim (dec_lt 0 (b / 2)) [
  | yes more ↦
      bit_xor_ne k (a / 2) (b / 2) (omega (arith, pow-suc 2 k)) more (omega (arith, pow-suc 2 k))
        (omega (arith, bit_xor_digit a b))
  | no one ↦ absurd (omega (arith, bit_xor_digit a b))
]
