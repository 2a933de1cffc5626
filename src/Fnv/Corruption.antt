-- ===== src/Fnv/Corruption.antt =====
-- The hashes notice every single corrupted byte: each round is a bijection of the state, because
-- the prime is odd and `^` undoes itself.
use zig_os.Base.{ℕ, ◌*◌, ◌%◌, ◌^◌, ◌<◌, ◌≡◌, ◌≢◌, arith, bit_xor, [], ◌∷◌, ◌++◌}
use zig_os.Base.{ap, sym, ◌∙◌}
use zig_os.Base.Bits.{bit_and_mask, bit_xor-lt, bit_xor_undo, bit_xor_comm}
use zig_os.Bytes.{Bytes}
use zig_os.Bytes.Words.{IsBytes}
use zig_os.Fnv.{hash_loop, round32, fnv1a32, round64, fnv1a64}

-- `^` determines each of its arguments from the other.
module _ (k a b c : ℕ) (ha : a < 2 ^ k) (hb : b < 2 ^ k) (hc : c < 2 ^ k) where
  xor_right : bit_xor a c ≡ bit_xor b c → a ≡ b
  xor_right e = sym (bit_xor_undo k a c ha hc) ∙ ap (λ t. bit_xor t c) e ∙ bit_xor_undo k b c hb hc

  xor_left : bit_xor c a ≡ bit_xor c b → a ≡ b
  xor_left e = xor_right (bit_xor_comm k a c ha hc ∙ e ∙ bit_xor_comm k c b hc hb)

unmul32 :
    (x y : ℕ) → x < 2 ^ 32 → y < 2 ^ 32 → x * 0x01000193 % 2 ^ 32 ≡ y * 0x01000193 % 2 ^ 32 → x ≡ y
unmul32 x y p q e = omega (arith, ap (λ (t : ℕ). t * 0x359c449b % 2 ^ 32) e)

unmul64 :
    (x y : ℕ)
    → x < 2 ^ 64
    → y < 2 ^ 64
    → x * 0x100000001B3 % 2 ^ 64 ≡ y * 0x100000001B3 % 2 ^ 64
    → x ≡ y
unmul64 x y p q e = omega (arith, ap (λ (t : ℕ). t * 0xce965057aff6957b % 2 ^ 64) e)

-- What the loop needs of a round on states of `k` bits.
record IsRound (k : ℕ) (round : ℕ → ℕ → ℕ) : Type 0 where
  width : (v b : ℕ) → v < 2 ^ k → b < 256 → round v b < 2 ^ k
  state : (v w b : ℕ) → v < 2 ^ k → w < 2 ^ k → b < 256 → round v b ≡ round w b → v ≡ w
  input : (v b c : ℕ) → v < 2 ^ k → b < 256 → c < 256 → round v b ≡ round v c → b ≡ c

round32-IsRound : IsRound 32 round32
unfolding round32
round32-IsRound = record {
  width = λ v b hv hb. rw (bit_and_mask 32 (bit_xor v b * 0x01000193)) (omega arith);
  state = λ v w b hv hw hb e. xor_right 32 v w b hv hw (omega arith) (
      unmul32 (bit_xor v b) (bit_xor w b) (bit_xor-lt 32 v b hv (omega arith))
        (bit_xor-lt 32 w b hw (omega arith))
        (sym (bit_and_mask 32 (bit_xor v b * 0x01000193))
          ∙ e
          ∙ bit_and_mask 32 (bit_xor w b * 0x01000193)));
  input = λ v b c hv hb hc e. xor_left 32 b c v (omega arith) (omega arith) hv (
      unmul32 (bit_xor v b) (bit_xor v c) (bit_xor-lt 32 v b hv (omega arith))
        (bit_xor-lt 32 v c hv (omega arith))
        (sym (bit_and_mask 32 (bit_xor v b * 0x01000193))
          ∙ e
          ∙ bit_and_mask 32 (bit_xor v c * 0x01000193)));
}

round64-IsRound : IsRound 64 round64
unfolding round64
round64-IsRound = record {
  width = λ v b hv hb. rw (bit_and_mask 64 (bit_xor v b * 0x100000001B3)) (omega arith);
  state = λ v w b hv hw hb e. xor_right 64 v w b hv hw (omega arith) (
      unmul64 (bit_xor v b) (bit_xor w b) (bit_xor-lt 64 v b hv (omega arith))
        (bit_xor-lt 64 w b hw (omega arith))
        (sym (bit_and_mask 64 (bit_xor v b * 0x100000001B3))
          ∙ e
          ∙ bit_and_mask 64 (bit_xor w b * 0x100000001B3)));
  input = λ v b c hv hb hc e. xor_left 64 b c v (omega arith) (omega arith) hv (
      unmul64 (bit_xor v b) (bit_xor v c) (bit_xor-lt 64 v b hv (omega arith))
        (bit_xor-lt 64 v c hv (omega arith))
        (sym (bit_and_mask 64 (bit_xor v b * 0x100000001B3))
          ∙ e
          ∙ bit_and_mask 64 (bit_xor v c * 0x100000001B3)));
}

module _ {k : ℕ} {round : ℕ → ℕ → ℕ} (r : IsRound k round) where
  loop-lt : (v : ℕ) (bs : Bytes) → v < 2 ^ k → IsBytes bs → hash_loop round v bs < 2 ^ k
  unfolding hash_loop
  loop-lt v [] h bytes = h
  loop-lt v (b ∷ bs) h (hb, hbs) = loop-lt (round v b) bs (r.width v b h hb) hbs

  loop_state :
      (v w : ℕ) (bs : Bytes)
      → v < 2 ^ k
      → w < 2 ^ k
      → IsBytes bs
      → hash_loop round v bs ≡ hash_loop round w bs
      → v ≡ w
  unfolding hash_loop
  loop_state v w [] hv hw bytes e = e
  loop_state v w (b ∷ bs) hv hw (hb, hbs) e =
      r.state v w b hv hw hb
        (loop_state (round v b) (round w b) bs (r.width v b hv hb) (r.width w b hw hb) hbs e)

  loop_input :
      (v : ℕ) (front back : Bytes) (b c : ℕ)
      → v < 2 ^ k
      → IsBytes (front ++ b ∷ back)
      → c < 256
      → hash_loop round v (front ++ b ∷ back) ≡ hash_loop round v (front ++ c ∷ back)
      → b ≡ c
  unfolding hash_loop
  loop_input v [] back b c hv (hb, hbs) hc e =
      r.input v b c hv hb hc
        (loop_state (round v b) (round v c) back (r.width v b hv hb) (r.width v c hv hc) hbs e)
  loop_input v (x ∷ front) back b c hv (hx, hxs) hc e =
      loop_input (round v x) front back b c (r.width v x hv hx) hxs hc e

-- Both hashes fit their width, so a stored 4-byte or 8-byte field holds them whole.
pub fnv1a-lt : (bs : Bytes) → IsBytes bs → (fnv1a32 bs < 2 ^ 32) × (fnv1a64 bs < 2 ^ 64)
unfolding fnv1a32 fnv1a64
fnv1a-lt bs h = (
  loop-lt round32-IsRound 0x811C9DC5 bs (omega arith) h,
  loop-lt round64-IsRound 0xCBF29CE484222325 bs (omega arith) h,
)

-- Replacing one byte of a byte string by another changes its 32-bit and its 64-bit FNV-1a hash,
-- wherever the byte stands.
pub fnv1a-ne_of_changed :
    (front back : Bytes) (b c : ℕ)
    → IsBytes (front ++ b ∷ back)
    → c < 256
    → b ≢ c
    → (fnv1a32 (front ++ b ∷ back) ≢ fnv1a32 (front ++ c ∷ back))
      × (fnv1a64 (front ++ b ∷ back) ≢ fnv1a64 (front ++ c ∷ back))
unfolding fnv1a32 fnv1a64
fnv1a-ne_of_changed front back b c bytes hc ne = (
  λ e. ne (loop_input round32-IsRound 0x811C9DC5 front back b c (omega arith) bytes hc e),
  λ e. ne (loop_input round64-IsRound 0xCBF29CE484222325 front back b c (omega arith) bytes hc e),
)
