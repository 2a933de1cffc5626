-- ===== src/ServiceElf/Page.antt =====
-- The data page of the service image is sealed by its two hashes.
use zig_os.Base.{
  ℕ, ◌+◌, ◌*◌, ◌^◌, ◌<◌, ◌≤◌, ◌≡◌, refl, arith, ap, sym, ◌∙◌, inl, [], ◌∷◌, length, slice, ok,
  bit_xor, lt→ltb,
}
use zig_os.Base.Bits.{bit_and_mask}
use zig_os.Bytes.{Bytes, zeros, put, pack, le_bytes, unpack_from}
use zig_os.Bytes.Words.{length-zeros, length-le_bytes}
use zig_os.Bytes.Region.{
  length-put, slice-put_at, slice-put_other, set_slice-put, unpack_from-le_bytes,
}
use zig_os.Fnv.{fnv1a64, hash_loop, round64}
use zig_os.ServiceElf.{message, pipe_payload, service_page}

loop64-lt : (value : ℕ) (bytes : Bytes) → value < 2 ^ 64 → hash_loop round64 value bytes < 2 ^ 64
unfolding hash_loop round64
loop64-lt value [] h = h
loop64-lt value (b ∷ bytes) h =
    loop64-lt (round64 value b) bytes
      (omega (arith, bit_and_mask 64 (bit_xor value b * 0x100000001B3)))

pub hash64-lt : (bytes : Bytes) → fnv1a64 bytes < 2 ^ 64
unfolding fnv1a64
hash64-lt bytes = loop64-lt 0xCBF29CE484222325 bytes (omega arith)

pub pack-le_bytes :
    (width value : ℕ) → value < 256 ^ width → pack width value ≡ ok (le_bytes width value)
unfolding pack
pack-le_bytes width value h = rw (lt→ltb _ _ h) refl

-- Whatever the code is, `service_page` returns a page of 0x800 bytes with the message at 0x400, the
-- pipe payload at 0x440, the magic number at 0x7C0, at 0x7C8 the hash of the code, and at 0x7D0 the
-- hash of everything before it.
pub service_page-fnv1a64 :
    (code : Bytes)
    → (page : Bytes) × (service_page code ≡ ok page)
      × (length page ≡ 0x800)
      × (slice page 0x400 0x422 ≡ message)
      × (slice page 0x440 0x458 ≡ pipe_payload)
      × (unpack_from 8 page 0x7C0 ≡ ok 0x4543495652455336)
      × (unpack_from 8 page 0x7C8 ≡ ok (fnv1a64 code))
      × (unpack_from 8 page 0x7D0 ≡ ok (fnv1a64 (slice page 0 0x7D0)))
unfolding service_page
service_page-fnv1a64 code =
    let magic = le_bytes 8 0x4543495652455336 in
    let code_hash = le_bytes 8 (fnv1a64 code) in
    let d0 = zeros 0x800 in
    let d1 = put d0 0x400 message in
    let d2 = put d1 0x440 pipe_payload in
    let d3 = put d2 0x7C0 magic in
    let d4 = put d3 0x7C8 code_hash in
    let seal = fnv1a64 (slice d4 0 0x7D0) in
    let page_hash = le_bytes 8 seal in
    let d5 = put d4 0x7D0 page_hash in
    let m8 = length-le_bytes 8 0x4543495652455336 in
    let c8 = length-le_bytes 8 (fnv1a64 code) in
    let p8 = length-le_bytes 8 seal in
    let n0 = length-zeros 0x800 in
    let g0 : 0x400 + length message ≤ length d0 = omega arith in
    let n1 = length-put d0 0x400 message g0 ∙ n0 in
    let g1 : 0x440 + length pipe_payload ≤ length d1 = omega arith in
    let n2 = length-put d1 0x440 pipe_payload g1 ∙ n1 in
    let g2 : 0x7C0 + length magic ≤ length d2 = omega arith in
    let n3 = length-put d2 0x7C0 magic g2 ∙ n2 in
    let g3 : 0x7C8 + length code_hash ≤ length d3 = omega arith in
    let n4 = length-put d3 0x7C8 code_hash g3 ∙ n3 in
    let g4 : 0x7D0 + length page_hash ≤ length d4 = omega arith in
    let n5 : length d5 ≡ 0x800 = length-put d4 0x7D0 page_hash g4 ∙ n4 in
    let late : (a b : ℕ) → a ≤ b → b ≤ 0x7C0 → slice d5 a b ≡ slice d2 a b = λ a b o h.
      slice-put_other d4 0x7D0 page_hash g4 a b o (inl (omega arith))
      ∙ slice-put_other d3 0x7C8 code_hash g3 a b o (inl (omega arith))
      ∙ slice-put_other d2 0x7C0 magic g2 a b o (inl h) in
    let before : slice d5 0 0x7D0 ≡ slice d4 0 0x7D0 =
      slice-put_other d4 0x7D0 page_hash g4 0 0x7D0 (omega arith) (inl (omega arith)) in
    (
      d5,
      rw
          (
            pack-le_bytes 8 0x4543495652455336 (omega arith),
            pack-le_bytes 8 (fnv1a64 code) (omega (arith, hash64-lt code)),
            set_slice-put d2 0x7C0 0x7C8 magic (omega arith),
            set_slice-put d3 0x7C8 0x7D0 code_hash (omega arith),
            pack-le_bytes 8 seal (omega (arith, hash64-lt (slice d4 0 0x7D0))),
          )
          (ap ok (set_slice-put d4 0x7D0 0x7D8 page_hash (omega arith))),
      n5,
      late 0x400 0x422 (omega arith) (omega arith)
          ∙ slice-put_other d1 0x440 pipe_payload g1 0x400 0x422 (omega arith) (inl (omega arith))
          ∙ slice-put_at d0 0x400 message g0 0x422 (omega arith),
      late 0x440 0x458 (omega arith) (omega arith)
          ∙ slice-put_at d1 0x440 pipe_payload g1 0x458 (omega arith),
      unpack_from-le_bytes 8 d5 0x7C0 0x4543495652455336 (omega arith) (omega arith) (
          slice-put_other d4 0x7D0 page_hash g4 0x7C0 0x7C8 (omega arith) (inl (omega arith))
          ∙ slice-put_other d3 0x7C8 code_hash g3 0x7C0 0x7C8 (omega arith) (inl (omega arith))
          ∙ slice-put_at d2 0x7C0 magic g2 0x7C8 (omega arith)),
      unpack_from-le_bytes 8 d5 0x7C8 (fnv1a64 code) (omega arith) (omega (arith, hash64-lt code)) (
          slice-put_other d4 0x7D0 page_hash g4 0x7C8 0x7D0 (omega arith) (inl (omega arith))
          ∙ slice-put_at d3 0x7C8 code_hash g3 0x7D0 (omega arith)),
      unpack_from-le_bytes 8 d5 0x7D0 seal (omega arith)
            (omega (arith, hash64-lt (slice d4 0 0x7D0)))
            (slice-put_at d4 0x7D0 page_hash g4 0x7D8 (omega arith))
          ∙ ap (λ t. ok (fnv1a64 t)) (sym before),
    )
