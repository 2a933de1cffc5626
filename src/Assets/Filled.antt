-- ===== src/Assets/Filled.antt =====
-- The loops that fill a range of a buffer, and the data of the socket program that they make.
use zig_os.Base.{
  ℕ, zero, suc, ◌+◌, ◌*◌, ◌%◌, ◌≤◌, ◌<◌, ◌≡◌, ◌⊎◌, inl, inr, refl, arith, ap, ◌∙◌, List, [], ◌∷◌,
  length, get_or, bit_and, ok,
}
use zig_os.Base.Bits.{bit_and_mask}
use native.Mathlib.Decide.{dec_lt}
use zig_os.Bytes.{Bytes, zeros, put, write_fields}
use zig_os.Bytes.Words.{length-zeros}
use zig_os.Bytes.Region.{length-put, set_byte-put}
use zig_os.Bytes.Pointwise.{get_or-put_before, get_or-put_self, get_or-put_behind}
use zig_os.Assets.{fill, socket_fields, runtime_socket_data}

-- A buffer whose bytes from `at + from` up to `at + to` are the values, and the others as before.
pub record Ranged (value : ℕ → ℕ) (at from to : ℕ) (before after : Bytes) : Type 0 where
  pub size : length after ≡ length before
  pub values : (i : ℕ) → from ≤ i → i < to → get_or after (at + i) 0 ≡ value i
  pub others : (j : ℕ) → (j < at + from) ⊎ (at + to ≤ j) → get_or after j 0 ≡ get_or before j 0

pub fill-Ranged :
    (value : ℕ → ℕ) (at left index : ℕ) (buf : Bytes)
    → ((i : ℕ) → value i < 256)
    → at + index + left ≤ length buf
    → (after : Bytes) × (fill value at left index buf ≡ ok after)
      × Ranged value at index (index + left) buf after
unfolding fill
fill-Ranged value at zero index buf bytes fits = (
  buf,
  refl,
  record { size = refl; values = λ i lo hi. absurd (omega arith); others = λ j out. refl },
)
fill-Ranged value at (suc left) index buf bytes fits =
    let here : at + index + length (value index ∷ []) ≤ length buf = omega arith in
    let buf' = put buf (at + index) (value index ∷ []) in
    let n = length-put buf (at + index) (value index ∷ []) here in
    let (after, returned, r) = fill-Ranged value at left (index + 1) buf' bytes (omega arith) in
    (
      after,
      rw (set_byte-put buf (at + index) (value index) (omega arith) (bytes index)) returned,
      record {
        size = r.size ∙ n;
        values = λ i lo hi. elim (dec_lt index i) [
          | yes p ↦ r.values i (omega arith) (omega arith)
          | no p ↦
              let same : index ≡ i = omega arith in
              let place : at + i ≡ at + index + 0 = omega arith in
              r.others (at + i) (inl (omega arith))
              ∙ ap (λ t. get_or buf' t 0) place
              ∙ get_or-put_self buf (at + index) (value index ∷ []) here 0 (omega arith)
              ∙ ap value same
        ];
        others = λ j out. r.others j (wider j out) ∙ outside j out;
      },
    )
  where
    wider :
        (j : ℕ)
        → (j < at + index) ⊎ (at + (index + suc left) ≤ j)
        → (j < at + (index + 1)) ⊎ (at + (index + 1 + left) ≤ j)
    wider j (inl p) = inl (omega arith)
    wider j (inr p) = inr (omega arith)

    outside :
        (j : ℕ)
        → (j < at + index) ⊎ (at + (index + suc left) ≤ j)
        → get_or (put buf (at + index) (value index ∷ [])) j 0 ≡ get_or buf j 0
    outside j (inl p) = get_or-put_before buf (at + index) (value index ∷ []) (omega arith) j p
    outside j (inr p) =
        get_or-put_behind buf (at + index) (value index ∷ []) (omega arith) j (omega arith)

-- Every field ends inside a buffer of the size.
abbrev AllInside : ℕ → List (ℕ × Bytes) → Type 0
AllInside size [] = Unit {0}
AllInside size ((offset, value) ∷ fields) = (offset + length value ≤ size) × AllInside size fields

length-write_fields :
    (size : ℕ) (fields : List (ℕ × Bytes)) (buf : Bytes)
    → length buf ≡ size
    → AllInside size fields
    → length (write_fields fields buf) ≡ size
unfolding write_fields
length-write_fields size [] buf n inside = n
length-write_fields size ((offset, value) ∷ fields) buf n (fits, inside) =
    length-write_fields size fields (put buf offset value)
      (length-put buf offset value (omega arith) ∙ n) inside

start_page : Bytes
start_page = write_fields socket_fields (zeros 4096)

length-start_page : length start_page ≡ 4096
unfolding start_page
length-start_page =
    length-write_fields 4096 socket_fields (zeros 4096) (length-zeros 4096)
      (omega arith, (omega arith, (omega arith, (omega arith, tt))))

-- The data of the socket program.
pub record SocketData (page : Bytes) : Type 0 where
  pub size : length page ≡ 4096
  pub datagram : (i : ℕ) → i < 1476 → get_or page (1024 + i) 0 ≡ (i * 3 + 7) % 256
  pub stream : (i : ℕ) → i < 1024 → get_or page (3072 + i) 0 ≡ (i * 5 + 11) % 256
  pub front :
      (j : ℕ) → j < 1024 → get_or page j 0 ≡ get_or (write_fields socket_fields (zeros 4096)) j 0

-- `runtime_socket_data` returns 4096 bytes: from 1024 on the 1476 bytes of the datagram, from 3072 on the
-- 1024 bytes of the stream, and below 1024 what its text fields are.
pub runtime_socket_data-SocketData :
    (page : Bytes) × (runtime_socket_data ≡ ok page) × SocketData page
unfolding runtime_socket_data start_page
runtime_socket_data-SocketData =
    let n = length-start_page in
    let (page1, returned1, r) =
      fill-Ranged (λ i. bit_and (i * 3 + 7) 0xFF) 1024 1476 0 start_page
        (λ i. omega (arith, bit_and_mask 8 (i * 3 + 7))) (omega arith) in
    let (page2, returned2, s) =
      fill-Ranged (λ i. bit_and (i * 5 + 11) 0xFF) 3072 1024 0 page1
        (λ i. omega (arith, bit_and_mask 8 (i * 5 + 11))) (omega (arith, r.size)) in
    (
      page2,
      rw (returned1, returned2) refl,
      record {
        size = s.size ∙ r.size ∙ n;
        datagram = λ i h.
            s.others (1024 + i) (inl (omega arith))
            ∙ r.values i (omega arith) (omega arith)
            ∙ bit_and_mask 8 (i * 3 + 7);
        stream = λ i h. s.values i (omega arith) (omega arith) ∙ bit_and_mask 8 (i * 5 + 11);
        front = λ j h. s.others j (inl (omega arith)) ∙ r.others j (inl (omega arith));
      },
    )
