-- ===== src/Journal/Corruption.antt =====
-- What `corrupt_block_byte` does to a file, and that the parsers notice it.
use zig_os.Base.{
  ℕ, zero, suc, ◌+◌, ◌-◌, ◌*◌, ◌≤◌, ◌<◌, ◌≡◌, ◌≢◌, inl, inr, refl, arith, ap, sym, ◌∙◌, [], ◌∷◌,
  length, get_or, slice,
}
use zig_os.Base.{
  true, false, Bool-cases, bytes_eq, bytes_eq_refl, bytes_eq→eq, lt→not_leb, lt→ltb, ◌!=◌, ok,
  bit_xor, length-slice,
}
use zig_os.Base.Bits.{bit_xor-lt, bit_xor_ne}
use native.Mathlib.Decide.{dec_lt}
use zig_os.Bytes.{Bytes, put, byte_at}
use zig_os.Bytes.Words.{IsBytes, IsBytes-slice, IsBytes-put}
use zig_os.Bytes.Region.{set_byte-put, length-put, slice-put_at}
use zig_os.Bytes.Pointwise.{get_or-slice, get_or-put_before, get_or-put_self, get_or-put_behind}
use zig_os.Bytes.Changed.{Changed, byte_lt}
use zig_os.Journal.Header.{read_at}
use zig_os.Journal.Corrupt.{differences, Corrupted, corrupt_block_byte}

no_differences :
    (index : ℕ) (before after : Bytes)
    → length after ≡ length before
    → ((j : ℕ) → get_or after j 0 ≡ get_or before j 0)
    → differences index before after ≡ []
unfolding differences
no_differences index [] after n e = refl
no_differences index (b ∷ before) [] n e = refl
no_differences index (b ∷ before) (a ∷ after) n e =
    let first : (b != a) ≡ false = ground (arith, e 0) in
    rw first (no_differences (index + 1) before after (omega arith) (λ j. e (suc j)))

differences-Changed :
    (index : ℕ) (before after : Bytes) (i : ℕ)
    → Changed before after i
    → differences index before after ≡ (index + i) ∷ []
unfolding differences
differences-Changed index [] after i c = absurd (omega (arith, c.inside))
differences-Changed index (b ∷ before) [] i c = absurd (omega (arith, c.size))
differences-Changed index (b ∷ before) (a ∷ after) zero c =
    let first : (b != a) ≡ true = ground (arith, c.changed) in
    let here : index ≡ index + 0 = omega arith in
    rw first (
      ap (λ t. index ∷ t)
        (no_differences (index + 1) before after (omega (arith, c.size))
          (λ j. c.same (suc j) (λ e. absurd (omega arith))))
      ∙ ap (λ t. t ∷ []) here)
differences-Changed index (b ∷ before) (a ∷ after) (suc i) c =
    let first : (b != a) ≡ false = ground (arith, c.same 0 (λ e. absurd (omega arith))) in
    let on : index + 1 + i ≡ index + suc i = omega arith in
    rw first (
      differences-Changed (index + 1) before after i (record {
        size = omega (arith, c.size);
        inside = omega (arith, c.inside);
        changed = c.changed;
        same = λ j ne. c.same (suc j) (λ e. ne (omega arith));
      })
      ∙ ap (λ t. t ∷ []) on)

-- One byte put in the place of another one.
pub one-Changed :
    (buf : Bytes) (i v : ℕ)
    → i < length buf
    → get_or buf i 0 ≢ v
    → Changed buf (put buf i (v ∷ [])) i
one-Changed buf i v h ne =
    let fits : i + 1 ≤ length buf = omega arith in
    let at : i + 0 ≡ i = omega arith in
    let now =
      ap (λ t. get_or (put buf i (v ∷ [])) t 0) (sym at)
      ∙ get_or-put_self buf i (v ∷ []) fits 0 (omega arith) in
    record {
      size = length-put buf i (v ∷ []) fits;
      inside = h;
      changed = λ e. ne (e ∙ now);
      same = λ j other. elim (dec_lt j i) [
        | yes p ↦ get_or-put_before buf i (v ∷ []) fits j p
        | no p ↦ get_or-put_behind buf i (v ∷ []) fits j (omega arith)
      ];
    }

-- A changed block, written back to its place, changes the file at one byte.
written_back :
    (image block : Bytes) (at size i : ℕ)
    → at + size ≤ length image
    → Changed (slice image at (at + size)) block i
    → Changed image (put image at block) (at + i)
written_back image block at size i fits c =
    let n = length-slice image at (at + size) fits in
    let w : length block ≡ size = omega (arith, c.size, n) in
    let fits' : at + length block ≤ length image = omega arith in
    record {
      size = length-put image at block fits';
      inside = omega (arith, c.inside, n);
      changed = λ e. c.changed (
          get_or-slice image at (at + size) i (omega (arith, c.inside, n))
          ∙ e
          ∙ get_or-put_self image at block fits' i (omega (arith, c.inside, n)));
      same = λ j ne. elim (dec_lt j at) [
        | yes p ↦ get_or-put_before image at block fits' j p
        | no p ↦ elim (dec_lt j (at + length block)) [
          | yes q ↦
              let k : at + (j - at) ≡ j = omega arith in
              ap (λ t. get_or (put image at block) t 0) (sym k)
              ∙ get_or-put_self image at block fits' (j - at) (omega arith)
              ∙ c.same (j - at) (λ e. ne (omega arith))
              ∙ get_or-slice image at (at + size) (j - at) (omega arith)
              ∙ ap (λ t. get_or image t 0) k
          | no q ↦ get_or-put_behind image at block fits' j (omega arith)
        ]
      ];
    }

-- What `corrupt_block_byte` promises of the file and of the two digests.
pub record Flipped (sha256 : Bytes → Bytes) (image : Bytes) (at size i mask : ℕ) (c : Corrupted)
    : Type 0 where
  pub changed : Changed image c.image (at + i)
  pub byte : get_or c.image (at + i) 0 ≡ bit_xor (get_or image (at + i) 0) mask
  pub before : c.before_hash ≡ sha256 (read_at image at size)
  pub after : c.after_hash ≡ sha256 (read_at c.image at size)
  pub bytes : IsBytes c.image

module _ (sha256 : Bytes → Bytes) (image : Bytes) (lba i mask size : ℕ) where
  block_at : Bytes
  block_at = read_at image (lba * size) size

  flipped_value : ℕ
  flipped_value = bit_xor (get_or block_at i 0) mask

  flipped_block : Bytes
  flipped_block = put block_at i (flipped_value ∷ [])

  module _ (is_bytes : IsBytes image) (inside : i < size) (fits : lba * size + size ≤ length image)
      (nonzero : 0 < mask) (mask_byte : mask < 256) where
    length-block : length block_at ≡ size
    unfolding block_at read_at
    length-block = length-slice image (lba * size) (lba * size + size) fits ∙ omega arith

    block-IsBytes : IsBytes block_at
    unfolding block_at read_at
    block-IsBytes = IsBytes-slice image _ _ is_bytes

    old-lt : get_or block_at i 0 < 256
    old-lt = byte_lt block_at i block-IsBytes

    flipped-lt : flipped_value < 256
    unfolding flipped_value
    flipped-lt = bit_xor-lt 8 (get_or block_at i 0) mask old-lt mask_byte

    flipped-Changed : Changed block_at flipped_block i
    unfolding flipped_block flipped_value
    flipped-Changed =
        one-Changed block_at i _ (omega (arith, length-block))
          (λ e. bit_xor_ne 8 (get_or block_at i 0) mask old-lt nonzero mask_byte (sym e))

    flipped_image : Bytes
    flipped_image = put image (lba * size) flipped_block

    length-flipped : length flipped_block ≡ size
    length-flipped = omega (arith, length-block, flipped-Changed.size)

    image-Changed : Changed image flipped_image (lba * size + i)
    unfolding flipped_image block_at read_at flipped_block
    image-Changed = written_back image flipped_block (lba * size) size i fits flipped-Changed

    read_back : read_at flipped_image (lba * size) size ≡ flipped_block
    unfolding flipped_image read_at
    read_back =
        slice-put_at image (lba * size) flipped_block (omega (arith, length-flipped))
          (lba * size + size) (omega (arith, length-flipped))

    read_old : get_or block_at i 0 ≡ get_or image (lba * size + i) 0
    unfolding block_at read_at
    read_old = get_or-slice image (lba * size) (lba * size + size) i (omega arith)

    read_new : get_or flipped_image (lba * size + i) 0 ≡ flipped_value
    unfolding flipped_image flipped_block
    read_new =
        let at : i + 0 ≡ i = omega arith in
        get_or-put_self image (lba * size) flipped_block (omega (arith, length-flipped)) i
          (omega (arith, length-flipped))
        ∙ ap (λ t. get_or flipped_block t 0) (sym at)
        ∙ get_or-put_self block_at i (flipped_value ∷ []) (omega (arith, length-block)) 0
            (omega arith)

    corrupt_steps :
        bytes_eq (sha256 block_at) (sha256 flipped_block) ≡ false
        → corrupt_block_byte sha256 image lba i mask size
          ≡ ok (record {
            image = flipped_image;
            before_hash = sha256 block_at;
            after_hash = sha256 flipped_block;
          })
    unfolding corrupt_block_byte block_at byte_at flipped_value flipped_image
    corrupt_steps digests =
        let same : (length block_at != size) ≡ false = ground (arith, length-block) in
        let found : differences 0 block_at flipped_block ≡ i ∷ [] =
          differences-Changed 0 block_at flipped_block i flipped-Changed
          ∙ ap (λ t. t ∷ []) (omega arith) in
        rw
          (
            lt→not_leb size i inside,
            same,
            lt→ltb i (length block_at) (omega (arith, length-block)),
            set_byte-put block_at i flipped_value (omega (arith, length-block)) flipped-lt,
          )
          (unfold flipped_block in rw (found, bytes_eq_refl (i ∷ []), digests) refl)

bytes_eq-ne : (xs ys : Bytes) → xs ≢ ys → bytes_eq xs ys ≡ false
bytes_eq-ne xs ys ne = elim (Bool-cases (bytes_eq xs ys)) [
  | inl e ↦ absurd (ne (bytes_eq→eq xs ys e))
  | inr e ↦ e
]

-- For an offset inside the block, a block inside the file and a mask that is a byte and not zero, where
-- the digest tells the block from every block that differs from it at that byte only:
-- `corrupt_block_byte` returns; the new file differs from the old one at exactly that byte, which is the
-- exclusive or of the old one and the mask, and the two digests are those of the block before and after.
pub corrupt_block_byte-Flipped :
    (sha256 : Bytes → Bytes) (image : Bytes) (lba i mask size : ℕ)
    → IsBytes image
    → i < size
    → lba * size + size ≤ length image
    → 0 < mask
    → mask < 256
    → ((block : Bytes)
        → Changed (read_at image (lba * size) size) block i
        → sha256 (read_at image (lba * size) size) ≢ sha256 block)
    → (c : Corrupted) × (corrupt_block_byte sha256 image lba i mask size ≡ ok c)
      × Flipped sha256 image (lba * size) size i mask c
unfolding block_at
corrupt_block_byte-Flipped sha256 image lba i mask size is_bytes inside fits nonzero mask_byte
      digests =
    let change =
      flipped_image sha256 image lba i mask size is_bytes inside fits nonzero mask_byte in
    let changed =
      flipped-Changed sha256 image lba i mask size is_bytes inside fits nonzero mask_byte in
    let value = flipped_value sha256 image lba i mask size in
    (
      record {
        image = change;
        before_hash = sha256 (block_at sha256 image lba i mask size);
        after_hash = sha256 (flipped_block sha256 image lba i mask size);
      },
      corrupt_steps sha256 image lba i mask size is_bytes inside fits nonzero mask_byte
          (bytes_eq-ne _ _ (digests _ changed)),
      record {
        changed = image-Changed sha256 image lba i mask size is_bytes inside fits nonzero mask_byte;
        byte =
            read_new sha256 image lba i mask size is_bytes inside fits nonzero mask_byte
            ∙ (unfold flipped_value in
                ap (λ t. bit_xor t mask)
                  (read_old sha256 image lba i mask size is_bytes inside fits nonzero mask_byte));
        before = refl;
        after =
            ap sha256
              (sym (read_back sha256 image lba i mask size is_bytes inside fits nonzero mask_byte));
        bytes =
            unfold flipped_image flipped_block in
            IsBytes-put image (lba * size) _ is_bytes (
              IsBytes-put _ i _
                (block-IsBytes sha256 image lba i mask size is_bytes inside fits nonzero mask_byte)
                (
                  flipped-lt sha256 image lba i mask size is_bytes inside fits nonzero mask_byte,
                  tt,
                ));
      },
    )
