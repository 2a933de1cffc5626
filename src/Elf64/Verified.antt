-- ===== src/Elf64/Verified.antt =====
-- What `build` of scripts/create-runtime-user-elf.py writes passes scripts/verify-runtime-user-elf.py.
use zig_os.Base.{ℕ, zero, suc, ◌+◌, ◌-◌, ◌<◌, ◌≤◌, ◌≡◌, refl, arith, ap, ◌∙◌, inl, inr, ◌++◌}
use zig_os.Base.{
  length, take, drop, ◌!=◌, set_slice, slice, length-append, ok, false, true, ◌==◌, ltb, bytes_eq,
  bytes_eq_refl, replicate,
}
use zig_os.Bytes.{Bytes, any, zeros, put}
use zig_os.Bytes.Words.{length-zeros, slice-zeros_inside}
use zig_os.Bytes.Region.{length-put, slice-put_self, slice-put_at, slice-put_other, set_slice-put}
use zig_os.Bytes.Image.{slice_front}
use zig_os.Elf64.Runtime.{build, verify, is_header, ident, code_base, data_base}
use zig_os.Elf64.Headers.{
  load_bytes, length-load_bytes, pack_load_fields, read_segment-load_bytes, packed_header,
  pack_header_fields, read_header-packed,
}

pub any-zeros : (n : ℕ) → any (zeros n) ≡ false
unfolding any zeros replicate
any-zeros zero = refl
any-zeros (suc n) = any-zeros n

-- The parts of an image, each in its place.
pub record Parts (code data_page image : Bytes) : Type 0 where
  pub size : length image ≡ 0x3000
  pub header : slice image 0 64 ≡ ident ++ packed_header
  pub code_header : slice image 64 120 ≡ load_bytes 5 0x1000 code_base (length code)
  pub data_header : slice image 120 176 ≡ load_bytes 6 0x2000 data_base 4096
  pub padding : slice image 176 0x1000 ≡ zeros 3920
  pub code_bytes : slice image 0x1000 (0x1000 + length code) ≡ code
  pub data_bytes : slice image 0x2000 0x3000 ≡ data_page

module _ (code data_page : Bytes) (small : length code ≤ 4096)
    (page : length data_page ≡ 4096) where
  abbrev header : Bytes
  header = ident ++ packed_header

  abbrev code_header : Bytes
  code_header = load_bytes 5 0x1000 code_base (length code)

  abbrev data_header : Bytes
  data_header = load_bytes 6 0x2000 data_base 4096

  abbrev image1 : Bytes
  image1 = put (zeros 0x3000) 0 header

  abbrev image2 : Bytes
  image2 = put image1 64 code_header

  abbrev image3 : Bytes
  image3 = put image2 120 data_header

  abbrev image4 : Bytes
  image4 = put image3 0x1000 code

  abbrev image5 : Bytes
  image5 = put image4 0x2000 data_page

  length-image4 : length image4 ≡ 0x3000
  length-image4 =
      let c = length-load_bytes 5 0x1000 code_base (length code) in
      let d = length-load_bytes 6 0x2000 data_base 4096 in
      let n0 = length-zeros 0x3000 in
      let n1 = length-put (zeros 0x3000) 0 header (omega arith) ∙ n0 in
      let n2 = length-put image1 64 code_header (omega arith) ∙ n1 in
      let n3 = length-put image2 120 data_header (omega arith) ∙ n2 in
      length-put image3 0x1000 code (omega arith) ∙ n3

  written-Parts : Parts code data_page image5
  written-Parts =
      let c = length-load_bytes 5 0x1000 code_base (length code) in
      let d = length-load_bytes 6 0x2000 data_base 4096 in
      let n0 = length-zeros 0x3000 in
      let f0 : 0 + length header ≤ length (zeros 0x3000) = omega arith in
      let n1 = length-put (zeros 0x3000) 0 header f0 ∙ n0 in
      let f1 : 64 + length code_header ≤ length image1 = omega arith in
      let n2 = length-put image1 64 code_header f1 ∙ n1 in
      let f2 : 120 + length data_header ≤ length image2 = omega arith in
      let n3 = length-put image2 120 data_header f2 ∙ n2 in
      let f3 : 0x1000 + length code ≤ length image3 = omega arith in
      let n4 = length-put image3 0x1000 code f3 ∙ n3 in
      let f4 : 0x2000 + length data_page ≤ length image4 = omega arith in
      let front : (a b : ℕ) → a ≤ b → b ≤ 0x1000 → slice image5 a b ≡ slice image3 a b = λ a b o h.
        slice-put_other image4 0x2000 data_page f4 a b o (inl (omega arith))
        ∙ slice-put_other image3 0x1000 code f3 a b o (inl h) in
      record {
        size = length-put image4 0x2000 data_page f4 ∙ n4;
        header =
            front 0 64 (omega arith) (omega arith)
            ∙ slice-put_other image2 120 data_header f2 0 64 (omega arith) (inl (omega arith))
            ∙ slice-put_other image1 64 code_header f1 0 64 (omega arith) (inl (omega arith))
            ∙ slice-put_at (zeros 0x3000) 0 header f0 64 (omega arith);
        code_header =
            front 64 120 (omega arith) (omega arith)
            ∙ slice-put_other image2 120 data_header f2 64 120 (omega arith) (inl (omega arith))
            ∙ slice-put_at image1 64 code_header f1 120 (omega arith);
        data_header =
            front 120 176 (omega arith) (omega arith)
            ∙ slice-put_at image2 120 data_header f2 176 (omega arith);
        padding =
            front 176 0x1000 (omega arith) (omega arith)
            ∙ slice-put_other image2 120 data_header f2 176 0x1000 (omega arith) (inr (omega arith))
            ∙ slice-put_other image1 64 code_header f1 176 0x1000 (omega arith) (inr (omega arith))
            ∙ slice-put_other (zeros 0x3000) 0 header f0 176 0x1000 (omega arith)
                (inr (omega arith))
            ∙ slice-zeros_inside 0x3000 176 0x1000 (omega arith) (omega arith);
        code_bytes =
            slice-put_other image4 0x2000 data_page f4 0x1000 (0x1000 + length code) (omega arith)
              (inl (omega arith))
            ∙ slice-put_self image3 0x1000 code f3;
        data_bytes = slice-put_at image4 0x2000 data_page f4 0x3000 (omega arith);
      }

ident_front : slice (ident ++ packed_header) 0 16 ≡ ident
unfolding slice take drop
ident_front = refl

verify-Parts :
    (code data_page image : Bytes)
    → 0 < length code
    → length code ≤ 4096
    → Parts code data_page image
    → verify image ≡ ok tt
unfolding verify is_header
verify-Parts code data_page image some small p =
    let same : slice image 0 16 ≡ ident =
      slice_front image (ident ++ packed_header) 64 0 16 (omega arith) (omega arith) p.header
      ∙ ident_front in
    let id : bytes_eq (slice image 0 16) ident ≡ true =
      ap (λ t. bytes_eq t ident) same ∙ bytes_eq_refl ident in
    let sized : (length code == 0) ≡ false = ground arith in
    let bound : ltb 4096 (length code) ≡ false = ground arith in
    let equal : (length code != length code) ≡ false = ground arith in
    rw
      (
        p.size,
        id,
        read_header-packed image (omega (arith, p.size)) p.header,
        read_segment-load_bytes image 64 5 0x1000 code_base (length code) (omega (arith, p.size))
            p.code_header (omega arith) (omega arith) (omega arith) (omega arith),
        read_segment-load_bytes image 120 6 0x2000 data_base 4096 (omega (arith, p.size))
            p.data_header (omega arith) (omega arith) (omega arith) (omega arith),
        sized,
        bound,
        equal,
        p.padding,
        any-zeros 3920,
      )
      refl

-- For code of 1 to 4096 bytes and at most 4096 bytes of data, `build` returns an image that the
-- runtime verifier accepts, with the code at 0x1000 and the data, padded with zeros to a page, at
-- 0x2000.
pub verify-build :
    (code data_bytes : Bytes)
    → 0 < length code
    → length code ≤ 4096
    → length data_bytes ≤ 4096
    → (image : Bytes) × (build code data_bytes ≡ ok image)
      × Parts code (data_bytes ++ zeros (4096 - length data_bytes)) image
      × (verify image ≡ ok tt)
unfolding build
verify-build code data_bytes some small fits =
    let data_page = data_bytes ++ zeros (4096 - length data_bytes) in
    let page : length data_page ≡ 4096 = omega (
      arith,
      length-append data_bytes (zeros (4096 - length data_bytes)),
      length-zeros (4096 - length data_bytes),
    ) in
    let parts = written-Parts code data_page small page in
    let c = length-load_bytes 5 0x1000 code_base (length code) in
    let d = length-load_bytes 6 0x2000 data_base 4096 in
    let n4 = length-image4 code data_page small page in
    let sized : (length code == 0) ≡ false = ground arith in
    let bound : ltb 4096 (length code) ≡ false = ground arith in
    let bound' : ltb 4096 (length data_bytes) ≡ false = ground arith in
    let at_end : set_slice (image4 code data_page small page) 0x2000
          (length (image4 code data_page small page)) data_page
        ≡ image5 code data_page small page =
      set_slice-put (image4 code data_page small page) 0x2000 _ data_page (omega arith) in
    let returns : build code data_bytes ≡ ok (image5 code data_page small page) =
      rw
        (
          sized,
          bound,
          bound',
          pack_header_fields,
          pack_load_fields 5 0x1000 code_base (length code) (omega arith) (omega arith)
              (omega arith) (omega arith),
          page,
          pack_load_fields 6 0x2000 data_base 4096 (omega arith) (omega arith) (omega arith)
              (omega arith),
          set_slice-put (zeros 0x3000) 0 64 (ident ++ packed_header) refl,
          set_slice-put (image1 code data_page small page) 64 120
              (load_bytes 5 0x1000 code_base (length code)) (omega arith),
          set_slice-put (image2 code data_page small page) 120 176
              (load_bytes 6 0x2000 data_base 4096) (omega arith),
          at_end,
        )
        refl in
    (
      image5 code data_page small page,
      returns,
      parts,
      verify-Parts code data_page _ some small parts,
    )
