-- ===== src/Elf64/Placed.antt =====
-- The parts of a two-segment image, each in its place.
use zig_os.Base.{ℕ, ◌+◌, ◌≤◌, ◌≡◌, refl, ap, arith, ◌∙◌, inl, length, slice, set_slice}
use zig_os.Bytes.{Bytes, zeros, put}
use zig_os.Bytes.Words.{length-zeros}
use zig_os.Bytes.Region.{length-put, slice-put_self, slice-put_at, slice-put_other, set_slice-put}

-- The headers behind one another, the code at 0x1000 and the data at 0x2000.
unfoldable pub place : Bytes → Bytes → Bytes → Bytes → Bytes → Bytes
place header code_header data_header code page =
    put (put (put (put (put (zeros 0x2800) 0 header) 64 code_header) 120 data_header) 0x1000 code)
      0x2000 page

pub record Placed (header code_header data_header code page image : Bytes) : Type 0 where
  pub size : length image ≡ 0x2800
  pub header_bytes : slice image 0 64 ≡ header
  pub code_header_bytes : slice image 64 120 ≡ code_header
  pub data_header_bytes : slice image 120 176 ≡ data_header
  pub code_bytes : slice image 0x1000 (0x1000 + length code) ≡ code
  pub page_bytes : slice image 0x2000 0x2800 ≡ page

module _ (header code_header data_header code page : Bytes) (h : length header ≡ 64)
    (c : length code_header ≡ 56) (d : length data_header ≡ 56) (small : length code ≤ 4096)
    (p : length page ≡ 0x800) where
  abbrev image1 : Bytes
  image1 = put (zeros 0x2800) 0 header

  abbrev image2 : Bytes
  image2 = put image1 64 code_header

  abbrev image3 : Bytes
  image3 = put image2 120 data_header

  abbrev image4 : Bytes
  image4 = put image3 0x1000 code

  -- The same writes with the slices of the headers written out, and with the last one to the end.
  pub place-set_slice :
      put
        (put
          (set_slice
            (set_slice (set_slice (zeros 0x2800) 0 64 header) 64 120 code_header)
            120
            176
            data_header)
          0x1000
          code)
        0x2000
        page
      ≡ place header code_header data_header code page
  unfolding place
  place-set_slice =
      rw
        (
          set_slice-put (zeros 0x2800) 0 64 header (omega arith),
          set_slice-put image1 64 120 code_header (omega arith),
          set_slice-put image2 120 176 data_header (omega arith),
        )
        refl

  length-image4 : length image4 ≡ 0x2800
  length-image4 =
      let n0 = length-zeros 0x2800 in
      let n1 = length-put (zeros 0x2800) 0 header (omega arith) ∙ n0 in
      let n2 = length-put image1 64 code_header (omega arith) ∙ n1 in
      let n3 = length-put image2 120 data_header (omega arith) ∙ n2 in
      length-put image3 0x1000 code (omega arith) ∙ n3

  pub to_end :
      (front : Bytes)
      → front
        ≡ put
            (set_slice
              (set_slice (set_slice (zeros 0x2800) 0 64 header) 64 120 code_header)
              120
              176
              data_header)
            0x1000
            code
      → set_slice front 0x2000 (length front) page ≡ place header code_header data_header code page
  to_end front e =
      let same : front ≡ image4 =
        e
        ∙ rw
            (
              set_slice-put (zeros 0x2800) 0 64 header (omega arith),
              set_slice-put image1 64 120 code_header (omega arith),
              set_slice-put image2 120 176 data_header (omega arith),
            )
            refl in
      set_slice-put front 0x2000 (length front) page (omega (arith, ap length same, length-image4))
      ∙ ap (λ t. put t 0x2000 page) same
      ∙ unfold place in refl

  pub place-Placed :
      Placed header code_header data_header code page
        (place header code_header data_header code page)
  unfolding place
  place-Placed =
      let n0 = length-zeros 0x2800 in
      let f0 : 0 + length header ≤ length (zeros 0x2800) = omega arith in
      let n1 = length-put (zeros 0x2800) 0 header f0 ∙ n0 in
      let f1 : 64 + length code_header ≤ length image1 = omega arith in
      let n2 = length-put image1 64 code_header f1 ∙ n1 in
      let f2 : 120 + length data_header ≤ length image2 = omega arith in
      let n3 = length-put image2 120 data_header f2 ∙ n2 in
      let f3 : 0x1000 + length code ≤ length image3 = omega arith in
      let n4 = length-put image3 0x1000 code f3 ∙ n3 in
      let f4 : 0x2000 + length page ≤ length image4 = omega arith in
      let front : (a b : ℕ)
          → a ≤ b
          → b ≤ 0x1000
          → slice (put image4 0x2000 page) a b ≡ slice image3 a b =
        λ a b o le.
          slice-put_other image4 0x2000 page f4 a b o (inl (omega arith))
          ∙ slice-put_other image3 0x1000 code f3 a b o (inl le) in
      record {
        size = length-put image4 0x2000 page f4 ∙ n4;
        header_bytes =
            front 0 64 (omega arith) (omega arith)
            ∙ slice-put_other image2 120 data_header f2 0 64 (omega arith) (inl (omega arith))
            ∙ slice-put_other image1 64 code_header f1 0 64 (omega arith) (inl (omega arith))
            ∙ slice-put_at (zeros 0x2800) 0 header f0 64 (omega arith);
        code_header_bytes =
            front 64 120 (omega arith) (omega arith)
            ∙ slice-put_other image2 120 data_header f2 64 120 (omega arith) (inl (omega arith))
            ∙ slice-put_at image1 64 code_header f1 120 (omega arith);
        data_header_bytes =
            front 120 176 (omega arith) (omega arith)
            ∙ slice-put_at image2 120 data_header f2 176 (omega arith);
        code_bytes =
            slice-put_other image4 0x2000 page f4 0x1000 (0x1000 + length code) (omega arith)
              (inl (omega arith))
            ∙ slice-put_self image3 0x1000 code f3;
        page_bytes = slice-put_at image4 0x2000 page f4 0x2800 (omega arith);
      }
