-- ===== src/Efi/Outcomes.antt =====
-- How a run of the EFI verifier can end.
use zig_os.Base.{
  ℕ, ◌+◌, ◌≤◌, ◌<◌, ◌≡◌, ◌≢◌, refl, arith, ap, sym, ◌∙◌, List, [], ◌∷◌, ◌++◌, length, slice, ascii,
  String,
}
use zig_os.Base.{
  Bool, true, false, not, ◌==◌, ◌!=◌, ◌||◌, ltb, lt→not_leb, bytes_eq, bytes_eq→eq, ok, raise,
  Result, system_exit, struct_error, fail_if, ◌>>=◌, ◌>>◌,
}
use native.Mathlib.Decide.{dec_lt}
use mathlib.Core.Path.{subst}
use zig_os.Bytes.{Bytes, from_le, unpack_from}
use zig_os.Bytes.Region.{unpack_from-slice}
use zig_os.Efi.{OptionalHeader, read_optional, check_efi, verify_efi}

-- The number in a field.
number : Bytes → ℕ → ℕ → ℕ
number image at width = from_le (slice image at (at + width))

unpack_from-outside :
    (width : ℕ) (image : Bytes) (at : ℕ)
    → length image < at + width
    → unpack_from width image at ≡ raise struct_error
unfolding unpack_from
unpack_from-outside width image at h = rw (lt→not_leb (at + width) (length image) h) refl

-- What an accepted image is like.
pub record EfiApplication (image : Bytes) : Type 0 where
  pub size : 256 ≤ length image
  pub dos : slice image 0 2 ≡ ascii "MZ"
  pub pe_offset : ℕ
  pub located : from_le (slice image 0x3C (0x3C + 4)) ≡ pe_offset
  pub inside : pe_offset + 24 + 70 ≤ length image
  pub signature : slice image pe_offset (pe_offset + 4) ≡ ascii "PE" ++ 0 ∷ 0 ∷ []
  pub machine : from_le (slice image (pe_offset + 4) (pe_offset + 4 + 2)) ≡ 0x8664
  pub sections : from_le (slice image (pe_offset + 6) (pe_offset + 6 + 2)) ≢ 0
  pub magic : from_le (slice image (pe_offset + 24) (pe_offset + 24 + 2)) ≡ 0x020B
  pub entry : from_le (slice image (pe_offset + 24 + 16) (pe_offset + 24 + 16 + 4)) ≢ 0
  pub image_size : from_le (slice image (pe_offset + 24 + 56) (pe_offset + 24 + 56 + 4)) ≢ 0
  pub subsystem : from_le (slice image (pe_offset + 24 + 68) (pe_offset + 24 + 68 + 2)) ≡ 10

-- A run ends with success, with a message, or with the exception of `struct`.
pub data Ends (Accepted Short : Type 0) : Result (Unit {0}) → Type 0 where
  accepts : Accepted → Ends Accepted Short (ok tt)
  rejects :
      (message : String) (holes : List ℕ) → Ends Accepted Short (raise (system_exit message holes))
  breaks : Short → Ends Accepted Short (raise struct_error)

after_check :
    {Accepted Short : Type 0} (bad : Bool) (message : String) (holes : List ℕ)
    (rest : Result (Unit {0}))
    → (bad ≡ false → Ends Accepted Short rest)
    → Ends Accepted Short (fail_if bad message holes >> rest)
after_check true message holes rest k = rejects message holes
after_check false message holes rest k = k refl

after_read :
    {Accepted Short : Type 0} (width : ℕ) (image : Bytes) (at : ℕ) (rest : ℕ → Result (Unit {0}))
    → at + width ≤ length image
    → Ends Accepted Short (rest (from_le (slice image at (at + width))))
    → Ends Accepted Short (unpack_from width image at >>= rest)
after_read {Accepted} {Short} width image at rest inside k =
    subst (λ t. Ends Accepted Short (t >>= rest)) (sym (unpack_from-slice width image at inside)) k

broken_read :
    (width : ℕ) (image : Bytes) (at : ℕ) (rest : ℕ → Result OptionalHeader)
    → length image < at + width
    → (unpack_from width image at >>= rest) ≡ raise struct_error
broken_read width image at rest out = ap (λ t. t >>= rest) (unpack_from-outside width image at out)

-- Where what comes behind a read fails in any case, the read and the rest fail with the same exception.
short_read :
    (width : ℕ) (image : Bytes) (at : ℕ) (rest : ℕ → Result OptionalHeader)
    → ((value : ℕ) → rest value ≡ raise struct_error)
    → (unpack_from width image at >>= rest) ≡ raise struct_error
short_read width image at rest fails = elim (dec_lt (length image) (at + width)) [
  | yes out ↦ ap (λ t. t >>= rest) (unpack_from-outside width image at out)
  | no inside ↦ ap (λ t. t >>= rest) (unpack_from-slice width image at (omega arith)) ∙ fails _
]

module _ (image : Bytes) where
  pe : ℕ
  pe = from_le (slice image 0x3C (0x3C + 4))

  read_optional-short :
      length image < pe + 24 + 70 → read_optional image (pe + 24) ≡ raise struct_error
  unfolding read_optional
  read_optional-short short = short_read 2 image (pe + 24) _ (λ magic.
      short_read 4 image (pe + 24 + 16) _ (λ entry_rva.
        short_read 4 image (pe + 24 + 56) _
          (λ image_size. broken_read 2 image (pe + 24 + 68) _ (omega arith))))

  read_optional-fields :
      pe + 24 + 70 ≤ length image
      → read_optional image (pe + 24)
        ≡ ok (record {
          magic = from_le (slice image (pe + 24) (pe + 24 + 2));
          entry_rva = from_le (slice image (pe + 24 + 16) (pe + 24 + 16 + 4));
          image_size = from_le (slice image (pe + 24 + 56) (pe + 24 + 56 + 4));
          subsystem = from_le (slice image (pe + 24 + 68) (pe + 24 + 68 + 2));
        })
  unfolding read_optional
  read_optional-fields inside =
      rw
        (
          unpack_from-slice 2 image (pe + 24) (omega arith),
          unpack_from-slice 4 image (pe + 24 + 16) (omega arith),
          unpack_from-slice 4 image (pe + 24 + 56) (omega arith),
          unpack_from-slice 2 image (pe + 24 + 68) (omega arith),
        )
        refl

  abbrev Short : Type 0
  Short = length image < pe + 24 + 70

  checked :
      (machine section_count : ℕ) (h : OptionalHeader)
      → ((machine ≡ 0x8664)
          → (section_count ≢ 0)
          → (h.magic ≡ 0x020B)
          → (h.entry_rva ≢ 0)
          → (h.image_size ≢ 0)
          → (h.subsystem ≡ 10)
          → EfiApplication image)
      → Ends (EfiApplication image) Short (check_efi machine section_count h)
  unfolding check_efi
  checked machine section_count h accept = after_check (machine != 0x8664) _ _ _ (λ a.
      after_check (h.magic != 0x020B) _ _ _ (λ b. after_check (h.subsystem != 10) _ _ _ (λ c.
        last (section_count == 0 || h.entry_rva == 0 || h.image_size == 0) (λ d.
          accept (ground arith) (ground arith) (ground arith) (ground arith) (ground arith)
            (ground arith)))))
    where
      last :
          (bad : Bool)
          → (bad ≡ false → EfiApplication image)
          → Ends
              (EfiApplication image)
              Short
              (fail_if bad "PE image has empty sections, entry point, or image size" [])
      last true k = rejects _ _
      last false k = accepts (k refl)

  read_and_checked :
      256 ≤ length image
      → slice image 0 2 ≡ ascii "MZ"
      → slice image pe (pe + 4) ≡ ascii "PE" ++ 0 ∷ 0 ∷ []
      → Ends (EfiApplication image) Short (
          read_optional image (pe + 24)
          >>= check_efi
              (from_le (slice image (pe + 4) (pe + 4 + 2)))
              (from_le (slice image (pe + 6) (pe + 6 + 2))))
  read_and_checked size dos signature = elim (dec_lt (length image) (pe + 24 + 70)) [
    | yes short ↦
        subst
          (λ t. Ends (EfiApplication image) Short (
            t
            >>= check_efi (from_le (slice image (pe + 4) (pe + 4 + 2)))
                (from_le (slice image (pe + 6) (pe + 6 + 2)))))
          (sym (read_optional-short short)) (breaks short)
    | no long ↦
        subst
          (λ t. Ends (EfiApplication image) Short (
            t
            >>= check_efi (from_le (slice image (pe + 4) (pe + 4 + 2)))
                (from_le (slice image (pe + 6) (pe + 6 + 2)))))
          (sym (read_optional-fields (omega arith)))
          (checked _ _ _ (λ a b c d e f. record {
            size = size;
            dos = dos;
            pe_offset = pe;
            located = unfold pe in refl;
            inside = omega arith;
            signature = signature;
            machine = a;
            sections = b;
            magic = c;
            entry = d;
            image_size = e;
            subsystem = f;
          }))
  ]

-- For every file, `main` accepts it, and then it is an x86-64 EFI application in the PE32+ format with
-- sections, an entry point and a size; or it ends with one of its messages; or, only where the file ends before
-- the 70 bytes that are read of the optional header, with the exception of `struct`.
pub verify_efi-Ends :
    (image : Bytes)
    → Ends
        (EfiApplication image)
        (length image < from_le (slice image 0x3C (0x3C + 4)) + 24 + 70)
        (verify_efi image)
unfolding verify_efi pe
verify_efi-Ends image =
    let at = from_le (slice image 0x3C (0x3C + 4)) in
    after_check (ltb (length image) 256) _ _ _ (λ small.
      after_check (not (bytes_eq (slice image 0 2) (ascii "MZ"))) _ _ _ (λ dos.
        after_read 4 image 0x3C _ (ground arith) (
          after_check (ltb (length image) (at + 24)) _ _ _ (λ inside.
            after_check (not (bytes_eq (slice image at (at + 4)) (ascii "PE" ++ 0 ∷ 0 ∷ []))) _ _ _
              (λ signature. after_read 2 image (at + 4) _ (ground arith) (
                after_read 2 image (at + 6) _ (ground arith) (
                  after_read 2 image (at + 20) _ (ground arith) (
                    after_check
                      (ltb (length image) (at + 24 + from_le (slice image (at + 20) (at + 20 + 2))))
                      _ _ _
                      (λ truncated.
                        read_and_checked image (ground arith) (same _ _ dos)
                          (same _ _ signature))))))))))
  where
    same : (xs ys : Bytes) → not (bytes_eq xs ys) ≡ false → xs ≡ ys
    same xs ys h = bytes_eq→eq xs ys (ground arith)
