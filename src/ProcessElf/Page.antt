-- ===== src/ProcessElf/Page.antt =====
-- The data page of a process image passes the checks of the verifier.
use zig_os.Base.{
  ascii, ℕ, ◌+◌, ◌^◌, ◌<◌, ◌≤◌, ◌≡◌, refl, arith, ap, sym, ◌∙◌, inl, [], ◌∷◌, ◌++◌, length, slice,
  set_slice, take, drop, replicate, ok, bytes_eq, false, ◌!=◌,
}
use zig_os.Bytes.{write_fields, Bytes, zeros, put, pack, pack_fields, le_bytes, unpack_from}
use zig_os.Bytes.Words.{length-le_bytes}
use zig_os.Bytes.Region.{
  length-put, slice-put_at, slice-put_other, set_slice-put, unpack_from-le_bytes,
}
use zig_os.Fnv.{fnv1a64}
use zig_os.ServiceElf.Page.{hash64-lt, pack-le_bytes}
use zig_os.ProcessElf.{Kind, main, exec, records, magic_of, process_page, check_records, check_page}

-- The page before its hashes.
blank_page : Kind → Bytes
blank_page kind =
    set_slice
      (set_slice (write_fields records (zeros 0x800)) 0x200 0x208
        (le_bytes 4 0 ++ (le_bytes 4 1 ++ [])))
      0x7C0 0x7C8 (le_bytes 8 (magic_of kind))

magic-lt : (kind : Kind) → magic_of kind < 256 ^ 8
magic-lt main = omega arith
magic-lt exec = omega arith

blank-magic : (kind : Kind) → slice (blank_page kind) 0x7C0 0x7C8 ≡ le_bytes 8 (magic_of kind)
unfolding blank_page write_fields zeros replicate slice set_slice put take drop le_bytes
blank-magic main = refl
blank-magic exec = refl

blank-records :
    (kind : Kind)
    → (slice (blank_page kind) 0x500 0x508 ≡ ascii "WORKER1!")
      × (slice (blank_page kind) 0x508 0x510 ≡ ascii "WORKER2!")
      × (slice (blank_page kind) 0x510 0x518 ≡ ascii "EXECCHLD")
      × (slice (blank_page kind) 0x518 0x520 ≡ ascii "REUSE003")
unfolding blank_page write_fields zeros replicate slice set_slice put take drop le_bytes
blank-records main = (refl, refl, refl, refl)
blank-records exec = (refl, refl, refl, refl)

start_fields : pack_fields ((4, 0) ∷ (4, 1) ∷ []) ≡ ok (le_bytes 4 0 ++ (le_bytes 4 1 ++ []))
unfolding pack_fields pack
start_fields = refl

module _ (code : Bytes) (kind : Kind) where
  code_hash : Bytes
  code_hash = le_bytes 8 (fnv1a64 code)

  hashed : Bytes
  hashed = put (blank_page kind) 0x7C8 code_hash

  seal : ℕ
  seal = fnv1a64 (slice hashed 0 0x7D0)

  page_hash : Bytes
  page_hash = le_bytes 8 seal

  pub sealed : Bytes
  sealed = put hashed 0x7D0 page_hash

  length-blank : length (blank_page kind) ≡ 0x800
  unfolding blank_page write_fields zeros replicate set_slice put take drop le_bytes
  length-blank = elim kind [ main ↦ refl | exec ↦ refl ]

  length-code_hash : length code_hash ≡ 8
  unfolding code_hash
  length-code_hash = length-le_bytes 8 (fnv1a64 code)

  length-page_hash : length page_hash ≡ 8
  unfolding page_hash
  length-page_hash = length-le_bytes 8 seal

  process_page-sealed : process_page code kind ≡ ok sealed
  unfolding process_page sealed hashed blank_page page_hash code_hash seal
  process_page-sealed =
      let n = length-blank in
      let h = length-code_hash in
      let m : length (blank_page kind) ≡ 0x800 = length-blank in
      rw
        (
          start_fields,
          pack-le_bytes 8 (magic_of kind) (magic-lt kind),
          pack-le_bytes 8 (fnv1a64 code) (omega (arith, hash64-lt code)),
          set_slice-put (blank_page kind) 0x7C8 0x7D0 code_hash (omega arith),
          pack-le_bytes 8 seal (omega (arith, hash64-lt (slice hashed 0 0x7D0))),
        )
        (ap ok (set_slice-put hashed 0x7D0 0x7D8 page_hash (omega (arith, length-page_hash))))

  sealed-front : (a b : ℕ) → a ≤ b → b ≤ 0x7C8 → slice sealed a b ≡ slice (blank_page kind) a b
  unfolding sealed hashed
  sealed-front a b o h =
      let n = length-blank in
      let g3 : 0x7C8 + length code_hash ≤ length (blank_page kind) =
        omega (arith, length-code_hash) in
      let n4 = length-put (blank_page kind) 0x7C8 code_hash g3 ∙ n in
      slice-put_other hashed 0x7D0 page_hash (omega (arith, n4, length-page_hash)) a b o
        (inl (omega arith))
      ∙ slice-put_other (blank_page kind) 0x7C8 code_hash g3 a b o (inl h)

  length-hashed : length hashed ≡ 0x800
  unfolding hashed
  length-hashed =
      length-put (blank_page kind) 0x7C8 code_hash (omega (arith, length-code_hash, length-blank))
      ∙ length-blank

  pub length-sealed : length sealed ≡ 0x800
  unfolding sealed
  length-sealed =
      length-put hashed 0x7D0 page_hash (omega (arith, length-page_hash, length-hashed))
      ∙ length-hashed

  sealed-magic : unpack_from 8 sealed 0x7C0 ≡ ok (magic_of kind)
  sealed-magic =
      unpack_from-le_bytes 8 sealed 0x7C0 (magic_of kind) (omega (arith, length-sealed))
        (magic-lt kind) (sealed-front 0x7C0 0x7C8 (omega arith) (omega arith) ∙ blank-magic kind)

  sealed-code_hash : unpack_from 8 sealed 0x7C8 ≡ ok (fnv1a64 code)
  sealed-code_hash =
      unpack_from-le_bytes 8 sealed 0x7C8 (fnv1a64 code) (omega (arith, length-sealed))
        (omega (arith, hash64-lt code))
        (unfold sealed hashed code_hash in
          slice-put_other hashed 0x7D0 page_hash (omega (arith, length-page_hash, length-hashed))
            0x7C8 0x7D0 (omega arith) (inl (omega arith))
          ∙ slice-put_at (blank_page kind) 0x7C8 code_hash
              (omega (arith, length-code_hash, length-blank)) 0x7D0
              (omega (arith, length-code_hash)))

  sealed-page_hash : unpack_from 8 sealed 0x7D0 ≡ ok (fnv1a64 (slice sealed 0 0x7D0))
  sealed-page_hash =
      unpack_from-le_bytes 8 sealed 0x7D0 seal (omega (arith, length-sealed))
        (unfold seal in omega (arith, hash64-lt (slice hashed 0 0x7D0)))
        (unfold sealed page_hash in
          slice-put_at hashed 0x7D0 page_hash (omega (arith, length-page_hash, length-hashed)) 0x7D8
            (omega (arith, length-page_hash)))
      ∙ (unfold seal sealed in
          ap (λ t. ok (fnv1a64 t))
            (sym (
              slice-put_other hashed 0x7D0 page_hash
                (omega (arith, length-page_hash, length-hashed)) 0 0x7D0 (omega arith)
                (inl (omega arith)))))

  -- The page that `process_page` returns passes every check on it.
  pub check_page-process_page :
      (process_page code kind ≡ ok sealed) × (check_page code sealed kind ≡ ok tt)
  unfolding check_page check_records
  check_page-process_page =
      let differs : (n : ℕ) → (n != n) ≡ false = λ n. ground arith in
      (
        process_page-sealed,
        rw
            (
              sealed-magic,
              differs (magic_of kind),
              sealed-code_hash,
              differs (fnv1a64 code),
              sealed-page_hash,
              differs (fnv1a64 (slice sealed 0 0x7D0)),
              sealed-front 0x500 0x508 (omega arith) (omega arith) ∙ (blank-records kind).0,
              sealed-front 0x508 0x510 (omega arith) (omega arith) ∙ (blank-records kind).1,
              sealed-front 0x510 0x518 (omega arith) (omega arith) ∙ (blank-records kind).2,
              sealed-front 0x518 0x520 (omega arith) (omega arith) ∙ (blank-records kind).3,
            )
            (unfold bytes_eq in refl),
      )
