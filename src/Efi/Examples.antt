-- ===== src/Efi/Examples.antt =====
-- Tests of the EFI verifier on small files.
use zig_os.Base.{
  ◌+◌, ◌<◌, length, ◌≡◌, refl, [], ◌∷◌, ◌++◌, ascii, ok, raise, struct_error, slice, take, drop,
  replicate, bytes_eq,
}
use zig_os.Bytes.{Bytes, zeros, le_bytes, from_le, unpack_from}
use zig_os.Efi.{verify_efi, read_optional, check_efi}
use zig_os.Efi.Outcomes.{Ends, EfiApplication, verify_efi-Ends}

-- An x86-64 PE32+ application of 320 bytes.
abbrev application : Bytes
application =
    (ascii "MZ" ++ zeros 58)
    ++ (le_bytes 4 128
        ++ (zeros 64
            ++ ((ascii "PE" ++ 0 ∷ 0 ∷ [])
                ++ (le_bytes 2 0x8664
                    ++ (le_bytes 2 3
                        ++ (zeros 12
                            ++ (le_bytes 2 70
                                ++ (zeros 2
                                    ++ (le_bytes 2 0x020B
                                        ++ (zeros 14
                                            ++ (le_bytes 4 0x1000
                                                ++ (zeros 36
                                                    ++ (le_bytes 4 0x5000
                                                        ++ (zeros 8
                                                            ++ (le_bytes 2 10
                                                            ++ zeros 98)))))))))))))))

verify_efi-application : verify_efi application ≡ ok tt
unfolding verify_efi read_optional check_efi unpack_from zeros replicate le_bytes from_le slice take
    drop bytes_eq
verify_efi-application = refl

-- The same headers at the end of a file of 256 bytes: there is no room for the optional header.
abbrev cut_short : Bytes
cut_short =
    (ascii "MZ" ++ zeros 58)
    ++ (le_bytes 4 204
        ++ (zeros 140
            ++ ((ascii "PE" ++ 0 ∷ 0 ∷ []) ++ (le_bytes 2 0x8664 ++ (le_bytes 2 3 ++ zeros 44)))))

verify_efi-cut_short : verify_efi cut_short ≡ raise struct_error
unfolding verify_efi read_optional check_efi unpack_from zeros replicate le_bytes from_le slice take
    drop bytes_eq
verify_efi-cut_short = refl

verify_efi-Ends_example :
    Ends
      (EfiApplication cut_short)
      (length cut_short < from_le (slice cut_short 0x3C (0x3C + 4)) + 24 + 70)
      (verify_efi cut_short)
verify_efi-Ends_example = verify_efi-Ends cut_short
