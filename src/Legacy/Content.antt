-- ===== src/Legacy/Content.antt =====
-- The checks of scripts/verify-legacy-bios.py on the contents of single files.
use zig_os.Base.{
  ℕ, zero, suc, ◌+◌, ◌-◌, ◌!=◌, ◌||◌, Bool, not, if◌then◌else◌, bytes_eq, List, [], ◌∷◌, ◌++◌,
  length, take, slice, ascii, ltb,
}
use zig_os.Base.{Result, ok, fail_if, ◌>>=◌, ◌>>◌}
use zig_os.Bytes.{Bytes}
use zig_os.Fnv.{fnv1a32}
use zig_os.Fat12.Chain.{read_chain}
use zig_os.Workloads.Emit.{crlf}

unfoldable pub starts_with : Bytes → Bytes → Bool
starts_with needle bytes = bytes_eq (take (length needle) bytes) needle

-- `bytes.count(needle)` of a needle that is not empty: `skip` bytes belong to the last match.
unfoldable pub count_loop : Bytes → ℕ → Bytes → ℕ
count_loop needle skip [] = 0
count_loop needle (suc skip) (b ∷ bytes) = count_loop needle skip bytes
count_loop needle zero (b ∷ bytes) =
    let found = starts_with needle (b ∷ bytes) in
    let rest = count_loop needle (if found then length needle - 1 else 0) bytes in
    if found then 1 + rest else rest

unfoldable pub count : Bytes → Bytes → ℕ
count needle bytes = count_loop needle 0 bytes

-- `needle in bytes`
unfoldable pub contains : Bytes → Bytes → Bool
contains needle bytes = ltb 0 (count needle bytes)

-- A file that is read at its cluster and size, and the checks of its bytes.
pub record ContentCheck : Type 0 where
  pub cluster : ℕ
  pub size : ℕ
  pub check : Bytes → Result (Unit {0})

unfoldable pub check_hello : Bytes → Result (Unit {0})
check_hello bytes = do
  fail_if
      (not (
        bytes_eq bytes (
          ascii "ZigOs legacy FAT12 filesystem is online."
          ++ (crlf ++ (ascii "Loaded through ATA PIO by the i686 kernel." ++ crlf)))))
      "HELLO.TXT content invalid" []

unfoldable pub check_cat : Bytes → Result (Unit {0})
check_cat bytes = do
  fail_if (not (bytes_eq (slice bytes 0x190 0x19B) (ascii "HELLO   TXT")))
      "CAT.ELF embedded filename invalid" []

unfoldable pub check_writer : Bytes → Result (Unit {0})
check_writer bytes = do
  fail_if (not (bytes_eq (slice bytes 0x280 0x28B) (ascii "NOTES   TXT")))
      "WRITER.ELF embedded filename invalid" []

unfoldable pub check_service : Bytes → Result (Unit {0})
check_service bytes = do
  fail_if
      (not (bytes_eq (slice bytes 0x450 0x45B) (ascii "TEMP2   BIN"))
        || not (bytes_eq (slice bytes 0x460 0x46B) (ascii "RENAMED BIN")))
      "SERVICE.ELF embedded namespace names invalid" []
  fail_if (not (bytes_eq (slice bytes 0x480 0x492) (ascii "SERVICE-PIPE-OK!" ++ crlf)))
      "SERVICE.ELF embedded payload invalid" []

unfoldable pub check_orch : Bytes → Result (Unit {0})
check_orch bytes = do
  fail_if
      (not (bytes_eq (slice bytes 0x600 0x60B) (ascii "CHILD   ELF"))
        || not (bytes_eq (slice bytes 0x610 0x61B) (ascii "HELLO   TXT")))
      "ORCH.ELF embedded filenames invalid" []
  fail_if (not (bytes_eq (slice bytes 0x630 0x641) (ascii "PARENT-TO-CHILD" ++ crlf)))
      "ORCH.ELF embedded request invalid" []

unfoldable pub check_child : Bytes → Result (Unit {0})
check_child bytes = do
  fail_if (not (bytes_eq (slice bytes 0x380 0x391) (ascii "CHILD-TO-PARENT" ++ crlf)))
      "CHILD.ELF embedded reply invalid" []

unfoldable pub check_async_parent : Bytes → Result (Unit {0})
check_async_parent bytes = do
  fail_if
      (not (bytes_eq (slice bytes 0x700 0x70B) (ascii "WORKA   ELF"))
        || not (bytes_eq (slice bytes 0x710 0x71B) (ascii "WORKB   ELF")))
      "ASYNC.ELF worker names invalid" []
  fail_if (not (bytes_eq (slice bytes 0x720 0x72B) (ascii "MISSING ELF")))
      "ASYNC.ELF rejection name invalid" []
  fail_if (count (0xB8 ∷ 0x2A ∷ 0x00 ∷ 0x00 ∷ 0x00 ∷ 0xCD ∷ 0x80 ∷ []) bytes != 3)
      "ASYNC.ELF spawn syscall sequence invalid" []

unfoldable pub check_worka : Bytes → Result (Unit {0})
check_worka bytes = do
  fail_if (not (bytes_eq (slice bytes 0x300 0x30B) (ascii "LEAF    ELF")))
      "WORKA.ELF leaf name invalid" []
  fail_if (count (0xB8 ∷ 0x2B ∷ 0x00 ∷ 0x00 ∷ 0x00 ∷ 0xCD ∷ 0x80 ∷ []) bytes != 1)
      "WORKA.ELF yield syscall invalid" []

unfoldable pub check_workb : Bytes → Result (Unit {0})
check_workb bytes = do
  fail_if (not (contains (0x00 ∷ 0xE1 ∷ 0xF5 ∷ 0x05 ∷ []) bytes))
      "WORKB.ELF preemption loop bound invalid" []
  fail_if (count (0xB8 ∷ 0x16 ∷ 0x00 ∷ 0x00 ∷ 0x00 ∷ 0xCD ∷ 0x80 ∷ []) bytes != 1)
      "WORKB.ELF signal consume invalid" []

unfoldable pub check_leaf : Bytes → Result (Unit {0})
check_leaf bytes = do
  fail_if
      (count (0xBB ∷ 0x14 ∷ 0x00 ∷ 0x00 ∷ 0x00 ∷ []) bytes != 10
        || count (0xB8 ∷ 0x2C ∷ 0x00 ∷ 0x00 ∷ 0x00 ∷ 0xCD ∷ 0x80 ∷ []) bytes != 10)
      "LEAF.ELF bounded sleep sequence invalid" []

unfoldable pub check_genrun : Bytes → Result (Unit {0})
check_genrun bytes = do
  fail_if
      (not (bytes_eq (slice bytes 0x800 0x80B) (ascii "REUSE   ELF"))
        || not (bytes_eq (slice bytes 0x810 0x81B) (ascii "FORKER  ELF")))
      "GENRUN.ELF reusable/forker names invalid" []
  fail_if
      (not (bytes_eq (slice bytes 0x820 0x82B) (ascii "FAULT   ELF"))
        || not (bytes_eq (slice bytes 0x830 0x83B) (ascii "MISSING ELF")))
      "GENRUN.ELF fault/rejection names invalid" []
  fail_if (count (0xB8 ∷ 0x31 ∷ 0x00 ∷ 0x00 ∷ 0x00 ∷ 0xCD ∷ 0x80 ∷ []) bytes != 10)
      "GENRUN.ELF handle-spawn sequence invalid" []
  fail_if (count (0xB8 ∷ 0x35 ∷ 0x00 ∷ 0x00 ∷ 0x00 ∷ 0xCD ∷ 0x80 ∷ []) bytes != 9)
      "GENRUN.ELF handle-poll sequence invalid" []
  fail_if (count (0xB8 ∷ 0x36 ∷ 0x00 ∷ 0x00 ∷ 0x00 ∷ 0xCD ∷ 0x80 ∷ []) bytes != 10)
      "GENRUN.ELF handle-wait sequence invalid" []
  fail_if (count (0xB8 ∷ 0x37 ∷ 0x00 ∷ 0x00 ∷ 0x00 ∷ 0xCD ∷ 0x80 ∷ []) bytes != 2)
      "GENRUN.ELF handle-signal sequence invalid" []

unfoldable pub check_reuse : Bytes → Result (Unit {0})
check_reuse bytes = do
  fail_if (count (0xB8 ∷ 0x34 ∷ 0x00 ∷ 0x00 ∷ 0x00 ∷ 0xCD ∷ 0x80 ∷ []) bytes != 1)
      "REUSE.ELF current-handle call invalid" []
  fail_if
      (count (0xB8 ∷ 0x2B ∷ 0x00 ∷ 0x00 ∷ 0x00 ∷ 0xCD ∷ 0x80 ∷ []) bytes != 1
        || count (0xB8 ∷ 0x2C ∷ 0x00 ∷ 0x00 ∷ 0x00 ∷ 0xCD ∷ 0x80 ∷ []) bytes != 1)
      "REUSE.ELF yield/sleep sequence invalid" []

unfoldable pub check_forker : Bytes → Result (Unit {0})
check_forker bytes = do
  fail_if
      (not (bytes_eq (slice bytes 0x400 0x40B) (ascii "HELLO   TXT"))
        || not (bytes_eq (slice bytes 0x410 0x41B) (ascii "MISSING ELF")))
      "FORKER.ELF inherited/rejection names invalid" []
  fail_if
      (not (bytes_eq (slice bytes 0x420 0x42B) (ascii "EXECA   ELF"))
        || not (bytes_eq (slice bytes 0x430 0x43B) (ascii "EXECB   ELF")))
      "FORKER.ELF replacement names invalid" []
  fail_if (count (0xB8 ∷ 0x32 ∷ 0x00 ∷ 0x00 ∷ 0x00 ∷ 0xCD ∷ 0x80 ∷ []) bytes != 1)
      "FORKER.ELF fork-current sequence invalid" []
  fail_if (count (0xB8 ∷ 0x33 ∷ 0x00 ∷ 0x00 ∷ 0x00 ∷ 0xCD ∷ 0x80 ∷ []) bytes != 4)
      "FORKER.ELF atomic exec sequence invalid" []

unfoldable pub check_execa : Bytes → Result (Unit {0})
check_execa bytes = do
  fail_if
      (not (contains (0xBB ∷ 0xA1 ∷ 0x00 ∷ 0x00 ∷ 0x00 ∷ []) bytes)
        || not (contains (0xBB ∷ 0x01 ∷ 0x00 ∷ 0x00 ∷ 0x00 ∷ []) bytes))
      "EXECA.ELF exit/sleep contract invalid" []

unfoldable pub check_execb : Bytes → Result (Unit {0})
check_execb bytes = do
  fail_if
      (not (contains (0xBB ∷ 0xB2 ∷ 0x00 ∷ 0x00 ∷ 0x00 ∷ []) bytes)
        || not (contains (0xBB ∷ 0x05 ∷ 0x00 ∷ 0x00 ∷ 0x00 ∷ []) bytes))
      "EXECB.ELF exit/sleep contract invalid" []

unfoldable pub check_paths : Bytes → Result (Unit {0})
check_paths bytes = do
  fail_if
      (not (bytes_eq (slice bytes 0x700 0x701) (0x2F ∷ []))
        || not (bytes_eq (slice bytes 0x710 0x715) (ascii "/HOME"))
        || not (bytes_eq (slice bytes 0x720 0x724) (ascii "DOCS")))
      "PATHS.ELF root/home/docs strings invalid" []
  fail_if
      (not (bytes_eq (slice bytes 0x730 0x736) (ascii "./DOCS"))
        || not (bytes_eq (slice bytes 0x740 0x748) (ascii "../EMPTY")))
      "PATHS.ELF relative path strings invalid" []
  fail_if
      (not (bytes_eq (slice bytes 0x750 0x758) (ascii "TEMP.BIN"))
        || not (bytes_eq (slice bytes 0x770 0x77C) (ascii "../MOVED.BIN")))
      "PATHS.ELF move source/target strings invalid" []
  fail_if (not (bytes_eq (slice bytes 0x7B0 0x7BB) (ascii "RENAMED.BIN")))
      "PATHS.ELF same-directory rename string invalid" []
  fail_if
      (not (bytes_eq (slice bytes 0x780 0x787) (ascii "ARCHIVE"))
        || not (bytes_eq (slice bytes 0x7A0 0x7AF) (ascii "ARCHIVE/LOG.TXT")))
      "PATHS.ELF archive strings invalid" []
  fail_if (not (bytes_eq (slice bytes 0x7F0 0x808) (ascii "/HOME//ARCHIVE///LOG.TXT")))
      "PATHS.ELF absolute log path invalid" []
  fail_if (fnv1a32 (slice bytes 0xB00 0xD58) != 0x36F73195) "PATHS.ELF embedded payload invalid" []

-- The code reads EXECA.ELF and EXECB.ELF before it looks into either; the rows of the checks read them
-- once more, with the same outcome.
abbrev pub content_checks : List ContentCheck
content_checks =
    record { cluster = 2; size = 86; check = check_hello }
    ∷ record { cluster = 4; size = 510; check = check_cat }
    ∷ record { cluster = 11; size = 1488; check = check_writer }
    ∷ record { cluster = 14; size = 1362; check = check_service }
    ∷ record { cluster = 17; size = 1937; check = check_orch }
    ∷ record { cluster = 21; size = 913; check = check_child }
    ∷ record { cluster = 23; size = 2336; check = check_async_parent }
    ∷ record { cluster = 28; size = 824; check = check_worka }
    ∷ record { cluster = 30; size = 784; check = check_workb }
    ∷ record { cluster = 32; size = 692; check = check_leaf }
    ∷ record { cluster = 34; size = 2864; check = check_genrun }
    ∷ record { cluster = 40; size = 664; check = check_reuse }
    ∷ record { cluster = 42; size = 1144; check = check_forker }
    ∷ record { cluster = 45; size = 660; check = λ bytes. ok tt }
    ∷ record { cluster = 47; size = 660; check = λ bytes. ok tt }
    ∷ record { cluster = 45; size = 660; check = check_execa }
    ∷ record { cluster = 47; size = 660; check = check_execb }
    ∷ record { cluster = 49; size = 4024; check = check_paths }
    ∷ []

unfoldable pub verify_contents : Bytes → List ContentCheck → Result (Unit {0})
verify_contents volume [] = ok tt
verify_contents volume (c ∷ rest) = do
  file ← read_chain volume c.cluster c.size
  c.check file.bytes
  verify_contents volume rest
