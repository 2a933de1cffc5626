-- ===== src/Serial/Examples.antt =====
-- The theorems on the serial console at two rounds: nothing at first, and then a prompt.
use zig_os.Base.{◌≡◌, refl, arith, inl, List, [], ◌∷◌, ◌++◌, ascii, drop, true, none}
use zig_os.Bytes.{Bytes}
use zig_os.Abi.Generate.{find_at}
use zig_os.Abi.Text.{Within}
use zig_os.Legacy.Content.{starts_with}
use zig_os.Base.{bytes_eq, take}
use zig_os.Serial.{
  timed_out, chunk, Round, found, wait_for, has_ended, read_available, is_within, is_some, look,
  poll_process,
}
use zig_os.Serial.Waiting.{
  Delivered, arrives, goes_on, wait_for-Delivered, wait_for-has_ended, wait_for-found,
}

abbrev quiet : Round
quiet = record { now = 10; received = timed_out ∷ []; exit_code = none }

abbrev prompt : Round
prompt = record { now = 11; received = chunk (ascii "boot root# ") ∷ []; exit_code = none }

abbrev two_rounds : List Round
two_rounds = quiet ∷ prompt ∷ []

abbrev three_rounds : List Round
three_rounds = quiet ∷ quiet_later ∷ prompt_later ∷ []
  where
    quiet_later : Round
    quiet_later = record { now = 11; received = timed_out ∷ []; exit_code = none }

    prompt_later : Round
    prompt_later = record { now = 12; received = chunk (ascii "root# ") ∷ []; exit_code = none }

delivered : Delivered (ascii "root# ") 0 20 two_rounds [] (ascii "boot root# ")
unfolding read_available
delivered =
    goes_on quiet (prompt ∷ []) [] [] (ascii "boot root# ") (omega arith) refl refl
      (arrives prompt [] [] (ascii "boot root# ") (omega arith) refl)

wait_for-Delivered_example :
    (now_read : Bytes) × (wait_for two_rounds (ascii "root# ") 0 20 [] ≡ found now_read)
wait_for-Delivered_example =
    wait_for-Delivered (ascii "root# ") 0 20 two_rounds [] (ascii "boot root# ") delivered
      (record { front = ascii "boot "; back = []; same = unfold drop in refl })

wait_for-has_ended_example : has_ended (wait_for three_rounds (ascii "login") 0 12 []) ≡ true
wait_for-has_ended_example =
    wait_for-has_ended three_rounds (ascii "login") 0 12 10 []
      (omega arith, tt, (omega arith, tt, (omega arith, inl (omega arith), tt))) (omega arith)
      (omega arith)

prompt_found : wait_for two_rounds (ascii "root# ") 0 20 [] ≡ found (ascii "boot root# ")
unfolding wait_for look poll_process read_available is_within is_some find_at starts_with bytes_eq
    take drop
prompt_found = refl

wait_for-found_example :
    Within (ascii "root# ") (drop 0 (ascii "boot root# "))
    × (extra : Bytes) × (ascii "boot root# " ≡ [] ++ extra)
wait_for-found_example =
    wait_for-found two_rounds (ascii "root# ") 0 20 [] (ascii "boot root# ") prompt_found
