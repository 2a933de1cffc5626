-- ===== src/Serial/Reading.antt =====
-- What `read_available` adds to the output, and when it returns.
use zig_os.Base.{
  ℕ, ◌<◌, ◌≡◌, ◌⊎◌, inl, inr, refl, arith, ap, ◌∙◌, List, [], ◌∷◌, ◌++◌, length, true, Bool-cases,
  ltb, lt→ltb, ◌==◌, Option, none, some, Exception, os_error,
}
use mathlib.Core.List.{append_assoc, append-nil}
use zig_os.Bytes.{Bytes}
use zig_os.Abi.Generate.{find_at}
use zig_os.Abi.Text.{Within, find_at-Within, find_at-found}
use zig_os.Serial.{
  Recv, timed_out, socket_error, chunk, Available, has_read, broke, read_available, is_some,
  is_within,
}

pub is_within-true : (marker text : Bytes) → Within marker text → is_within marker text ≡ true
unfolding is_within is_some
is_within-true marker text w =
    let (place, found_at, le) = find_at-Within marker w.front w.back 0 in
    ap (λ t. is_some (find_at marker 0 t)) w.same ∙ ap is_some found_at

pub is_within-Within : (marker text : Bytes) → is_within marker text ≡ true → Within marker text
unfolding is_within is_some
is_within-Within marker text h = by_place (find_at marker 0 text) refl h
  where
    by_place :
        (place : Option ℕ)
        → find_at marker 0 text ≡ place
        → is_some place ≡ true
        → Within marker text
    by_place none e t = cc
    by_place (some place) e t = find_at-found marker text 0 place e

-- The output grows at its end.
pub read_available-append :
    (received : List Recv) (output now_read : Bytes)
    → read_available received output ≡ has_read now_read
    → (extra : Bytes) × (now_read ≡ output ++ extra)
unfolding read_available
read_available-append [] output now_read e = cc
read_available-append (timed_out ∷ rest) output now_read e =
    ([], ground (arith, e, append-nil output))
read_available-append (socket_error ∷ rest) output now_read e = cc
read_available-append (chunk bytes ∷ rest) output now_read e =
    elim (Bool-cases (length bytes == 0)) [
      | inl closed ↦ ([], ground (arith, closed, e, append-nil output))
      | inr more ↦ elim (Bool-cases (ltb (length bytes) 65536)) [
        | inl short ↦ (bytes, ground (arith, more, short, e))
        | inr long ↦
            let on : read_available rest (output ++ bytes) ≡ has_read now_read =
              ground (arith, more, long, e) in
            let (extra, same) = read_available-append rest (output ++ bytes) now_read on in
            (bytes ++ extra, same ∙ append_assoc output bytes extra)
      ]
    ]

-- One of the calls of `recv` times out, fails, or returns less than it was asked for.
abbrev pub Ending : List Recv → Type 0
Ending [] = ⊥
Ending (timed_out ∷ rest) = Unit {0}
Ending (socket_error ∷ rest) = Unit {0}
Ending (chunk bytes ∷ rest) = (length bytes < 65536) ⊎ Ending rest

-- The reads of a round are over: they returned, or failed.
pub data HasEnded : Available → Type 0 where
  returned : (now_read : Bytes) → HasEnded (has_read now_read)
  raised : (e : Exception) (now_read : Bytes) → HasEnded (broke e now_read)

pub read_available-Ending :
    (received : List Recv) (output : Bytes)
    → Ending received
    → HasEnded (read_available received output)
unfolding read_available
read_available-Ending [] output e = absurd e
read_available-Ending (timed_out ∷ rest) output e = returned output
read_available-Ending (socket_error ∷ rest) output e = raised os_error output
read_available-Ending (chunk bytes ∷ rest) output (inl short) =
    elim (Bool-cases (length bytes == 0)) [
      | inl closed ↦ rw closed (returned output)
      | inr more ↦ rw (more, lt→ltb (length bytes) 65536 short) (returned (output ++ bytes))
    ]
read_available-Ending (chunk bytes ∷ rest) output (inr later) =
    elim (Bool-cases (length bytes == 0)) [
      | inl closed ↦ rw closed (returned output)
      | inr more ↦ elim (Bool-cases (ltb (length bytes) 65536)) [
        | inl short ↦ rw (more, short) (returned (output ++ bytes))
        | inr long ↦ rw (more, long) (read_available-Ending rest (output ++ bytes) later)
      ]
    ]
