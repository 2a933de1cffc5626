-- ===== src/Serial/Waiting.antt =====
-- `wait_for`: what it found, that it finds a marker that arrives in time, and that it ends.
use zig_os.Base.{
  ℕ, ◌+◌, ◌≤◌, ◌<◌, ◌≡◌, ◌⊎◌, inl, inr, refl, arith, ap, sym, ◌∙◌, List, [], ◌∷◌, ◌++◌, length,
  drop, true, false, Bool-cases, ltb, lt→ltb, le→not_ltb, Option, none, some,
}
use native.Mathlib.Decide.{dec_lt}
use mathlib.Core.Path.{subst}
use mathlib.Core.List.{append_assoc}
use zig_os.Bytes.{Bytes}
use zig_os.Abi.{ℤ}
use zig_os.Abi.Text.{Within}
use zig_os.Serial.{
  Round, Waited, found, Available, reading, has_read, broke, read_available, is_within,
  poll_process, look, wait_for, has_ended,
}
use zig_os.Serial.Reading.{
  is_within-true, is_within-Within, read_available-append, Ending, read_available-Ending, HasEnded,
  returned, raised,
}

module _ (marker : Bytes) (start_offset deadline : ℕ) where
  -- The three outcomes of a round that starts in time.
  round-found :
      (r : Round) (rounds : List Round) (output now_read : Bytes)
      → r.now < deadline
      → read_available r.received output ≡ has_read now_read
      → is_within marker (drop start_offset now_read) ≡ true
      → wait_for (r ∷ rounds) marker start_offset deadline output ≡ found now_read
  unfolding wait_for look
  round-found r rounds output now_read early read here =
      rw (lt→ltb r.now deadline early, read, here) refl

  round_on :
      (r : Round) (rounds : List Round) (output now_read : Bytes)
      → r.now < deadline
      → read_available r.received output ≡ has_read now_read
      → is_within marker (drop start_offset now_read) ≡ false
      → wait_for (r ∷ rounds) marker start_offset deadline output
        ≡ poll_process r.exit_code marker now_read
            (wait_for rounds marker start_offset deadline now_read)
  unfolding wait_for look
  round_on r rounds output now_read early read here =
      rw (lt→ltb r.now deadline early, read, here) refl

  -- The output after the rounds up to one that starts in time; the process runs on until then.
  pub data Delivered : List Round → Bytes → Bytes → Type 0 where
    arrives :
        (r : Round) (rounds : List Round) (output now_read : Bytes)
        → r.now < deadline
        → read_available r.received output ≡ has_read now_read
        → Delivered (r ∷ rounds) output now_read
    goes_on :
        (r : Round) (rounds : List Round) (output now_read final : Bytes)
        → r.now < deadline
        → read_available r.received output ≡ has_read now_read
        → r.exit_code ≡ none
        → Delivered rounds now_read final
        → Delivered (r ∷ rounds) output final

  -- When the output of some rounds that start before the deadline, in which the process does not exit, has
  -- the marker in it behind the start, `wait_for` returns.
  pub wait_for-Delivered :
      (rounds : List Round) (output final : Bytes)
      → Delivered rounds output final
      → Within marker (drop start_offset final)
      → (now_read : Bytes) × (wait_for rounds marker start_offset deadline output ≡ found now_read)
  unfolding poll_process
  wait_for-Delivered rounds output final (arrives r rest before now_read early read) w =
      (now_read, round-found r rest before now_read early read (is_within-true marker _ w))
  wait_for-Delivered rounds output final (goes_on r rest before now_read last early read runs more)
        w =
      elim (Bool-cases (is_within marker (drop start_offset now_read))) [
        | inl here ↦ (now_read, round-found r rest before now_read early read here)
        | inr absent ↦
            let (later, success) = wait_for-Delivered rest now_read last more w in
            (
              later,
              round_on r rest before now_read early read absent
                  ∙ ap
                      (λ t.
                        poll_process t marker now_read
                          (wait_for rest marker start_offset deadline now_read))
                      runs
                  ∙ success,
            )
      ]

-- A round whose reads are over ends the call, when the rounds behind it do.
look-has_ended :
    (marker : Bytes) (start_offset : ℕ) (code : Option ℤ) (read : Available) (output : Bytes)
    (later : Bytes → Waited)
    → HasEnded read
    → ((now_read : Bytes) → has_ended (later now_read) ≡ true)
    → has_ended (look marker start_offset code read output later) ≡ true
unfolding look has_ended poll_process
look-has_ended marker start_offset code read output later (raised e now_read) ends = refl
look-has_ended marker start_offset none read output later (returned now_read) ends =
    elim (Bool-cases (is_within marker (drop start_offset now_read))) [
      | inl here ↦ rw here refl
      | inr absent ↦ rw absent (ends now_read)
    ]
look-has_ended marker start_offset (some code) read output later (returned now_read) ends =
    elim (Bool-cases (is_within marker (drop start_offset now_read))) [
      | inl here ↦ rw here refl
      | inr absent ↦ rw absent refl
    ]

-- The clock advances by one at least from round to round, and the reads of every round end.
abbrev pub Clocked : ℕ → List Round → Type 0
Clocked earliest [] = Unit {0}
Clocked earliest (r ∷ rounds) =
    (earliest ≤ r.now) × Ending r.received × Clocked (earliest + 1) rounds

-- When the clock advances by one at least from round to round and the reads of every round end, `wait_for`
-- has returned or raised an exception after the rounds up to the deadline and one more.
pub wait_for-has_ended :
    (rounds : List Round) (marker : Bytes) (start_offset deadline started : ℕ) (output : Bytes)
    → Clocked started rounds
    → started ≤ deadline
    → deadline < started + length rounds
    → has_ended (wait_for rounds marker start_offset deadline output) ≡ true
unfolding wait_for has_ended poll_process
wait_for-has_ended [] marker start_offset deadline started output clocked before enough =
    absurd (omega arith)
wait_for-has_ended (r ∷ rounds) marker start_offset deadline started output (at, ends, clocked)
      before enough =
    elim (dec_lt r.now deadline) [
      | yes early ↦ rw (lt→ltb r.now deadline early) (
          look-has_ended marker start_offset r.exit_code (read_available r.received output) output
            (wait_for rounds marker start_offset deadline)
            (read_available-Ending r.received output ends)
            (λ now_read.
              wait_for-has_ended rounds marker start_offset deadline (started + 1) now_read clocked
                (omega arith) (omega arith)))
      | no late ↦ rw (le→not_ltb r.now deadline (omega arith)) refl
    ]

polled-found :
    (code : Option ℤ) (marker now_read final : Bytes) (later : Waited)
    → poll_process code marker now_read later ≡ found final
    → later ≡ found final
unfolding poll_process
polled-found none marker now_read final later e = e
polled-found (some c) marker now_read final later e = cc

-- A round that leads to success read output, and found the marker in it or left it to a later round.
look-found :
    (marker : Bytes) (start_offset : ℕ) (code : Option ℤ) (read : Available) (output final : Bytes)
    (later : Bytes → Waited)
    → look marker start_offset code read output later ≡ found final
    → (now_read : Bytes) × (read ≡ has_read now_read)
      × (((is_within marker (drop start_offset now_read) ≡ true) × (final ≡ now_read))
          ⊎ (later now_read ≡ found final))
unfolding look
look-found marker start_offset code reading output final later e = cc
look-found marker start_offset code (broke x y) output final later e = cc
look-found marker start_offset code (has_read now_read) output final later e =
    elim (Bool-cases (is_within marker (drop start_offset now_read))) [
      | inl here ↦ (now_read, refl, inl (here, ground (arith, here, e)))
      | inr absent ↦
          let polled : poll_process code marker now_read (later now_read) ≡ found final =
            ground (arith, absent, e) in
          (now_read, refl, inr (polled-found code marker now_read final (later now_read) polled))
    ]

-- What `wait_for` returns with has the marker in it behind the start, and is the output that there was with
-- bytes added at its end.
pub wait_for-found :
    (rounds : List Round) (marker : Bytes) (start_offset deadline : ℕ) (output final : Bytes)
    → wait_for rounds marker start_offset deadline output ≡ found final
    → Within marker (drop start_offset final) × (extra : Bytes) × (final ≡ output ++ extra)
unfolding wait_for
wait_for-found [] marker start_offset deadline output final e = cc
wait_for-found (r ∷ rounds) marker start_offset deadline output final e =
    elim (Bool-cases (ltb r.now deadline)) [
      | inl early ↦
          let round : look marker start_offset r.exit_code (read_available r.received output) output
                (wait_for rounds marker start_offset deadline)
              ≡ found final =
            ground (arith, early, e) in
          let (now_read, read, how) =
            look-found marker start_offset r.exit_code (read_available r.received output) output
              final (wait_for rounds marker start_offset deadline) round in
          let (extra, same) = read_available-append r.received output now_read read in
          elim how [
            | inl (here, last) ↦ (
              ap-Within last (is_within-Within marker (drop start_offset now_read) here),
              extra,
              last ∙ same,
            )
            | inr more ↦
                let (w, extra', same') =
                  wait_for-found rounds marker start_offset deadline now_read final more in
                (
                  w,
                  extra ++ extra',
                  same' ∙ ap (λ t. t ++ extra') same ∙ append_assoc output extra extra',
                )
          ]
      | inr late ↦ absurd (timed (late))
    ]
  where
    ap-Within :
        {now_read : Bytes}
        → final ≡ now_read
        → Within marker (drop start_offset now_read)
        → Within marker (drop start_offset final)
    ap-Within last w = subst (λ t. Within marker (drop start_offset t)) (sym last) w

    timed : ltb r.now deadline ≡ false → ⊥
    timed late = ground (arith, late, e)
