-- ===== src/Serial.antt =====
-- The serial console of scripts/test-x86_64-persistence.py and the other boot tests: `read_available` and
-- `wait_for`. What the socket, the clock and the emulator's process answer, call after call, is an
-- argument.
pub mod Reading
pub mod Waiting
mod Examples
use zig_os.Base.{
  ℕ, ◌+◌, ltb, ◌==◌, Bool, true, false, if◌then◌else◌, List, [], ◌∷◌, ◌++◌, length, drop, Option,
  none, some,
}
use zig_os.Base.{Exception, runtime_error, os_error}
use zig_os.Bytes.{Bytes}
use zig_os.Abi.{ℤ, show_int}
use zig_os.Abi.Generate.{find_at}

-- What one `client.recv(65536)` does: it times out, fails otherwise, or returns bytes, none when the peer
-- has closed.
pub data Recv : Type 0 where
  timed_out : Recv
  socket_error : Recv
  chunk : Bytes → Recv

-- The output when the loop returns or fails, and `reading` while it goes on.
pub data Available : Type 0 where
  reading : Available
  has_read : Bytes → Available
  broke : Exception → Bytes → Available

unfoldable pub read_available : List Recv → Bytes → Available
read_available [] output = reading
read_available (timed_out ∷ rest) output = has_read output
read_available (socket_error ∷ rest) output = broke os_error output
read_available (chunk bytes ∷ rest) output =
    let more = read_available rest (output ++ bytes) in
    if length bytes == 0
    then has_read output
    else (if ltb (length bytes) 65536 then has_read (output ++ bytes) else more)

-- One round of the loop of `wait_for`: the clock at its head, the calls of `recv`, and `process.poll()`.
pub record Round : Type 0 where
  pub now : ℕ
  pub received : List Recv
  pub exit_code : Option ℤ

-- `marker in text`: `find` has an answer.
unfoldable pub is_some : Option ℕ → Bool
is_some none = false
is_some (some place) = true

unfoldable pub is_within : Bytes → Bytes → Bool
is_within marker text = is_some (find_at marker 0 text)

pub data Waited : Type 0 where
  found : Bytes → Waited
  failed : Exception → Bytes → Waited
  waiting : Bytes → Waited

-- What a round does when the marker was not found: `later` are the rounds behind it.
unfoldable pub poll_process : Option ℤ → Bytes → Bytes → Waited → Waited
poll_process none marker output later = later
poll_process (some code) marker output later =
    failed (runtime_error "QEMU exited with code {} before marker {}" (show_int code ++ marker))
      output

unfoldable pub look : Bytes → ℕ → Option ℤ → Available → Bytes → (Bytes → Waited) → Waited
look marker start_offset exit_code reading output later = waiting output
look marker start_offset exit_code (broke e now_read) output later = failed e now_read
look marker start_offset exit_code (has_read now_read) output later =
    let rest = poll_process exit_code marker now_read (later now_read) in
    if is_within marker (drop start_offset now_read) then found now_read else rest

-- The loop, and the failure behind it. (The tail of the output is left out of its message.)
unfoldable pub wait_for : List Round → Bytes → ℕ → ℕ → Bytes → Waited
wait_for [] marker start_offset deadline output = waiting output
wait_for (r ∷ rounds) marker start_offset deadline output =
    let round =
      look marker start_offset r.exit_code (read_available r.received output) output
        (wait_for rounds marker start_offset deadline) in
    if ltb r.now deadline
    then round
    else failed (runtime_error "timed out waiting for {}" marker) output

-- The call has ended.
unfoldable pub has_ended : Waited → Bool
has_ended (found output) = true
has_ended (failed e output) = true
has_ended (waiting output) = false
