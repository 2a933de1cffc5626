-- ===== src/Journal/RoundTrip.antt =====
-- The parsers of the journal return the records that were encoded.
use zig_os.Base.{
  inl, inr, ℕ, suc, ◌+◌, ◌-◌, ◌^◌, ◌≤◌, ◌<◌, ◌≡◌, refl, arith, ap, sym, ◌∙◌, List, [], ◌∷◌, ◌++◌,
}
use zig_os.Base.{
  length, slice, take, drop, drop-drop, drop-append_ge, take-append_le, take_all, length-drop,
  length-append,
}
use zig_os.Base.{
  true, false, Bool-cases, lt→ltb, le→not_ltb, ◌!=◌, bytes_eq, bytes_eq_refl, bytes_eq→eq, ok,
}
use mathlib.Core.List.{append_assoc, append-nil}
use zig_os.Bytes.{Bytes, le_bytes, from_le, byte_at, decode_ascii}
use zig_os.Bytes.Words.{from_le-le_bytes}
use zig_os.Bytes.Region.{byte_at-slice}
use zig_os.Bytes.Image.{slice_part}
use zig_os.Journal.Header.{field}
use zig_os.Journal.Records.{JournalRecord, JournalRecords, has_path, or_else, parse_loop}
use zig_os.Journal.Encoding.{
  record_header, StoredRecord, encode_records, entries, IsAscii, Encodable, AllEncodable,
}

-- The bytes that stand at a place, from what is left of the buffer there.
pub slice_here :
    (payload : Bytes) (at : ℕ) (xs ys : Bytes) (end : ℕ)
    → drop at payload ≡ xs ++ ys
    → at + length xs ≡ end
    → slice payload at end ≡ xs
unfolding slice
slice_here payload at xs ys end e n =
    let width : end - at ≡ length xs = omega arith in
    rw (e, width)
      (take-append_le (length xs) xs ys (omega arith) ∙ take_all (length xs) xs (omega arith))

pub drop_here :
    (payload : Bytes) (at : ℕ) (xs ys : Bytes) (end : ℕ)
    → drop at payload ≡ xs ++ ys
    → at + length xs ≡ end
    → drop end payload ≡ ys
unfolding drop
drop_here payload at xs ys end e n =
    ap (λ t. drop t payload) (sym n)
    ∙ sym (drop-drop (length xs) at payload)
    ∙ ap (drop (length xs)) e
    ∙ drop-append_ge (length xs) 0 xs ys (omega arith)

length-here :
    (payload : Bytes) (at : ℕ) (xs : Bytes)
    → at ≤ length payload
    → drop at payload ≡ xs
    → length payload ≡ at + length xs
length-here payload at xs inside e = omega (arith, length-drop at payload, ap length e)

length-record_header : (r : JournalRecord) (n : ℕ) → length (record_header r n) ≡ 48
unfolding record_header le_bytes
length-record_header r n = refl

decode_ascii-IsAscii : (path : Bytes) → IsAscii path → decode_ascii path ≡ ok path
unfolding decode_ascii
decode_ascii-IsAscii [] h = refl
decode_ascii-IsAscii (b ∷ path) (hb, h) = rw (decode_ascii-IsAscii path h, lt→ltb b 128 hb) refl

module _ (payload : Bytes) (at : ℕ) (r : JournalRecord) (n : ℕ) (inside : at + 48 ≤ length payload)
    (here : slice payload at (at + 48) ≡ record_header r n) where
  header_part :
      (i j width value : ℕ)
      → i ≤ j
      → j ≤ 48
      → value < 256 ^ width
      → slice (record_header r n) i j ≡ le_bytes width value
      → field payload (at + i) (at + j) ≡ value
  unfolding field
  header_part i j width value o h fits e =
      ap from_le (slice_part payload (record_header r n) at (at + 48) i j o (omega arith) here ∙ e)
      ∙ from_le-le_bytes width value fits

  header_byte :
      (i v : ℕ)
      → i < 48
      → slice (record_header r n) i (i + 1) ≡ v ∷ []
      → byte_at payload (at + i) ≡ ok v
  header_byte i v h e =
      let next : at + i + 1 ≡ at + (i + 1) = omega arith in
      byte_at-slice payload (at + i) v (omega arith) (
        ap (λ t. slice payload (at + i) t) next
        ∙ slice_part payload (record_header r n) at (at + 48) i (i + 1) (omega arith) (omega arith)
            here
        ∙ e)

-- One turn of the loop over a record that stands in the payload.
module _ (payload : Bytes) (slot left index at : ℕ) (records : JournalRecords) (s : StoredRecord)
    (rest : Bytes) (fits : Encodable s) where
  parse_step :
      at ≤ length payload
      → drop at payload
        ≡ record_header s.entry (length s.content) ++ (s.entry.path ++ (s.content ++ rest))
      → has_path s.entry.path records ≡ false
      → parse_loop payload slot (suc left) index at records
        ≡ parse_loop payload slot left
            (index + 1)
            (at + 48 + length s.entry.path + length s.content)
            (records ++ (s.entry.path, s.entry) ∷ [])
  unfolding parse_loop record_header slice take drop le_bytes or_else
  parse_step inside here fresh =
      let r = s.entry in
      let n = length s.content in
      let size = length-record_header r n in
      let all = length-here payload at _ inside here in
      let sum = length-append (record_header r n) (r.path ++ (s.content ++ rest)) in
      let sum' = length-append r.path (s.content ++ rest) in
      let sum'' = length-append s.content rest in
      let head = slice_here payload at (record_header r n) _ (at + 48) here (omega (arith, size)) in
      let body = drop_here payload at (record_header r n) _ (at + 48) here (omega (arith, size)) in
      let part = header_part payload at r n (omega arith) head in
      let byte = header_byte payload at r n (omega arith) head in
      let same : at + 0 ≡ at = omega arith in
      let count : field payload (at + 4) (at + 8) ≡ n =
        part 4 8 4 n (omega arith) (omega arith) fits.data_length refl in
      rw
        (
          le→not_ltb (length payload) (at + 48) (omega arith),
          ap (byte_at payload) (sym same) ∙ byte 0 r.kind (omega arith) refl,
          byte 1 (length r.path) (omega arith) refl,
          count,
          le→not_ltb (length payload) (at + 48 + length r.path + n) (omega arith),
          slice_here payload (at + 48) r.path _ (at + 48 + length r.path) body (omega arith),
          decode_ascii-IsAscii r.path fits.path,
          fresh,
          part 2 4 2 r.mode (omega arith) (omega arith) fits.mode refl,
          part 8 16 8 r.created_tick (omega arith) (omega arith) fits.times.0 refl,
          part 16 24 8 r.modified_tick (omega arith) (omega arith) fits.times.1 refl,
          part 24 32 8 r.changed_tick (omega arith) (omega arith) fits.times.2 refl,
          part 32 40 8 r.accessed_tick (omega arith) (omega arith) fits.times.3 refl,
          part 40 44 4 r.uid (omega arith) (omega arith) fits.owner.0 refl,
          part 44 48 4 r.gid (omega arith) (omega arith) fits.owner.1 refl,
        )
        refl

bytes_eq-sym : (xs ys : Bytes) → bytes_eq xs ys ≡ false → bytes_eq ys xs ≡ false
bytes_eq-sym xs ys h = elim (Bool-cases (bytes_eq ys xs)) [
  | inl e ↦
      let same : bytes_eq xs ys ≡ true =
        ap (λ t. bytes_eq t ys) (sym (bytes_eq→eq ys xs e)) ∙ bytes_eq_refl ys in
      absurd (true-ne-false (sym same ∙ h))
  | inr e ↦ e
]
  where
    true-ne-false : true ≡ false → ⊥
    true-ne-false e = cc

has_path-append :
    (p q : Bytes) (r : JournalRecord) (records : JournalRecords)
    → has_path p records ≡ false
    → bytes_eq q p ≡ false
    → has_path p (records ++ (q, r) ∷ []) ≡ false
unfolding has_path
has_path-append p q r [] h e = rw e refl
has_path-append p q r ((key, k) ∷ records) h e =
    let first : bytes_eq key p ≡ false = ground arith in
    let rest : has_path p records ≡ false = ground arith in
    rw first (has_path-append p q r records rest e)

-- None of the records has a path that was read before.
pub Unread : JournalRecords → List StoredRecord → Type 0
Unread records [] = Unit {0}
Unread records (s ∷ stored) = (has_path s.entry.path records ≡ false) × Unread records stored

Unread-suc :
    (records : JournalRecords) (s : StoredRecord) (stored : List StoredRecord)
    → Unread records stored
    → has_path s.entry.path (entries stored) ≡ false
    → Unread (records ++ (s.entry.path, s.entry) ∷ []) stored
unfolding Unread entries has_path
Unread-suc records s [] u h = tt
Unread-suc records s (t ∷ stored) (u, us) h =
    let other : bytes_eq t.entry.path s.entry.path ≡ false = ground arith in
    let rest : has_path s.entry.path (entries stored) ≡ false = ground arith in
    (
      has_path-append t.entry.path s.entry.path s.entry records u (bytes_eq-sym _ _ other),
      Unread-suc records s stored us rest,
    )

pub Unread-nil : (stored : List StoredRecord) → Unread [] stored
unfolding Unread has_path
Unread-nil [] = tt
Unread-nil (s ∷ stored) = (refl, Unread-nil stored)

-- The loop over all records.
pub parse_loop-encode_records :
    (payload : Bytes) (slot index at : ℕ) (records : JournalRecords) (stored : List StoredRecord)
    → at ≤ length payload
    → drop at payload ≡ encode_records stored
    → AllEncodable stored
    → Unread records stored
    → parse_loop payload slot (length stored) index at records ≡ ok (records ++ entries stored)
unfolding encode_records entries Unread
parse_loop-encode_records payload slot index at records [] inside here all unread =
    let end : (at != length payload) ≡ false =
      ground (arith, length-here payload at [] inside here) in
    unfold parse_loop in rw end (ap ok (sym (append-nil records)))
parse_loop-encode_records payload slot index at records (s ∷ stored) inside here
      (fits, distinct, all) (fresh, unread) =
    let rest = encode_records stored in
    let head = length-record_header s.entry (length s.content) in
    let next =
      drop_here payload at (record_header s.entry (length s.content)) _ (at + 48) here
        (omega (arith, head)) in
    let next' =
      drop_here payload (at + 48) s.entry.path _ (at + 48 + length s.entry.path) next
        (omega arith) in
    let next'' =
      drop_here payload (at + 48 + length s.entry.path) s.content rest
        (at + 48 + length s.entry.path + length s.content) next' (omega arith) in
    let total = length-here payload at _ inside here in
    parse_step payload slot (length stored) index at records s rest fits inside here fresh
    ∙ parse_loop-encode_records payload slot (index + 1)
        (at + 48 + length s.entry.path + length s.content) (records ++ (s.entry.path, s.entry) ∷ [])
        stored
        (omega (
          arith,
          total,
          head,
          length-append (record_header s.entry (length s.content))
              (s.entry.path ++ (s.content ++ rest)),
          length-append s.entry.path (s.content ++ rest),
          length-append s.content rest,
        ))
        next'' all (Unread-suc records s stored unread distinct)
    ∙ ap ok (append_assoc records ((s.entry.path, s.entry) ∷ []) (entries stored))
