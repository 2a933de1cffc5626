-- ===== src/Abi/Description.antt =====
-- `generate_c_abi_description` finds both of its markers in every header that `generate_c` makes.
use zig_os.Base.{
  ℕ, ◌≤◌, ◌<◌, ◌≡◌, ◌≢◌, refl, arith, ap, sym, ◌∙◌, [], ◌∷◌, ◌++◌, length, slice, take, drop, ascii,
  ok, some, length-append,
}
use mathlib.Core.List.{append_assoc}
use zig_os.Bytes.{Bytes}
use zig_os.Abi.{Spec, Group, join, flatten, syscall_count}
use zig_os.Abi.Constants.{c_parts, c_constants}
use zig_os.Abi.Declarations.{c_declarations}
use zig_os.Abi.Generate.{
  generate_c, start_marker, end_marker, generated_notice, entry_point, find_from, cut_start,
  cut_end, cut_description, generate_c_abi_description,
}
use zig_os.Abi.Text.{Within, Within-join, find_from-Within, join-append}

start-Within : (spec : Spec) (count : ℕ) → Within start_marker (join (c_constants spec count))
unfolding c_constants c_parts flatten take drop
start-Within spec count =
    let line = start_marker ++ ascii "\n" in
    let all =
      Within-join (c_constants spec count) (take 2 (c_constants spec count)) line
        (drop 3 (c_constants spec count)) refl in
    record { front = all.front; back = ascii "\n" ++ all.back; same = all.same }

end-Within : Within end_marker (join c_declarations)
unfolding c_declarations take drop
end-Within =
    let line = end_marker ++ ascii "\n" in
    let all =
      Within-join c_declarations (take 56 c_declarations) line (drop 57 c_declarations) refl in
    record { front = all.front; back = ascii "\n" ++ all.back; same = all.same }

-- The marker of the start before the marker of the end.
module _ (full first last : Bytes) (split : full ≡ first ++ last) (s : Within start_marker first)
    (e : Within end_marker last) where
  pub cut_description-Within :
      (start : ℕ) × (end : ℕ) × (cut_description full
        ≡ ok (generated_notice ++ (slice full start end ++ (entry_point ++ end_marker))))
      × (find_from full start_marker 0 ≡ some start)
      × (find_from full end_marker start ≡ some end)
      × (start ≤ end)
      × (end < length full)
  unfolding cut_description cut_start cut_end
  cut_description-Within =
      let begins : full ≡ s.front ++ (start_marker ++ (s.back ++ last)) =
        split
        ∙ ap (λ t. t ++ last) s.same
        ∙ append_assoc s.front (start_marker ++ s.back) last
        ∙ ap (λ t. s.front ++ t) (append_assoc start_marker s.back last) in
      let ends : full ≡ (first ++ e.front) ++ (end_marker ++ e.back) =
        split
        ∙ ap (λ t. first ++ t) e.same
        ∙ sym (append_assoc first e.front (end_marker ++ e.back)) in
      let (start, found, a, b) =
        find_from-Within start_marker s.front (s.back ++ last) 0 (omega arith) in
      let shorter : length s.front ≤ length first =
        omega (arith, ap length s.same, length-append s.front (start_marker ++ s.back)) in
      let (end, found', c, d) =
        find_from-Within end_marker (first ++ e.front) e.back start
          (omega (arith, length-append first e.front)) in
      let at_start = ap (λ t. find_from t start_marker 0) begins ∙ found in
      let at_end = ap (λ t. find_from t end_marker start) ends ∙ found' in
      (
        start,
        end,
        ap (cut_start full) at_start ∙ ap (cut_end full start) at_end,
        at_start,
        at_end,
        c,
        omega (arith, ap length ends, length-append (first ++ e.front) (end_marker ++ e.back)),
      )

pub counts : (group : Group) → group ≢ [] → (count : ℕ) × (syscall_count group ≡ ok count)
unfolding syscall_count
counts [] ne = absurd (ne refl)
counts ((name, value) ∷ rest) ne = (_, refl)

-- For a description with at least one system call: `generate_c` returns a header, both markers are found
-- in it, the end not before the start, and `generate_c_abi_description` does not raise an exception: it
-- returns its notice, the part of the header between the markers, and the entry point.
pub generate_c_abi_description-returns :
    (spec : Spec)
    → spec.syscalls ≢ []
    → (full : Bytes) × (start : ℕ) × (end : ℕ) × (generate_c spec ≡ ok full)
      × (find_from full start_marker 0 ≡ some start)
      × (find_from full end_marker start ≡ some end)
      × (start ≤ end)
      × (end < length full)
      × (generate_c_abi_description spec
          ≡ ok (generated_notice ++ (slice full start end ++ (entry_point ++ end_marker))))
unfolding generate_c_abi_description generate_c
generate_c_abi_description-returns spec some_calls =
    let (count, counted) = counts spec.syscalls some_calls in
    let full = join (c_constants spec count ++ c_declarations) in
    let (start, end, cut, a, b, c, d) =
      cut_description-Within full (join (c_constants spec count)) (join c_declarations)
        (join-append (c_constants spec count) c_declarations) (start-Within spec count)
        end-Within in
    (full, start, end, rw counted refl, a, b, c, d, rw counted cut)
