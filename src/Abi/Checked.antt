-- ===== src/Abi/Checked.antt =====
-- What `main --check` accepts, and that it accepts what `main` wrote.
use zig_os.Base.{
  ◌≡◌, refl, arith, ap, sym, ◌∙◌, [], ◌∷◌, Option, none, some, Bool, true, false, ◌==◌, ◌||◌,
  Bool-cases, inl, inr, if◌then◌else◌, ◌>>=◌, bytes_eq, bytes_eq_refl, bytes_eq→eq, ok, Result,
  >>=-eq-ok,
}
use zig_os.Bytes.{Bytes}
use zig_os.Abi.{Spec}
use zig_os.Abi.Generate.{Generated, generate, generate_c, generate_c_abi_description}
use zig_os.Abi.Files.{
  Files, read_file, write_file, newlines, decode_text, read_text, check_text, write_or_check,
  zig_path, nasm_path, sdk_path, header_path, description_path, generate_abi,
}

-- The text has a return in it.
unfoldable pub has_return : Bytes → Bool
has_return [] = false
has_return (b ∷ text) = (b == 13) || has_return text

newlines-plain : (text : Bytes) → has_return text ≡ false → newlines false text ≡ text
unfolding newlines has_return
newlines-plain [] h = refl
newlines-plain (b ∷ text) h =
    let first : (b == 13) ≡ false = ground arith in
    let rest : has_return text ≡ false = ground arith in
    rw first (ap (λ t. b ∷ t) (newlines-plain text rest))

read_file-write_file :
    (path content : Bytes) (files : Files)
    → read_file path (write_file path content files) ≡ some content
unfolding read_file write_file
read_file-write_file path content [] = rw (bytes_eq_refl path) refl
read_file-write_file path content ((name, old) ∷ files) = elim (Bool-cases (bytes_eq name path)) [
  | inl h ↦ rw (h, h) refl
  | inr h ↦ rw (h, h) (read_file-write_file path content files)
]

read_file-other :
    (path other content : Bytes) (files : Files)
    → bytes_eq path other ≡ false
    → read_file other (write_file path content files) ≡ read_file other files
unfolding read_file write_file
read_file-other path other content [] ne = rw ne refl
read_file-other path other content ((name, old) ∷ files) ne =
    elim (Bool-cases (bytes_eq name path)) [
      | inl h ↦
          let apart : bytes_eq name other ≡ false =
            ap (λ t. bytes_eq t other) (bytes_eq→eq name path h) ∙ ne in
          rw (h, apart) refl
      | inr h ↦ rw h (
          ap (λ t. if bytes_eq name other then some old else t)
            (read_file-other path other content files ne))
    ]

-- A check that returned read the text, and left the files alone.
check-ok :
    (path content : Bytes) (files files' : Files)
    → write_or_check path content true files ≡ ok files'
    → (read_text path files ≡ some content) × (files' ≡ files)
unfolding write_or_check check_text
check-ok path content files files' returned = by_text (read_text path files) returned
  where
    by_text :
        (text : Option Bytes)
        → (check_text path content text >>= λ done. ok files) ≡ ok files'
        → (text ≡ some content) × (files' ≡ files)
    by_text none e = cc
    by_text (some text) e = elim (Bool-cases (bytes_eq text content)) [
      | inl h ↦ (ap some (bytes_eq→eq text content h), ground (arith, h, e))
      | inr h ↦ absurd (ground (arith, h, e))
    ]

check-accepts :
    (path content : Bytes) (files : Files)
    → read_file path files ≡ some content
    → has_return content ≡ false
    → write_or_check path content true files ≡ ok files
unfolding write_or_check check_text read_text decode_text
check-accepts path content files e plain =
    let read : read_text path files ≡ some content =
      ap decode_text e ∙ ap some (newlines-plain content plain) in
    ap (λ t. check_text path content t >>= λ done. ok files) read ∙ rw (bytes_eq_refl content) refl

-- The five texts of a description, as the files hold them.
pub record Texts (spec : Spec) : Type 0 where
  pub texts : Generated
  pub header : Bytes
  pub description : Bytes
  pub generated : generate spec ≡ ok texts
  pub header_made : generate_c spec ≡ ok header
  pub description_made : generate_c_abi_description spec ≡ ok description

-- The five calls, for texts that are already made.
module _ (zig nasm sdk header description : Bytes) where
  all_texts : Bool → Files → Result Files
  all_texts check files0 = do
    files1 ← write_or_check zig_path zig check files0
    files2 ← write_or_check nasm_path nasm check files1
    files3 ← write_or_check sdk_path sdk check files2
    files4 ← write_or_check header_path header check files3
    write_or_check description_path description check files4

  written : Files → Files
  written files = write_file description_path description (
      write_file header_path header
        (write_file sdk_path sdk (write_file nasm_path nasm (write_file zig_path zig files))))

  all-written : (files : Files) → all_texts false files ≡ ok (written files)
  unfolding all_texts written write_or_check
  all-written files = refl

  -- What the five files hold behind the writes.
  written-reads :
      (files : Files)
      → (read_file zig_path (written files) ≡ some zig)
        × (read_file nasm_path (written files) ≡ some nasm)
        × (read_file sdk_path (written files) ≡ some sdk)
        × (read_file header_path (written files) ≡ some header)
        × (read_file description_path (written files) ≡ some description)
  unfolding written bytes_eq
  written-reads files =
      let f1 = write_file zig_path zig files in
      let f2 = write_file nasm_path nasm f1 in
      let f3 = write_file sdk_path sdk f2 in
      let f4 = write_file header_path header f3 in
      (
        read_file-other description_path zig_path description f4 refl
            ∙ read_file-other header_path zig_path header f3 refl
            ∙ read_file-other sdk_path zig_path sdk f2 refl
            ∙ read_file-other nasm_path zig_path nasm f1 refl
            ∙ read_file-write_file zig_path zig files,
        read_file-other description_path nasm_path description f4 refl
            ∙ read_file-other header_path nasm_path header f3 refl
            ∙ read_file-other sdk_path nasm_path sdk f2 refl
            ∙ read_file-write_file nasm_path nasm f1,
        read_file-other description_path sdk_path description f4 refl
            ∙ read_file-other header_path sdk_path header f3 refl
            ∙ read_file-write_file sdk_path sdk f2,
        read_file-other description_path header_path description f4 refl
            ∙ read_file-write_file header_path header f3,
        read_file-write_file description_path description f4,
      )

  all-accepted :
      (files : Files)
      → has_return zig ≡ false
      → has_return nasm ≡ false
      → has_return sdk ≡ false
      → has_return header ≡ false
      → has_return description ≡ false
      → all_texts true (written files) ≡ ok (written files)
  unfolding all_texts
  all-accepted files a b c d e =
      let (r1, r2, r3, r4, r5) = written-reads files in
      let now = written files in
      rw
        (
          check-accepts zig_path zig now r1 a,
          check-accepts nasm_path nasm now r2 b,
          check-accepts sdk_path sdk now r3 c,
          check-accepts header_path header now r4 d,
        )
        (check-accepts description_path description now r5 e)

  all-stale :
      (files files' : Files)
      → all_texts true files ≡ ok files'
      → (files' ≡ files)
        × (read_text zig_path files ≡ some zig)
        × (read_text nasm_path files ≡ some nasm)
        × (read_text sdk_path files ≡ some sdk)
        × (read_text header_path files ≡ some header)
        × (read_text description_path files ≡ some description)
  unfolding all_texts
  all-stale files files' accepted =
      let (f1, rest1, ok1) = >>=-eq-ok (write_or_check zig_path zig true files) _ accepted in
      let (f2, rest2, ok2) = >>=-eq-ok (write_or_check nasm_path nasm true f1) _ rest1 in
      let (f3, rest3, ok3) = >>=-eq-ok (write_or_check sdk_path sdk true f2) _ rest2 in
      let (f4, rest4, ok4) = >>=-eq-ok (write_or_check header_path header true f3) _ rest3 in
      let (r1, e1) = check-ok zig_path zig files f1 ok1 in
      let (r2, e2) = check-ok nasm_path nasm f1 f2 ok2 in
      let (r3, e3) = check-ok sdk_path sdk f2 f3 ok3 in
      let (r4, e4) = check-ok header_path header f3 f4 ok4 in
      let (r5, e5) = check-ok description_path description f4 files' rest4 in
      let s2 : f2 ≡ files = e2 ∙ e1 in
      let s3 : f3 ≡ files = e3 ∙ s2 in
      let s4 : f4 ≡ files = e4 ∙ s3 in
      (
        e5 ∙ s4,
        r1,
        ap (read_text nasm_path) (sym e1) ∙ r2,
        ap (read_text sdk_path) (sym s2) ∙ r3,
        ap (read_text header_path) (sym s3) ∙ r4,
        ap (read_text description_path) (sym s4) ∙ r5,
      )

to_all_texts :
    (spec : Spec) (t : Texts spec) (check : Bool) (files : Files)
    → generate_abi spec check files
      ≡ all_texts t.texts.zig t.texts.nasm t.texts.sdk t.header t.description check files
unfolding generate_abi all_texts
to_all_texts spec t check files = rw (t.generated, t.header_made, t.description_made) refl

-- When the texts of a description can be made and have no return in them, `main` writes them, and
-- `main --check` on the files that it leaves accepts them and leaves them alone.
pub generate_abi-check :
    (spec : Spec) (files : Files) (t : Texts spec)
    → has_return t.texts.zig ≡ false
    → has_return t.texts.nasm ≡ false
    → has_return t.texts.sdk ≡ false
    → has_return t.header ≡ false
    → has_return t.description ≡ false
    → (files' : Files) × (generate_abi spec false files ≡ ok files')
      × (generate_abi spec true files' ≡ ok files')
generate_abi-check spec files t a b c d e =
    let now = written t.texts.zig t.texts.nasm t.texts.sdk t.header t.description files in
    (
      now,
      to_all_texts spec t false files ∙ all-written _ _ _ _ _ files,
      to_all_texts spec t true now ∙ all-accepted _ _ _ _ _ files a b c d e,
    )

-- When `main --check` accepts the files for a description whose texts can be made, it leaves the files
-- alone, and each of the five reads as the text that is generated for it.
pub generate_abi-stale :
    (spec : Spec) (files files' : Files) (t : Texts spec)
    → generate_abi spec true files ≡ ok files'
    → (files' ≡ files)
      × (read_text zig_path files ≡ some t.texts.zig)
      × (read_text nasm_path files ≡ some t.texts.nasm)
      × (read_text sdk_path files ≡ some t.texts.sdk)
      × (read_text header_path files ≡ some t.header)
      × (read_text description_path files ≡ some t.description)
generate_abi-stale spec files files' t accepted =
    all-stale _ _ _ _ _ files files' (sym (to_all_texts spec t true files) ∙ accepted)
