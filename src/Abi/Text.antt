-- ===== src/Abi/Text.antt =====
-- Texts that contain other texts, and what `find` returns for them.
use zig_os.Base.{zero, take, bytes_eq→eq}
use zig_os.Base.{
  ℕ, suc, ◌+◌, ◌≤◌, ◌≡◌, inl, inr, refl, arith, ap, sym, ◌∙◌, List, [], ◌∷◌, ◌++◌, length, drop,
  take-append_le, take_all, length-drop, drop-append_le,
}
use zig_os.Base.{true, false, Bool-cases, bytes_eq, bytes_eq_refl, some}
use mathlib.Core.Path.{subst}
use mathlib.Core.List.{append_assoc, append-nil}
use zig_os.Bytes.{Bytes}
use zig_os.Legacy.Content.{starts_with}
use zig_os.Abi.{join}
use zig_os.Abi.Generate.{find_at, find_from}

-- The text has the needle in it.
pub record Within (needle text : Bytes) : Type 0 where
  pub front : Bytes
  pub back : Bytes
  pub same : text ≡ front ++ (needle ++ back)

pub Within-self : (needle : Bytes) → Within needle needle
Within-self needle = record { front = []; back = []; same = sym (append-nil needle) }

pub Within-left : (needle xs ys : Bytes) → Within needle xs → Within needle (xs ++ ys)
Within-left needle xs ys w = record {
  front = w.front;
  back = w.back ++ ys;
  same =
      ap (λ t. t ++ ys) w.same
      ∙ append_assoc w.front (needle ++ w.back) ys
      ∙ ap (λ t. w.front ++ t) (append_assoc needle w.back ys);
}

pub Within-right : (needle xs ys : Bytes) → Within needle ys → Within needle (xs ++ ys)
Within-right needle xs ys w = record {
  front = xs ++ w.front;
  back = w.back;
  same = ap (λ t. xs ++ t) w.same ∙ sym (append_assoc xs w.front (needle ++ w.back));
}

starts_with-append : (needle back : Bytes) → starts_with needle (needle ++ back) ≡ true
unfolding starts_with
starts_with-append needle back =
    ap (λ t. bytes_eq t needle)
      (take-append_le (length needle) needle back (omega arith)
        ∙ take_all (length needle) needle (omega arith))
    ∙ bytes_eq_refl needle

found_here :
    (needle text : Bytes) (index : ℕ)
    → starts_with needle text ≡ true
    → find_at needle index text ≡ some index
unfolding find_at
found_here needle [] index h = rw h refl
found_here needle (b ∷ text) index h = rw h refl

found_later :
    (needle : Bytes) (b : ℕ) (text : Bytes) (index : ℕ)
    → starts_with needle (b ∷ text) ≡ false
    → find_at needle index (b ∷ text) ≡ find_at needle (index + 1) text
unfolding find_at
found_later needle b text index h = rw h refl

-- A text in which the needle stands is searched with success, and not behind that place.
pub find_at-Within :
    (needle front back : Bytes) (index : ℕ)
    → (place : ℕ) × (find_at needle index (front ++ (needle ++ back)) ≡ some (index + place))
      × (place ≤ length front)
find_at-Within needle [] back index =
    let none_added : index ≡ index + 0 = omega arith in
    (
      0,
      found_here needle (needle ++ back) index (starts_with-append needle back)
          ∙ ap some none_added,
      omega arith,
    )
find_at-Within needle (b ∷ front) back index =
    elim (Bool-cases (starts_with needle (b ∷ (front ++ (needle ++ back))))) [
      | inl h ↦
          let none_added : index ≡ index + 0 = omega arith in
          (
            0,
            found_here needle (b ∷ (front ++ (needle ++ back))) index h ∙ ap some none_added,
            omega arith,
          )
      | inr h ↦
          let (place, found, le) = find_at-Within needle front back (index + 1) in
          let next : index + 1 + place ≡ index + suc place = omega arith in
          (
            suc place,
            found_later needle b (front ++ (needle ++ back)) index h ∙ found ∙ ap some next,
            omega arith,
          )
    ]

-- `find` from a start that is not behind the needle.
pub find_from-Within :
    (needle front back : Bytes) (start : ℕ)
    → start ≤ length front
    → (place : ℕ) × (find_from (front ++ (needle ++ back)) needle start ≡ some place)
      × (start ≤ place)
      × (place ≤ length front)
unfolding find_from
find_from-Within needle front back start h =
    let (place, found, le) = find_at-Within needle (drop start front) back start in
    (
      start + place,
      ap (find_at needle start) (drop-append_le start front (needle ++ back) h) ∙ found,
      omega arith,
      omega (arith, length-drop start front),
    )

-- A line of a joined text.
pub Within-join :
    (lines : List Bytes) (front : List Bytes) (line : Bytes) (back : List Bytes)
    → lines ≡ front ++ line ∷ back
    → Within line (join lines)
unfolding join
Within-join lines [] line back e =
    subst (λ t. Within line (join t)) (sym e) (Within-left line line (join back) (Within-self line))
Within-join lines (other ∷ front) line back e =
    subst (λ t. Within line (join t)) (sym e)
      (Within-right line other (join (front ++ line ∷ back))
        (Within-join (front ++ line ∷ back) front line back refl))

pub join-append : (xs ys : List Bytes) → join (xs ++ ys) ≡ join xs ++ join ys
unfolding join
join-append [] ys = refl
join-append (line ∷ xs) ys =
    ap (λ t. line ++ t) (join-append xs ys) ∙ sym (append_assoc line (join xs) (join ys))

take_then_drop : (n : ℕ) (xs : Bytes) → take n xs ++ drop n xs ≡ xs
unfolding take drop
take_then_drop zero xs = refl
take_then_drop (suc n) [] = refl
take_then_drop (suc n) (x ∷ xs) = ap (λ t. x ∷ t) (take_then_drop n xs)

starts_with-Within : (needle text : Bytes) → starts_with needle text ≡ true → Within needle text
unfolding starts_with
starts_with-Within needle text h = record {
  front = [];
  back = drop (length needle) text;
  same =
      sym (take_then_drop (length needle) text)
      ∙ ap (λ t. t ++ drop (length needle) text) (bytes_eq→eq (take (length needle) text) needle h);
}

-- What `find` returns is a place where the needle stands.
pub find_at-found :
    (needle text : Bytes) (index place : ℕ)
    → find_at needle index text ≡ some place
    → Within needle text
unfolding find_at
find_at-found needle [] index place e = elim (Bool-cases (starts_with needle [])) [
  | inl h ↦ starts_with-Within needle [] h
  | inr h ↦ absurd (ground (arith, h, e))
]
find_at-found needle (b ∷ text) index place e = elim (Bool-cases (starts_with needle (b ∷ text))) [
  | inl h ↦ starts_with-Within needle (b ∷ text) h
  | inr h ↦
      let later : find_at needle (index + 1) text ≡ some place = ground (arith, h, e) in
      Within-right needle (b ∷ []) text (find_at-found needle text (index + 1) place later)
]
