-- ===== src/Abi/Lines.antt =====
-- The lines that a group of constants puts into a joined text.
use zig_os.Base.{◌≡◌, refl, ap, sym, ◌∙◌, List, [], ◌∷◌, ◌++◌}
use mathlib.Core.Path.{subst}
use zig_os.Bytes.{Bytes}
use zig_os.Abi.{ℤ, Group, constant_lines, flatten, join}
use zig_os.Abi.Text.{Within, Within-left, Within-right, Within-join, join-append}

constant_lines-append :
    (line : Bytes → ℤ → Bytes) (front : Group) (name : Bytes) (value : ℤ) (back : Group)
    → constant_lines (front ++ (name, value) ∷ back) line
      ≡ constant_lines front line ++ line name value ∷ constant_lines back line
unfolding constant_lines
constant_lines-append line [] name value back = refl
constant_lines-append line ((other, v) ∷ front) name value back =
    ap (λ t. line other v ∷ t) (constant_lines-append line front name value back)

-- An entry of a group whose lines are a part of the text.
pub Within-parts :
    (parts front : List (List Bytes)) (line : Bytes → ℤ → Bytes) (group before : Group)
    (name : Bytes) (value : ℤ) (after : Group) (back : List (List Bytes))
    → parts ≡ front ++ constant_lines group line ∷ back
    → group ≡ before ++ (name, value) ∷ after
    → Within (line name value) (join (flatten parts))
unfolding flatten
Within-parts parts [] line group before name value after back e g =
    subst (λ t. Within (line name value) (join (flatten t))) (sym e)
      (subst (λ t. Within (line name value) t)
        (sym (join-append (constant_lines group line) (flatten back)))
        (Within-left (line name value) (join (constant_lines group line)) (join (flatten back)) (
          Within-join (constant_lines group line) (constant_lines before line) (line name value)
            (constant_lines after line)
            (ap (λ t. constant_lines t line) g
              ∙ constant_lines-append line before name value after))))
Within-parts parts (part ∷ front) line group before name value after back e g =
    subst (λ t. Within (line name value) (join (flatten t))) (sym e)
      (subst (λ t. Within (line name value) t)
        (sym (join-append part (flatten (front ++ constant_lines group line ∷ back))))
        (Within-right (line name value) (join part) _ (
          Within-parts (front ++ constant_lines group line ∷ back) front line group before name
            value after back refl g)))
