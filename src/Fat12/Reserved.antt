-- ===== src/Fat12/Reserved.antt =====
-- The entries that belong to no file: the two reserved ones, and those behind the last file.
use zig_os.Base.{ℕ, zero, suc, ◌+◌, ◌<◌, ◌≤◌, ◌≡◌, refl, arith, ok, ap, sym, ◌∙◌}
use zig_os.Base.{[], ◌∷◌, ◌++◌, get_or, slice, replicate}
use zig_os.Bytes.{Bytes, zeros, put, byte_at}
use zig_os.Fat12.Entry.{fat_entry}
use zig_os.Fat12.Entry.Laws.{fat_entry-entry_value, entry_value, at_offset}
use zig_os.Fat12.Linked.{IsTable}

abbrev pub reserved_entries : Bytes
reserved_entries = 0xF0 ∷ 0xFF ∷ 0xFF ∷ []

ok_injective : (a b : ℕ) → ok a ≡ ok b → a ≡ b
ok_injective a b h = cc

values :
    (a b c : ℕ)
    → a < 256
    → b < 256
    → c < 256
    → entry_value 0 a b ≡ 0xFF0
    → entry_value 1 b c ≡ 0xFFF
    → (a ≡ 0xF0) × (b ≡ 0xFF) × (c ≡ 0xFF)
unfolding entry_value
values a b c ha hb hc e f = (omega arith, omega arith, omega arith)

-- The values of entries 0 and 1 fix the first three bytes of a table.
pub reserved_bytes :
    (fat : Bytes)
    → IsTable fat
    → fat_entry fat 0 ≡ ok 0xFF0
    → fat_entry fat 1 ≡ ok 0xFFF
    → slice fat 0 3 ≡ reserved_entries
unfolding slice
reserved_bytes [] t e f = absurd (omega (arith, t.size))
reserved_bytes (a ∷ []) t e f = absurd (omega (arith, t.size))
reserved_bytes (a ∷ b ∷ []) t e f = absurd (omega (arith, t.size))
reserved_bytes (a ∷ b ∷ c ∷ fat) t e f =
    let table = a ∷ b ∷ c ∷ fat in
    let (ha, rest) = t.bytes in
    let (hb, rest2) = rest in
    let (hc, rest3) = rest2 in
    let e0 = fat_entry-entry_value table 0 t.bytes (omega (arith, t.size)) in
    let e1 = fat_entry-entry_value table 1 t.bytes (omega (arith, t.size)) in
    let (va, vb, vc) =
      values a b c ha hb hc (ok_injective _ _ (sym e0 ∙ e)) (ok_injective _ _ (sym e1 ∙ f)) in
    rw (va, vb, vc) refl

abbrev pub blank_table : Bytes
blank_table = put (zeros 4608) 0 reserved_entries

blank_table-append : blank_table ≡ reserved_entries ++ zeros 4605
unfolding put zeros replicate
blank_table-append = refl

get_or-zeros : (n i : ℕ) → get_or (zeros n) i 0 ≡ 0
unfolding zeros replicate
get_or-zeros zero i = refl
get_or-zeros (suc n) zero = refl
get_or-zeros (suc n) (suc i) = get_or-zeros n i

get_or-behind : (n i : ℕ) → 3 ≤ i → get_or (reserved_entries ++ zeros n) i 0 ≡ 0
get_or-behind n zero h = absurd (omega arith)
get_or-behind n (suc zero) h = absurd (omega arith)
get_or-behind n (suc (suc zero)) h = absurd (omega arith)
get_or-behind n (suc (suc (suc i))) h = get_or-zeros n i

get_or-blank : (i : ℕ) → 3 ≤ i → get_or blank_table i 0 ≡ 0
get_or-blank i h = ap (λ t. get_or t i 0) blank_table-append ∙ get_or-behind 4605 i h

-- Every entry of the blank table but the two reserved ones is free.
pub blank_table-free :
    IsTable blank_table → (c : ℕ) → 2 ≤ c → c < 3072 → fat_entry blank_table c ≡ ok 0
unfolding entry_value
blank_table-free t c two small =
    fat_entry-entry_value blank_table c t.bytes (omega (arith, t.size))
    ∙ rw (get_or-blank (at_offset c) (omega arith), get_or-blank (at_offset c + 1) (omega arith))
        (ground arith)

pub blank_table-reserved :
    (fat_entry blank_table 0 ≡ ok 0xFF0) × (fat_entry blank_table 1 ≡ ok 0xFFF)
unfolding fat_entry put zeros replicate byte_at
blank_table-reserved = (refl, refl)
