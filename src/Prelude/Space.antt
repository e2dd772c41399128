-- ===== src/Prelude/Space.antt =====
-- `strings.TrimSpace` and `bytes.TrimSpace`: the white space of Unicode, in UTF-8.
use mathlib.Core.List.{reverse-cons}
use treeman.Prelude.{
  ◌≤◌, ◌<◌, ◌++◌, length, length-reverse, Bool-cases, inl, inr, ℕ, zero, suc, ◌-◌, Bool, true,
  false, ◌&&◌, ◌||◌, [], ◌∷◌, reverse, leb, ◌==◌, if◌then◌else◌, ◌≡◌, refl, arith,
}
use treeman.Prelude.Text.{Bytes}

-- Tab, line feed, vertical tab, form feed, carriage return and blank.
abbrev pub ascii_space : ℕ → Bool
ascii_space c = (leb 9 c && leb c 13) || c == 32

-- U+0085 and U+00A0.
abbrev two_bytes : ℕ → ℕ → Bool
two_bytes c d = c == 0xC2 && (d == 0x85 || d == 0xA0)

-- U+1680, U+2000 to U+200A, U+2028, U+2029, U+202F, U+205F and U+3000.
abbrev three_bytes : ℕ → ℕ → ℕ → Bool
three_bytes c d e =
    (c == 0xE1 && d == 0x9A && e == 0x80)
    || (c == 0xE2
        && d == 0x80
        && ((leb 0x80 e && leb e 0x8A) || e == 0xA8 || e == 0xA9 || e == 0xAF))
    || (c == 0xE2 && d == 0x81 && e == 0x9F)
    || (c == 0xE3 && d == 0x80 && e == 0x80)

-- How many bytes the space at the front has; 0 if there is none.
unfoldable pub front_width : Bytes → ℕ
front_width [] = 0
front_width (c ∷ []) = if ascii_space c then 1 else 0
front_width (c ∷ d ∷ []) = if ascii_space c then 1 else if two_bytes c d then 2 else 0
front_width (c ∷ d ∷ e ∷ s) =
    if ascii_space c then 1 else if two_bytes c d then 2 else if three_bytes c d e then 3 else 0

-- The same at the end, of the reversed bytes.
unfoldable pub back_width : Bytes → ℕ
back_width [] = 0
back_width (c ∷ []) = if ascii_space c then 1 else 0
back_width (c ∷ d ∷ []) = if ascii_space c then 1 else if two_bytes d c then 2 else 0
back_width (c ∷ d ∷ e ∷ s) =
    if ascii_space c then 1 else if two_bytes d c then 2 else if three_bytes e d c then 3 else 0

-- Drops spaces; the number counts the bytes left of the space that is being dropped.
unfoldable pub drop_spaces : (Bytes → ℕ) → ℕ → Bytes → Bytes
drop_spaces width n [] = []
drop_spaces width (suc n) (c ∷ s) = drop_spaces width n s
drop_spaces width zero (c ∷ s) =
    let rest = drop_spaces width (width (c ∷ s) - 1) s in if width (c ∷ s) == 0 then c ∷ s else rest

unfoldable pub trim_space : Bytes → Bytes
unfolding front_width back_width drop_spaces
trim_space s = reverse (drop_spaces back_width 0 (reverse (drop_spaces front_width 0 s)))

abbrev empty : Bytes → Bool
empty [] = true
empty (c ∷ s) = false

-- `TrimSpace(s) == ""`.
unfoldable pub blank : Bytes → Bool
unfolding trim_space
blank s = empty (trim_space s)

-- A printable ASCII byte.
abbrev pub is_solid : ℕ → Bool
is_solid c = leb 33 c && leb c 126

solid_front : (c : ℕ) (s : Bytes) → is_solid c ≡ true → front_width (c ∷ s) ≡ 0
unfolding front_width
solid_front c [] h = ground arith
solid_front c (d ∷ []) h = ground arith
solid_front c (d ∷ e ∷ s) h = ground arith

back_width-le : (c : ℕ) (xs : Bytes) → is_solid c ≡ true → back_width (xs ++ c ∷ []) ≤ length xs
unfolding back_width
back_width-le c [] h = ground arith
back_width-le c (x ∷ []) h = ground arith
back_width-le c (x ∷ y ∷ []) h = ground arith
back_width-le c (x ∷ y ∷ z ∷ xs) h = ground arith

drop_spaces-keeps :
    (c : ℕ) (n : ℕ) (xs : Bytes)
    → is_solid c ≡ true
    → n ≤ length xs
    → 0 < length (drop_spaces back_width n (xs ++ c ∷ []))
unfolding drop_spaces
drop_spaces-keeps c zero [] h l = ground (arith, solid_front c [] h, back_width-le c [] h)
drop_spaces-keeps c (suc n) [] h l = absurd (omega arith)
drop_spaces-keeps c (suc n) (x ∷ xs) h l = drop_spaces-keeps c n xs h (omega arith)
drop_spaces-keeps c zero (x ∷ xs) h l =
    let w = back_width (x ∷ (xs ++ c ∷ [])) in
    let fits : w ≤ suc (length xs) = back_width-le c (x ∷ xs) h in
    elim (Bool-cases (w == 0)) [
      | inl e ↦ rw e (omega arith)
      | inr e ↦ rw e (drop_spaces-keeps c (w - 1) xs h (omega arith))
    ]

empty-length : (s : Bytes) → 0 < length s → empty s ≡ false
empty-length [] h = absurd (omega arith)
empty-length (c ∷ s) h = refl

-- A text that begins with a printable byte is not blank.
pub blank_solid : (c : ℕ) (s : Bytes) → is_solid c ≡ true → blank (c ∷ s) ≡ false
unfolding blank trim_space drop_spaces
blank_solid c s h = rw (solid_front c s h) (
    empty-length _
      (rw (length-reverse, reverse-cons c s) (drop_spaces-keeps c 0 (reverse s) h (omega arith))))

pub blank_nil : blank [] ≡ true
unfolding blank trim_space drop_spaces
blank_nil = refl
