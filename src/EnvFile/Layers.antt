-- ===== src/EnvFile/Layers.antt =====
-- Which value a key has after files are parsed, merged or layered.
use treeman.Prelude.{
  sym, ◌||◌, and_true, ℕ, ◌≤◌, ◌⊎◌, arith, Bool, true, false, List, [], ◌∷◌, ◌++◌, Option, none,
  some, if◌then◌else◌, ◌≡◌, refl, ap, ◌∙◌, All, Bool-cases, inl, inr, ◌==◌,
}
use treeman.Prelude.Text.{Bytes, codes, bytes_eq, bytes_eq_iff, is_digit, trim_left}
use treeman.EnvFile.{
  Vars, EnvFile, find, get, insert_missing, merge_vars, merge, copy_vars, valid_key, assign,
  parse_trimmed, parse_line, parse_lines, parse, scan_lines, File, read_optional, layer,
  read_layered, source_of, cut_equals, trim_prefix, or_else, is_blank, is_alpha, valid_rest,
}
use treeman.Prelude.Space.{trim_space}

-- The first value that is there.
abbrev pub first_of : Option Bytes → Option Bytes → Option Bytes
first_of none y = y
first_of (some x) y = some x

first_of-none : (x : Option Bytes) → x ≡ first_of x none
first_of-none none = refl
first_of-none (some x) = refl

first_of-if :
    (b : Bool) (x y z : Option Bytes)
    → first_of (first_of x (if b then y else none)) z ≡ first_of x (if b then first_of y z else z)
first_of-if true none y z = refl
first_of-if true (some x) y z = refl
first_of-if false none y z = refl
first_of-if false (some x) y z = refl

find-insert_missing :
    (key k v : Bytes) (vars : Vars) (o : Option Bytes)
    → find k vars ≡ o
    → find key (insert_missing k v o vars)
      ≡ first_of (find key vars) (if bytes_eq key k then some v else none)
unfolding find
find-insert_missing key k v vars o e = elim (Bool-cases (bytes_eq key k)) [
  | inl h ↦ rw h (same o h (ap (λ x. find x vars) ((bytes_eq_iff key k).0 h) ∙ e))
  | inr h ↦ rw h (other o h)
]
  where
    same :
        (x : Option Bytes)
        → bytes_eq key k ≡ true
        → find key vars ≡ x
        → find key (insert_missing k v x vars) ≡ first_of (find key vars) (some v)
    same none h f = rw (h, f) refl
    same (some w) h f = rw f refl

    other :
        (x : Option Bytes)
        → bytes_eq key k ≡ false
        → find key (insert_missing k v x vars) ≡ first_of (find key vars) none
    other none h = rw h (first_of-none (find key vars))
    other (some w) h = first_of-none (find key vars)

find-merge_vars :
    (key : Bytes) (vars other : Vars)
    → find key (merge_vars vars other) ≡ first_of (find key vars) (find key other)
unfolding find merge_vars
find-merge_vars key vars [] = first_of-none (find key vars)
find-merge_vars key vars ((k, v) ∷ other) =
    find-merge_vars key (insert_missing k v (find k vars) vars) other
    ∙ ap (λ x. first_of x (find key other)) (find-insert_missing key k v vars (find k vars) refl)
    ∙ first_of-if (bytes_eq key k) (find key vars) (some v) (find key other)

find-append :
    (key : Bytes) (one two : Vars) → find key (one ++ two) ≡ first_of (find key one) (find key two)
unfolding find
find-append key [] two = refl
find-append key ((k, v) ∷ one) two = elim (Bool-cases (bytes_eq key k)) [
  | inl e ↦ rw e refl
  | inr e ↦ rw e (find-append key one two)
]

layer-append :
    (getenv : Bytes → Bytes) (files : Bytes → File) (paths : List Bytes) (p : Bytes) (out : EnvFile)
    (key : Bytes)
    → find key (layer getenv files out (paths ++ p ∷ [])).vars
      ≡ first_of
          (find key (read_optional getenv files p).vars)
          (find key (layer getenv files out paths).vars)
unfolding layer
layer-append getenv files [] p out key =
    find-append key (read_optional getenv files p).vars out.vars
layer-append getenv files (q ∷ paths) p out key =
    let one = read_optional getenv files q in
    layer-append getenv files paths p
      (record { vars = copy_vars out.vars one.vars; source = source_of out.source one.source }) key

-- Of the files that are layered, the last one that has a key gives its value: one more path at the end
-- counts before all others.
pub read_layered-append :
    (getenv : Bytes → Bytes) (files : Bytes → File) (paths : List Bytes) (p key : Bytes)
    → get (read_layered getenv files (paths ++ p ∷ [])) key
      ≡ first_of
          (get (read_optional getenv files p) key)
          (get (read_layered getenv files paths) key)
unfolding read_layered get
read_layered-append getenv files paths p key =
    layer-append getenv files paths p (record { vars = []; source = [] }) key

-- A letter or an underscore, and a decimal digit.
abbrev pub Letter : ℕ → Type 0
Letter c = ((b'A' ≤ c) × (c ≤ b'Z')) ⊎ ((b'a' ≤ c) × (c ≤ b'z')) ⊎ (c ≡ b'_')

abbrev pub Digit : ℕ → Type 0
Digit c = (b'0' ≤ c) × (c ≤ b'9')

-- A name: a letter, and then letters and digits.
abbrev pub Name : Bytes → Type 0
Name [] = ⊥
Name (c ∷ s) = Letter c × All (λ d. Letter d ⊎ Digit d) s

-- Every key is a name.
abbrev pub ValidKeys : Vars → Type 0
ValidKeys vars = All (λ (e : Bytes × Bytes). Name e.0) vars

is_alpha-Letter : (c : ℕ) → is_alpha c ≡ true → Letter c
is_alpha-Letter c h = ground (arith, h)

is_digit-Digit : (c : ℕ) → is_digit c ≡ true → Digit c
is_digit-Digit c h = ground (arith, h)

name_byte : (c : ℕ) → (is_alpha c || is_digit c) ≡ true → Letter c ⊎ Digit c
name_byte c h = elim (Bool-cases (is_alpha c)) [
  | inl e ↦ inl (is_alpha-Letter c e)
  | inr e ↦ inr (is_digit-Digit c (sym (rw e refl) ∙ h))
]

valid_rest-All : (s : Bytes) → valid_rest s ≡ true → All (λ d. Letter d ⊎ Digit d) s
unfolding valid_rest
valid_rest-All [] h = tt
valid_rest-All (c ∷ s) h =
    let (a, b) = and_true (is_alpha c || is_digit c) (valid_rest s) h in
    (name_byte c a, valid_rest-All s b)

valid_key-Name : (s : Bytes) → valid_key s ≡ true → Name s
unfolding valid_key
valid_key-Name [] h = absurd (ground (arith, h))
valid_key-Name (c ∷ s) h =
    (is_alpha-Letter c (ground (arith, h)), valid_rest-All s (ground (arith, h)))

assign-ValidKeys :
    (getenv : Bytes → Bytes) (vars : Vars) (o : Option (Bytes × Bytes))
    → ValidKeys vars
    → ValidKeys (assign getenv vars o)
unfolding assign
assign-ValidKeys getenv vars none h = h
assign-ValidKeys getenv vars (some (before, after)) h =
    elim (Bool-cases (valid_key (trim_space before))) [
      | inl e ↦ rw e (valid_key-Name (trim_space before) e, h)
      | inr e ↦ rw e h
    ]

if-ValidKeys : (b : Bool) (x y : Vars) → ValidKeys x → ValidKeys y → ValidKeys (if b then x else y)
if-ValidKeys true x y hx hy = hx
if-ValidKeys false x y hx hy = hy

parse_trimmed-ValidKeys :
    (getenv : Bytes → Bytes) (vars : Vars) (line : Bytes)
    → ValidKeys vars
    → ValidKeys (parse_trimmed getenv vars line)
unfolding parse_trimmed
parse_trimmed-ValidKeys getenv vars [] h = h
parse_trimmed-ValidKeys getenv vars (c ∷ s) h = if-ValidKeys (c == b'#') vars _ h (
    assign-ValidKeys getenv vars
      (cut_equals (or_else (c ∷ s) (trim_prefix (c ∷ s) (codes "export ")))) h)

parse_line-ValidKeys :
    (getenv : Bytes → Bytes) (vars : Vars) (text : Bytes)
    → ValidKeys vars
    → ValidKeys (parse_line getenv vars text)
unfolding parse_line
parse_line-ValidKeys getenv vars text h =
    parse_trimmed-ValidKeys getenv vars (trim_left is_blank text) h

parse_lines-ValidKeys :
    (getenv : Bytes → Bytes) (vars : Vars) (lines : List Bytes)
    → ValidKeys vars
    → ValidKeys (parse_lines getenv vars lines)
unfolding parse_lines
parse_lines-ValidKeys getenv vars [] h = h
parse_lines-ValidKeys getenv vars (line ∷ lines) h =
    parse_lines-ValidKeys getenv (parse_line getenv vars line) lines
      (parse_line-ValidKeys getenv vars line h)

-- Whatever text is parsed, every key of the result begins with an ASCII letter or an underscore, and
-- has only letters, digits and underscores.
pub parse-ValidKeys : (getenv : Bytes → Bytes) (input : Bytes) → ValidKeys (parse getenv input).vars
unfolding parse
parse-ValidKeys getenv input = parse_lines-ValidKeys getenv [] (scan_lines [] input) tt

-- `Merge` keeps the values that are there, and takes the missing ones from the other file.
pub get-merge :
    (e other : EnvFile) (key : Bytes)
    → get (merge e other) key ≡ first_of (get e key) (get other key)
unfolding merge get
get-merge e other key = find-merge_vars key e.vars other.vars
