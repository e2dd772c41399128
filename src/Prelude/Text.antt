-- ===== src/Prelude/Text.antt =====
-- Byte strings: a Go `string` or `[]byte` is the list of its bytes.
use Prim.Native.Char.{code}
use Prim.Native.String.{String}
use treeman.Prelude.{
  ◌≤◌, length, length-reverse, All, All-reverse, Bool-cases, inl, inr, ℕ, Bool, true, false, ◌&&◌,
  ◌||◌, List, [], ◌∷◌, reverse, leb, ltb, ◌==◌, if◌then◌else◌, ◌≡◌, ◌↔◌, arith, refl,
}

abbrev pub Bytes : Type 0
Bytes = List ℕ

-- The code points of a literal: its bytes, when it is ASCII.
abbrev pub codes : String → Bytes
codes String.[] = []
codes (String.◌∷◌ c s) = code c ∷ codes s

abbrev pub is_upper : ℕ → Bool
is_upper c = leb b'A' c && leb c b'Z'

abbrev pub is_lower : ℕ → Bool
is_lower c = leb b'a' c && leb c b'z'

abbrev pub is_digit : ℕ → Bool
is_digit c = leb b'0' c && leb c b'9'

-- Equality of byte strings.
unfoldable pub bytes_eq : Bytes → Bytes → Bool
bytes_eq [] [] = true
bytes_eq [] (y ∷ ys) = false
bytes_eq (x ∷ xs) [] = false
bytes_eq (x ∷ xs) (y ∷ ys) = x == y && bytes_eq xs ys

pub bytes_eq_iff : (xs ys : Bytes) → (bytes_eq xs ys ≡ true) ↔ (xs ≡ ys)
unfolding bytes_eq
bytes_eq_iff [] [] = (λ _. refl, λ _. refl)
bytes_eq_iff [] (y ∷ ys) = ground arith
bytes_eq_iff (x ∷ xs) [] = ground arith
bytes_eq_iff (x ∷ xs) (y ∷ ys) = ground (arith, bytes_eq_iff xs ys)

-- The longest prefix of bytes that `p` accepts, and the rest.
unfoldable pub span : (ℕ → Bool) → Bytes → Bytes × Bytes
span p [] = ([], [])
span p (c ∷ s) = let (a, b) = span p s in if p c then (c ∷ a, b) else ([], c ∷ s)

-- `strings.TrimLeft` with a set given by its test.
unfoldable pub trim_left : (ℕ → Bool) → Bytes → Bytes
trim_left p [] = []
trim_left p (c ∷ s) = if p c then trim_left p s else c ∷ s

-- `strings.TrimRight`.
unfoldable pub trim_right : (ℕ → Bool) → Bytes → Bytes
unfolding trim_left
trim_right p s = reverse (trim_left p (reverse s))

pub length-trim_left-le : (p : ℕ → Bool) (s : Bytes) → length (trim_left p s) ≤ length s
unfolding trim_left
length-trim_left-le p [] = omega arith
length-trim_left-le p (c ∷ s) = ground (arith, length-trim_left-le p s)

pub length-trim_right-le : (p : ℕ → Bool) (s : Bytes) → length (trim_right p s) ≤ length s
unfolding trim_right
length-trim_right-le p s =
    rw length-reverse (omega (arith, length-trim_left-le p (reverse s), length-reverse s))

module _ {ℓ} (P : ℕ → Type ℓ) where
  pub All-trim_left : (p : ℕ → Bool) (s : Bytes) → All P s → All P (trim_left p s)
  unfolding trim_left
  All-trim_left p [] h = tt
  All-trim_left p (c ∷ s) (hc, h) = elim (Bool-cases (p c)) [
    | inl e ↦ rw e (All-trim_left p s h)
    | inr e ↦ rw e (hc, h)
  ]

  pub All-trim_right : (p : ℕ → Bool) (s : Bytes) → All P s → All P (trim_right p s)
  unfolding trim_right
  All-trim_right p s h = All-reverse P _ (All-trim_left p (reverse s) (All-reverse P s h))

  pub All-span : (p : ℕ → Bool) (s : Bytes) → ((c : ℕ) → p c ≡ true → P c) → All P (span p s).0
  unfolding span
  All-span p [] h = tt
  All-span p (c ∷ s) h = elim (Bool-cases (p c)) [
    | inl e ↦ rw e (h c e, All-span p s h)
    | inr e ↦ rw e tt
  ]

unfoldable pub member : Bytes → List Bytes → Bool
member p [] = false
member p (q ∷ qs) = bytes_eq p q || member p qs

-- `strings.Compare` is below 0.
unfoldable pub before : Bytes → Bytes → Bool
before [] [] = false
before [] (c ∷ t) = true
before (c ∷ s) [] = false
before (c ∷ s) (d ∷ t) = ltb c d || c == d && before s t

pub before_irrefl : (s : Bytes) → before s s ≡ false
unfolding before
before_irrefl [] = refl
before_irrefl (c ∷ s) = ground (arith, before_irrefl s)

pub before_total : (s t : Bytes) → before s t ≡ false → bytes_eq t s ≡ false → before t s ≡ true
unfolding before bytes_eq
before_total [] [] h n = absurd (ground arith)
before_total [] (c ∷ t) h n = absurd (ground arith)
before_total (c ∷ s) [] h n = refl
before_total (c ∷ s) (d ∷ t) h n = ground (arith, h, n, before_total s t)

pub before_trans : (r s t : Bytes) → before r s ≡ true → before s t ≡ true → before r t ≡ true
unfolding before
before_trans [] [] t h k = absurd (ground arith)
before_trans [] (c ∷ s) [] h k = absurd (ground arith)
before_trans [] (c ∷ s) (d ∷ t) h k = refl
before_trans (b ∷ r) [] t h k = absurd (ground arith)
before_trans (b ∷ r) (c ∷ s) [] h k = absurd (ground arith)
before_trans (b ∷ r) (c ∷ s) (d ∷ t) h k = ground (arith, h, k, before_trans r s t)
