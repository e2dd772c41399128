-- ===== src/Slug/Shape.antt =====
-- The length and the bytes of a slug.
use treeman.Prelude.{
  ℕ, zero, suc, ◌-◌, ◌*◌, ◌/◌, ◌%◌, ◌<◌, ◌≤◌, max, Bool, true, ◌||◌, List, [], ◌∷◌, ◌++◌, map,
  Option, none, some, ◌==◌, leb, length, take, get_elem?, All, ◌≡◌, refl, arith, Bool-cases, inl,
  inr, length-take, length-append, All-append, All-take, All-of_all, append-cons-ne-nil, ◌≢◌,
}
use treeman.Prelude.Text.{
  Bytes, codes, is_upper, is_lower, is_digit, span, trim_right, length-trim_right-le, All-trim_left,
  All-trim_right, All-span,
}
use treeman.Slug.{
  Slug, Host, hex_digit, hex_encode, tag, is_underscore, compose_ticket, match_ticket, find_ticket,
  ticket_digits, ticket_dash, ticket_letters, lower_byte, extract_ticket, path_tag, for_path, alnum,
  write_rune, sanitise_loop, sanitise_branch, canonical, base, readable_main, for_main, path_slug,
}

-- `blake3.Sum256` returns 32 bytes.
pub record IsDigest (h : Host) : Type 0 where
  pub size : (s : Bytes) → length (h.sum256 s) ≡ 32
  pub bytes : (s : Bytes) → All (λ x. x < 256) (h.sum256 s)

-- The bytes of the slugs.
-- Lower-case letters and digits.
abbrev pub IsAlnum : ℕ → Type 0
IsAlnum c = alnum c ≡ true

abbrev pub word : ℕ → Bool
word c = is_lower c || is_digit c || c == b'_'

abbrev pub IsWord : ℕ → Type 0
IsWord c = word c ≡ true

length-hex_encode : (b : Bytes) → length (hex_encode b) ≡ 2 * length b
unfolding hex_encode
length-hex_encode [] = omega arith
length-hex_encode (x ∷ b) = omega (arith, length-hex_encode b)

pub length-tag : (h : Host) (s : Bytes) → IsDigest h → length (tag h s) ≡ 8
unfolding tag
length-tag h s d = rw length-take (
    omega (
      arith,
      length-hex_encode (h.sum256 (s ++ 0 ∷ h.slug_suffix)),
      d.size (s ++ 0 ∷ h.slug_suffix),
    ))

get_elem?-All :
    {P : ℕ → Type 0} (xs : Bytes) (i : ℕ)
    → All P xs
    → i < length xs
    → (c : ℕ) × (get_elem? xs i ≡ some c) × P c
get_elem?-All [] i h lt = absurd (omega arith)
get_elem?-All (x ∷ xs) zero (p, h) lt = (x, refl, p)
get_elem?-All (x ∷ xs) (suc i) (p, h) lt = get_elem?-All xs i h (omega arith)

hex_digits-IsAlnum : All IsAlnum (codes "0123456789abcdef")
hex_digits-IsAlnum = All-of_all alnum (codes "0123456789abcdef") refl

hex_digit-IsAlnum : (i : ℕ) → i < 16 → IsAlnum (hex_digit i)
hex_digit-IsAlnum i h =
    let (c, e, w) = get_elem?-All {P = IsAlnum} (codes "0123456789abcdef") i hex_digits-IsAlnum h in
    rw e w

hex_encode-IsAlnum : (b : Bytes) → All (λ x. x < 256) b → All IsAlnum (hex_encode b)
unfolding hex_encode
hex_encode-IsAlnum [] h = tt
hex_encode-IsAlnum (x ∷ b) (lt, h) = (
  hex_digit-IsAlnum (x / 16) (omega arith),
  (hex_digit-IsAlnum (x % 16) (omega arith), hex_encode-IsAlnum b h),
)

pub tag-IsAlnum : (h : Host) (s : Bytes) → IsDigest h → All IsAlnum (tag h s)
unfolding tag
tag-IsAlnum h s d = All-take IsAlnum 8 _ (hex_encode-IsAlnum _ (d.bytes (s ++ 0 ∷ h.slug_suffix)))

pub alnum-words : (s : Bytes) → All IsAlnum s → All IsWord s
alnum-words [] h = tt
alnum-words (c ∷ s) (a, h) = (ground arith, alnum-words s h)

tag-IsWord : (h : Host) (s : Bytes) → IsDigest h → All IsWord (tag h s)
tag-IsWord h s d = alnum-words (tag h s) (tag-IsAlnum h s d)

-- A tag of 8 bytes keeps the composed slug within 32, whatever stands before it.
length-compose_ticket :
    (readable t : Bytes) → length t ≡ 8 → length (compose_ticket readable t) ≤ 32
unfolding compose_ticket
length-compose_ticket readable t e = ground (
  arith,
  length-append readable (b'_' ∷ t),
  length-append (trim_right is_underscore (take (max (32 - 1 - length t) 1) readable)) (b'_' ∷ t),
  length-trim_right-le is_underscore (take (max (32 - 1 - length t) 1) readable),
  length-take (max (32 - 1 - length t) 1) readable,
)

compose_ticket-IsWord :
    (readable t : Bytes)
    → All IsWord readable
    → All IsWord t
    → All IsWord (compose_ticket readable t)
unfolding compose_ticket
compose_ticket-IsWord readable t hr ht =
    elim (Bool-cases (leb (length (readable ++ b'_' ∷ t)) 32)) [
      | inl e ↦ rw e (All-append IsWord readable (b'_' ∷ t) hr (refl, ht))
      | inr e ↦ rw e (
          All-append IsWord _ (b'_' ∷ t)
            (All-trim_right IsWord is_underscore (take (max (32 - 1 - length t) 1) readable)
              (All-take IsWord (max (32 - 1 - length t) 1) readable hr))
            (refl, ht))
    ]

map-lower : (s : Bytes) → All (λ c. is_upper c ≡ true) s → All IsWord (map lower_byte s)
map-lower [] h = tt
map-lower (c ∷ s) (u, h) = (lowered c u, map-lower s h)
  where
    lowered : (c : ℕ) → is_upper c ≡ true → IsWord (lower_byte c)
    lowered c u = ground arith

digits-IsWord : (s : Bytes) → All (λ c. is_digit c ≡ true) s → All IsWord s
digits-IsWord [] h = tt
digits-IsWord (c ∷ s) (d, h) = (ground arith, digits-IsWord s h)

-- A match is a run of capitals and a run of digits.
abbrev IsTicket : Option (Bytes × Bytes) → Type 0
IsTicket none = Unit {0}
IsTicket (some (caps, num)) = All (λ c. is_upper c ≡ true) caps × All (λ c. is_digit c ≡ true) num

ticket_digits-IsTicket :
    (caps : Bytes) (m : Bytes × Bytes)
    → All (λ c. is_upper c ≡ true) caps
    → All (λ c. is_digit c ≡ true) m.0
    → IsTicket (ticket_digits caps m)
ticket_digits-IsTicket caps ([], rest) u d = tt
ticket_digits-IsTicket caps (c ∷ cs, rest) u d = (u, d)

ticket_dash-IsTicket :
    (caps rest : Bytes) → All (λ c. is_upper c ≡ true) caps → IsTicket (ticket_dash caps rest)
unfolding ticket_dash
ticket_dash-IsTicket caps [] u = tt
ticket_dash-IsTicket caps (c ∷ rest) u = elim (Bool-cases (c == b'-')) [
  | inl e ↦
      rw e
        (ticket_digits-IsTicket caps (span is_digit rest) u (All-span _ is_digit rest (λ c h. h)))
  | inr e ↦ rw e tt
]

ticket_letters-IsTicket :
    (m : Bytes × Bytes) → All (λ c. is_upper c ≡ true) m.0 → IsTicket (ticket_letters m)
unfolding ticket_dash
ticket_letters-IsTicket ([], rest) u = tt
ticket_letters-IsTicket (c ∷ cs, rest) u = ticket_dash-IsTicket (c ∷ cs) rest u

find_ticket-IsTicket : (s : Bytes) → IsTicket (find_ticket s)
unfolding find_ticket match_ticket
find_ticket-IsTicket [] = tt
find_ticket-IsTicket (c ∷ s) =
    either (match_ticket (c ∷ s)) (find_ticket s) here (find_ticket-IsTicket s)
  where
    here : IsTicket (match_ticket (c ∷ s))
    here = ticket_letters-IsTicket (span is_upper (c ∷ s)) (All-span _ is_upper (c ∷ s) (λ c h. h))

    either :
        (m r : Option (Bytes × Bytes))
        → IsTicket m
        → IsTicket r
        → IsTicket (elim m [ some x ↦ some x | none ↦ r ])
    either none r hm hr = hr
    either (some x) r hm hr = hm

abbrev Words : Option Bytes → Type 0
Words none = Unit {0}
Words (some s) = All IsWord s

extract_ticket-Words : (s : Bytes) → Words (extract_ticket s)
unfolding extract_ticket
extract_ticket-Words s = go (find_ticket s) (find_ticket-IsTicket s)
  where
    go :
        (m : Option (Bytes × Bytes))
        → IsTicket m
        → Words
            (elim m [ none ↦ none | some (caps, num) ↦ some (map lower_byte caps ++ b'_' ∷ num) ])
    go none h = tt
    go (some (caps, num)) (u, d) =
        All-append IsWord _ (b'_' ∷ num) (map-lower caps u) (refl, digits-IsWord num d)

sanitise_loop-IsWord :
    (rs : List ℕ) (prev : Bool) (b : Bytes) → All IsWord b → All IsWord (sanitise_loop rs prev b)
unfolding sanitise_loop
sanitise_loop-IsWord [] prev b h = h
sanitise_loop-IsWord (r ∷ rs) prev b h =
    sanitise_loop-IsWord rs _ _ (All-append IsWord b _ h (written r prev))
  where
    written : (r : ℕ) (prev : Bool) → All IsWord (write_rune r prev)
    written r prev = ground arith

pub sanitise_branch-IsWord : (h : Host) (branch : Bytes) → All IsWord (sanitise_branch h branch)
unfolding sanitise_branch
sanitise_branch-IsWord h branch =
    All-trim_right IsWord _ _
      (All-trim_left IsWord _ _ (sanitise_loop-IsWord (h.to_lower branch) true [] tt))

-- The two kinds of checkout: a linked worktree, and the main worktree on a branch.
pub data Checkout : Type 0 where
  linked : Bytes → Bytes → Checkout
  main_tree : Bytes → Bytes → Checkout

abbrev pub slug_of : Host → Checkout → Slug
slug_of h (linked path branch) = for_path h path branch
slug_of h (main_tree path branch) = for_main h path branch

-- A slug of at most 32 bytes over [a-z0-9_] that is not empty.
pub record IsSlug (s : Bytes) : Type 0 where
  pub fits : length s ≤ 32
  pub words : All IsWord s
  pub ne_nil : s ≢ []

module _ (h : Host) (d : IsDigest h) where
  append-IsSlug :
      (readable s : Bytes)
      → readable ≢ []
      → length readable ≤ 14
      → All IsWord readable
      → IsSlug (readable ++ tag h s)
  append-IsSlug [] s n l w = absurd (n refl)
  append-IsSlug (c ∷ readable) s n l w = record {
    fits = omega (arith, length-append (c ∷ readable) (tag h s), length-tag h s d);
    words = All-append IsWord (c ∷ readable) (tag h s) w (tag-IsWord h s d);
    ne_nil = ground arith;
  }

  compose_ticket-ne-nil : (readable t : Bytes) → compose_ticket readable t ≢ []
  unfolding compose_ticket
  compose_ticket-ne-nil readable t = elim (Bool-cases (leb (length (readable ++ b'_' ∷ t)) 32)) [
    | inl e ↦ rw e (append-cons-ne-nil readable b'_' t)
    | inr e ↦ rw e (append-cons-ne-nil _ b'_' t)
  ]

  compose-IsSlug :
      (readable s : Bytes) → All IsWord readable → IsSlug (compose_ticket readable (tag h s))
  compose-IsSlug readable s w = record {
    fits = length-compose_ticket readable (tag h s) (length-tag h s d);
    words = compose_ticket-IsWord readable (tag h s) w (tag-IsWord h s d);
    ne_nil = compose_ticket-ne-nil readable (tag h s);
  }

  readable_main-IsWord : (s : Bytes) → All IsWord s → All IsWord (readable_main s)
  readable_main-IsWord [] w = All-of_all word (codes "main") refl
  readable_main-IsWord (c ∷ s) w =
      All-append IsWord (codes "main") (b'_' ∷ c ∷ s) (All-of_all word (codes "main") refl)
        (refl, w)

  for_path-IsSlug : (path branch : Bytes) → IsSlug (for_path h path branch).value
  unfolding for_path
  for_path-IsSlug path branch = go (extract_ticket (base path)) (extract_ticket-Words (base path))
    where
      go : (m : Option Bytes) → Words m → IsSlug (path_slug (path_tag h path) m).value
      go none w =
          append-IsSlug (codes "wt_") (canonical h path) (ground arith) (omega arith)
            (All-of_all word (codes "wt_") refl)
      go (some t) w = compose-IsSlug t (canonical h path) w

  for_main-IsSlug : (path branch : Bytes) → IsSlug (for_main h path branch).value
  unfolding for_main
  for_main-IsSlug path [] =
      append-IsSlug (codes "main_detached_") path (ground arith) (omega arith)
        (All-of_all word (codes "main_detached_") refl)
  for_main-IsSlug path (c ∷ branch) =
      compose-IsSlug _ (c ∷ branch) (readable_main-IsWord _ (sanitise_branch-IsWord h (c ∷ branch)))

  pub slug_of-IsSlug : (c : Checkout) → IsSlug (slug_of h c).value
  slug_of-IsSlug (linked path branch) = for_path-IsSlug path branch
  slug_of-IsSlug (main_tree path branch) = for_main-IsSlug path branch
