-- ===== src/Slug.antt =====
-- internal/slug/slug.go: the slug that names a worktree's databases, files and ports. A string is
-- its bytes; blake3, `filepath.Abs`, the Unicode tables of `strings.ToLower` and the namespace
-- suffix that the process reads once come from a `Host`.
pub mod Sanitise
pub mod Shape
pub mod Distinct
pub mod Prefix
pub mod Redis
pub mod Tests
use treeman.Prelude.{
  ℕ, ◌+◌, ◌-◌, ◌/◌, ◌%◌, ◌<◌, max, Bool, true, false, not, ◌&&◌, ◌||◌, List, [], ◌∷◌, ◌++◌, map,
  reverse, Option, none, some, ◌==◌, leb, if◌then◌else◌, length, take, get_elem?, All, ◌≡◌,
}
use treeman.Prelude.Text.{Bytes, codes, is_upper, is_lower, is_digit, span, trim_left, trim_right}

pub data Source : Type 0 where
  source_ticket source_path_hash source_main : Source

pub record Slug : Type 0 where
  pub value : Bytes
  pub source : Source

abbrev dash_byte : ℕ → ℕ
dash_byte c = if c == b'_' then b'-' else c

-- `Dashed`.
pub dashed : Slug → Bytes
dashed s = map dash_byte s.value

-- What the package takes from outside: `blake3.Sum256`, the suffix that `SetSlugSuffix` pinned,
-- `filepath.Abs` (`none` is its error) and the runes of `strings.ToLower` of a string.
pub record Host : Type 0 where
  pub sum256 : Bytes → Bytes
  pub slug_suffix : Bytes
  pub abs : Bytes → Option Bytes
  pub to_lower : Bytes → List ℕ

-- `SetSlugSuffix`.
pub set_slug_suffix : Host → Bytes → Host
set_slug_suffix h s = record h { slug_suffix = s }

abbrev hex_digits : Bytes
hex_digits = codes "0123456789abcdef"

-- `hexDigits[i]`; an index past the end, which no half of a byte reaches, gives the byte 0 here.
abbrev hex_digit : ℕ → ℕ
hex_digit i = elim (get_elem? hex_digits i) [ some c ↦ c | none ↦ 0 ]

-- `hexEncode`: `x>>4` and `x&0x0f` of each byte.
unfoldable pub hex_encode : Bytes → Bytes
hex_encode [] = []
hex_encode (x ∷ b) = hex_digit (x / 16) ∷ hex_digit (x % 16) ∷ hex_encode b

unfoldable pub tag : Host → Bytes → Bytes
unfolding hex_encode
tag h s = take 8 (hex_encode (h.sum256 (s ++ 0 ∷ h.slug_suffix)))

abbrev is_underscore : ℕ → Bool
is_underscore c = c == b'_'

-- `composeTicket`; `readable[:keep]` is in range there, since `readable ++ "_" ++ tag` is too long.
unfoldable pub compose_ticket : Bytes → Bytes → Bytes
unfolding trim_right
compose_ticket readable tag =
    let out = readable ++ b'_' ∷ tag in
    let keep = max (32 - 1 - length tag) 1 in
    if leb (length out) 32 then out else trim_right is_underscore (take keep readable) ++ b'_' ∷ tag

abbrev ticket_digits : Bytes → Bytes × Bytes → Option (Bytes × Bytes)
ticket_digits caps ([], rest) = none
ticket_digits caps (d ∷ ds, rest) = some (caps, d ∷ ds)

ticket_dash : Bytes → Bytes → Option (Bytes × Bytes)
unfolding span
ticket_dash caps [] = none
ticket_dash caps (c ∷ rest) = if c == b'-' then ticket_digits caps (span is_digit rest) else none

abbrev ticket_letters : Bytes × Bytes → Option (Bytes × Bytes)
unfolding ticket_dash
ticket_letters ([], rest) = none
ticket_letters (c ∷ cs, rest) = ticket_dash (c ∷ cs) rest

-- The match of `([A-Z]+)-([0-9]+)` that begins at the first byte.
match_ticket : Bytes → Option (Bytes × Bytes)
unfolding span ticket_dash
match_ticket s = ticket_letters (span is_upper s)

-- `ticketRe.FindStringSubmatch`: the leftmost match.
find_ticket : Bytes → Option (Bytes × Bytes)
unfolding match_ticket
find_ticket [] = none
find_ticket (c ∷ s) =
    let rest = find_ticket s in elim (match_ticket (c ∷ s)) [ some m ↦ some m | none ↦ rest ]

-- `strings.ToLower` on an ASCII byte.
abbrev lower_byte : ℕ → ℕ
lower_byte c = if is_upper c then c + 32 else c

-- `extractTicket`.
unfoldable pub extract_ticket : Bytes → Option Bytes
unfolding find_ticket
extract_ticket s = elim (find_ticket s) [
  | none ↦ none
  | some (caps, num) ↦ some (map lower_byte caps ++ b'_' ∷ num)
]

abbrev is_slash : ℕ → Bool
is_slash c = c == b'/'

-- What follows the last slash; all slashes stand for the root.
last_element : Bytes → Bytes
unfolding span
last_element [] = codes "/"
last_element (d ∷ s) = reverse (span (λ x. not (is_slash x)) (reverse (d ∷ s))).0

-- `filepath.Base` on Unix.
unfoldable pub base : Bytes → Bytes
unfolding trim_right last_element
base [] = codes "."
base (c ∷ path) = last_element (trim_right is_slash (c ∷ path))

-- `canonical` of `pathTag`.
unfoldable pub canonical : Host → Bytes → Bytes
canonical h worktree_path = elim (h.abs worktree_path) [ some p ↦ p | none ↦ worktree_path ]

unfoldable pub path_tag : Host → Bytes → Bytes
unfolding canonical tag
path_tag h worktree_path = tag h (canonical h worktree_path)

abbrev path_slug : Bytes → Option Bytes → Slug
path_slug tag (some ticket) = record { value = compose_ticket ticket tag; source = source_ticket }
path_slug tag none = record { value = codes "wt_" ++ tag; source = source_path_hash }

-- `For`, whose second parameter the source ignores.
unfoldable pub for_path : Host → Bytes → Bytes → Slug
unfolding path_tag extract_ticket base compose_ticket
for_path h worktree_path _ =
    path_slug (path_tag h worktree_path) (extract_ticket (base worktree_path))

abbrev alnum : ℕ → Bool
alnum r = is_lower r || is_digit r

-- What one round of `sanitiseBranch` writes, given `prevUnderscore`.
abbrev write_rune : ℕ → Bool → Bytes
write_rune r prev = if alnum r then r ∷ [] else if prev then [] else b'_' ∷ []

sanitise_loop : List ℕ → Bool → Bytes → Bytes
sanitise_loop [] prev b = b
sanitise_loop (r ∷ rs) prev b = sanitise_loop rs (not (alnum r)) (b ++ write_rune r prev)

-- `sanitiseBranch`, over the runes of the lowered branch.
unfoldable pub sanitise_branch : Host → Bytes → Bytes
unfolding sanitise_loop trim_left trim_right
sanitise_branch h branch =
    trim_right is_underscore (trim_left is_underscore (sanitise_loop (h.to_lower branch) true []))

abbrev readable_main : Bytes → Bytes
readable_main [] = codes "main"
readable_main (c ∷ s) = codes "main" ++ b'_' ∷ c ∷ s

-- `ForMain`.
unfoldable pub for_main : Host → Bytes → Bytes → Slug
unfolding tag sanitise_branch compose_ticket
for_main h worktree_path [] = record {
  value = codes "main_detached_" ++ tag h worktree_path;
  source = source_main;
}
for_main h worktree_path (c ∷ branch) = record {
  value = compose_ticket (readable_main (sanitise_branch h (c ∷ branch))) (tag h (c ∷ branch));
  source = source_main;
}
