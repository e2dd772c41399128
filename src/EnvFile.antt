-- ===== src/EnvFile.antt =====
-- internal/envfile/envfile.go: env files. Reading a file from disk and the process environment come
-- from parameters; lines longer than the limit of the scanner are no case here.
pub mod Layers
pub mod Tests
use treeman.Prelude.{
  ℕ, zero, suc, ◌+◌, ◌≤◌, Bool, true, false, not, ◌&&◌, ◌||◌, List, [], ◌∷◌, ◌++◌, Option, none,
  some, ◌==◌, if◌then◌else◌, length, drop, reverse, ◌≡◌,
}
use treeman.Prelude.Text.{
  Bytes, codes, bytes_eq, is_upper, is_lower, is_digit, trim_left, trim_right,
}
use treeman.Prelude.Space.{trim_space}

-- A map: the first entry of a key counts.
abbrev pub Vars : Type 0
Vars = List (Bytes × Bytes)

-- `EnvFile`; an empty source is the one of an inline parse.
pub record EnvFile : Type 0 where
  pub vars : Vars
  pub source : Bytes

unfoldable pub find : Bytes → Vars → Option Bytes
unfolding bytes_eq
find key [] = none
find key ((k, v) ∷ vars) = if bytes_eq key k then some v else find key vars

-- `Get`.
abbrev pub get : EnvFile → Bytes → Option Bytes
unfolding find
get e key = find key e.vars

abbrev pub insert_missing : Bytes → Bytes → Option Bytes → Vars → Vars
insert_missing key v none vars = (key, v) ∷ vars
insert_missing key v (some w) vars = vars

-- The loop of `Merge` over the other entries.
unfoldable pub merge_vars : Vars → Vars → Vars
unfolding find
merge_vars vars [] = vars
merge_vars vars ((key, v) ∷ other) = merge_vars (insert_missing key v (find key vars) vars) other

-- `Merge`.
unfoldable pub merge : EnvFile → EnvFile → EnvFile
unfolding merge_vars
merge e other = record e { vars = merge_vars e.vars other.vars }

-- `maps.Copy(out.Vars, one.Vars)`: the entries of the second replace.
abbrev pub copy_vars : Vars → Vars → Vars
copy_vars out one = one ++ out

abbrev pub is_alpha : ℕ → Bool
is_alpha c = is_upper c || is_lower c || c == b'_'

unfoldable pub valid_rest : Bytes → Bool
valid_rest [] = true
valid_rest (c ∷ s) = (is_alpha c || is_digit c) && valid_rest s

-- `validKey`.
unfoldable pub valid_key : Bytes → Bool
unfolding valid_rest
valid_key [] = false
valid_key (c ∷ s) = is_alpha c && valid_rest s

abbrev is_blank : ℕ → Bool
is_blank c = c == b' ' || c == b'\t'

-- The text before the first ` #`.
cut_comment : Bytes → Option Bytes
cut_comment [] = none
cut_comment (c ∷ []) = none
cut_comment (c ∷ d ∷ s) =
    let rest = cut_comment (d ∷ s) in
    if c == b' ' && d == b'#' then some [] else elim rest [ none ↦ none | some t ↦ some (c ∷ t) ]

-- All but the last byte, which is the quote `q`.
ends_with : ℕ → Bytes → Option Bytes
ends_with q [] = none
ends_with q (c ∷ []) = if c == q then some [] else none
ends_with q (c ∷ d ∷ s) = elim (ends_with q (d ∷ s)) [ none ↦ none | some t ↦ some (c ∷ t) ]

-- The text between quotes of one kind.
abbrev pub unquoted : Bytes → Option Bytes
unfolding ends_with
unquoted [] = none
unquoted (c ∷ s) = if c == b'"' || c == b'\'' then ends_with c s else none

abbrev uncommented : Bytes → Option Bytes → Bytes
unfolding trim_right
uncommented s none = s
uncommented s (some before) = trim_right is_blank before

abbrev unquoted_or_uncommented : Bytes → Option Bytes → Bytes
unfolding uncommented cut_comment
unquoted_or_uncommented s (some inner) = inner
unquoted_or_uncommented s none = uncommented s (cut_comment s)

-- `stripQuotesAndComment`.
unfoldable pub strip_quotes_and_comment : Bytes → Bytes
unfolding trim_space unquoted unquoted_or_uncommented
strip_quotes_and_comment raw = let s = trim_space raw in unquoted_or_uncommented s (unquoted s)

-- The text before the next `}`.
unfoldable pub to_brace : Bytes → Option Bytes
to_brace [] = none
to_brace (c ∷ s) =
    let rest = to_brace s in
    if c == b'}' then some [] else elim rest [ none ↦ none | some key ↦ some (c ∷ key) ]

-- The name in braces behind a `$`.
unfoldable pub braced : Bytes → Option Bytes
unfolding to_brace
braced [] = none
braced (c ∷ s) = if c == b'{' then to_brace s else none

-- `os.Getenv`: an absent variable is empty.
abbrev pub from_env : Bytes → Bytes → Bytes
from_env key [] = codes "${" ++ key ++ codes "}"
from_env key (c ∷ v) = c ∷ v

abbrev pub resolved : (Bytes → Bytes) → Bytes → Option Bytes → Bytes
resolved getenv key (some v) = v
resolved getenv key none = from_env key (getenv key)

abbrev pub expand_at : (Bytes → Bytes) → Vars → ℕ → (ℕ → Bytes) → Option Bytes → Bytes
unfolding find
expand_at getenv locals c next none = c ∷ next 0
expand_at getenv locals c next (some key) =
    resolved getenv key (find key locals) ++ next (length key + 2)

-- The loop of `ExpandVars`, with so many bytes to skip before the next round.
unfoldable pub expand_loop : (Bytes → Bytes) → Vars → ℕ → Bytes → Bytes
unfolding expand_at braced
expand_loop getenv locals skip [] = []
expand_loop getenv locals (suc skip) (c ∷ s) = expand_loop getenv locals skip s
expand_loop getenv locals zero (c ∷ s) =
    expand_at getenv locals c (λ n. expand_loop getenv locals n s)
      (if c == b'$' then braced s else none)

-- `ExpandVars`, which `expand` calls.
unfoldable pub expand_vars : (Bytes → Bytes) → Bytes → Vars → Bytes
unfolding expand_loop
expand_vars getenv s locals = expand_loop getenv locals 0 s

-- `strings.TrimPrefix`.
unfoldable pub trim_prefix : Bytes → Bytes → Option Bytes
trim_prefix s [] = some s
trim_prefix [] (p ∷ ps) = none
trim_prefix (c ∷ s) (p ∷ ps) = if c == p then trim_prefix s ps else none

abbrev or_else : Bytes → Option Bytes → Bytes
or_else s none = s
or_else s (some t) = t

-- `strings.Cut(line, "=")`.
unfoldable pub cut_equals : Bytes → Option (Bytes × Bytes)
cut_equals [] = none
cut_equals (c ∷ s) =
    let rest = cut_equals s in
    if c == b'=' then some ([], s) else elim rest [ none ↦ none | some (k, v) ↦ some (c ∷ k, v) ]

-- A line with an equals sign; a later value of a key replaces the earlier one.
abbrev pub assign : (Bytes → Bytes) → Vars → Option (Bytes × Bytes) → Vars
unfolding trim_space valid_key strip_quotes_and_comment expand_vars
assign getenv vars none = vars
assign getenv vars (some (before, after)) =
    let key = trim_space before in
    let value = strip_quotes_and_comment (trim_space after) in
    if not (valid_key key) then vars else (key, expand_vars getenv value vars) ∷ vars

-- A line without the blanks at its front.
abbrev pub parse_trimmed : (Bytes → Bytes) → Vars → Bytes → Vars
unfolding assign trim_prefix cut_equals
parse_trimmed getenv vars [] = vars
parse_trimmed getenv vars (c ∷ s) =
    if c == b'#'
    then vars
    else assign getenv vars (cut_equals (or_else (c ∷ s) (trim_prefix (c ∷ s) (codes "export "))))

-- A round of the loop of `Parse`.
unfoldable pub parse_line : (Bytes → Bytes) → Vars → Bytes → Vars
unfolding trim_left parse_trimmed
parse_line getenv vars text = parse_trimmed getenv vars (trim_left is_blank text)

-- The lines of `bufio.ScanLines`: a carriage return before the line break goes with it.
abbrev drop_cr : Bytes → Bytes
unfolding ends_with
drop_cr line = or_else line (ends_with b'\r' line)

abbrev last_line : Bytes → List Bytes
unfolding drop_cr
last_line [] = []
last_line (c ∷ s) = drop_cr (c ∷ s) ∷ []

scan_lines : Bytes → Bytes → List Bytes
unfolding drop_cr last_line
scan_lines line [] = last_line line
scan_lines line (c ∷ s) =
    if c == b'\n' then drop_cr line ∷ scan_lines [] s else scan_lines (line ++ c ∷ []) s

parse_lines : (Bytes → Bytes) → Vars → List Bytes → Vars
unfolding parse_line
parse_lines getenv vars [] = vars
parse_lines getenv vars (line ∷ lines) = parse_lines getenv (parse_line getenv vars line) lines

-- `Parse`.
pub parse : (Bytes → Bytes) → Bytes → EnvFile
unfolding scan_lines parse_lines
parse getenv input = record { vars = parse_lines getenv [] (scan_lines [] input); source = [] }

pub data ReadError : Type 0 where
  not_exist other_error : ReadError

pub data File : Type 0 where
  content : Bytes → File
  unreadable : ReadError → File

-- What `Read` makes of `os.ReadFile`, with no error for an absent file.
abbrev pub read : (Bytes → Bytes) → Bytes → File → EnvFile × Option ReadError
unfolding parse
read getenv path (content b) = (record (parse getenv b) { source = path }, none)
read getenv path (unreadable not_exist) = (record { vars = []; source = [] }, none)
read getenv path (unreadable other_error) = (record { vars = []; source = [] }, some other_error)

-- `ReadOptional`.
abbrev pub read_optional : (Bytes → Bytes) → (Bytes → File) → Bytes → EnvFile
unfolding read
read_optional getenv files path = (read getenv path (files path)).0

abbrev pub source_of : Bytes → Bytes → Bytes
source_of old [] = old
source_of old (c ∷ s) = c ∷ s

-- The loop of `ReadLayered`.
unfoldable pub layer : (Bytes → Bytes) → (Bytes → File) → EnvFile → List Bytes → EnvFile
unfolding read_optional
layer getenv files out [] = out
layer getenv files out (p ∷ paths) =
    let one = read_optional getenv files p in
    layer getenv files
      (record { vars = copy_vars out.vars one.vars; source = source_of out.source one.source })
      paths

-- `ReadLayered`.
pub read_layered : (Bytes → Bytes) → (Bytes → File) → List Bytes → EnvFile
unfolding layer
read_layered getenv files paths = layer getenv files (record { vars = []; source = [] }) paths
