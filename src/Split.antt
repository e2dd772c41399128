-- ===== src/Split.antt =====
-- internal/db/dumpload/split.go: the SQL statement splitter. The buffered reader is the list of the
-- bytes to come, and a flag that tells whether it ends in a read error instead of EOF.
pub mod Stream
pub mod Progress
pub mod Dollar
pub mod Quotes
use treeman.Prelude.{
  ℕ, zero, suc, ◌+◌, ◌-◌, Bool, true, false, not, ◌&&◌, ◌||◌, List, [], ◌∷◌, ◌++◌, Option, none,
  some, reverse, leb, ltb, ◌==◌, if◌then◌else◌, length, take, drop, get_elem?, ◌≡◌,
}
use treeman.Prelude.Text.{Bytes, codes, bytes_eq, is_upper, is_lower, is_digit}
use treeman.Prelude.Space.{trim_space, blank}

pub data Dialect : Type 0 where
  dialect_mysql dialect_postgres : Dialect

pub data Error : Type 0 where
  unterminated no_delimiter read_failed : Error

-- `splitter`: `r` holds the bytes to come.
pub record Splitter : Type 0 where
  pub r : Bytes
  pub broken : Bool
  pub d : Dialect
  pub delim : Bytes
  pub buf : Bytes

pub data Result {ℓ} (A : Type ℓ) : Type ℓ where
  ok : A → Splitter → Result A
  err : Error → Result A

-- `for` loops over the input end with the bytes left and the new buffer, or at the end of the input.
pub data Scan : Type 0 where
  scanned : Bytes → Bytes → Scan
  ran_out : Scan

abbrev pub is_mysql : Dialect → Bool
is_mysql dialect_mysql = true
is_mysql dialect_postgres = false

-- `unterminated`: EOF is an error here, and a read error is passed on.
abbrev unterminated_err : Splitter → Error
unterminated_err s = if s.broken then read_failed else unterminated

abbrev of_scan : Splitter → Scan → Result (Unit {0})
of_scan s (scanned rest buf) = ok tt (record s { r = rest; buf = buf })
of_scan s ran_out = err (unterminated_err s)

abbrev pub is_ident_byte : ℕ → Bool
is_ident_byte c = c == b'_' || is_lower c || is_upper c || is_digit c || leb 0x80 c

-- `peekIs` on the bytes to come.
pub peek_is : Bytes → Bytes → Bool
peek_is [] r = true
peek_is (w ∷ want) [] = false
peek_is (w ∷ want) (c ∷ r) = c == w && peek_is want r

abbrev lower : ℕ → ℕ
lower c = if is_upper c then c + 32 else c

-- `peekFold` with an ASCII text whose letters fold with no other rune.
pub peek_fold : Bytes → Bytes → Bool
peek_fold [] r = true
peek_fold (w ∷ want) [] = false
peek_fold (w ∷ want) (c ∷ r) = lower c == lower w && peek_fold want r

abbrev space_or_end : Option ℕ → Bool
space_or_end none = true
space_or_end (some c) = leb c b' '

-- `peekSpaceAt`.
abbrev pub peek_space_at : ℕ → Bytes → Bool
peek_space_at i r = space_or_end (get_elem? r i)

abbrev pub last_byte : Bytes → Option ℕ
last_byte [] = none
last_byte (c ∷ []) = some c
last_byte (c ∷ d ∷ s) = last_byte (d ∷ s)

abbrev ident_or_dollar : Option ℕ → Bool
ident_or_dollar none = false
ident_or_dollar (some c) = is_ident_byte c || c == b'$'

-- `afterIdentByte`.
abbrev pub after_ident_byte : Bytes → Bool
after_ident_byte buf = ident_or_dollar (last_byte buf)

-- `afterEPrefix`: the buffer ends in an E behind no identifier byte.
abbrev pub after_e_prefix : Bytes → Bool
after_e_prefix [] = false
after_e_prefix (c ∷ []) = c == b'E' || c == b'e'
after_e_prefix (c ∷ d ∷ []) = (d == b'E' || d == b'e') && not (is_ident_byte c)
after_e_prefix (c ∷ d ∷ e ∷ s) = after_e_prefix (d ∷ e ∷ s)

-- `quoted`: copies through the closing quote `q`.
pub quoted : ℕ → Bool → Bytes → Bytes → Scan
quoted q backslash [] buf = ran_out
quoted q backslash (b ∷ []) buf =
    if backslash && b == b'\\'
    then ran_out
    else if b == q
    then scanned [] (buf ++ b ∷ [])
    else ran_out
quoted q backslash (b ∷ e ∷ r) buf =
    let escaped = quoted q backslash r (buf ++ b ∷ e ∷ []) in
    let doubled = quoted q backslash r (buf ++ b ∷ q ∷ []) in
    let more = quoted q backslash (e ∷ r) (buf ++ b ∷ []) in
    if backslash && b == b'\\'
    then escaped
    else if b == q && e == q
    then doubled
    else if b == q
    then scanned (e ∷ r) (buf ++ b ∷ [])
    else more

abbrev kept : Bool → Bytes → Bytes → Bytes
kept keep buf s = if keep then buf ++ s else buf

-- The loop of `blockComment` at the depth `suc depth`; `nests` is the Postgres rule.
pub block_loop : Bool → Bool → ℕ → Bytes → Bytes → Scan
block_loop keep nests depth [] buf = ran_out
block_loop keep nests depth (b ∷ []) buf = ran_out
block_loop keep nests depth (b ∷ e ∷ r) buf =
    let closed = block_loop keep nests (depth - 1) r (kept keep buf (codes "*/")) in
    let opened = block_loop keep nests (suc depth) r buf in
    let more = block_loop keep nests depth (e ∷ r) (kept keep buf (b ∷ [])) in
    if b == b'*' && e == b'/'
    then if depth == 0 then scanned r (kept keep buf (codes "*/")) else closed
    else if b == b'/' && e == b'*' && nests
    then opened
    else more

abbrev hint : Bytes → Bool
hint [] = false
hint (c ∷ r) = c == b'!' || c == b'+'

-- `blockComment`, behind `/*`.
pub block_comment : Dialect → Bytes → Bytes → Scan
unfolding block_loop
block_comment dialect_mysql r buf =
    block_loop (hint r) false 0 r (if hint r then buf ++ codes "/*" else buf)
block_comment dialect_postgres r buf = block_loop false true 0 r buf

-- What `ReadString('\n')` reads, and what is left; the flag tells whether the line break is there.
pub read_line : Bytes → Bytes × Bytes × Bool
read_line [] = ([], [], false)
read_line (c ∷ r) =
    let (line, rest, found) = read_line r in
    if c == b'\n' then (c ∷ [], r, true) else (c ∷ line, rest, found)

-- `peekDollarTag`: the tag before the next `$`.
pub peek_dollar_tag : Bool → Bytes → Option Bytes
peek_dollar_tag first [] = none
peek_dollar_tag first (c ∷ r) =
    let rest = peek_dollar_tag false r in
    if c == b'$'
    then some []
    else if not (is_ident_byte c) || (first && is_digit c)
    then none
    else elim rest [ none ↦ none | some tag ↦ some (c ∷ tag) ]

-- `bytes.HasSuffix`.
pub has_suffix : Bytes → Bytes → Bool
unfolding peek_is
has_suffix buf closer = peek_is (reverse closer) (reverse buf)

-- The loop of `dollar` to the closing `$tag$`.
pub dollar_loop : Bytes → Bytes → Bytes → Scan
unfolding has_suffix
dollar_loop closer [] buf = ran_out
dollar_loop closer (b ∷ r) buf =
    let more = dollar_loop closer r (buf ++ b ∷ []) in
    if b == b'$' && has_suffix (buf ++ b ∷ []) closer then scanned r (buf ++ b ∷ []) else more

abbrev pub dollar_tagged : Bytes → Bytes → Option Bytes → Scan
dollar_tagged r buf none = scanned r (buf ++ b'$' ∷ [])
dollar_tagged r buf (some tag) =
    let closer = b'$' ∷ (tag ++ b'$' ∷ []) in
    dollar_loop closer (drop (length tag + 1) r) (buf ++ closer)

-- `dollar`, behind the `$`.
pub dollar : Bytes → Bytes → Scan
unfolding peek_dollar_tag dollar_loop
dollar r buf = dollar_tagged r buf (peek_dollar_tag true r)
