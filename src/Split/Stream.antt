-- ===== src/Split/Stream.antt =====
-- internal/db/dumpload/split.go: `step`, `next`, `copyData` and `streamStatements`, over the lexing of
-- the parent module.
pub mod Ends
pub mod Whole
pub mod Copy
pub mod Tests
use treeman.Prelude.{
  ℕ, zero, suc, ◌+◌, ◌-◌, ◌^◌, Bool, true, false, not, ◌&&◌, ◌||◌, List, [], ◌∷◌, ◌++◌, Option,
  none, some, leb, ◌==◌, if◌then◌else◌, length, drop, ◌≡◌,
}
use treeman.Prelude.Text.{Bytes, codes, bytes_eq, trim_right}
use treeman.Prelude.Space.{trim_space, blank}
use treeman.Split.{
  Dialect, dialect_mysql, dialect_postgres, is_mysql, Error, unterminated, no_delimiter,
  read_failed, Splitter, Result, ok, err, Scan, scanned, ran_out, of_scan, unterminated_err,
  peek_is, peek_fold, peek_space_at, after_ident_byte, after_e_prefix, quoted, block_comment,
  read_line, dollar,
}

abbrev put : Splitter → ℕ → Splitter
put s b = record s { buf = s.buf ++ b ∷ [] }

-- `readDelimiter`, behind the D.
abbrev with_delimiter : Splitter → Bytes → Bytes → Result Bool
with_delimiter s rest [] = err no_delimiter
with_delimiter s rest (c ∷ delim) = ok false (record s { r = rest; delim = c ∷ delim; buf = [] })

read_delimiter : Splitter → Result Bool
unfolding read_line trim_space
read_delimiter s =
    let (line, rest, whole) = read_line (drop 8 s.r) in
    if s.broken && not whole then err read_failed else with_delimiter s rest (trim_space line)

-- `skipLine`: at the end of the input it is done, unless the input ends in an error.
skip_line : Splitter → Result Bool
unfolding read_line
skip_line s =
    let (line, rest, whole) = read_line s.r in
    if s.broken && not whole then err read_failed else ok false (record s { r = rest })

-- The delimiter begins with `b`, and the rest of it comes next. It is never empty.
abbrev pub at_delimiter : ℕ → Bytes → Bytes → Bool
at_delimiter b [] r = false
at_delimiter b (c ∷ delim) r = b == c && peek_is delim r

abbrev unquoted : Result (Unit {0}) → Result Bool
unquoted (ok _ s) = ok false s
unquoted (err e) = err e

-- `step`, for a byte `b` that was just read.
pub step : ℕ → Splitter → Result Bool
unfolding read_delimiter skip_line
step b s =
    if is_mysql s.d
      && blank s.buf
      && (b == b'D' || b == b'd')
      && peek_fold (codes "ELIMITER") s.r
      && peek_space_at 8 s.r
    then read_delimiter s
    else if at_delimiter b s.delim s.r
    then ok true (record s { r = drop (length s.delim - 1) s.r })
    else if b == b'$' && not (is_mysql s.d) && not (after_ident_byte s.buf)
    then unquoted (of_scan s (dollar s.r s.buf))
    else if b == b'-' && peek_is (codes "-") s.r && (not (is_mysql s.d) || peek_space_at 1 s.r)
    then skip_line s
    else if b == b'#' && is_mysql s.d
    then skip_line s
    else if b == b'/' && peek_is (codes "*") s.r
    then unquoted (of_scan s (block_comment s.d (drop 1 s.r) s.buf))
    else if b == b'\''
    then unquoted
        (of_scan s (quoted b (is_mysql s.d || after_e_prefix s.buf) s.r (s.buf ++ b ∷ [])))
    else if b == b'"'
    then unquoted (of_scan s (quoted b (is_mysql s.d) s.r (s.buf ++ b ∷ [])))
    else if b == b'`' && is_mysql s.d
    then unquoted (of_scan s (quoted b false s.r (s.buf ++ b ∷ [])))
    else ok false (put s b)

pub data Next : Type 0 where
  found : Bytes → Splitter → Next
  at_eof : Next
  failed : Error → Next
  no_fuel : Next

abbrev clear : Splitter → Splitter
clear s = record s { buf = [] }

-- `take(io.EOF)`, or the read error that the input ends in.
abbrev at_end : Splitter → Next
at_end s =
    if s.broken then failed read_failed else if blank s.buf then at_eof else found s.buf (clear s)

abbrev pop_byte : Splitter → Bytes → Splitter
pop_byte s r = record s { r = r }

-- What a step leads to: `again` is the rest of the loop.
abbrev pub go_on : (Splitter → Next) → Result Bool → Next
go_on again (err e) = failed e
go_on again (ok false s) = again s
go_on again (ok true s) = if blank s.buf then again (clear s) else found s.buf (clear s)

-- The loop of `next`, on fuel.
pub next_loop : ℕ → Splitter → Next
unfolding step
next_loop zero s = no_fuel
next_loop (suc f) s = elim s.r [
  | [] ↦ at_end s
  | b ∷ r ↦ go_on (next_loop f) (step b (pop_byte s r))
]

-- `next`: a round reads a byte at least.
pub next : Splitter → Next
unfolding next_loop
next s = next_loop (suc (length s.r)) (clear s)

abbrev is_crlf : ℕ → Bool
is_crlf c = c == b'\n' || c == b'\r'

-- A line that ends a data block. `ReadSlice` returns a longer line than its buffer in pieces, and
-- those are data.
abbrev ends_block : Bytes → Bool
ends_block line = leb (length line) (2 ^ 20) && bytes_eq (trim_right is_crlf line) (codes "\\.")

-- The data of a block and what follows it, or the data before the error that ends it too early.
pub data Block : Type 0 where
  block : Bytes → Bytes → Block
  cut_off : Bytes → Block
  spent : Block

-- `copyData` read to its end, on fuel: the data and what follows the `\.` line. Each line needs its
-- break; of a last line without one, nothing is data.
copy_lines : ℕ → Bytes → Bytes → Block
unfolding read_line trim_right bytes_eq
copy_lines zero out r = spent
copy_lines (suc f) out r =
    let (line, rest, whole) = read_line r in
    let more = copy_lines f (out ++ line) rest in
    if not whole then cut_off out else if ends_block line then block out rest else more

abbrev after_rest : Bytes × Bytes × Bool → Block
unfolding copy_lines
after_rest (line, rest, whole) =
    if whole then copy_lines (suc (length rest)) [] rest else cut_off []

-- A fresh `copyData`: `skipRest` drops the rest of the line of the COPY statement.
pub copy_data : Bytes → Block
unfolding read_line copy_lines
copy_data r = after_rest (read_line r)

-- What a callback returns, with the state it leaves: no error, or one.
pub data Called (A : Type 0) : Type 0 where
  returned raised : A → Called A

-- `statementSink` over a state. `on_copy` may be nil; it sees the statement, the data, and whether
-- reading them ended in an error.
pub record Sink (A : Type 0) : Type 0 where
  pub on_stmt : A → Bytes → Called A
  pub on_copy : Option (A → Bytes → Bytes → Bool → Called A)

pub data Outcome (A : Type 0) : Type 0 where
  done : A → Outcome A
  stopped : A → Outcome A
  out_of_fuel : Outcome A

abbrev pub or_stop : {A : Type 0} → (A → Outcome A) → Called A → Outcome A
or_stop k (raised b) = stopped b
or_stop k (returned b) = k b

-- The data that end in an error leave nothing of the input.
abbrev copied :
    {A : Type 0}
    → A
    → Bytes
    → Splitter
    → (A → Splitter → Outcome A)
    → Option (A → Bytes → Bytes → Bool → Called A)
    → Block
    → Outcome A
copied a stmt s k none b = stopped a
copied a stmt s k (some on_copy) (block bytes rest) =
    or_stop (λ b. k b (record s { r = rest })) (on_copy a stmt bytes false)
copied a stmt s k (some on_copy) (cut_off bytes) =
    or_stop (λ b. k b (record s { r = [] })) (on_copy a stmt bytes true)
copied a stmt s k (some on_copy) spent = out_of_fuel

-- What `streamStatements` does with the result of `next`.
abbrev pub deliver :
    {A : Type 0} → (Bytes → Bool) → Sink A → A → (A → Splitter → Outcome A) → Next → Outcome A
unfolding copy_data
deliver is_copy sink a k at_eof = done a
deliver is_copy sink a k (failed e) = stopped a
deliver is_copy sink a k no_fuel = out_of_fuel
deliver is_copy sink a k (found stmt s) =
    if not (is_mysql s.d) && is_copy stmt
    then copied a stmt s k sink.on_copy (copy_data s.r)
    else or_stop (λ b. k b s) (sink.on_stmt a stmt)

-- The loop of `streamStatements`, with a context that is not cancelled; `is_copy` is the match of
-- `copyFromStdin`.
pub stream_loop : {A : Type 0} → (Bytes → Bool) → Sink A → ℕ → A → Splitter → Outcome A
unfolding next copy_data
stream_loop is_copy sink zero a s = out_of_fuel
stream_loop is_copy sink (suc f) a s =
    deliver is_copy sink a (λ b t. stream_loop is_copy sink f b t) (next s)

pub stream_statements :
    {A : Type 0} → (Bytes → Bool) → Sink A → A → Bool → Dialect → Bytes → Outcome A
unfolding stream_loop
stream_statements is_copy sink a broken d r =
    stream_loop is_copy sink (suc (length r)) a
      (record { r = r; broken = broken; d = d; delim = codes ";"; buf = [] })
