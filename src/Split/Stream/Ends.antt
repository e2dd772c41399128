-- ===== src/Split/Stream/Ends.antt =====
-- `next` comes to an end, since every step leaves at most the bytes that it was given.
use treeman.Prelude.{
  ℕ, zero, suc, ◌-◌, ◌≤◌, ◌<◌, Bool, true, false, not, ◌&&◌, ◌||◌, [], ◌∷◌, ◌++◌, ◌==◌,
  if◌then◌else◌, length, drop, arith,
}
use treeman.Prelude.Text.{Bytes, codes}
use treeman.Prelude.Space.{trim_space, blank, blank_nil}
use treeman.Split.{
  is_mysql, read_failed, Splitter, Result, ok, err, Scan, scanned, ran_out, of_scan, block_comment,
  read_line, peek_is, peek_fold, peek_space_at, after_ident_byte, after_e_prefix,
}
use treeman.Split.Progress.{
  Shrinks, quoted-Shrinks, dollar-Shrinks, block_comment-Shrinks, length-read_line, length-drop-le,
}
use treeman.Split.Stream.{
  put, with_delimiter, read_delimiter, skip_line, unquoted, at_delimiter, step, Next, found, at_eof,
  failed, no_fuel, at_end, go_on, next_loop, next, clear, pop_byte,
}

-- A step that succeeds leaves at most `n` bytes.
abbrev Within : {A : Type 0} → ℕ → Result A → Type 0
Within n (ok a s) = length s.r ≤ n
Within n (err e) = Unit {0}

-- The same as a record, which keeps its argument in sight.
record Bounded (n : ℕ) (x : Result Bool) : Type 0 where
  bound : Within n x

if-Bounded :
    (n : ℕ) (b : Bool) (x y : Result Bool)
    → Bounded n x
    → Bounded n y
    → Bounded n (if b then x else y)
if-Bounded n true x y hx hy = hx
if-Bounded n false x y hx hy = hy

if-Within :
    (n : ℕ) (b : Bool) (x y : Result Bool) → Within n x → Within n y → Within n (if b then x else y)
if-Within n true x y hx hy = hx
if-Within n false x y hx hy = hy

scan-Within :
    (s : Splitter) (x : Scan)
    → Shrinks (length s.r) x
    → Within (length s.r) (unquoted (of_scan s x))
scan-Within s (scanned rest buf) h = h
scan-Within s ran_out h = tt

with_delimiter-Within :
    (n : ℕ) (s : Splitter) (rest delim : Bytes)
    → length rest ≤ n
    → Within n (with_delimiter s rest delim)
with_delimiter-Within n s rest [] h = tt
with_delimiter-Within n s rest (c ∷ delim) h = h

read_delimiter-Within : (s : Splitter) → Within (length s.r) (read_delimiter s)
unfolding read_delimiter
read_delimiter-Within s =
    if-Within (length s.r) (s.broken && not (read_line (drop 8 s.r)).2) (err read_failed) _ tt (
      with_delimiter-Within (length s.r) s (read_line (drop 8 s.r)).1
        (trim_space (read_line (drop 8 s.r)).0)
        (omega (arith, length-read_line (drop 8 s.r), length-drop-le 8 s.r)))

skip_line-Within : (s : Splitter) → Within (length s.r) (skip_line s)
unfolding skip_line
skip_line-Within s =
    if-Within (length s.r) (s.broken && not (read_line s.r).2) (err read_failed) _ tt
      (length-read_line s.r)

block_comment-Within :
    (s : Splitter)
    → Within (length s.r) (unquoted (of_scan s (block_comment s.d (drop 1 s.r) s.buf)))
block_comment-Within s =
    scan-Within s _
      (le (block_comment s.d (drop 1 s.r) s.buf) (block_comment-Shrinks s.d (drop 1 s.r) s.buf))
  where
    le : (x : Scan) → Shrinks (length (drop 1 s.r)) x → Shrinks (length s.r) x
    le (scanned rest buf) h = omega (arith, length-drop-le 1 s.r)
    le ran_out h = tt

put-Within : (b : ℕ) (s : Splitter) → Within (length s.r) (ok false (put s b))
put-Within b s = omega arith

scan-Bounded :
    (s : Splitter) (x : Scan)
    → Shrinks (length s.r) x
    → Bounded (length s.r) (unquoted (of_scan s x))
scan-Bounded s x h = record { bound = scan-Within s x h }

step-Bounded : (b : ℕ) (s : Splitter) → Bounded (length s.r) (step b s)
unfolding step
step-Bounded b s =
    let n = length s.r in
    if-Bounded n
      (is_mysql s.d
        && blank s.buf
        && (b == 68 || b == 100)
        && peek_fold (codes "ELIMITER") s.r
        && peek_space_at 8 s.r)
      _ _ (record { bound = read_delimiter-Within s })
      (if-Bounded n (at_delimiter b s.delim s.r)
        (ok true (record s { r = drop (length s.delim - 1) s.r })) _
        (record { bound = length-drop-le (length s.delim - 1) s.r })
        (if-Bounded n (b == b'$' && not (is_mysql s.d) && not (after_ident_byte s.buf)) _ _
          (scan-Bounded s _ (dollar-Shrinks s.r s.buf))
          (if-Bounded n
            (b == b'-' && peek_is (codes "-") s.r && (not (is_mysql s.d) || peek_space_at 1 s.r)) _
            _ (record { bound = skip_line-Within s })
            (if-Bounded n (b == b'#' && is_mysql s.d) _ _ (record { bound = skip_line-Within s })
              (if-Bounded n (b == b'/' && peek_is (codes "*") s.r) _ _
                (record { bound = block_comment-Within s })
                (if-Bounded n (b == b'\'') _ _
                  (scan-Bounded s _
                    (quoted-Shrinks b (is_mysql s.d || after_e_prefix s.buf) s.r (s.buf ++ b ∷ [])))
                  (if-Bounded n (b == b'"') _ _
                    (scan-Bounded s _ (quoted-Shrinks b (is_mysql s.d) s.r (s.buf ++ b ∷ [])))
                    (if-Bounded n (b == b'`' && is_mysql s.d) _ (ok false (put s b))
                      (scan-Bounded s _ (quoted-Shrinks b false s.r (s.buf ++ b ∷ [])))
                      (record { bound = put-Within b s })))))))))

-- A statement that is found leaves fewer than `n` bytes.
abbrev pub Advances : ℕ → Next → Type 0
Advances n (found stmt s) = length s.r < n
Advances n at_eof = Unit {0}
Advances n (failed e) = Unit {0}
Advances n no_fuel = ⊥

if-Advances :
    (n : ℕ) (b : Bool) (x y : Next) → Advances n x → Advances n y → Advances n (if b then x else y)
if-Advances n true x y hx hy = hx
if-Advances n false x y hx hy = hy

at_end-Advances : (n : ℕ) (s : Splitter) → length s.r < n → Advances n (at_end s)
at_end-Advances n s h =
    if-Advances n s.broken (failed read_failed) _ tt
      (if-Advances n (blank s.buf) at_eof (found s.buf (clear s)) tt h)

go_on-Advances :
    (m n : ℕ) (again : Splitter → Next) (x : Result Bool)
    → m < n
    → Within m x
    → ((s : Splitter) → length s.r ≤ m → Advances n (again s))
    → Advances n (go_on again x)
go_on-Advances m n again (err e) l h k = tt
go_on-Advances m n again (ok false s) l h k = k s h
go_on-Advances m n again (ok true s) l h k =
    if-Advances n (blank s.buf) (again (clear s)) (found s.buf (clear s)) (k (clear s) h)
      (omega arith)

pub impossible : {n : ℕ} → n < 0 → ⊥
impossible h = omega arith

next_loop-Advances :
    (f n : ℕ) (s : Splitter) (r : Bytes)
    → length r < f
    → length r < n
    → Advances n (next_loop f (pop_byte s r))
unfolding next_loop
next_loop-Advances zero n s r h l = elim (impossible h) [ ]
next_loop-Advances (suc f) n s [] h l = at_end-Advances n (pop_byte s []) l
next_loop-Advances (suc f) n s (b ∷ r) h l =
    go_on-Advances (length r) n (next_loop f) (step b (pop_byte s r)) (omega arith)
      (step-Bounded b (pop_byte s r)).bound
      (λ t le. next_loop-Advances f n t t.r (omega arith) (omega arith))

-- `next` comes to an end, and with a statement, fewer bytes are left than before.
pub next-Advances : (s : Splitter) (r : Bytes) → Advances (length r) (next (pop_byte s r))
unfolding next next_loop
next-Advances s [] = if-Advances 0 s.broken (failed read_failed) _ tt (rw blank_nil tt)
next-Advances s (b ∷ r) =
    go_on-Advances (length r) (suc (length r)) (next_loop (suc (length r)))
      (step b (clear (pop_byte s r))) (omega arith) (step-Bounded b (clear (pop_byte s r))).bound
      (λ t le.
        next_loop-Advances (suc (length r)) (suc (length r)) t t.r (omega arith) (omega arith))
