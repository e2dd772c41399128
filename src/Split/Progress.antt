-- ===== src/Split/Progress.antt =====
-- The splitter never reads back: every step leaves at most the bytes that it was given, so the loops
-- end within their fuel.
use treeman.Prelude.{
  ℕ, zero, suc, ◌+◌, ◌-◌, ◌≤◌, Bool, true, false, ◌&&◌, [], ◌∷◌, ◌++◌, Option, none, some, ◌==◌,
  if◌then◌else◌, length, drop, arith, ◌<◌, ◌≡◌, refl, ◌∙◌, Bool-cases, inl, inr,
}
use treeman.Prelude.Text.{Bytes}
use treeman.Split.{
  Dialect, dialect_mysql, dialect_postgres, Scan, scanned, ran_out, quoted, block_loop,
  block_comment, read_line, dollar_loop, dollar_tagged, dollar, peek_dollar_tag, has_suffix, hint,
}

abbrev pub Shrinks : ℕ → Scan → Type 0
Shrinks n (scanned rest buf) = length rest ≤ n
Shrinks n ran_out = Unit {0}

Shrinks-mono : (m n : ℕ) (x : Scan) → m ≤ n → Shrinks m x → Shrinks n x
Shrinks-mono m n (scanned rest buf) l h = omega arith
Shrinks-mono m n ran_out l h = tt

if-Shrinks :
    (n : ℕ) (b : Bool) (x y : Scan) → Shrinks n x → Shrinks n y → Shrinks n (if b then x else y)
if-Shrinks n true x y hx hy = hx
if-Shrinks n false x y hx hy = hy

pub quoted-Shrinks : (q : ℕ) (bs : Bool) (r buf : Bytes) → Shrinks (length r) (quoted q bs r buf)
unfolding quoted
quoted-Shrinks q bs [] buf = tt
quoted-Shrinks q bs (b ∷ []) buf = ground arith
quoted-Shrinks q bs (b ∷ e ∷ r) buf =
    let n = length (b ∷ e ∷ r) in
    let two =
      λ (x : Scan) (h : Shrinks (length r) x). Shrinks-mono (length r) n x (omega arith) h in
    if-Shrinks n (bs && b == b'\\') _ _ (two _ (quoted-Shrinks q bs r (buf ++ b ∷ e ∷ []))) (
      if-Shrinks n (b == q && e == q) _ _ (two _ (quoted-Shrinks q bs r (buf ++ b ∷ q ∷ []))) (
        if-Shrinks n (b == q) _ _ (omega arith) (
          Shrinks-mono (length (e ∷ r)) n _ (omega arith)
            (quoted-Shrinks q bs (e ∷ r) (buf ++ b ∷ [])))))

block_loop-Shrinks :
    (k n : Bool) (depth : ℕ) (r buf : Bytes) → Shrinks (length r) (block_loop k n depth r buf)
unfolding block_loop
block_loop-Shrinks k n depth [] buf = tt
block_loop-Shrinks k n depth (b ∷ []) buf = tt
block_loop-Shrinks k n depth (b ∷ e ∷ r) buf =
    let m = length (b ∷ e ∷ r) in
    let two =
      λ (x : Scan) (h : Shrinks (length r) x). Shrinks-mono (length r) m x (omega arith) h in
    if-Shrinks m (b == b'*' && e == b'/') _ _
      (if-Shrinks m (depth == 0) _ _ (omega arith) (two _ (block_loop-Shrinks k n (depth - 1) r _)))
      (if-Shrinks m (b == b'/' && e == b'*' && n) _ _
        (two _ (block_loop-Shrinks k n (suc depth) r buf))
        (Shrinks-mono (length (e ∷ r)) m _ (omega arith) (block_loop-Shrinks k n depth (e ∷ r) _)))

pub length-drop-le : (n : ℕ) (r : Bytes) → length (drop n r) ≤ length r
length-drop-le zero r = omega arith
length-drop-le (suc n) [] = omega arith
length-drop-le (suc n) (c ∷ r) = omega (arith, length-drop-le n r)

dollar_loop-Shrinks : (closer r buf : Bytes) → Shrinks (length r) (dollar_loop closer r buf)
unfolding dollar_loop
dollar_loop-Shrinks closer [] buf = tt
dollar_loop-Shrinks closer (b ∷ r) buf =
    if-Shrinks (suc (length r)) (b == b'$' && has_suffix (buf ++ b ∷ []) closer)
      (scanned r (buf ++ b ∷ [])) _ (omega arith)
      (Shrinks-mono (length r) (suc (length r)) _ (omega arith)
        (dollar_loop-Shrinks closer r (buf ++ b ∷ [])))

pub dollar-Shrinks : (r buf : Bytes) → Shrinks (length r) (dollar r buf)
unfolding dollar
dollar-Shrinks r buf = go (peek_dollar_tag true r)
  where
    go : (t : Option Bytes) → Shrinks (length r) (dollar_tagged r buf t)
    go none = omega arith
    go (some tag) =
        Shrinks-mono (length (drop (length tag + 1) r)) (length r) (dollar_tagged r buf (some tag))
          (length-drop-le (length tag + 1) r)
          (dollar_loop-Shrinks (b'$' ∷ (tag ++ b'$' ∷ [])) (drop (length tag + 1) r)
            (buf ++ b'$' ∷ (tag ++ b'$' ∷ [])))

pub block_comment-Shrinks :
    (d : Dialect) (r buf : Bytes) → Shrinks (length r) (block_comment d r buf)
unfolding block_comment
block_comment-Shrinks dialect_mysql r buf = block_loop-Shrinks (hint r) false 0 r _
block_comment-Shrinks dialect_postgres r buf = block_loop-Shrinks false true 0 r buf

pub length-read_line : (r : Bytes) → length (read_line r).1 ≤ length r
unfolding read_line
length-read_line [] = omega arith
length-read_line (c ∷ r) = ground (arith, length-read_line r)

-- A whole line has its break at least.
pub read_line-shorter : (r : Bytes) → (read_line r).2 ≡ true → length (read_line r).1 < length r
unfolding read_line
read_line-shorter [] h = absurd (ground (arith, h))
read_line-shorter (c ∷ r) h = elim (Bool-cases (c == b'\n')) [
  | inl e ↦ rw e (omega arith)
  | inr e ↦
      rw e
        (let k : (read_line r).2 ≡ true = (rw e refl) ∙ h in omega (arith, read_line-shorter r k))
]
