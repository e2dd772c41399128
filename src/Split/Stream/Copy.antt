-- ===== src/Split/Stream/Copy.antt =====
-- The data of a COPY statement.
use treeman.Prelude.{
  ℕ, zero, suc, ◌<◌, true, false, List, [], ◌∷◌, ◌++◌, length, length-append, ◌==◌, ◌≡◌, refl, ap,
  sym, ◌∙◌, arith, All, append_assoc, append-nil,
}
use treeman.Prelude.Text.{Bytes}
use treeman.Split.{read_line}
use treeman.Split.Stream.{block, copy_lines, copy_data, after_rest, ends_block}

abbrev pub NoBreak : Bytes → Type 0
NoBreak s = All (λ c. (c == b'\n') ≡ false) s

abbrev pub line : Bytes → Bytes
line body = body ++ b'\n' ∷ []

-- Lines with their breaks, and what follows.
abbrev pub text : List Bytes → Bytes → Bytes
text [] rest = rest
text (body ∷ bodies) rest = line body ++ text bodies rest

-- A line of data.
abbrev pub IsData : Bytes → Type 0
IsData body = NoBreak body × (ends_block (line body) ≡ false)

read_line-line : (body r : Bytes) → NoBreak body → read_line (line body ++ r) ≡ (line body, r, true)
unfolding read_line
read_line-line [] r h = refl
read_line-line (c ∷ body) r (h, hs) = rw (h, read_line-line body r hs) refl

copy_lines-text :
    (f : ℕ) (out : Bytes) (bodies : List Bytes) (last rest : Bytes)
    → length bodies < f
    → All IsData bodies
    → NoBreak last
    → ends_block (line last) ≡ true
    → copy_lines f out (text bodies (line last ++ rest)) ≡ block (out ++ text bodies []) rest
unfolding copy_lines
copy_lines-text zero out bodies last rest l h n e = absurd (omega arith)
copy_lines-text (suc f) out [] last rest l h n e =
    rw (read_line-line last rest n, e) (ap (λ x. block x rest) (sym (append-nil out)))
copy_lines-text (suc f) out (body ∷ bodies) last rest l ((nb, nd), h) n e =
    rw (read_line-line body (text bodies (line last ++ rest)) nb, nd)
      (copy_lines-text f (out ++ line body) bodies last rest (omega arith) h n e
        ∙ ap (λ x. block x rest) (append_assoc out (line body) (text bodies [])))

length-text : (bodies : List Bytes) (rest : Bytes) → length bodies < suc (length (text bodies rest))
length-text [] rest = omega arith
length-text (body ∷ bodies) rest = omega (
  arith,
  length-text bodies rest,
  length-append (line body) (text bodies rest),
  length-append body (b'\n' ∷ []),
)

-- The data that a COPY callback reads are the lines behind the one that the statement ends in, byte
-- for byte, up to the line `\.`; the rest of the input stays for the next statement.
pub copy_data-text :
    (head last rest : Bytes) (bodies : List Bytes)
    → NoBreak head
    → All IsData bodies
    → NoBreak last
    → ends_block (line last) ≡ true
    → copy_data (line head ++ text bodies (line last ++ rest)) ≡ block (text bodies []) rest
unfolding copy_data after_rest
copy_data-text head last rest bodies nh h n e =
    rw (read_line-line head (text bodies (line last ++ rest)) nh) (
      copy_lines-text (suc (length (text bodies (line last ++ rest)))) [] bodies last rest
        (length-text bodies _) h n e)
