-- ===== src/Split/Quotes.antt =====
-- Quoted text: what `quoted` copies.
use treeman.Prelude.{
  ℕ, Bool, false, ◌&&◌, [], ◌∷◌, ◌++◌, if◌then◌else◌, ◌==◌, ◌≡◌, refl, ap, ◌∙◌, All, append_assoc,
  ==_iff, Bool-cases, inl, inr,
}
use treeman.Prelude.Text.{Bytes}
use treeman.Split.{scanned, quoted}

-- A text with its quotes doubled, as it stands between quotes.
unfoldable pub doubled : ℕ → Bytes → Bytes
doubled q [] = []
doubled q (c ∷ s) = if c == q then q ∷ q ∷ doubled q s else c ∷ doubled q s

abbrev pub begins_with : ℕ → Bytes → Bool
begins_with q [] = false
begins_with q (c ∷ s) = c == q

quoted-plain :
    (q : ℕ) (bs : Bool) (c : ℕ) (t buf : Bytes)
    → (bs && c == b'\\') ≡ false
    → (c == q) ≡ false
    → quoted q bs (c ∷ t) buf ≡ quoted q bs t (buf ++ c ∷ [])
unfolding quoted
quoted-plain q bs c [] buf h n = rw (h, n) refl
quoted-plain q bs c (e ∷ t) buf h n = rw (h, n) refl

quoted-twice :
    (q : ℕ) (bs : Bool) (t buf : Bytes)
    → (bs && q == b'\\') ≡ false
    → quoted q bs (q ∷ q ∷ t) buf ≡ quoted q bs t (buf ++ q ∷ q ∷ [])
unfolding quoted
quoted-twice q bs t buf h = rw (h, (==_iff q q).1 refl) refl

quoted-closes :
    (q : ℕ) (bs : Bool) (rest buf : Bytes)
    → (bs && q == b'\\') ≡ false
    → begins_with q rest ≡ false
    → quoted q bs (q ∷ rest) buf ≡ scanned rest (buf ++ q ∷ [])
unfolding quoted
quoted-closes q bs [] buf h n = rw (h, (==_iff q q).1 refl) refl
quoted-closes q bs (e ∷ rest) buf h n = rw (h, (==_iff q q).1 refl, n) refl

-- Between quotes, any text whose quotes are doubled, and which has no backslash where those escape, is
-- copied through the closing quote and no further, provided that no quote follows that one.
pub quoted-doubled :
    (q : ℕ) (bs : Bool) (body rest buf : Bytes)
    → (bs && q == b'\\') ≡ false
    → All (λ c. (bs && c == b'\\') ≡ false) body
    → begins_with q rest ≡ false
    → quoted q bs (doubled q body ++ q ∷ rest) buf ≡ scanned rest (buf ++ doubled q body ++ q ∷ [])
unfolding doubled
quoted-doubled q bs [] rest buf h a n =
    quoted-closes q bs rest buf h n ∙ ap (scanned rest) (simp append_assoc)
quoted-doubled q bs (c ∷ body) rest buf h (hc, a) n = elim (Bool-cases (c == q)) [
  | inl e ↦ rw e (
      quoted-twice q bs (doubled q body ++ q ∷ rest) buf h
      ∙ quoted-doubled q bs body rest (buf ++ q ∷ q ∷ []) h a n
      ∙ ap (scanned rest) (simp append_assoc))
  | inr e ↦ rw e (
      quoted-plain q bs c (doubled q body ++ q ∷ rest) buf hc e
      ∙ quoted-doubled q bs body rest (buf ++ c ∷ []) h a n
      ∙ ap (scanned rest) (simp append_assoc))
]
