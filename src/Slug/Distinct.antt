-- ===== src/Slug/Distinct.antt =====
-- What a slug promises to the engines: a name that every one of them accepts, and that ends in the
-- tag of what it was derived from.
use treeman.Prelude.{
  ◌≤◌, ◌-◌, max, [], ◌∷◌, ◌++◌, Option, none, some, true, leb, length, take, All, ◌≡◌, refl, arith,
  Bool-cases, inl, inr, ap, sym, ◌∙◌, append_assoc, length-append,
}
use treeman.Prelude.Text.{Bytes, codes, trim_right}
use treeman.Ident.{ident_byte}
use treeman.Ident
use treeman.Ident.Quoting.{validate_mysql_ok}
use treeman.Slug.{
  Host, tag, is_underscore, compose_ticket, canonical, for_path, for_main, extract_ticket, base,
  path_slug,
}
use treeman.Slug.Shape.{
  IsDigest, Checkout, linked, main_tree, slug_of, slug_of-IsSlug, length-tag, IsWord,
}

words-ident : (s : Bytes) → All IsWord s → All (λ c. ident_byte c ≡ true) s
words-ident [] h = tt
words-ident (c ∷ s) (w, h) = (ground arith, words-ident s h)

-- Every slug, of a linked worktree or of a main one on any branch, has at most 32 bytes and is a
-- valid SQL identifier as it stands, provided that blake3 returns 32 bytes.
pub slug_of_valid :
    (h : Host) (c : Checkout)
    → IsDigest h
    → (length (slug_of h c).value ≤ 32)
      × (Ident.validate_mysql (slug_of h c).value ≡ Ident.ok (slug_of h c).value)
slug_of_valid h c d =
    let s = slug_of-IsSlug h d c in (s.fits, validate_mysql_ok _ (s.ne_nil, words-ident _ s.words))

-- What the tag is taken of: the canonical path, the branch, or on a detached head the raw path.
abbrev pub key : Host → Checkout → Bytes
key h (linked path branch) = canonical h path
key h (main_tree path []) = path
key h (main_tree path (c ∷ branch)) = c ∷ branch

-- A readable part before an underscore and the tag.
abbrev Tagged : Host → Bytes → Bytes → Type 0
Tagged h k v = (readable : Bytes) × (v ≡ readable ++ tag h k)

compose_ticket-Tagged :
    (h : Host) (readable k : Bytes) → Tagged h k (compose_ticket readable (tag h k))
unfolding compose_ticket
compose_ticket-Tagged h readable k = elim (Bool-cases (leb (length (readable ++ b'_' ∷ t)) 32)) [
  | inl e ↦ (readable ++ b'_' ∷ [], rw e (sym (append_assoc readable (b'_' ∷ []) t)))
  | inr e ↦ (cut ++ b'_' ∷ [], rw e (sym (append_assoc cut (b'_' ∷ []) t)))
]
  where
    t : Bytes
    t = tag h k

    cut : Bytes
    cut = trim_right is_underscore (take (max (32 - 1 - length t) 1) readable)

path_slug-Tagged :
    (h : Host) (k : Bytes) (m : Option Bytes) → Tagged h k (path_slug (tag h k) m).value
path_slug-Tagged h k none = (codes "wt_", refl)
path_slug-Tagged h k (some t) = compose_ticket-Tagged h t k

slug_of-Tagged : (h : Host) (c : Checkout) → Tagged h (key h c) (slug_of h c).value
unfolding for_path for_main
slug_of-Tagged h (linked path branch) =
    path_slug-Tagged h (canonical h path) (extract_ticket (base path))
slug_of-Tagged h (main_tree path []) = (codes "main_detached_", refl)
slug_of-Tagged h (main_tree path (c ∷ branch)) = compose_ticket-Tagged h _ (c ∷ branch)

suffix_eq : (r s t u : Bytes) → length t ≡ length u → r ++ t ≡ s ++ u → t ≡ u
suffix_eq [] [] t u l e = e
suffix_eq [] (y ∷ s) t u l e = absurd (omega (arith, ap length e, length-append s u))
suffix_eq (x ∷ r) [] t u l e = absurd (omega (arith, ap length e, length-append r t))
suffix_eq (x ∷ r) (y ∷ s) t u l e = suffix_eq r s t u l (ground arith)

-- Two checkouts get the same slug only if the tags of what they were derived from agree: a long
-- readable part that is cut, or a branch that is sanitised away, never makes two slugs meet.
pub slug_of-tag :
    (h : Host) (c e : Checkout)
    → IsDigest h
    → (slug_of h c).value ≡ (slug_of h e).value
    → tag h (key h c) ≡ tag h (key h e)
slug_of-tag h c e d same =
    let (r, p) = slug_of-Tagged h c in
    let (s, q) = slug_of-Tagged h e in
    suffix_eq r s (tag h (key h c)) (tag h (key h e))
      (length-tag h (key h c) d ∙ sym (length-tag h (key h e) d)) (sym p ∙ same ∙ q)
