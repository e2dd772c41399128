-- ===== src/Slug/Prefix.antt =====
-- Slugs that are prefixes of other slugs.
use treeman.Prelude.{
  [], ◌∷◌, ◌++◌, length, All, ◌≡◌, refl, arith, reverse, reverse-append, length-append,
  length-reverse, All-of_all, ◌<◌, ◌+◌, All-append, All-reverse,
}
use treeman.Prelude.Text.{Bytes, codes}
use treeman.Slug.{Host, tag, compose_ticket, sanitise_branch, for_main, readable_main, alnum}
use treeman.Slug.Shape.{word, IsDigest, IsWord, IsAlnum, tag-IsAlnum, alnum-words, length-tag}
use treeman.Slug.Sanitise.{HeadOk, NoDouble, sanitise_branch_fixed}

-- The branch `detached_` and the tag of a path.
abbrev pub shadow : Host → Bytes → Bytes
shadow h path = codes "detached_" ++ tag h path

alnum-HeadOk : (s : Bytes) → All IsAlnum s → HeadOk s
alnum-HeadOk [] a = tt
alnum-HeadOk (c ∷ s) (a, r) = ground arith

alnum-NoDouble : (s : Bytes) → All IsAlnum s → NoDouble s
alnum-NoDouble [] a = tt
alnum-NoDouble (c ∷ s) (a, r) = (λ _. alnum-HeadOk s r, alnum-NoDouble s r)

NoDouble-join : (s t : Bytes) → All IsAlnum s → All IsAlnum t → NoDouble (s ++ b'_' ∷ t)
NoDouble-join [] t a b = (λ _. alnum-HeadOk t b, alnum-NoDouble t b)
NoDouble-join (c ∷ s) t (a, r) b = (λ u. absurd (ground arith), NoDouble-join s t r b)

HeadOk-append : (s t : Bytes) → All IsAlnum s → 0 < length s → HeadOk (s ++ t)
HeadOk-append [] t a l = absurd (omega arith)
HeadOk-append (c ∷ s) t (a, r) l = ground arith

module _ (h : Host) (d : IsDigest h) (path : Bytes) where
  shadow-words : All IsWord (shadow h path)
  shadow-words =
      All-append IsWord (codes "detached_") (tag h path) (All-of_all word (codes "detached_") refl)
        (alnum-words _ (tag-IsAlnum h path d))

  shadow-NoDouble : NoDouble (shadow h path)
  shadow-NoDouble =
      NoDouble-join (codes "detached") (tag h path) (All-of_all alnum (codes "detached") refl)
        (tag-IsAlnum h path d)

  shadow_end : HeadOk (reverse (shadow h path))
  shadow_end = rw (reverse-append (codes "detached_") (tag h path)) (
      HeadOk-append (reverse (tag h path)) (reverse (codes "detached_"))
        (All-reverse IsAlnum _ (tag-IsAlnum h path d))
        (omega (arith, length-reverse (tag h path), length-tag h path d)))

  sanitise_branch-shadow :
      h.to_lower (shadow h path) ≡ shadow h path → sanitise_branch h (shadow h path) ≡ shadow h path
  sanitise_branch-shadow e =
      sanitise_branch_fixed h (shadow h path) e shadow-words refl shadow_end shadow-NoDouble

compose_ticket_short :
    (readable t : Bytes)
    → length readable + length t < 32
    → compose_ticket readable t ≡ readable ++ b'_' ∷ t
unfolding compose_ticket
compose_ticket_short readable t l = ground (arith, length-append readable (b'_' ∷ t))

-- The slug of a detached head is a prefix of the slug that the branch `detached_<tag>` gets, where
-- the tag is that of the detached path: slugs are not prefix-free.
pub for_main_prefix :
    (h : Host) (path other : Bytes)
    → IsDigest h
    → h.to_lower (shadow h path) ≡ shadow h path
    → (for_main h other (shadow h path)).value
      ≡ (for_main h path []).value ++ b'_' ∷ tag h (shadow h path)
unfolding for_main
for_main_prefix h path other d e = rw (sanitise_branch-shadow h d path e) (
    compose_ticket_short (readable_main (shadow h path)) (tag h (shadow h path))
      (omega (arith, length-tag h path d, length-tag h (shadow h path) d)))
