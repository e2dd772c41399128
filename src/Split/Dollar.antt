-- ===== src/Split/Dollar.antt =====
-- Dollar quotes: which text `dollar` takes for one quote.
use treeman.Prelude.{
  ℕ, suc, ◌+◌, Bool, true, false, ◌&&◌, [], ◌∷◌, ◌++◌, some, ◌==◌, length, drop, ◌≡◌, ◌≢◌, refl,
  arith, Bool-cases, inl, inr, sym, ap, reverse, reverse-append, append-nil, append_assoc, All, ◌∙◌,
  ==_iff, and_true, All-reverse,
}
use mathlib.Core.List.{reverse-reverse}
use treeman.Prelude.Text.{Bytes, is_digit}
use treeman.Split.{
  scanned, is_ident_byte, peek_is, peek_dollar_tag, has_suffix, dollar_loop, dollar,
}

abbrev pub NoDollar : Bytes → Type 0
NoDollar s = All (λ c. (c == b'$') ≡ false) s

abbrev digit_first : Bytes → Bool
digit_first [] = false
digit_first (c ∷ s) = is_digit c

-- A tag: identifier bytes that do not begin with a digit.
abbrev pub IsTag : Bytes → Type 0
IsTag tag = All (λ c. is_ident_byte c ≡ true) tag × (digit_first tag ≡ false)

abbrev pub fence : Bytes → Bytes
fence tag = b'$' ∷ (tag ++ b'$' ∷ [])

ident-dollar : (c : ℕ) → is_ident_byte c ≡ true → (c == b'$') ≡ false
ident-dollar c h = ground arith

idents-NoDollar : (s : Bytes) → All (λ c. is_ident_byte c ≡ true) s → NoDollar s
idents-NoDollar [] h = tt
idents-NoDollar (c ∷ s) (h, hs) = (ident-dollar c h, idents-NoDollar s hs)

tag-NoDollar : (tag : Bytes) → IsTag tag → NoDollar tag
tag-NoDollar tag h = idents-NoDollar tag h.0

peek_is-append : (xs ys : Bytes) → peek_is xs (xs ++ ys) ≡ true
unfolding peek_is
peek_is-append [] ys = refl
peek_is-append (x ∷ xs) ys = rw ((==_iff x x).1 refl, peek_is-append xs ys) refl

-- A text that ends in another has it as a suffix.
has_suffix-append : (xs closer : Bytes) → has_suffix (xs ++ closer) closer ≡ true
unfolding has_suffix
has_suffix-append xs closer =
    rw (reverse-append xs closer) (peek_is-append (reverse closer) (reverse xs))

-- Two texts up to their first dollar.
peek_is-dollar :
    (xs ys zs : Bytes)
    → NoDollar xs
    → NoDollar ys
    → peek_is (xs ++ b'$' ∷ []) (ys ++ b'$' ∷ zs) ≡ true
    → xs ≡ ys
unfolding peek_is
peek_is-dollar [] [] zs hx hy e = refl
peek_is-dollar [] (y ∷ ys) zs hx (hy, _) e = ground arith
peek_is-dollar (x ∷ xs) [] zs (hx, _) hy e = ground arith
peek_is-dollar (x ∷ xs) (y ∷ ys) zs (hx, hxs) (hy, hys) e =
    let (a, b) = and_true (y == x) _ e in
    rw (sym ((==_iff y x).0 a)) (ap (◌∷◌ y) (peek_is-dollar xs ys zs hxs hys b))

dollar_loop-skips :
    (closer body r buf : Bytes)
    → NoDollar body
    → dollar_loop closer (body ++ r) buf ≡ dollar_loop closer r (buf ++ body)
unfolding dollar_loop
dollar_loop-skips closer [] r buf h = rw (append-nil buf) refl
dollar_loop-skips closer (c ∷ body) r buf (h, hs) =
    rw (h, dollar_loop-skips closer body r (buf ++ c ∷ []) hs, append_assoc buf (c ∷ []) body) refl

-- The dollar that ends the closing tag.
dollar_loop-closes :
    (closer r buf xs : Bytes)
    → buf ++ b'$' ∷ [] ≡ xs ++ closer
    → dollar_loop closer (b'$' ∷ r) buf ≡ scanned r (buf ++ b'$' ∷ [])
unfolding dollar_loop
dollar_loop-closes closer r buf xs e = rw (e, has_suffix-append xs closer) refl

peek_dollar_tag-tag :
    (first : Bool) (tag r : Bytes)
    → All (λ c. is_ident_byte c ≡ true) tag
    → (first && digit_first tag) ≡ false
    → peek_dollar_tag first (tag ++ b'$' ∷ r) ≡ some tag
unfolding peek_dollar_tag
peek_dollar_tag-tag first [] r h d = refl
peek_dollar_tag-tag first (c ∷ tag) r (h, hs) d =
    rw (ident-dollar c h, h, d, peek_dollar_tag-tag false tag r hs refl) refl

drop_front : (tag r : Bytes) → drop (suc (length tag)) (tag ++ b'$' ∷ r) ≡ r
drop_front [] r = refl
drop_front (c ∷ tag) r = drop_front tag r

the_succ : (n : ℕ) → n + 1 ≡ suc n
the_succ n = omega arith

drop_past : (tag r : Bytes) → drop (length tag + 1) (tag ++ b'$' ∷ r) ≡ r
drop_past tag r = rw (the_succ (length tag)) (drop_front tag r)

-- `dollar` behind the opening tag.
dollar-tag :
    (tag r buf : Bytes)
    → IsTag tag
    → dollar (tag ++ b'$' ∷ r) buf ≡ dollar_loop (fence tag) r (buf ++ fence tag)
unfolding dollar
dollar-tag tag r buf (h, d) = rw (peek_dollar_tag-tag true tag r h d) (rw (drop_past tag r) refl)

-- A dollar quote whose body begins with its tag and a dollar is closed there, whatever comes after:
-- the opening fence is taken for the beginning of the closing one.
pub dollar-overlap :
    (tag rest buf : Bytes)
    → IsTag tag
    → dollar (tag ++ b'$' ∷ (tag ++ b'$' ∷ rest)) buf
      ≡ scanned rest (buf ++ b'$' ∷ (tag ++ fence tag))
dollar-overlap tag rest buf h =
    dollar-tag tag (tag ++ b'$' ∷ rest) buf h
    ∙ dollar_loop-skips (fence tag) tag (b'$' ∷ rest) (buf ++ fence tag) (tag-NoDollar tag h)
    ∙ dollar_loop-closes (fence tag) rest ((buf ++ fence tag) ++ tag) (buf ++ b'$' ∷ tag)
        (simp append_assoc)
    ∙ simp append_assoc

reverse-fence :
    (xs body : Bytes) → reverse (xs ++ fence body) ≡ b'$' ∷ (reverse body ++ b'$' ∷ reverse xs)
reverse-fence xs body = simp (
  reverse-append xs (fence body),
  reverse-append (b'$' ∷ body) (b'$' ∷ []),
  reverse-append (b'$' ∷ []) body,
  append_assoc,
)

-- A fence is the suffix of another only when the tags agree.
has_suffix-fence :
    (xs tag body : Bytes)
    → NoDollar tag
    → NoDollar body
    → has_suffix (xs ++ fence body) (fence tag) ≡ true
    → tag ≡ body
unfolding has_suffix peek_is
has_suffix-fence xs tag body ht hb e =
    let e2 : peek_is (reverse tag ++ b'$' ∷ []) (reverse body ++ b'$' ∷ reverse xs) ≡ true =
      rw (reverse-fence xs body, reverse-fence [] tag) at e in
    let r : reverse tag ≡ reverse body =
      peek_is-dollar (reverse tag) (reverse body) (reverse xs) (All-reverse _ tag ht)
        (All-reverse _ body hb) e2 in
    sym (reverse-reverse tag) ∙ ap reverse r ∙ reverse-reverse body

-- A dollar that ends no closing tag.
dollar_loop-passes :
    (xs tag body r : Bytes)
    → NoDollar tag
    → NoDollar body
    → body ≢ tag
    → dollar_loop (fence tag) (b'$' ∷ r) (xs ++ b'$' ∷ body)
      ≡ dollar_loop (fence tag) r (xs ++ fence body)
unfolding dollar_loop
dollar_loop-passes xs tag body r ht hb d =
    elim (Bool-cases (has_suffix (xs ++ fence body) (fence tag))) [
      | inl e ↦ elim (d (sym (has_suffix-fence xs tag body ht hb e))) [ ]
      | inr e ↦ rw (append_assoc xs (b'$' ∷ body) (b'$' ∷ []), e) refl
    ]

-- A dollar quote whose body has no dollar and is not the tag itself is read as one piece, through its
-- closing tag and no further.
pub dollar-body :
    (tag body rest buf : Bytes)
    → IsTag tag
    → NoDollar body
    → body ≢ tag
    → dollar (tag ++ b'$' ∷ (body ++ b'$' ∷ (tag ++ b'$' ∷ rest))) buf
      ≡ scanned rest (buf ++ fence tag ++ body ++ fence tag)
dollar-body tag body rest buf h n d =
    let nt = tag-NoDollar tag h in
    let more = tag ++ b'$' ∷ rest in
    let front = buf ++ b'$' ∷ tag in
    dollar-tag tag (body ++ b'$' ∷ more) buf h
    ∙ dollar_loop-skips (fence tag) body (b'$' ∷ more) (buf ++ fence tag) n
    ∙ ap (dollar_loop (fence tag) (b'$' ∷ more)) (simp append_assoc)
    ∙ dollar_loop-passes front tag body more nt n d
    ∙ dollar_loop-skips (fence tag) tag (b'$' ∷ rest) (front ++ fence body) nt
    ∙ dollar_loop-closes (fence tag) rest (front ++ fence body ++ tag) (front ++ b'$' ∷ body)
        (simp append_assoc)
    ∙ ap (scanned rest) (simp append_assoc)
