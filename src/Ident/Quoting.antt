-- ===== src/Ident/Quoting.antt =====
-- A quoted identifier cannot end its own quotes early.
use treeman.Prelude.{
  true, false, [], ◌∷◌, ℕ, all, All, ◌≡◌, ◌≢◌, ◌↔◌, inl, inr, refl, arith, all-All, All-of_all,
  Bool-cases,
}
use treeman.Prelude.Text.{Bytes}
use treeman.Ident.{
  Result, ok, err, ident_byte, validate, quote_with, quoted, validate_mysql, quote_mysql,
  quote_postgres,
}

abbrev pub IsIdent : Bytes → Type 0
IsIdent s = (s ≢ []) × All (λ c. ident_byte c ≡ true) s

pub validate_ok : (s : Bytes) → IsIdent s → validate s ≡ ok s
unfolding validate
validate_ok [] (n, h) = absurd (n refl)
validate_ok (c ∷ s) (n, h) = rw (all-All ident_byte (c ∷ s) h)

pub validate_mysql_ok : (s : Bytes) → IsIdent s → validate_mysql s ≡ ok s
unfolding validate_mysql
validate_mysql_ok s v = validate_ok s v

pub validate_sound : (s t : Bytes) → validate s ≡ ok t → IsIdent s × (t ≡ s)
unfolding validate
validate_sound [] t h = ground arith
validate_sound (c ∷ s) t h = elim (Bool-cases (all ident_byte (c ∷ s))) [
  | inl e ↦ ((ground arith, All-of_all ident_byte (c ∷ s) e), ground (arith, e))
  | inr e ↦ ground (arith, e)
]

-- The byte `q` does not occur.
abbrev pub Lacks : ℕ → Bytes → Type 0
Lacks q = All (λ c. c ≢ q)

Lacks-quote :
    (q : ℕ) (s : Bytes) → ident_byte q ≡ false → All (λ c. ident_byte c ≡ true) s → Lacks q s
Lacks-quote q [] e h = tt
Lacks-quote q (c ∷ s) e (hc, h) = (λ same. ground (arith, same, hc, e), Lacks-quote q s e h)

quoted-ok :
    (q : ℕ) (r : Result) (t : Bytes)
    → quoted q r ≡ ok t
    → (u : Bytes) × (r ≡ ok u) × (t ≡ quote_with q u)
quoted-ok q (ok s) t h = (s, refl, ground arith)
quoted-ok q (err e) t h = absurd (ground arith)

abbrev pub Quotes : ℕ → Bytes → Bytes → Type 0
Quotes q s t = IsIdent s × Lacks q s × (t ≡ quote_with q s)

quoted_sound :
    (q : ℕ) (s t : Bytes) → ident_byte q ≡ false → quoted q (validate s) ≡ ok t → Quotes q s t
quoted_sound q s t e h =
    let (u, r, w) = quoted-ok q (validate s) t h in
    let (v, same) = validate_sound s u r in (v, Lacks-quote q s e v.1, rw (← same) w)

quoted_complete : (q : ℕ) (s t : Bytes) → Quotes q s t → quoted q (validate s) ≡ ok t
quoted_complete q s t (v, _, w) = rw (validate_ok s v, w)

-- `QuoteMySQL` and `QuotePostgres` succeed exactly on the names over [A-Za-z0-9_] with at least one
-- byte. The result is the name between the engine's quotes, and the quote is not in the name.
pub quote_iff :
    (s t : Bytes)
    → ((quote_mysql s ≡ ok t) ↔ Quotes b'`' s t) × ((quote_postgres s ≡ ok t) ↔ Quotes b'"' s t)
unfolding quote_mysql quote_postgres
quote_iff s t = (
  (quoted_sound b'`' s t refl, quoted_complete b'`' s t),
  (quoted_sound b'"' s t refl, quoted_complete b'"' s t),
)
