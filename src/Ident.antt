-- ===== src/Ident.antt =====
-- internal/db/ident/ident.go: validated identifier quoting for SQL engines. A string is its bytes;
-- `range s` yields a rune outside [A-Za-z0-9_] exactly where a byte is outside it.
pub mod Quoting
pub mod Tests
use treeman.Prelude.{
  Bool, true, false, ◌&&◌, ◌||◌, List, [], ◌∷◌, ◌++◌, ◌==◌, if◌then◌else◌, ℕ, all, ◌≡◌, refl,
}
use treeman.Prelude.Text.{Bytes, is_upper, is_lower, is_digit}

pub data Error : Type 0 where
  empty_identifier : Error
  invalid_identifier : Bytes → Error

pub data Result : Type 0 where
  ok : Bytes → Result
  err : Error → Result

abbrev pub ident_byte : ℕ → Bool
ident_byte c = is_upper c || is_lower c || is_digit c || c == b'_'

-- `validate`, whose nil error is `ok` of the name.
unfoldable pub validate : Bytes → Result
validate [] = err empty_identifier
validate (c ∷ s) = if all ident_byte (c ∷ s) then ok (c ∷ s) else err (invalid_identifier (c ∷ s))

abbrev pub quote_with : ℕ → Bytes → Bytes
quote_with q s = q ∷ (s ++ q ∷ [])

pub validate_mysql : Bytes → Result
unfolding validate
validate_mysql s = validate s

pub validate_postgres : Bytes → Result
unfolding validate
validate_postgres s = validate s

abbrev quoted : ℕ → Result → Result
quoted q (ok s) = ok (quote_with q s)
quoted q (err e) = err e

pub quote_mysql : Bytes → Result
unfolding validate
quote_mysql s = quoted b'`' (validate s)

pub quote_postgres : Bytes → Result
unfolding validate
quote_postgres s = quoted b'"' (validate s)
