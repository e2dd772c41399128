-- ===== src/Ident/Tests.antt =====
-- Runs of the identifier helpers, and their theorems at concrete names.
use treeman.Prelude.{◌≡◌, refl, ◌↔◌}
use treeman.Prelude.Text.{codes}
use treeman.Ident.{
  ok, err, empty_identifier, invalid_identifier, validate_mysql, quote_mysql, quote_postgres,
}
use treeman.Ident.Quoting.{Quotes, quote_iff}

quotes_name : quote_mysql (codes "proj_1") ≡ ok (codes "`proj_1`")
unfolding quote_mysql
quotes_name = refl

refuses_quote : quote_postgres (codes "a\"b") ≡ err (invalid_identifier (codes "a\"b"))
unfolding quote_postgres
refuses_quote = refl

refuses_empty : validate_mysql (codes "") ≡ err empty_identifier
unfolding validate_mysql
refuses_empty = refl

quote_iff_example :
    ((quote_mysql (codes "wt_1") ≡ ok (codes "`wt_1`"))
      ↔ Quotes b'`' (codes "wt_1") (codes "`wt_1`"))
    × ((quote_postgres (codes "wt_1") ≡ ok (codes "`wt_1`"))
        ↔ Quotes b'"' (codes "wt_1") (codes "`wt_1`"))
quote_iff_example = quote_iff (codes "wt_1") (codes "`wt_1`")
