-- ===== src/Split/Stream/Tests.antt =====
-- The splitter on small inputs.
use treeman.Prelude.{
  if◌then◌else◌, true, Bool, false, List, [], ◌∷◌, ◌++◌, none, some, ◌≡◌, refl, arith,
}
use treeman.Prelude.Text.{Bytes, codes}
use treeman.Prelude.Space.{blank, trim_space, drop_spaces, front_width, back_width}
use treeman.Split.{
  dialect_mysql, dialect_postgres, scanned, dollar, quoted, peek_is, peek_fold, block_comment,
  read_line, block_loop, peek_dollar_tag, dollar_loop, has_suffix,
}
use treeman.Split.Stream.{
  returned, raised, next, step, Sink, Outcome, done, stopped, stream_statements, stream_loop,
  deliver, next_loop, read_delimiter, skip_line,
}
use treeman.Split.Stream.Whole.{Ends, stream_statements-Ends}
use treeman.Split.Quotes.{doubled, quoted-doubled}
use treeman.Split.Stream.Copy.{line, text, copy_data-text}
use treeman.Split.Stream.{copy_data, copy_lines, block, ends_block}
use treeman.Prelude.Text.{trim_right, bytes_eq}
use treeman.Split.Dollar.{dollar-body, dollar-overlap}

abbrev no_copy : Bytes → Bool
no_copy s = false

-- A sink that collects the statements.
abbrev collect : Sink (List Bytes)
collect = record { on_stmt = λ a s. returned (a ++ s ∷ []); on_copy = none }

abbrev mysql : Bytes → Outcome (List Bytes)
unfolding stream_statements
mysql r = stream_statements no_copy collect [] false dialect_mysql r

abbrev postgres : Bytes → Outcome (List Bytes)
unfolding stream_statements
postgres r = stream_statements no_copy collect [] false dialect_postgres r

stream_statements-Ends_example : Ends (postgres (codes "a;';';b"))
unfolding postgres
stream_statements-Ends_example =
    stream_statements-Ends no_copy collect [] false dialect_postgres (codes "a;';';b")

dollar-body_example :
    dollar (codes "f$a;b$f$;") (codes "x") ≡ scanned (codes ";") (codes "x$f$a;b$f$")
dollar-body_example =
    dollar-body (codes "f") (codes "a;b") (codes ";") (codes "x") ((refl, tt), refl)
      (refl, (refl, (refl, tt))) (λ e. ground (arith, e))

dollar-overlap_example : dollar (codes "$$1;$$;") [] ≡ scanned (codes "1;$$;") (codes "$$$")
dollar-overlap_example = dollar-overlap [] (codes "1;$$;") [] (tt, refl)

run_mysql :
    mysql (codes "SELECT 'a;''b'; # x\nDELIMITER //\n/* c */x;y//")
    ≡ done (codes "SELECT 'a;''b'" ∷ codes "x;y" ∷ [])
unfolding mysql stream_statements stream_loop next next_loop step read_delimiter skip_line read_line
    blank trim_space drop_spaces front_width back_width deliver quoted dollar peek_dollar_tag
    dollar_loop has_suffix block_comment block_loop peek_is peek_fold
run_mysql = refl

run_dollar : postgres (codes "a $$$1;$$;") ≡ stopped (codes "a $$$1" ∷ [])
unfolding postgres stream_statements stream_loop next next_loop step read_delimiter skip_line
    read_line blank trim_space drop_spaces front_width back_width deliver quoted dollar
    peek_dollar_tag dollar_loop has_suffix block_comment block_loop peek_is peek_fold
run_dollar = refl

ends_here : ends_block (line (codes "\\.")) ≡ true
unfolding trim_right bytes_eq
ends_here = refl

data_line : ends_block (line (codes "1\t2")) ≡ false
unfolding trim_right bytes_eq
data_line = refl

copy_data-text_example :
    copy_data (line (codes ";") ++ text (codes "1\t2" ∷ []) (line (codes "\\.") ++ codes "SELECT"))
    ≡ block (text (codes "1\t2" ∷ []) []) (codes "SELECT")
copy_data-text_example =
    copy_data-text (codes ";") (codes "\\.") (codes "SELECT") (codes "1\t2" ∷ []) (refl, tt)
      (((refl, (refl, (refl, tt))), data_line), tt) (refl, (refl, tt)) ends_here

quoted-doubled_example :
    quoted b'\'' true (doubled b'\'' (codes "it's") ++ b'\'' ∷ codes ";") []
    ≡ scanned (codes ";") ([] ++ doubled b'\'' (codes "it's") ++ b'\'' ∷ [])
quoted-doubled_example =
    quoted-doubled b'\'' true (codes "it's") (codes ";") [] refl (refl, (refl, (refl, (refl, tt))))
      refl

-- COPY data that are appended, and an error where they end in one.
abbrev loads : Sink (List Bytes)
loads = record {
  on_stmt = λ a s. returned (a ++ s ∷ []);
  on_copy =
      some (λ a s bytes bad. if bad then raised (a ++ bytes ∷ []) else returned (a ++ bytes ∷ []));
}

-- The data before the end of the input have been seen when the stream stops.
run_cut_off :
    stream_statements (λ s. true) loads [] false dialect_postgres (codes "c;\n1\n2\n3")
    ≡ stopped (codes "1\n2\n" ∷ [])
unfolding stream_statements stream_loop next next_loop step read_delimiter skip_line read_line blank
    trim_space drop_spaces front_width back_width deliver quoted dollar peek_dollar_tag dollar_loop
    has_suffix block_comment block_loop peek_is peek_fold copy_data copy_lines trim_right bytes_eq
run_cut_off = refl
