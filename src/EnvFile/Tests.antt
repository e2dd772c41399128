-- ===== src/EnvFile/Tests.antt =====
-- Env files of a few lines.
use treeman.Prelude.{if◌then◌else◌, [], ◌∷◌, ◌≡◌, refl}
use treeman.Prelude.Text.{Bytes, codes, bytes_eq, trim_left, trim_right}
use treeman.Prelude.Space.{trim_space, drop_spaces, front_width, back_width}
use treeman.EnvFile.{
  EnvFile, find, get, merge, valid_key, valid_rest, parse, parse_lines, parse_line, parse_trimmed,
  scan_lines, File, content, unreadable, not_exist, read_optional, read_layered, assign,
  strip_quotes_and_comment, expand_vars, expand_loop, expand_at, braced, to_brace, trim_prefix,
  cut_equals, cut_comment, ends_with, unquoted,
}
use treeman.EnvFile.Layers.{first_of, ValidKeys, get-merge, read_layered-append, parse-ValidKeys}

abbrev no_env : Bytes → Bytes
no_env key = []

abbrev base_file : Bytes
base_file = codes "# db\nexport HOST=db # note\nURL=\"http://${HOST}/${X}\"\n1A=x\r\nHOST=two"

-- `.env`, and one that is absent.
abbrev files : Bytes → File
unfolding bytes_eq
files path = if◌then◌else◌ (bytes_eq path (codes ".env")) (content base_file) (unreadable not_exist)

abbrev small : EnvFile
small = record { vars = (codes "A", codes "1") ∷ []; source = [] }

abbrev other : EnvFile
other = record { vars = (codes "A", codes "2") ∷ (codes "B", codes "3") ∷ []; source = [] }

parses :
    (parse no_env base_file).vars
    ≡ (codes "HOST", codes "two")
      ∷ (codes "URL", codes "http://db/${X}")
      ∷ (codes "HOST", codes "db")
      ∷ []
unfolding parse scan_lines parse_lines parse_line parse_trimmed trim_left assign trim_space
    drop_spaces front_width back_width valid_key valid_rest strip_quotes_and_comment unquoted
    ends_with cut_comment trim_right expand_vars expand_loop expand_at find braced to_brace
    trim_prefix cut_equals bytes_eq
parses = refl

get-merge_example :
    get (merge small other) (codes "A") ≡ first_of (get small (codes "A")) (get other (codes "A"))
get-merge_example = get-merge small other (codes "A")

read_layered-append_example :
    get (read_layered no_env files (codes ".env" ∷ codes "none" ∷ [])) (codes "HOST")
    ≡ first_of
        (get (read_optional no_env files (codes "none")) (codes "HOST"))
        (get (read_layered no_env files (codes ".env" ∷ [])) (codes "HOST"))
read_layered-append_example =
    read_layered-append no_env files (codes ".env" ∷ []) (codes "none") (codes "HOST")

parse-ValidKeys_example : ValidKeys (parse no_env base_file).vars
parse-ValidKeys_example = parse-ValidKeys no_env base_file
