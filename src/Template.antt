-- ===== src/Template.antt =====
-- internal/template/template.go: the `{key}` placeholders of names, prefixes and env values.
pub mod Validation
pub mod Tests
use treeman.Prelude.{
  ℕ, zero, suc, ◌+◌, ◌-◌, ◌^◌, ℤ, pos, Bool, true, false, not, ◌&&◌, ◌||◌, List, [], ◌∷◌, ◌++◌, map,
  Option, none, some, leb, ltb, ◌==◌, if◌then◌else◌, length, get_elem?, all, ◌≡◌,
}
use treeman.Prelude.Text.{Bytes, codes, bytes_eq, is_digit}
use treeman.Prelude.Decimal.{decimal, itoa, number}
use treeman.Slug.{Slug, dashed}
use treeman.Slug.Redis.{Range, redis_indices}

-- `Context`: `n` is there when `HasN` is set, and `target_db` when `HasTargetDB` is.
pub record Context : Type 0 where
  pub slug : Bytes
  pub slug_dash : Bytes
  pub slug_redis_queue : Bytes
  pub slug_redis_cache : Bytes
  pub n : Option ℤ
  pub target_db : Option Bytes
  pub ports : List (Bytes × ℕ)
  pub dbs : List Bytes

abbrev with_indices : Slug → Option (ℕ × ℕ) → Option Context
unfolding decimal
with_indices s none = none
with_indices s (some (q, c)) = some (record {
  slug = s.value;
  slug_dash = dashed s;
  slug_redis_queue = decimal q;
  slug_redis_cache = decimal c;
  n = none;
  target_db = none;
  ports = [];
  dbs = [];
})

-- `FromSlug`, with the pinned Redis range.
pub from_slug : Range → Slug → Option Context
unfolding with_indices
from_slug r s = with_indices s (redis_indices r s)

-- `WithN`.
pub with_n : Context → ℤ → Context
with_n c n = record c { n = some n }

-- `WithTargetDB`.
pub with_target_db : Context → Bytes → Context
with_target_db c db = record c { target_db = some db }

-- `WithPorts`, which copies the map.
pub with_ports : Context → List (Bytes × ℕ) → Context
with_ports c ports = record c { ports = ports }

-- `WithDBs`, which copies the list.
pub with_dbs : Context → List Bytes → Context
with_dbs c dbs = record c { dbs = dbs }

-- `RenderError`.
pub record RenderError : Type 0 where
  pub unknown_key : Bytes
  pub unmatched_at : ℕ

-- `Error`, up to the texts around the key and the offset.
pub data Message : Type 0 where
  unknown : Bytes → Message
  unmatched : ℕ → Message

pub message : RenderError → Message
unfolding bytes_eq
message e =
    if not (bytes_eq e.unknown_key []) then unknown e.unknown_key else unmatched e.unmatched_at

pub data Result {ℓ} (A : Type ℓ) : Type ℓ where
  ok : A → Result A
  err : RenderError → Result A

-- Indexing a map.
unfoldable pub find {ℓ} : {A : Type ℓ} → Bytes → List (Bytes × A) → Option A
unfolding bytes_eq
find key [] = none
find key ((k, v) ∷ vals) = if bytes_eq key k then some v else find key vals

-- The text before the next `}`.
unfoldable pub to_brace : Bytes → Option Bytes
to_brace [] = none
to_brace (c ∷ s) =
    let rest = to_brace s in
    if c == b'}' then some [] else elim rest [ none ↦ none | some key ↦ some (c ∷ key) ]

-- The text in braces behind a `$`.
unfoldable pub braced : Bytes → Option Bytes
unfolding to_brace
braced [] = none
braced (c ∷ s) = if c == b'{' then to_brace s else none

-- What `renderWith` returns, and the keys that it looked up, in order.
pub record Run : Type 0 where
  pub keys : List Bytes
  pub result : Result Bytes

abbrev pub prepend : Bytes → Result Bytes → Result Bytes
prepend s (ok t) = ok (s ++ t)
prepend s (err e) = err e

abbrev pub write : Bytes → Run → Run
write s run = record run { result = prepend s run.result }

abbrev pub replaced : Bytes → Option Bytes → Run → Run
replaced key none next = record {
  keys = key ∷ [];
  result = err (record { unknown_key = key; unmatched_at = 0 });
}
replaced key (some val) next = record { keys = key ∷ next.keys; result = prepend val next.result }

-- A `{` at the offset `i`; `next` is the loop behind so many more bytes.
abbrev pub placeholder : (Bytes → Option Bytes) → ℕ → (ℕ → Run) → Option Bytes → Run
placeholder look i next none = record {
  keys = [];
  result = err (record { unknown_key = []; unmatched_at = i });
}
placeholder look i next (some key) = replaced key (look key) (next (length key + 1))

-- A byte that begins no `${…}`, or the whole of one, which is passed through.
abbrev pub passed : (ℕ → Run) → Run → Option Bytes → Run
passed next otherwise none = otherwise
passed next otherwise (some key) = write (codes "${" ++ key ++ codes "}") (next (length key + 2))

-- The loop of `renderWith` at the offset `i`, with so many bytes to skip before the next round.
unfoldable pub render_loop : (Bytes → Option Bytes) → ℕ → Bytes → ℕ → Run
unfolding to_brace braced
render_loop look skip [] i = record { keys = []; result = ok [] }
render_loop look (suc skip) (c ∷ s) i = render_loop look skip s (i + 1)
render_loop look zero (c ∷ s) i =
    let next = λ (n : ℕ). render_loop look n s (i + 1) in
    passed next
      (if not (c == b'{') then write (c ∷ []) (next 0) else placeholder look i next (to_brace s))
      (if c == b'$' then braced s else none)

-- `renderWith`.
unfoldable pub render_with : Bytes → (Bytes → Option Bytes) → Run
unfolding render_loop
render_with tmpl look = render_loop look 0 tmpl 0

-- `lookupDB`: only a plain decimal index that fits an `int` and is in range.
unfoldable pub lookup_db : Bytes → List Bytes → Option Bytes
unfolding number bytes_eq
lookup_db idx dbs =
    if bytes_eq idx [] || not (all is_digit idx)
    then none
    else if leb (2 ^ 63) (number 0 idx)
    then none
    else get_elem? dbs (number 0 idx)

-- `strings.CutPrefix`.
unfoldable pub cut_prefix : Bytes → Bytes → Option Bytes
cut_prefix s [] = some s
cut_prefix [] (p ∷ ps) = none
cut_prefix (c ∷ s) (p ∷ ps) = if c == p then cut_prefix s ps else none

abbrev pub port_text : Option ℕ → Option Bytes
unfolding decimal
port_text none = none
port_text (some p) = some (decimal p)

abbrev pub n_text : Option ℤ → Option Bytes
unfolding itoa
n_text none = none
n_text (some n) = some (itoa n)

abbrev pub lookup_db_key : List Bytes → Option Bytes → Option Bytes
unfolding lookup_db
lookup_db_key dbs none = none
lookup_db_key dbs (some idx) = lookup_db idx dbs

abbrev pub lookup_port : List (Bytes × ℕ) → Option Bytes → Option Bytes → Option Bytes
unfolding find port_text
lookup_port ports otherwise none = otherwise
lookup_port ports otherwise (some name) = port_text (find name ports)

-- `lookup`.
unfoldable pub lookup : Bytes → Context → Option Bytes
unfolding bytes_eq n_text lookup_port lookup_db_key cut_prefix
lookup key ctx =
    if bytes_eq key (codes "slug")
    then some ctx.slug
    else if bytes_eq key (codes "slug_dash")
    then some ctx.slug_dash
    else if bytes_eq key (codes "slug_redis_queue")
    then some ctx.slug_redis_queue
    else if bytes_eq key (codes "slug_redis_cache")
    then some ctx.slug_redis_cache
    else if bytes_eq key (codes "n")
    then n_text ctx.n
    else if bytes_eq key (codes "target_db")
    then ctx.target_db
    else lookup_port ctx.ports (lookup_db_key ctx.dbs (cut_prefix key (codes "db:")))
        (cut_prefix key (codes "port_"))

-- `Render`.
unfoldable pub render : Bytes → Context → Result Bytes
unfolding render_with lookup
render tmpl ctx = (render_with tmpl (λ key. lookup key ctx)).result

-- `RenderMap`.
unfoldable pub render_map : Bytes → List (Bytes × Bytes) → Result Bytes
unfolding render_with find
render_map tmpl vals = (render_with tmpl (λ key. find key vals)).result

abbrev pub keys_of : List Bytes → Result Bytes → Result (List Bytes)
keys_of ks (ok s) = ok ks
keys_of ks (err e) = err e

-- `Keys`; a caller that gets the error does not get the keys here.
unfoldable pub keys : Bytes → Result (List Bytes)
unfolding render_with
keys tmpl = let run = render_with tmpl (λ key. some []) in keys_of run.keys run.result

-- `Scope`.
pub record Scope : Type 0 where
  pub allow_n : Bool
  pub allow_target_db : Bool
  pub allowed_ports : List Bytes
  pub db_count : ℕ

unfoldable pub make_dbs : ℕ → List Bytes
make_dbs zero = []
make_dbs (suc n) = [] ∷ make_dbs n

-- The context that `Validate` renders with.
unfoldable pub probe : Scope → Context
unfolding make_dbs
probe sc = record {
  slug = codes "x";
  slug_dash = codes "x";
  slug_redis_queue = codes "0";
  slug_redis_cache = codes "0";
  n = if sc.allow_n then some (pos 0) else none;
  target_db = if sc.allow_target_db then some (codes "x") else none;
  ports = map (λ name. (name, 1)) sc.allowed_ports;
  dbs = make_dbs sc.db_count;
}

abbrev pub rejection : Result Bytes → Option RenderError
rejection (ok s) = none
rejection (err e) = some e

-- `Validate`.
unfoldable pub validate : Bytes → Scope → Option RenderError
unfolding render probe
validate tmpl sc = rejection (render tmpl (probe sc))
