-- ===== src/Template/Tests.antt =====
-- Templates that are validated and rendered.
use treeman.Prelude.{true, false, [], ◌∷◌, none, ◌≡◌, refl, arith, Bool-cases, inl, inr}
use treeman.Prelude.Text.{Bytes, codes, bytes_eq}
use treeman.Prelude.Decimal.{decimal, itoa, number, digits}
use treeman.Template.{RenderError, err, message, unmatched}
use treeman.Template.{
  Context, Scope, ok, render, render_with, render_loop, lookup, lookup_port, lookup_db_key,
  lookup_db, port_text, n_text, find, cut_prefix, to_brace, braced, probe, make_dbs, validate,
}
use treeman.Template.Validation.{Offers, listed, is_some, validate_sound}

abbrev ctx : Context
ctx = record {
  slug = codes "a_1";
  slug_dash = codes "a-1";
  slug_redis_queue = codes "6";
  slug_redis_cache = codes "7";
  n = none;
  target_db = none;
  ports = (codes "web", 8080) ∷ [];
  dbs = codes "main" ∷ [];
}

abbrev sc : Scope
sc = record {
  allow_n = false;
  allow_target_db = false;
  allowed_ports = codes "web" ∷ [];
  db_count = 1;
}

renders : render (codes "${X}{slug}:{port_web}/{db:0}") ctx ≡ ok (codes "${X}a_1:8080/main")
unfolding render render_with render_loop lookup lookup_port lookup_db_key lookup_db port_text n_text
    find cut_prefix to_brace braced decimal digits number bytes_eq itoa
renders = refl

web_only :
    (name : Bytes) → listed name sc.allowed_ports ≡ true → is_some (find name ctx.ports) ≡ true
unfolding listed find
web_only name h = elim (Bool-cases (bytes_eq name (codes "web"))) [
  | inl e ↦ rw e refl
  | inr e ↦ rw e (rw e at h)
]

ctx-Offers : Offers sc ctx
unfolding find
ctx-Offers = record {
  n = λ h. ground arith;
  target_db = λ h. ground arith;
  ports = web_only;
  dbs = omega arith;
}

accepted : validate (codes "{slug}{port_web}") sc ≡ none
unfolding validate probe make_dbs render render_with render_loop lookup lookup_port lookup_db_key
    lookup_db port_text n_text find cut_prefix to_brace braced decimal digits number bytes_eq itoa
accepted = refl

validate_sound_example : (s : Bytes) × (render (codes "{slug}{port_web}") ctx ≡ ok s)
validate_sound_example = validate_sound sc ctx ctx-Offers (codes "{slug}{port_web}") accepted

-- The key that is missing here is the empty one.
empty_key :
    (failure : RenderError) × (render (codes "a{}") ctx ≡ err failure)
    × (message failure ≡ unmatched 0)
unfolding render render_with render_loop lookup lookup_port lookup_db_key lookup_db port_text n_text
    find cut_prefix to_brace braced bytes_eq message
empty_key = (record { unknown_key = []; unmatched_at = 0 }, refl, refl)
