-- ===== src/Template/Validation.antt =====
-- What `Validate` promises: a template that it accepts renders in every context of its scope.
use treeman.Prelude.{
  ℕ, zero, suc, ◌+◌, ◌≤◌, ◌^◌, Bool, true, false, not, ◌||◌, List, [], ◌∷◌, ◌++◌, map, Option, none,
  some, leb, ◌==◌, if◌then◌else◌, length, get_elem?, ◌≡◌, refl, arith, all, ℤ, pos, Bool-cases, inl,
  inr,
}
use treeman.Prelude.Text.{Bytes, codes, bytes_eq, is_digit}
use treeman.Prelude.Decimal.{number}
use treeman.Template.{
  Context, Scope, Result, ok, err, Run, find, to_brace, braced, prepend, write, replaced,
  placeholder, passed, render_loop, render_with, render, lookup, lookup_db, lookup_db_key,
  lookup_port, port_text, n_text, cut_prefix, make_dbs, probe, rejection, validate,
}

abbrev pub is_some {ℓ} : {A : Type ℓ} → Option A → Bool
is_some none = false
is_some (some a) = true

abbrev pub is_ok : Result Bytes → Bool
is_ok (ok s) = true
is_ok (err e) = false

unfoldable pub listed : Bytes → List Bytes → Bool
unfolding bytes_eq
listed name [] = false
listed name (n ∷ names) = bytes_eq name n || listed name names

-- The context has what the scope allows.
pub record Offers (sc : Scope) (ctx : Context) : Type 0 where
  pub n : sc.allow_n ≡ true → is_some ctx.n ≡ true
  pub target_db : sc.allow_target_db ≡ true → is_some ctx.target_db ≡ true
  pub ports :
      (name : Bytes) → listed name sc.allowed_ports ≡ true → is_some (find name ctx.ports) ≡ true
  pub dbs : sc.db_count ≤ length ctx.dbs

-- More than one rendering: what one look-up finds, the other finds too.
module _ (one two : Bytes → Option Bytes)
    (more : (key : Bytes) → is_some (one key) ≡ true → is_some (two key) ≡ true) where
  prepend-ok :
      (s t : Bytes) (x y : Result Bytes)
      → (is_ok x ≡ true → is_ok y ≡ true)
      → is_ok (prepend s x) ≡ true
      → is_ok (prepend t y) ≡ true
  prepend-ok s t (ok a) (ok b) k h = refl
  prepend-ok s t (ok a) (err e) k h = k refl
  prepend-ok s t (err e) y k h = ground arith

  replaced-ok :
      (key : Bytes) (x y : Option Bytes) (a b : Run)
      → (is_some x ≡ true → is_some y ≡ true)
      → (is_ok a.result ≡ true → is_ok b.result ≡ true)
      → is_ok (replaced key x a).result ≡ true
      → is_ok (replaced key y b).result ≡ true
  replaced-ok key none y a b s k h = ground arith
  replaced-ok key (some v) none a b s k h = s refl
  replaced-ok key (some v) (some w) a b s k h = prepend-ok v w a.result b.result k h

  placeholder-ok :
      (i : ℕ) (o : Option Bytes) (a b : ℕ → Run)
      → ((n : ℕ) → is_ok (a n).result ≡ true → is_ok (b n).result ≡ true)
      → is_ok (placeholder one i a o).result ≡ true
      → is_ok (placeholder two i b o).result ≡ true
  placeholder-ok i none a b k h = h
  placeholder-ok i (some key) a b k h =
      replaced-ok key (one key) (two key) (a (length key + 1)) (b (length key + 1)) (more key)
        (k (length key + 1)) h

  if-ok :
      (c : Bool) (x y x' y' : Run)
      → (is_ok x.result ≡ true → is_ok x'.result ≡ true)
      → (is_ok y.result ≡ true → is_ok y'.result ≡ true)
      → is_ok (if c then x else y).result ≡ true
      → is_ok (if c then x' else y').result ≡ true
  if-ok true x y x' y' f g h = f h
  if-ok false x y x' y' f g h = g h

  passed-ok :
      (o : Option Bytes) (a b : ℕ → Run) (x y : Run)
      → ((n : ℕ) → is_ok (a n).result ≡ true → is_ok (b n).result ≡ true)
      → (is_ok x.result ≡ true → is_ok y.result ≡ true)
      → is_ok (passed a x o).result ≡ true
      → is_ok (passed b y o).result ≡ true
  passed-ok none a b x y k f h = f h
  passed-ok (some key) a b x y k f h =
      let n = length key + 2 in
      prepend-ok (codes "${" ++ key ++ codes "}") (codes "${" ++ key ++ codes "}") (a n).result
        (b n).result (k n) h

  render_loop-ok :
      (skip : ℕ) (s : Bytes) (i : ℕ)
      → is_ok (render_loop one skip s i).result ≡ true
      → is_ok (render_loop two skip s i).result ≡ true
  unfolding render_loop
  render_loop-ok skip [] i h = refl
  render_loop-ok (suc skip) (c ∷ s) i h = render_loop-ok skip s (i + 1) h
  render_loop-ok zero (c ∷ s) i h =
      let a = λ (n : ℕ). render_loop one n s (i + 1) in
      let b = λ (n : ℕ). render_loop two n s (i + 1) in
      let k = λ (n : ℕ). render_loop-ok n s (i + 1) in
      passed-ok (if c == b'$' then braced s else none) a b _ _ k
        (if-ok (not (c == b'{')) (write (c ∷ []) (a 0)) _ (write (c ∷ []) (b 0)) _
          (prepend-ok (c ∷ []) (c ∷ []) (a 0).result (b 0).result (k 0))
          (placeholder-ok i (to_brace s) a b k))
        h

-- What one option has, the other has too.
record Finds (x y : Option Bytes) : Type 0 where
  finds : is_some x ≡ true → is_some y ≡ true

if-Finds :
    (c : Bool) (x y x' y' : Option Bytes)
    → Finds x x'
    → Finds y y'
    → Finds (if c then x else y) (if c then x' else y')
if-Finds true x y x' y' f g = f
if-Finds false x y x' y' f g = g

Finds-refl : (x : Option Bytes) → Finds x x
Finds-refl x = record { finds = λ h. h }

get_elem?-some {ℓ κ} :
    {A : Type ℓ} {B : Type κ} (xs : List A) (ys : List B) (i : ℕ)
    → length xs ≤ length ys
    → is_some (get_elem? xs i) ≡ true
    → is_some (get_elem? ys i) ≡ true
get_elem?-some [] ys i l h = ground arith
get_elem?-some (x ∷ xs) [] i l h = ground arith
get_elem?-some (x ∷ xs) (y ∷ ys) zero l h = refl
get_elem?-some (x ∷ xs) (y ∷ ys) (suc i) l h = get_elem?-some xs ys i (omega arith) h

length-make_dbs : (n : ℕ) → length (make_dbs n) ≡ n
unfolding make_dbs
length-make_dbs zero = refl
length-make_dbs (suc n) = omega (arith, length-make_dbs n)

abbrev one_each : List Bytes → List (Bytes × ℕ)
one_each names = map (λ name. (name, 1)) names

find-map :
    (key : Bytes) (names : List Bytes)
    → is_some (find key (one_each names)) ≡ true
    → listed key names ≡ true
unfolding find bytes_eq listed
find-map key [] h = ground arith
find-map key (n ∷ names) h = elim (Bool-cases (bytes_eq key n)) [
  | inl e ↦ rw e refl
  | inr e ↦ rw e (find-map key names (rw e at h))
]

of_ok : (x : Result Bytes) → is_ok x ≡ true → (s : Bytes) × (x ≡ ok s)
of_ok (ok s) h = (s, refl)
of_ok (err e) h = absurd (ground arith)

accepted : (x : Result Bytes) → rejection x ≡ none → is_ok x ≡ true
accepted (ok s) h = refl
accepted (err e) h = absurd (ground arith)

module _ (sc : Scope) (ctx : Context) (o : Offers sc ctx) where
  lookup_db-probe :
      (idx : Bytes) → Finds (lookup_db idx (make_dbs sc.db_count)) (lookup_db idx ctx.dbs)
  unfolding lookup_db
  lookup_db-probe idx =
      if-Finds (bytes_eq idx [] || not (all is_digit idx)) none _ none _ (Finds-refl none) (
        if-Finds (leb (2 ^ 63) (number 0 idx)) none _ none _ (Finds-refl none) (record {
          finds =
              get_elem?-some (make_dbs sc.db_count) ctx.dbs (number 0 idx)
                (omega (arith, length-make_dbs sc.db_count, o.dbs));
        }))

  lookup_db_key-probe :
      (x : Option Bytes) → Finds (lookup_db_key (make_dbs sc.db_count) x) (lookup_db_key ctx.dbs x)
  unfolding lookup_db_key
  lookup_db_key-probe none = Finds-refl none
  lookup_db_key-probe (some idx) = lookup_db-probe idx

  port_text-Finds :
      (x y : Option ℕ) → (is_some x ≡ true → is_some y ≡ true) → Finds (port_text x) (port_text y)
  unfolding port_text
  port_text-Finds none y f = record { finds = λ h. ground arith }
  port_text-Finds (some p) none f = record { finds = λ h. f refl }
  port_text-Finds (some p) (some q) f = record { finds = λ h. refl }

  lookup_port-probe :
      (x y k : Option Bytes)
      → Finds x y
      → Finds (lookup_port (probe sc).ports x k) (lookup_port ctx.ports y k)
  unfolding probe lookup_port
  lookup_port-probe x y none f = f
  lookup_port-probe x y (some name) f =
      port_text-Finds (find name (probe sc).ports) (find name ctx.ports)
        (λ h. o.ports name (find-map name sc.allowed_ports h))

  n_text-probe :
      (b : Bool) (x : Option ℤ)
      → (b ≡ true → is_some x ≡ true)
      → Finds (n_text (if b then some (pos 0) else none)) (n_text x)
  unfolding n_text
  n_text-probe false x f = record { finds = λ h. ground arith }
  n_text-probe true none f = record { finds = λ h. f refl }
  n_text-probe true (some n) f = record { finds = λ h. refl }

  target_db-probe :
      (b : Bool) (x : Option Bytes)
      → (b ≡ true → is_some x ≡ true)
      → Finds (if b then some (codes "x") else none) x
  target_db-probe false x f = record { finds = λ h. ground arith }
  target_db-probe true x f = record { finds = λ h. f refl }

  lookup-probe : (key : Bytes) → Finds (lookup key (probe sc)) (lookup key ctx)
  unfolding lookup probe
  lookup-probe key =
      if-Finds (bytes_eq key (codes "slug")) (some (codes "x")) _ (some ctx.slug) _
        (record { finds = λ h. refl })
        (if-Finds (bytes_eq key (codes "slug_dash")) (some (codes "x")) _ (some ctx.slug_dash) _
          (record { finds = λ h. refl })
          (if-Finds (bytes_eq key (codes "slug_redis_queue")) (some (codes "0")) _
            (some ctx.slug_redis_queue) _ (record { finds = λ h. refl })
            (if-Finds (bytes_eq key (codes "slug_redis_cache")) (some (codes "0")) _
              (some ctx.slug_redis_cache) _ (record { finds = λ h. refl })
              (if-Finds (bytes_eq key (codes "n")) _ _ _ _ (n_text-probe sc.allow_n ctx.n o.n) (
                if-Finds (bytes_eq key (codes "target_db")) _ _ _ _
                  (target_db-probe sc.allow_target_db ctx.target_db o.target_db)
                  (lookup_port-probe _ _ (cut_prefix key (codes "port_"))
                    (lookup_db_key-probe (cut_prefix key (codes "db:")))))))))

  -- A template that `Validate` accepts for a scope renders in every context that has what the scope
  -- allows.
  pub validate_sound :
      (tmpl : Bytes) → validate tmpl sc ≡ none → (s : Bytes) × (render tmpl ctx ≡ ok s)
  unfolding validate render render_with
  validate_sound tmpl h = of_ok (render tmpl ctx) (
      render_loop-ok (λ key. lookup key (probe sc)) (λ key. lookup key ctx)
        (λ key. (lookup-probe key).finds) 0 tmpl 0 (accepted (render tmpl (probe sc)) h))
