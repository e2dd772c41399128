-- ===== src/Gc/Rows.antt =====
-- The rows of a fingerprint, as drops and deletions leave them.
use treeman.Prelude.{
  Bool, true, false, not, List, [], ◌∷◌, ◌++◌, Option, none, some, if◌then◌else◌, ◌≡◌, refl, sym,
  ap, ◌∙◌, arith, Bool-cases, inl, inr,
}
use treeman.Prelude.Text.{Bytes, codes, bytes_eq, bytes_eq_iff}
use treeman.Pins.{Counts, is_pinned}
use treeman.Prelude.Map.{bytes_key}
use treeman.Gc.{
  Candidate, ConnKey, Dial, not_configured, refused, connected, Servers, Pool, delete_rows, get,
  dialed, has_conn, drop_on, drop_family, drop,
}
use treeman.Engine.{Family, canonical}

-- The rows of a fingerprint.
unfoldable pub rows_of : Bytes → List Candidate → List Candidate
unfolding bytes_eq
rows_of fp [] = []
rows_of fp (c ∷ rows) = if bytes_eq c.fingerprint fp then c ∷ rows_of fp rows else rows_of fp rows

pub rows_of-delete_rows :
    (fp gone : Bytes) (rows : List Candidate)
    → bytes_eq gone fp ≡ false
    → rows_of fp (delete_rows gone rows) ≡ rows_of fp rows
unfolding rows_of delete_rows
rows_of-delete_rows fp gone [] h = refl
rows_of-delete_rows fp gone (c ∷ rows) h = elim (Bool-cases (bytes_eq c.fingerprint gone)) [
  | inl e ↦
      rw (e, rows_of-delete_rows fp gone rows h)
        (rw (ap (λ x. bytes_eq x fp) ((bytes_eq_iff c.fingerprint gone).0 e), h) refl)
  | inr e ↦ rw (e, rows_of-delete_rows fp gone rows h) refl
]

-- The rows of another fingerprint stay.
pub apart :
    (pins : Counts) (fp other : Bytes)
    → is_pinned pins fp ≡ true
    → is_pinned pins other ≡ false
    → bytes_eq other fp ≡ false
apart pins fp other h n = elim (Bool-cases (bytes_eq other fp)) [
  | inl e ↦ absurd (differ (sym n ∙ ap (is_pinned pins) ((bytes_eq_iff other fp).0 e) ∙ h))
  | inr e ↦ e
]
  where
    differ : false ≡ true → ⊥
    differ e = ground arith

dialed-rows : (key : ConnKey) (p : Pool) (d : Dial) → (dialed key p d).1.world.rows ≡ p.world.rows
dialed-rows key p not_configured = refl
dialed-rows key p refused = refl
dialed-rows key p connected = refl

pub if-rows :
    (b : Bool) (x y : Bool × Pool) (rows : List Candidate)
    → x.1.world.rows ≡ rows
    → y.1.world.rows ≡ rows
    → (if b then x else y).1.world.rows ≡ rows
if-rows true x y rows hx hy = hx
if-rows false x y rows hx hy = hy

get-rows : (sv : Servers) (key : ConnKey) (p : Pool) → (get sv key p).1.world.rows ≡ p.world.rows
unfolding get
get-rows sv key p =
    if-rows (has_conn key p.conns) (true, p) _ p.world.rows refl
      (dialed-rows key p (sv.connect key))

drop_on-rows :
    (sv : Servers) (c : Candidate) (key : ConnKey) (x : Bool × Pool)
    → (drop_on sv c key x).1.world.rows ≡ x.1.world.rows
drop_on-rows sv c key (false, p) = refl
drop_on-rows sv c key (true, p) =
    if-rows (not (sv.drop_snapshot key c.template_name)) (false, p) _ p.world.rows refl
      (if-rows (not (sv.drop_matching key (c.template_name ++ codes "_spare"))) (false, _) (true, _)
        p.world.rows refl refl)

-- Dropping a template touches no row.
pub drop-rows :
    (sv : Servers) (c : Candidate) (p : Pool) → (drop sv c p).1.world.rows ≡ p.world.rows
unfolding drop drop_family
drop-rows sv c p = go (canonical c.engine)
  where
    go : (f : Option Family) → (drop_family sv c p f).1.world.rows ≡ p.world.rows
    go none = refl
    go (some fam) =
        let key : ConnKey = record { fam = fam; name = c.connection } in
        drop_on-rows sv c key (get sv key p) ∙ get-rows sv key p

-- Once deleted, a fingerprint has no rows.
pub rows_of_deleted : (fp : Bytes) (rows : List Candidate) → rows_of fp (delete_rows fp rows) ≡ []
unfolding rows_of delete_rows
rows_of_deleted fp [] = refl
rows_of_deleted fp (c ∷ rows) = elim (Bool-cases (bytes_eq c.fingerprint fp)) [
  | inl e ↦ rw (e, rows_of_deleted fp rows) refl
  | inr e ↦ rw (e, e) (rows_of_deleted fp rows)
]
