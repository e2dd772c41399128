-- ===== src/Worktrees/Ensure.antt =====
-- What `EnsureWorktreeWithAdmin` promises, whatever is written between its statements.
use treeman.Prelude.{
  ℕ, Bool, true, false, ◌&&◌, [], ◌∷◌, ◌++◌, Option, none, some, ◌==◌, All, ◌≡◌, ◌≢◌, refl, sym, ap,
  ◌∙◌, arith, Bool-cases, Option-cases, inl, inr, ◌⊎◌,
}
use treeman.Prelude.Text.{Bytes, bytes_eq, bytes_eq_iff}
use treeman.Prelude.Map.{lookup, nat_key, beq_refl, bytes_key}
use treeman.Worktrees.{
  Row, Table, Stages, at_path, insert_or_refresh, coalesce, differs, consistent, ensure_with_admin,
  given, insert_row, live_main, needs_update, new_row, next_id, oldest, or_empty, refresh,
  refreshed, update, with_id, write,
}
use treeman.Worktrees.Table.{
  Ids, insert_row-consistent, insert_row-lookup, lookup-update, oldest-lookup,
}
use treeman.Worktrees.Consistent.{Stays, main_clash, update-accepted, consistent-append, no_clash}

-- The later table has the rows of the earlier one, at their paths.
abbrev pub Grows : Table → Table → Type 0
Grows seen now =
    (i : ℕ) (r : Row)
    → lookup i seen ≡ some r
    → (s : Row) × (lookup i now ≡ some s) × (s.path ≡ r.path)

-- No main worktree that was switched off has a successor.
abbrev pub NoSuccessor : Table → Type 0
NoSuccessor t =
    (i : ℕ) (r : Row)
    → lookup i t ≡ some r
    → r.deleted ≡ true
    → r.is_main ≡ true
    → All (λ x. live_main x.1 && r.repo_id == x.1.repo_id ≡ false) t

-- The row of an id was written: it is owed no teardown, and no other row differs from the table that
-- the write saw.
pub record Written (now : Table) (id : ℕ) (row : Row) (table : Table) : Type 0 where
  pub no_debt : row.teardown_error ≡ none
  pub others : (j : ℕ) → (j == id) ≡ false → lookup j table ≡ lookup j now

-- The row that a call leaves for a worktree: at its path, live, with the slug and with the branch
-- and the admin directory if they are given. The call inserted it or updated it, or found it as it
-- is and wrote nothing.
pub record Registered (fold : Bytes → Bytes) (path slug branch admin : Bytes) (ts : Stages)
    (out : Option (ℕ × Table)) : Type 0 where
  pub id : ℕ
  pub table : Table
  pub row : Row
  pub result : out ≡ some (id, table)
  pub found : lookup id table ≡ some row
  pub at_place : at_path fold path row ≡ true
  pub has_slug : row.slug ≡ slug
  pub has_branch : branch ≢ [] → or_empty row.branch ≡ branch
  pub has_admin : admin ≢ [] → or_empty row.admin_dir ≡ admin
  pub alive : row.deleted ≡ false
  pub accepted : consistent table ≡ true
  pub last :
      Written ts.inserting id row table ⊎ Written ts.writing id row table ⊎ (table ≡ ts.reading)

Grows-trans : (t u v : Table) → Grows t u → Grows u v → Grows t v
Grows-trans t u v g h i r l = let (s, m, p) = g i r l in let (x, n, q) = h i s m in (x, n, q ∙ p)

-- A row that a condition accepts is not missed.
oldest_found :
    (p : Row → Bool) (t : Table) (i : ℕ) (r : Row)
    → lookup i t ≡ some r
    → p r ≡ true
    → (x : ℕ × Row) × (oldest p t ≡ some x)
unfolding oldest lookup
oldest_found p [] i r h a = absurd (ground (arith, h))
oldest_found p ((j, s) ∷ t) i r h a = elim (Bool-cases (p s)) [
  | inl e ↦ ((j, s), rw e refl)
  | inr e ↦ elim (Bool-cases (i == j)) [
    | inl m ↦ absurd (refused m e)
    | inr m ↦
        (let skip : lookup i ((j, s) ∷ t) ≡ lookup i t = rw m refl in
          let (x, w) = oldest_found p t i r (sym skip ∙ h) a in (x, rw e w))
  ]
]
  where
    refused : (i == j) ≡ true → p s ≡ false → ⊥
    refused m e = ground (arith, h, m, a, e)

given-coalesce : (s : Bytes) (o : Option Bytes) → s ≢ [] → or_empty (coalesce (given s) o) ≡ s
given-coalesce [] o h = absurd (h refl)
given-coalesce (c ∷ s) o h = refl

given-or_empty : (s : Bytes) → s ≢ [] → or_empty (given s) ≡ s
given-or_empty [] h = absurd (h refl)
given-or_empty (c ∷ s) h = refl

refreshed-Stays :
    (slug : Bytes) (br ad : Option Bytes) (r : Row) (t : Table)
    → (r.deleted ≡ true
        → r.is_main ≡ true
        → All (λ x. live_main x.1 && r.repo_id == x.1.repo_id ≡ false) t)
    → Stays r (refreshed slug br ad r) t
refreshed-Stays slug br ad r t h = record { path = refl; repo = refl; main = mains t h }
  where
    mains :
        (u : Table)
        → (r.deleted ≡ true
            → r.is_main ≡ true
            → All (λ x. live_main x.1 && r.repo_id == x.1.repo_id ≡ false) u)
        → All (λ x. main_clash (refreshed slug br ad r) x.1 ≡ true → main_clash r x.1 ≡ true) u
    mains [] k = tt
    mains ((i, x) ∷ u) k = (λ e. one x (λ a b. (k a b).0) e, mains u (λ a b. (k a b).1))
      where
        one :
            (x : Row)
            → (r.deleted ≡ true → r.is_main ≡ true → live_main x && r.repo_id == x.repo_id ≡ false)
            → main_clash (refreshed slug br ad r) x ≡ true
            → main_clash r x ≡ true
        one x f e = ground arith

differs-none :
    (s : Bytes) (o : Option Bytes) → differs (given s) o ≡ false → s ≢ [] → or_empty o ≡ s
differs-none [] o h n = absurd (n refl)
differs-none (c ∷ s) o h n = ground (arith, bytes_eq_iff (or_empty o) (c ∷ s))

current :
    (slug : Bytes) (br ad : Option Bytes) (r : Row)
    → needs_update slug br ad r ≡ false
    → (r.slug ≡ slug)
      × (r.deleted ≡ false)
      × (differs br r.branch ≡ false)
      × (differs ad r.admin_dir ≡ false)
current slug br ad r h =
    (ground (arith, bytes_eq_iff r.slug slug), ground arith, ground arith, ground arith)

-- `refresh`, of a row that the tables of both its statements have.
pub refresh-Registered :
    (fold : Bytes → Bytes) (path slug branch admin : Bytes) (i : ℕ) (r u : Row) (ts : Stages)
    → lookup i ts.reading ≡ some r
    → lookup i ts.writing ≡ some u
    → at_path fold path r ≡ true
    → at_path fold path u ≡ true
    → consistent ts.reading ≡ true
    → consistent ts.writing ≡ true
    → NoSuccessor ts.writing
    → Registered fold path slug branch admin ts (refresh slug (given branch) (given admin) i ts)
unfolding refresh
refresh-Registered fold path slug branch admin i r u ts h hw p pw c cw n =
    elim (Bool-cases (needs_update slug (given branch) (given admin) r)) [
      | inl e ↦
          (let f = refreshed slug (given branch) (given admin) in
            let (w, k) =
              update-accepted u f i ts.writing hw
                (refreshed-Stays slug (given branch) (given admin) u ts.writing (n i u hw)) cw in
            record {
              id = i;
              table = update i f ts.writing;
              row = f u;
              result = rw (h, refresh, lookup) (rw e (ap (with_id i) w));
              found = lookup-update i i f u ts.writing hw ∙ rw (beq_refl i) refl;
              at_place = pw;
              has_slug = refl;
              has_branch = given-coalesce branch u.branch;
              has_admin = given-coalesce admin u.admin_dir;
              alive = refl;
              accepted = k;
              last = inr (
                  inl (record {
                    no_debt = refl;
                    others = λ j m. lookup-update i j f u ts.writing hw ∙ rw m refl;
                  }));
            })
      | inr e ↦
          (let (s, d, b, a) = current slug (given branch) (given admin) r e in
            record {
              id = i;
              table = ts.reading;
              row = r;
              result = rw (h, refresh, lookup) (rw e refl);
              found = h;
              at_place = p;
              has_slug = s;
              has_branch = differs-none branch r.branch b;
              has_admin = differs-none admin r.admin_dir a;
              alive = d;
              accepted = c;
              last = inr (inr refl);
            })
    ]

inserted-Registered :
    (fold : Bytes → Bytes) (repo : ℕ) (path slug branch admin : Bytes) (main : Bool) (i : ℕ)
    (ts : Stages) (t : Table)
    → insert_row (new_row repo path slug (given branch) (given admin) main) ts.inserting
      ≡ some (i, t)
    → Registered fold path slug branch admin ts (some (i, t))
inserted-Registered fold repo path slug branch admin main i ts t h =
    let r = new_row repo path slug (given branch) (given admin) main in
    record {
      id = i;
      table = t;
      row = r;
      result = refl;
      found = insert_row-lookup r ts.inserting t i i h ∙ rw (beq_refl i) refl;
      at_place = beq_refl (fold path);
      has_slug = refl;
      has_branch = given-or_empty branch;
      has_admin = given-or_empty admin;
      alive = refl;
      accepted = insert_row-consistent r ts.inserting t i h;
      last = inl (record {
        no_debt = refl;
        others = λ j m. insert_row-lookup r ts.inserting t i j h ∙ rw m refl;
      });
    }

-- Where the INSERT is refused, another row has the path.
lost_race :
    (fold : Bytes → Bytes) (r : Row) (now : Table)
    → r.is_main ≡ false
    → consistent now ≡ true
    → insert_row r now ≡ none
    → (x : ℕ × Row) × (oldest (at_path fold r.path) now ≡ some x)
unfolding insert_row
lost_race fold r now m c h = elim (Option-cases (oldest (at_path fold r.path) now)) [
  | inl e ↦ absurd (refused (consistent-append r (next_id now) now (no_clash fold r now m e) c))
  | inr e ↦ e
]
  where
    refused : consistent (now ++ (next_id now, r) ∷ []) ≡ true → ⊥
    refused k = ground (arith, h, k, write)

module _ (fold : Bytes → Bytes) (path slug branch admin : Bytes) (ts : Stages)
    (read : Grows ts.won ts.reading) (written : Grows ts.reading ts.writing)
    (reading : consistent ts.reading ≡ true) (writing : consistent ts.writing ≡ true)
    (free : NoSuccessor ts.writing) where
  -- `refresh`, of a row that an earlier SELECT found at the path.
  found-Registered :
      (now : Table)
      → Ids now
      → Grows now ts.won
      → (x : ℕ × Row) → oldest (at_path fold path) now ≡ some x
      → Registered fold path slug branch admin ts (refresh slug (given branch) (given admin) x.0 ts)
  found-Registered now k g (i, s) e =
      let (l, a) = oldest-lookup (at_path fold path) now i s k e in
      let (q, lq, pq) = g i s l in
      let (r, lr, pr) = read i q lq in
      let (u, lu, pu) = written i r lr in
      let ar = ap (λ y. bytes_eq (fold path) (fold y)) (pr ∙ pq) ∙ a in
      refresh-Registered fold path slug branch admin i r u ts lr lu ar
        (ap (λ y. bytes_eq (fold path) (fold y)) pu ∙ ar) reading writing free

  -- After a lost race, the path has a row in the table of the next SELECT.
  insert_or_refresh-Registered :
      (repo : ℕ)
      → Ids ts.inserting
      → Ids ts.won
      → Grows ts.inserting ts.won
      → consistent ts.inserting ≡ true
      → Registered fold path slug branch admin ts
          (insert_or_refresh fold repo path slug branch admin ts)
  unfolding insert_or_refresh
  insert_or_refresh-Registered repo ki kw g c =
      elim (Option-cases
        (insert_row (new_row repo path slug (given branch) (given admin) false) ts.inserting)) [
          | inl e ↦
              (let ((i, s), f) =
                  lost_race fold (new_row repo path slug (given branch) (given admin) false)
                    ts.inserting refl c e in
                let (l, a) = oldest-lookup (at_path fold path) ts.inserting i s ki f in
                let (q, lq, pq) = g i s l in
                let b = ap (λ y. bytes_eq (fold path) (fold y)) pq ∙ a in
                let (x, w) = oldest_found (at_path fold path) ts.won i q lq b in
                rw (e, insert_or_refresh, insert_row)
                  (rw (w, oldest) (found-Registered ts.won kw (λ j r h. (r, h, refl)) x w)))
          | inr ((i, t), e) ↦
              rw (e, insert_or_refresh, insert_row)
                (inserted-Registered fold repo path slug branch admin false i ts t e)
        ]

-- `EnsureWorktreeWithAdmin` succeeds, whatever other processes write between any two of its
-- statements, as long as they keep the rows and the schema, and, at its UPDATE, no main worktree
-- that was switched off has a successor: the row of the id that it returns is at the path, live, and
-- has the slug, and the branch and the admin directory if they are given; the table keeps the
-- schema. A row that the call inserted or updated is owed no teardown, and the write changed no
-- other row; otherwise nothing was written.
pub ensure_with_admin-Registered :
    (fold : Bytes → Bytes) (repo : ℕ) (path slug branch admin : Bytes) (ts : Stages)
    → Ids ts.seen
    → Ids ts.inserting
    → Ids ts.won
    → Grows ts.seen ts.inserting
    → Grows ts.inserting ts.won
    → Grows ts.won ts.reading
    → Grows ts.reading ts.writing
    → consistent ts.inserting ≡ true
    → consistent ts.reading ≡ true
    → consistent ts.writing ≡ true
    → NoSuccessor ts.writing
    → Registered fold path slug branch admin ts
        (ensure_with_admin fold repo path slug branch admin ts)
unfolding ensure_with_admin
ensure_with_admin-Registered fold repo path slug branch admin ts ks ki kw g1 g2 g3 g4 c1 c2 c3 n =
    elim (Option-cases (oldest (at_path fold path) ts.seen)) [
      | inl e ↦
          rw (e, ensure_with_admin, oldest)
            (insert_or_refresh-Registered fold path slug branch admin ts g3 g4 c2 c3 n repo ki kw g2
              c1)
      | inr (x, e) ↦
          rw (e, ensure_with_admin, oldest)
            (found-Registered fold path slug branch admin ts g3 g4 c2 c3 n ts.seen ks
              (Grows-trans ts.seen ts.inserting ts.won g1 g2) x e)
    ]
