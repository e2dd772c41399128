-- ===== src/Worktrees/Repair/Reconciled.antt =====
-- `Repair`: afterwards the live rows are the worktrees that git lists.
use treeman.Prelude.{
  ℕ, Bool, true, false, ◌&&◌, ◌||◌, not, List, [], Option, none, some, ◌==◌, ==_iff, if◌then◌else◌,
  All, ◌≡◌, refl, sym, ap, subst, ◌∙◌, arith, Bool-cases, inl, inr,
}
use treeman.Prelude.Text.{Bytes, bytes_eq, member}
use treeman.Prelude.Map.{lookup, nat_key, bytes_key}
use treeman.Slug.{Host}
use treeman.Worktrees.{Row, Table, live, consistent}
use treeman.Worktrees.Table.{Ids}
use treeman.Worktrees.Repair.{
  Progress, has_path, load_repair_rows, git_set, repair_register, commit, no_result, repair,
  retired,
}
use treeman.Worktrees.Repair.Register.{NoneRetired, Owned}
use treeman.Worktrees.Repair.Registering.{Listed, repair_register-Listed}
use treeman.Worktrees.Repair.Unregister.{gone, map_row, Cleared, repair_unregister-Cleared}
use treeman.Worktrees.Repair.Kept.{rows_where-lookup, gone-spared, has_path-row, gone-Listed}

-- A table that agrees with git: every path that git lists, but that of the repository's root, has a
-- live row, and every live row of the repository is at a path that git lists, at the root while it
-- is a directory, or of a main worktree; it keeps the schema, a row that was there keeps
-- its repository or has come to this one, and no row has left its path.
pub record Agrees (root_exists : Bool) (repo : ℕ) (root : Bytes) (ps : List Bytes) (t u : Table)
    : Type 0 where
  pub ids : Ids u
  pub accepted : consistent u ≡ true
  pub here :
      (p : Bytes)
      → member p ps ≡ true
      → bytes_eq p root ≡ false
      → (j : ℕ) × (r : Row) × (lookup j u ≡ some r) × (r.path ≡ p) × (r.deleted ≡ false)
  pub only :
      (j : ℕ) (r : Row)
      → lookup j u ≡ some r
      → r.repo_id ≡ repo
      → r.deleted ≡ false
      → (git_set root_exists root ps r.path || r.is_main) ≡ true
  pub owner : Owned repo t u
  pub kept :
      (j : ℕ) (r : Row)
      → lookup j t ≡ some r
      → (s : Row) × (lookup j u ≡ some s) × (s.path ≡ r.path)

Listed-Agrees :
    (root_exists : Bool) (repo : ℕ) (root : Bytes) (ps : List Bytes) (t u v : Table)
    → Ids t
    → Listed repo root (load_repair_rows repo t) ps t u
    → Cleared (git_set root_exists root ps) (load_repair_rows repo t) u v
    → Agrees root_exists repo root ps t v
unfolding load_repair_rows git_set
Listed-Agrees root_exists repo root ps t u v k l c = record {
  ids = c.ids;
  accepted = c.accepted;
  here = here;
  only = only;
  owner = owner;
  kept = kept;
}
  where
    mine : Row → Bool
    mine r = r.repo_id == repo && live r

    rows : Table
    rows = load_repair_rows repo t

    git : Bytes → Bool
    git = git_set root_exists root ps

    git-member : (p : Bytes) → member p ps ≡ true → git p ≡ true
    git-member p m = ground (arith, m)

    loaded : All (λ x. (lookup x.0 t ≡ some x.1) × (mine x.1 ≡ true)) rows
    loaded = rows_where-lookup mine t k

    -- A row at a path that git lists stays.
    stays : (j : ℕ) (r : Row) → lookup j u ≡ some r → git r.path ≡ true → lookup j v ≡ some r
    stays j r h g =
        c.each j
        ∙ ap (λ b. if b then map_row retired (lookup j u) else lookup j u)
            (gone-Listed git mine repo root rows rows ps t u j r loaded l h g)
        ∙ h

    found :
        (p : Bytes)
        → member p ps ≡ true
        → bytes_eq p root ≡ false
        → (j : ℕ) × (r : Row) × (lookup j u ≡ some r) × (r.path ≡ p) × (r.deleted ≡ false)
    found p m n = elim (Bool-cases (has_path p rows)) [
      | inl e ↦
          (let (j, r, h, a, q) = has_path-row p mine rows t loaded e in
            let (s, b, d, f) = l.forth j r h in (j, s, b, d ∙ q, f (ground (arith, a))))
      | inr e ↦ l.here p m n e
    ]

    here :
        (p : Bytes)
        → member p ps ≡ true
        → bytes_eq p root ≡ false
        → (j : ℕ) × (r : Row) × (lookup j v ≡ some r) × (r.path ≡ p) × (r.deleted ≡ false)
    here p m n =
        let (j, r, h, q, d) = found p m n in (j, r, stays j r h (ap git q ∙ git-member p m), q, d)

    only :
        (j : ℕ) (r : Row)
        → lookup j v ≡ some r
        → r.repo_id ≡ repo
        → r.deleted ≡ false
        → (git r.path || r.is_main) ≡ true
    only j r h e d = elim (Bool-cases (gone git j rows)) [
      | inl g ↦ absurd (
          unmarked (lookup j u) (
            sym (c.each j ∙ ap (λ b. if b then map_row retired (lookup j u) else lookup j u) g)
            ∙ h))
      | inr g ↦
          elim (l.back j r (
            sym (c.each j ∙ ap (λ b. if b then map_row retired (lookup j u) else lookup j u) g)
            ∙ h)) [
              | inl y ↦
                  gone-spared git mine j r t y (ground (arith, d, (==_iff r.repo_id repo).1 e)) g
              | inr (m, _) ↦ or_true r.is_main (git-member r.path m)
            ]
    ]
      where
        unmarked : (o : Option Row) → map_row retired o ≡ some r → ⊥
        unmarked none m = ground arith
        unmarked (some s) m = ground (arith, m, d)

        or_true : {a : Bool} (b : Bool) → a ≡ true → (a || b) ≡ true
        or_true {a} b m = ground arith

    unmapped :
        (r : Row) (o : Option Row)
        → map_row retired o ≡ some r
        → (s : Row) × (o ≡ some s) × (s.repo_id ≡ r.repo_id) × (s.path ≡ r.path)
    unmapped r none m = absurd (ground arith)
    unmapped r (some s) m = (s, refl, ground (arith, m), ground (arith, m))

    owner : Owned repo t v
    owner j r h = elim (Bool-cases (gone git j rows)) [
      | inl g ↦
          (let (s, m, e, q) = unmapped r (lookup j u) (
              sym (c.each j ∙ ap (λ b. if b then map_row retired (lookup j u) else lookup j u) g)
              ∙ h) in
            elim (l.owner j s m) [
              | inl (x, n, d, y) ↦ inl (x, n, d ∙ e, y ∙ q)
              | inr d ↦ inr (sym e ∙ d)
            ])
      | inr g ↦
          l.owner j r (
            sym (c.each j ∙ ap (λ b. if b then map_row retired (lookup j u) else lookup j u) g) ∙ h)
    ]

    kept :
        (j : ℕ) (r : Row)
        → lookup j t ≡ some r
        → (s : Row) × (lookup j v ≡ some s) × (s.path ≡ r.path)
    kept j r h =
        let (s, m, q, _) = l.forth j r h in
        elim (Bool-cases (gone git j rows)) [
          | inl g ↦ (
            retired s,
            c.each j
                ∙ ap (λ b. if b then map_row retired (lookup j u) else lookup j u) g
                ∙ ap (map_row retired) m,
            q,
          )
          | inr g ↦ (
            s,
            c.each j ∙ ap (λ b. if b then map_row retired (lookup j u) else lookup j u) g ∙ m,
            q,
          )
        ]

-- Where no main worktree that was switched off is at a path that git lists besides the root, `Repair`
-- makes no error, so that it commits, and the table agrees with git.
pub repair-Agrees :
    (host : Host) (detect_branch : Bytes → Bytes) (now : ℕ) (root_exists : Bool) (repo : ℕ)
    (root : Bytes) (ps : List Bytes) (t : Table)
    → Ids t
    → consistent t ≡ true
    → NoneRetired (λ q. member q ps && not (bytes_eq q root)) t
    → (let x = repair host detect_branch now root_exists repo root ps t in
        (x.1.errors ≡ []) × Agrees root_exists repo root ps t x.0)
unfolding repair
repair-Agrees host detect_branch now root_exists repo root ps t k c n =
    let rows = load_repair_rows repo t in
    let (e, _, l) =
      repair_register-Listed host detect_branch now repo root rows ps t no_result k c n in
    let x = repair_register host detect_branch now repo root rows ps (t, no_result) in
    let (f, d) =
      repair_unregister-Cleared (git_set root_exists root ps) rows x.0 x.1 l.ids l.accepted in
    committed _ (f ∙ e) (Listed-Agrees root_exists repo root ps t _ _ k l d)
  where
    committed :
        (x : Progress)
        → x.1.errors ≡ []
        → Agrees root_exists repo root ps t x.0
        → (let y = commit x.1.errors t x in
            (y.1.errors ≡ []) × Agrees root_exists repo root ps t y.0)
    committed x e a =
        subst
          (λ es.
            (let y = commit es t x in (y.1.errors ≡ []) × Agrees root_exists repo root ps t y.0))
          (sym e) (e, a)
