-- ===== src/Worktrees/Repair/Again.antt =====
-- A second `Repair` has nothing to do.
use treeman.Prelude.{
  ℕ, Bool, true, false, ◌&&◌, ◌||◌, not, List, [], ◌∷◌, some, ◌==◌, ==_iff, if◌then◌else◌, All, ◌≡◌,
  refl, sym, ap, ◌∙◌, arith, Bool-cases, inl, inr, or_right, and_true,
}
use treeman.Prelude.Text.{Bytes, bytes_eq, bytes_eq_iff, member}
use treeman.Prelude.Map.{lookup, nat_key, beq_refl, bytes_key}
use treeman.Slug.{Host}
use treeman.Worktrees.{Row, Table, live, consistent, write, update}
use treeman.Worktrees.Table.{Ids, first-row, later-row, no_row}
use treeman.Worktrees.Retry.{rows_where}
use treeman.Worktrees.Repair.{
  Progress, registered, revive_or_insert, unregistered, retired, has_path, load_repair_rows,
  git_set, repair_register, repair_unregister, commit, no_result, repair,
}
use treeman.Worktrees.Repair.Register.{NoneRetired}
use treeman.Worktrees.Repair.Kept.{rows_where-lookup}
use treeman.Worktrees.Repair.Reconciled.{Agrees, repair-Agrees}

register_none :
    (host : Host) (detect_branch : Bytes → Bytes) (now repo : ℕ) (root : Bytes) (rows : Table)
    (ps : List Bytes) (x : Progress)
    → All (λ p. (has_path p rows || bytes_eq p root) ≡ true) ps
    → repair_register host detect_branch now repo root rows ps x ≡ x
unfolding repair_register
register_none host detect_branch now repo root rows [] x a = refl
register_none host detect_branch now repo root rows (p ∷ ps) x (e, a) =
    ap
      (λ b. repair_register host detect_branch now repo root rows ps (
        if b
        then x
        else registered host detect_branch now p
            (revive_or_insert host detect_branch now repo p x.0) x))
      e
    ∙ register_none host detect_branch now repo root rows ps x a

unregister_none :
    (git : Bytes → Bool) (rows : Table) (x : Progress)
    → All (λ y. (git y.1.path || y.1.is_main) ≡ true) rows
    → repair_unregister git rows x ≡ x
unfolding repair_unregister
unregister_none git [] x a = refl
unregister_none git ((i, r) ∷ rows) x (e, a) =
    ap
      (λ b.
        repair_unregister git rows
          (if b then x else unregistered r.path (write (update i retired x.0)) x))
      e
    ∙ unregister_none git rows x a

has_path-found :
    (p : Bytes) (q : Row → Bool) (j : ℕ) (r : Row) (t : Table)
    → lookup j t ≡ some r
    → q r ≡ true
    → r.path ≡ p
    → has_path p (rows_where q t) ≡ true
unfolding rows_where has_path
has_path-found p q j r [] h a e = absurd (no_row j r h)
has_path-found p q j r ((i, x) ∷ t) h a e = elim (Bool-cases (j == i)) [
  | inl y ↦
      (let z = first-row j i x r t y h in
        let c : bytes_eq p x.path ≡ true =
          (bytes_eq_iff p x.path).1 (sym (ap (λ w. w.path) z ∙ e)) in
        rw (ap q z ∙ a) (rw c refl))
  | inr y ↦
      (let z = has_path-found p q j r t (later-row j i x r t y h) a e in
        elim (Bool-cases (q x)) [ inl c ↦ rw c (or_right _ z) | inr c ↦ rw c z ])
]

every_member :
    {P : Bytes → Type 0} (ps : List Bytes) → ((p : Bytes) → member p ps ≡ true → P p) → All P ps
unfolding member
every_member [] f = tt
every_member (p ∷ ps) f = (f p (rw (beq_refl p) refl), every_member ps (λ q m. f q (or_right _ m)))

-- After `Repair`, where every row at a path that git lists belongs to the repository, and no main
-- worktree that was switched off is at such a path besides the root, a second `Repair` of the same
-- listing registers nothing, unregisters nothing and leaves the table as it is, whatever the time and
-- the branches are by then.
pub repair_idem :
    (host : Host) (detect_branch later_branch : Bytes → Bytes) (now later : ℕ) (root_exists : Bool)
    (repo : ℕ) (root : Bytes) (ps : List Bytes) (t : Table)
    → Ids t
    → consistent t ≡ true
    → NoneRetired (λ q. member q ps && not (bytes_eq q root)) t
    → ((j : ℕ) (r : Row) → lookup j t ≡ some r → member r.path ps ≡ true → r.repo_id ≡ repo)
    → (let u = (repair host detect_branch now root_exists repo root ps t).0 in
        repair host later_branch later root_exists repo root ps u ≡ (u, no_result))
unfolding repair load_repair_rows
repair_idem host detect_branch later_branch now later root_exists repo root ps t k c n own =
    again _ (repair-Agrees host detect_branch now root_exists repo root ps t k c n).1
  where
    mine : Row → Bool
    mine r = r.repo_id == repo && live r

    git : Bytes → Bool
    git = git_set root_exists root ps

    held :
        (u : Table)
        → Agrees root_exists repo root ps t u
        → (p : Bytes) → member p ps ≡ true
        → (has_path p (load_repair_rows repo u) || bytes_eq p root) ≡ true
    held u a p m = elim (Bool-cases (bytes_eq p root)) [
      | inl e ↦ or_right _ e
      | inr e ↦
          (let (j, r, l, q, d) = a.here p m e in
            let o : r.repo_id ≡ repo = elim (a.owner j r l) [
              | inl (s, h, f, y) ↦ sym f ∙ own j s h (ap (λ z. member z ps) (y ∙ q) ∙ m)
              | inr f ↦ f
            ] in
            or_left _
              (has_path-found p mine j r u l (ground (arith, d, (==_iff r.repo_id repo).1 o)) q))
    ]
      where
        or_left : {b : Bool} (c : Bool) → b ≡ true → (b || c) ≡ true
        or_left {b} c h = ground arith

    placed :
        (u : Table)
        → Agrees root_exists repo root ps t u
        → (rows : Table) → All (λ x. (lookup x.0 u ≡ some x.1) × (mine x.1 ≡ true)) rows
        → All (λ x. (git x.1.path || x.1.is_main) ≡ true) rows
    placed u a [] h = tt
    placed u a ((i, r) ∷ rows) ((l, m), h) =
        (a.only i r l ((==_iff r.repo_id repo).0 (and_true _ _ m).0) (alive m), placed u a rows h)
      where
        alive : mine r ≡ true → r.deleted ≡ false
        alive m = ground (arith, m)

    again :
        (u : Table)
        → Agrees root_exists repo root ps t u
        → repair host later_branch later root_exists repo root ps u ≡ (u, no_result)
    again u a =
        let rows = load_repair_rows repo u in
        ap (λ y. (let x = repair_unregister git rows y in commit x.1.errors u x))
          (register_none host later_branch later repo root rows ps (u, no_result)
            (every_member ps (held u a)))
        ∙ ap (λ x. commit x.1.errors u x)
            (unregister_none git rows (u, no_result)
              (placed u a rows (rows_where-lookup mine u a.ids)))
