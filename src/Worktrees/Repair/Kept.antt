-- ===== src/Worktrees/Repair/Kept.antt =====
-- Which rows `repairUnregister` leaves, and why.
use treeman.Prelude.{
  ℕ, Bool, true, false, ◌&&◌, ◌||◌, not, List, [], ◌∷◌, some, ◌==◌, ==_iff, if◌then◌else◌, All, ◌≡◌,
  refl, sym, ap, ◌∙◌, arith, Bool-cases, inl, inr, or_both, or_false,
}
use treeman.Prelude.Text.{Bytes, bytes_eq, bytes_eq_iff}
use treeman.Prelude.Map.{lookup, nat_key, beq_refl, bytes_key}
use treeman.Worktrees.{Row, Table}
use treeman.Worktrees.Table.{Ids, first-row, later-row, no_row, same_row}
use treeman.Worktrees.Retry.{rows_where}
use treeman.Worktrees.Repair.{has_path}
use treeman.Worktrees.Repair.Registering.{Listed}
use treeman.Worktrees.Repair.Unregister.{gone}

bools_differ : true ≡ false → ⊥
bools_differ e = ground arith

-- The rows of a table that a condition accepts are rows of it.
pub rows_where-lookup :
    (p : Row → Bool) (t : Table)
    → Ids t
    → All (λ x. (lookup x.0 t ≡ some x.1) × (p x.1 ≡ true)) (rows_where p t)
unfolding rows_where lookup
rows_where-lookup p [] k = tt
rows_where-lookup p ((i, r) ∷ t) (f, k) = elim (Bool-cases (p r)) [
  | inl e ↦ rw e ((rw (beq_refl i) refl, e), older _ (rows_where-lookup p t k))
  | inr e ↦ rw e (older _ (rows_where-lookup p t k))
]
  where
    apart : (j : ℕ) (s : Row) → lookup j t ≡ some s → (j == i) ≡ false
    apart j s h = ground (arith, ==_iff j i, f, h)

    older :
        (u : Table)
        → All (λ x. (lookup x.0 t ≡ some x.1) × (p x.1 ≡ true)) u
        → All (λ x. (lookup x.0 ((i, r) ∷ t) ≡ some x.1) × (p x.1 ≡ true)) u
    older [] a = tt
    older ((j, s) ∷ u) ((h, q), a) = ((rw (apart j s h) h, q), older u a)

-- A row that the loop does not mark is kept for a reason.
pub gone-spared :
    (git : Bytes → Bool) (p : Row → Bool) (j : ℕ) (r : Row) (t : Table)
    → lookup j t ≡ some r
    → p r ≡ true
    → gone git j (rows_where p t) ≡ false
    → (git r.path || r.is_main) ≡ true
unfolding rows_where gone
gone-spared git p j r [] h a g = absurd (no_row j r h)
gone-spared git p j r ((i, x) ∷ t) h a g = elim (Bool-cases (j == i)) [
  | inl e ↦
      (let q = first-row j i x r t e h in
        ap (λ y. git y.path || y.is_main) (sym q) ∙ here (ap p q ∙ a) e g)
  | inr e ↦ gone-spared git p j r t (later-row j i x r t e h) a (there e g)
]
  where
    kept :
        (b : Bool)
        → p x ≡ b
        → gone git j (if b then (i, x) ∷ rows_where p t else rows_where p t)
          ≡ gone git j (if p x then (i, x) ∷ rows_where p t else rows_where p t)
    kept b y = ap (λ c. gone git j (if c then (i, x) ∷ rows_where p t else rows_where p t)) (sym y)

    here :
        p x ≡ true
        → (j == i) ≡ true
        → gone git j (if p x then (i, x) ∷ rows_where p t else rows_where p t) ≡ false
        → (git x.path || x.is_main) ≡ true
    here a e g =
        let n : (j == i && not (git x.path || x.is_main) || gone git j (rows_where p t)) ≡ false =
          kept true a ∙ g in
        ground (arith, e, n)

    there :
        (j == i) ≡ false
        → gone git j (if p x then (i, x) ∷ rows_where p t else rows_where p t) ≡ false
        → gone git j (rows_where p t) ≡ false
    there e g = elim (Bool-cases (p x)) [
      | inl y ↦ (or_false _ _ (kept true y ∙ g)).1
      | inr y ↦ kept false y ∙ g
    ]

pub has_path-row :
    (p : Bytes) (q : Row → Bool) (rows t : Table)
    → All (λ x. (lookup x.0 t ≡ some x.1) × (q x.1 ≡ true)) rows
    → has_path p rows ≡ true
    → (j : ℕ) × (r : Row) × (lookup j t ≡ some r) × (q r ≡ true) × (r.path ≡ p)
unfolding has_path
has_path-row p q [] t a h = absurd (ground arith)
has_path-row p q ((i, x) ∷ rows) t ((l, m), a) h = elim (Bool-cases (bytes_eq p x.path)) [
  | inl e ↦ (i, x, l, m, sym ((bytes_eq_iff p x.path).0 e))
  | inr e ↦ has_path-row p q rows t a (ground (arith, h, e))
]

-- A row at a path that git lists is not marked.
pub gone-Listed :
    (git : Bytes → Bool) (q : Row → Bool) (repo : ℕ) (root : Bytes) (old rows : Table)
    (ps : List Bytes) (t u : Table) (j : ℕ) (r : Row)
    → All (λ x. (lookup x.0 t ≡ some x.1) × (q x.1 ≡ true)) rows
    → Listed repo root old ps t u
    → lookup j u ≡ some r
    → git r.path ≡ true
    → gone git j rows ≡ false
unfolding gone
gone-Listed git q repo root old [] ps t u j r a l h g = refl
gone-Listed git q repo root old ((i, x) ∷ rows) ps t u j r ((y, _), a) l h g =
    or_both
      (elim (Bool-cases (j == i)) [
        | inl e ↦
            (let (s, m, n, _) = l.forth i x y in
              let z : x.path ≡ r.path = sym n ∙ ap (λ w. w.path) (same_row i j s r u e m h) in
              spared e (ap git z ∙ g))
        | inr e ↦ ground (arith, e)
      ])
      (gone-Listed git q repo root old rows ps t u j r a l h g)
  where
    spared : (j == i) ≡ true → git x.path ≡ true → (j == i && not (git x.path || x.is_main)) ≡ false
    spared e h = ground (arith, h)
