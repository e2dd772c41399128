-- ===== src/Ports/Lowest.antt =====
-- Which port `allocateOne` picks when nothing interferes and no statement fails.
use treeman.Prelude.{
  ℕ, zero, suc, ◌+◌, ◌-◌, ◌≤◌, ◌<◌, Bool, true, false, ◌||◌, List, [], ◌∷◌, none, ◌==◌, ◌≡◌, refl,
  arith, Bool-cases, inl, inr, sym, ◌∙◌, subst, ==_iff,
}
use treeman.Prelude.Text.{Bytes}
use treeman.Ports.Store.{
  Row, find_slot, Db, exhausted, Result, ok, err, ports_between, list_held_ports, empty_name,
}
use treeman.Ports.Store.Alone.{row_of}
use treeman.Ports.Store.Quiet.{
  taken, elem-ports_between, conflicts-row_of, allocate_worktree_port_quiet, list_held_ports_quiet,
  bind-ok,
}
use treeman.Ports.{PortSpec, after_insert, reserve, scan, allocate_one}

module _ (free : ℕ → Bool) (repo wt : ℕ) (name : Bytes) (spec : PortSpec) (rows : List Row) where
  -- No row has the port, and it can be bound.
  abbrev pub IsFree : ℕ → Type 0
  IsFree p = (taken p rows ≡ false) × (free p ≡ true)

  abbrev pub Lowest : Result (ℕ × Bool) × Db → Type 0
  Lowest (ok (p, false), db) =
      (db ≡ record { rows = row_of repo wt name p ∷ rows; turns = [] })
      × (spec.min_port ≤ p)
      × (p ≤ spec.max_port)
      × IsFree p
      × ((q : ℕ) → spec.min_port ≤ q → q < p → ¬ IsFree q)
  Lowest (ok (p, true), db) = ⊥
  Lowest (err exhausted, db) =
      (db ≡ record { rows = rows; turns = [] })
      × ((q : ℕ) → spec.min_port ≤ q → q ≤ spec.max_port → ¬ IsFree q)
  Lowest (err e, db) = ⊥

  module _ (valid : (repo == 0 || wt == 0 || empty_name name) ≡ false)
      (positive : 0 < spec.min_port) (unheld : find_slot wt name rows ≡ none) where
    good : (p : ℕ) → 0 < p → (repo == 0 || wt == 0 || empty_name name || p == 0) ≡ false
    good p l = ground arith

    scan-Lowest :
        (n p : ℕ)
        → spec.min_port ≤ p
        → p + n ≡ spec.max_port + 1
        → ((q : ℕ) → spec.min_port ≤ q → q < p → ¬ IsFree q)
        → Lowest (
            scan n free repo wt name
              (ports_between spec.min_port spec.max_port rows)
              p
              (record { rows = rows; turns = [] }))
    unfolding scan reserve after_insert
    scan-Lowest zero p lo e below = (refl, λ q a b. below q a (omega arith))
    scan-Lowest (suc n) p lo e below = elim (Bool-cases (taken p rows)) [
      | inl t ↦
          rw (elem-ports_between spec.min_port spec.max_port p rows lo (omega arith) ∙ t)
            (scan-Lowest n (p + 1) (omega arith) (omega arith) (also (λ f. ground (arith, t, f.0))))
      | inr t ↦
          rw (elem-ports_between spec.min_port spec.max_port p rows lo (omega arith) ∙ t)
            (elim (Bool-cases (free p)) [
              | inl f ↦
                  rw
                    (
                      f,
                      allocate_worktree_port_quiet repo wt name p rows (good p (omega arith))
                          (conflicts-row_of repo wt name p rows t unheld),
                    )
                    (refl, lo, omega arith, (t, f), below)
              | inr f ↦ rw f (
                  scan-Lowest n (p + 1) (omega arith) (omega arith)
                    (also (λ g. ground (arith, f, g.1))))
            ])
    ]
      where
        also : ¬ IsFree p → (q : ℕ) → spec.min_port ≤ q → q < p + 1 → ¬ IsFree q
        also no_p q a b = elim (Bool-cases (q == p)) [
          | inl s ↦ subst (λ t. ¬ IsFree t) (sym ((==_iff q p).0 s)) no_p
          | inr s ↦ below q a (ground (arith, s))
        ]

    -- `allocateOne`, undisturbed and for a slot that the worktree does not hold, reserves the lowest
    -- port of the range that no row has and that can be bound. It reports exhaustion exactly when
    -- there is none, and then changes nothing.
    pub allocate_one-Lowest :
        spec.min_port ≤ spec.max_port
        → Lowest (allocate_one free repo wt name spec (record { rows = rows; turns = [] }))
    unfolding allocate_one
    allocate_one-Lowest o =
        subst Lowest
          (sym (
            bind-ok (list_held_ports spec.min_port spec.max_port)
              (λ used.
                scan (spec.max_port + 1 - spec.min_port) free repo wt name used spec.min_port)
              (record { rows = rows; turns = [] }) (record { rows = rows; turns = [] })
              (ports_between spec.min_port spec.max_port rows)
              (list_held_ports_quiet spec.min_port spec.max_port rows)))
          (scan-Lowest (spec.max_port + 1 - spec.min_port) spec.min_port (omega arith) (omega arith)
            (λ q a b. absurd (omega arith)))
