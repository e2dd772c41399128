-- ===== src/Ports/One.antt =====
-- `allocateOne` when no other process acts on the table.
use treeman.Prelude.{
  ℕ, zero, suc, ◌+◌, ◌-◌, ◌≤◌, Bool, true, false, List, ltb, if◌then◌else◌, ◌≡◌, refl, arith,
  ltb→lt, some,
}
use treeman.Prelude.Text.{Bytes}
use treeman.Ports.Store.{
  Row, find_slot, bad_args, db_error, slot_held, port_in_use, exhausted, Result, ok, err, M, pure,
  lookup_worktree_port, list_held_ports, elem,
}
use treeman.Ports.Store.Alone.{
  Runs, pure-Runs, fail-Runs, if-Runs, bind-Runs, Looked, lookup_worktree_port-Runs, Reserved,
  row_of, allocate_worktree_port-Runs, Listed, list_held_ports-Runs,
}
use treeman.Ports.{PortSpec, reuse_port, after_insert, reserve, scan, allocate_one}

-- A fresh port is in the range, can be bound and is recorded in a row that clashes with no other; a
-- reused one is the port of the slot; a failure leaves the table as it was.
abbrev pub One :
    (ℕ → Bool) → ℕ → ℕ → Bytes → PortSpec → List Row → Result (ℕ × Bool) → List Row → Type 0
One free repo wt name spec rows (ok (p, false)) now =
    Reserved (row_of repo wt name p) rows (ok tt) now
    × (spec.min_port ≤ p)
    × (p ≤ spec.max_port)
    × (free p ≡ true)
One free repo wt name spec rows (ok (p, true)) now =
    (now ≡ rows) × (find_slot wt name rows ≡ some p)
One free repo wt name spec rows (err e) now = now ≡ rows

module _ (free : ℕ → Bool) (repo wt : ℕ) (name : Bytes) (spec : PortSpec) (rows : List Row) where
  abbrev Post : Result (ℕ × Bool) → List Row → Type 0
  Post = One free repo wt name spec rows

  reuse_port-Runs :
      (next : M (ℕ × Bool)) → Runs rows next Post → Runs rows (reuse_port wt name next) Post
  unfolding reuse_port
  reuse_port-Runs next hn =
      bind-Runs (Looked wt name rows) Post rows (lookup_worktree_port wt name)
        (λ held. if ltb 0 held then pure (held, true) else next)
        (lookup_worktree_port-Runs wt name rows)
        (λ held now p.
          if-Runs now (ltb 0 held) _ _ Post
            (λ l. pure-Runs now (held, true) Post (p.0, p.1 (ltb→lt 0 held l))) (λ _. rw p.0 hn))
        (λ e now p. p)

  module _ (p : ℕ) (next : M (ℕ × Bool)) (hn : Runs rows next Post) where
    after_insert-Runs :
        (spec.min_port ≤ p)
        → (p ≤ spec.max_port)
        → (free p ≡ true)
        → (r : Result (Unit {0})) (now : List Row) → Reserved (row_of repo wt name p) rows r now
        → Runs now (after_insert wt name p next r) Post
    unfolding after_insert
    after_insert-Runs lo hi f (ok _) now h = pure-Runs now (p, false) Post (h, lo, hi, f)
    after_insert-Runs lo hi f (err slot_held) now h = rw h (reuse_port-Runs next hn)
    after_insert-Runs lo hi f (err port_in_use) now h = rw h hn
    after_insert-Runs lo hi f (err bad_args) now h = fail-Runs now bad_args Post h
    after_insert-Runs lo hi f (err db_error) now h = fail-Runs now db_error Post h
    after_insert-Runs lo hi f (err exhausted) now h = fail-Runs now exhausted Post h

    reserve-Runs :
        (spec.min_port ≤ p)
        → (p ≤ spec.max_port)
        → (free p ≡ true)
        → Runs rows (reserve repo wt name p next) Post
    unfolding reserve
    reserve-Runs lo hi f =
        let a = allocate_worktree_port-Runs repo wt name p rows in
        record {
          run = λ ts q. (after_insert-Runs lo hi f _ _ (a.run ts q)).run _ (a.alone ts q);
          alone = λ ts q. (after_insert-Runs lo hi f _ _ (a.run ts q)).alone _ (a.alone ts q);
        }

  scan-Runs :
      (n p : ℕ) (used : List ℕ)
      → (spec.min_port ≤ p)
      → (p + n ≤ spec.max_port + 1)
      → Runs rows (scan n free repo wt name used p) Post
  unfolding scan
  scan-Runs zero p used lo hi = fail-Runs rows exhausted Post refl
  scan-Runs (suc n) p used lo hi =
      let next = scan-Runs n (p + 1) used (omega arith) (omega arith) in
      if-Runs rows (elem p used) _ _ Post (λ _. next)
        (λ _.
          if-Runs rows (free p) _ _ Post (λ f. reserve-Runs p _ next lo (omega arith) f)
            (λ _. next))

  pub allocate_one-Runs :
      spec.min_port ≤ spec.max_port → Runs rows (allocate_one free repo wt name spec) Post
  unfolding allocate_one
  allocate_one-Runs o =
      bind-Runs (Listed spec.min_port spec.max_port rows) Post rows
        (list_held_ports spec.min_port spec.max_port)
        (λ used. scan (spec.max_port + 1 - spec.min_port) free repo wt name used spec.min_port)
        (list_held_ports-Runs spec.min_port spec.max_port rows)
        (λ used now h. rw h.0 (scan-Runs _ spec.min_port used (omega arith) (omega arith)))
        (λ e now h. h)
