-- ===== src/Worktrees/Sweep.antt =====
-- A sweep of the teardowns that are owed: which rows it settles, and whose databases it drops.
use treeman.Prelude.{
  ℕ, zero, suc, Bool, true, false, ◌||◌, List, [], ◌∷◌, Option, none, some, ◌==◌, if◌then◌else◌,
  All, ◌≡◌, ◌≢◌, refl, sym, ap, ◌∙◌, arith, Bool-cases, inl, inr,
}
use treeman.Prelude.Text.{Bytes}
use treeman.Prelude.Map.{lookup, nat_key, bytes_key}
use treeman.Worktrees.{
  Stages, ensure_with_admin, Row, Table, set_teardown_error, clear_teardown_error,
}
use treeman.Worktrees.Table.{Ids, updated}
use treeman.Worktrees.Retry.{
  slug_taken, pending, list_pending_teardowns, teardown_errors, record_teardown_outcome,
  teardown_databases, retry_teardown, no_databases, retry_all, retry_pending_teardowns,
}
use treeman.Worktrees.Ensure.{Registered}
use treeman.Worktrees.Pending.{live-takes, listed, listed-rows_where, pending-free, rows_where-All}

module _ {D : Type 0} (teardown_one : D → Bytes → Option Bytes) (busy : Bytes → Bool)
    (done : ℕ → Bool) (ds : List D) where
  -- What a sweep owes a pending row: if its path is not being torn down elsewhere, the outcome of
  -- dropping its databases is its error.
  unfoldable pub settled : Row → Row
  settled r =
      if busy r.path
      then r
      else record r { teardown_error = teardown_errors teardown_one ds r.slug }

  record_outcome-lookup :
      (i j : ℕ) (o : Option Bytes) (r : Row) (t : Table)
      → lookup j t ≡ some r
      → lookup j (record_teardown_outcome teardown_one i o t)
        ≡ (if j == i then some (record r { teardown_error = o }) else some r)
  unfolding record_teardown_outcome set_teardown_error clear_teardown_error
  record_outcome-lookup i j none r t h = updated i j (λ r. record r { teardown_error = none }) r t h
  record_outcome-lookup i j (some e) r t h =
      updated i j (λ r. record r { teardown_error = some e }) r t h

  -- The call for one entry of the list.
  retry_teardown-lookup :
      (i j : ℕ) (p r : Row) (t : Table) (log : List Bytes)
      → lookup (suc j) t ≡ some r
      → ((suc j == i) ≡ true → (p.slug ≡ r.slug) × (p.path ≡ r.path))
      → lookup (suc j) (retry_teardown teardown_one busy done ds i p (t, log)).0
        ≡ some (if suc j == i then settled r else r)
  unfolding retry_teardown teardown_databases settled
  retry_teardown-lookup zero j p r t log h s = elim (Bool-cases (busy p.path)) [
    | inl b ↦ rw b (h ∙ ap (λ c. some (if c then settled r else r)) (sym never))
    | inr b ↦ rw b (h ∙ ap (λ c. some (if c then settled r else r)) (sym never))
  ]
    where
      never : (suc j == 0) ≡ false
      never = ground arith
  retry_teardown-lookup (suc i) j p r t log h s = elim (Bool-cases (busy p.path)) [
    | inl b ↦ rw b (
        h ∙ elim (Bool-cases (suc j == suc i)) [
          | inl e ↦ rw e (rw (sym (ap busy (s e).1) ∙ b) refl)
          | inr e ↦ rw e refl
        ])
    | inr b ↦ rw b (
        record_outcome-lookup (suc i) (suc j) (teardown_errors teardown_one ds p.slug) r t h
        ∙ elim (Bool-cases (suc j == suc i)) [
          | inl e ↦ rw e (
              rw (sym (ap busy (s e).1) ∙ b) (
                ap (λ s. some (record r { teardown_error = teardown_errors teardown_one ds s }))
                  (s e).0))
          | inr e ↦ rw e refl
        ])
  ]

  settled-settled : (r : Row) → settled (settled r) ≡ settled r
  unfolding settled
  settled-settled r = elim (Bool-cases (busy r.path)) [
    | inl b ↦ rw b (rw b refl)
    | inr b ↦ rw b (rw b refl)
  ]

  settled-place : (r : Row) → ((settled r).slug ≡ r.slug) × ((settled r).path ≡ r.path)
  unfolding settled
  settled-place r = elim (Bool-cases (busy r.path)) [
    | inl b ↦ rw b (refl, refl)
    | inr b ↦ rw b (refl, refl)
  ]

  if_settled :
      (b c : Bool) (r : Row)
      → (if c then settled (if b then settled r else r) else (if b then settled r else r))
        ≡ (if b || c then settled r else r)
  if_settled true true r = settled-settled r
  if_settled true false r = refl
  if_settled false c r = refl

  if_place :
      (b : Bool) (r : Row)
      → ((if b then settled r else r).slug ≡ r.slug) × ((if b then settled r else r).path ≡ r.path)
  if_place true r = settled-place r
  if_place false r = (refl, refl)

  -- A sweep over a list of entries whose places are those of the rows.
  retry_all-lookup :
      (j : ℕ) (r : Row) (ps t : Table) (log : List Bytes)
      → ((i : ℕ) → done i ≡ false)
      → lookup (suc j) t ≡ some r
      → All (λ x. (suc j == x.0) ≡ true → (x.1.slug ≡ r.slug) × (x.1.path ≡ r.path)) ps
      → lookup (suc j) (retry_all teardown_one busy done ds ps (t, log)).0
        ≡ some (if listed (suc j) ps then settled r else r)
  unfolding retry_all listed
  retry_all-lookup j r [] t log n h a = h
  retry_all-lookup j r ((i, p) ∷ ps) t log n h (s, a) = rw (n i) (
      retry_all-lookup j (if suc j == i then settled r else r) ps _ _ n
        (retry_teardown-lookup i j p r t log h s) (moved (suc j == i) ps a)
      ∙ ap some (if_settled (suc j == i) (listed (suc j) ps) r))
    where
      moved :
          (b : Bool) (qs : Table)
          → All (λ x. (suc j == x.0) ≡ true → (x.1.slug ≡ r.slug) × (x.1.path ≡ r.path)) qs
          → All
              (λ x.
                (suc j == x.0) ≡ true
                → (x.1.slug ≡ (if b then settled r else r).slug)
                  × (x.1.path ≡ (if b then settled r else r).path))
              qs
      moved b [] a = tt
      moved b (x ∷ qs) (f, a) =
          (λ e. (let (s, p) = if_place b r in ((f e).0 ∙ sym s, (f e).1 ∙ sym p)), moved b qs a)

  -- A sweep that is not cancelled tears down what is owed: the row of a pending teardown that is not
  -- being torn down elsewhere has the outcome of its databases as its error, so that it is no longer
  -- pending when they are dropped; every other row is as it was.
  pub retry_pending_teardowns-settled :
      (repo j : ℕ) (r : Row) (t : Table)
      → ((i : ℕ) → done i ≡ false)
      → no_databases teardown_one busy done ds ds ≡ false
      → Ids t
      → lookup (suc j) t ≡ some r
      → lookup (suc j) (retry_pending_teardowns teardown_one busy done ds repo t).0
        ≡ some (if pending repo t r then settled r else r)
  unfolding retry_pending_teardowns list_pending_teardowns
  retry_pending_teardowns-settled repo j r t n d k h =
      let (a, b) = listed-rows_where (pending repo t) (suc j) r t k h in
      rw d (
        retry_all-lookup j r (list_pending_teardowns repo t) t [] n h (same _ b)
        ∙ ap (λ c. some (if c then settled r else r)) a)
    where
      same :
          (qs : Table)
          → All (λ x. (suc j == x.0) ≡ true → x.1 ≡ r) qs
          → All (λ x. (suc j == x.0) ≡ true → (x.1.slug ≡ r.slug) × (x.1.path ≡ r.path)) qs
      same [] a = tt
      same (x ∷ qs) (f, a) = (λ e. (ap (λ y. y.slug) (f e), ap (λ y. y.path) (f e)), same qs a)

  retry_all-log :
      (P : Bytes → Type 0) (ps t : Table) (log : List Bytes)
      → All (λ x. P x.1.slug) ps
      → All P log
      → All P (retry_all teardown_one busy done ds ps (t, log)).1
  unfolding retry_all retry_teardown
  retry_all-log P [] t log h l = l
  retry_all-log P ((i, p) ∷ ps) t log (q, h) l = elim (Bool-cases (done i)) [
    | inl e ↦ rw e l
    | inr e ↦ rw e (elim (Bool-cases (busy p.path)) [
      | inl b ↦ rw b (retry_all-log P ps t log h l)
      | inr b ↦ rw b (retry_all-log P ps _ (p.slug ∷ log) h (q, l))
    ])
  ]

  -- A sweep drops no databases under a slug that a live worktree of the repository holds.
  pub retry_pending_teardowns-spares :
      (repo : ℕ) (t : Table)
      → All
          (λ s. slug_taken repo s t ≡ false)
          (retry_pending_teardowns teardown_one busy done ds repo t).1
  unfolding retry_pending_teardowns list_pending_teardowns
  retry_pending_teardowns-spares repo t =
      elim (Bool-cases (no_databases teardown_one busy done ds ds)) [
        | inl e ↦ rw e tt
        | inr e ↦ rw e (
            retry_all-log (λ s. slug_taken repo s t ≡ false) (list_pending_teardowns repo t) t []
              (free _ (rows_where-All (pending repo t) t)) tt)
      ]
    where
      free :
          (qs : Table)
          → All (λ x. pending repo t x.1 ≡ true) qs
          → All (λ x. slug_taken repo x.1.slug t ≡ false) qs
      free [] a = tt
      free (x ∷ qs) (p, a) =
          (let (f, e) = pending-free repo t x.1 p in
            (ap (λ n. slug_taken n x.1.slug t) (sym e) ∙ f, free qs a))

  -- In the table that `EnsureWorktreeWithAdmin` leaves for a worktree that it registers, a sweep of
  -- the pending teardowns of the worktree's repository tears nothing down under the worktree's own
  -- slug, whichever other teardowns are pending. It may do so under a slug that merely begins alike.
  pub ensured-spared :
      (fold : Bytes → Bytes) (repo : ℕ) (path slug branch admin : Bytes) (ts : Stages)
      (x : Registered fold path slug branch admin ts
        (ensure_with_admin fold repo path slug branch admin ts))
      → All
          (λ s. s ≢ slug)
          (retry_pending_teardowns teardown_one busy done ds x.row.repo_id x.table).1
  ensured-spared fold repo path slug branch admin ts x =
      other _ (retry_pending_teardowns-spares x.row.repo_id x.table)
    where
      taken : slug_taken x.row.repo_id slug x.table ≡ true
      taken =
          ap (λ s. slug_taken x.row.repo_id s x.table) (sym x.has_slug)
          ∙ live-takes x.id x.row x.table x.found x.alive

      other :
          (log : List Bytes)
          → All (λ s. slug_taken x.row.repo_id s x.table ≡ false) log
          → All (λ s. s ≢ slug) log
      other [] a = tt
      other (s ∷ log) (f, a) = (
        λ e. absurd (differ (sym f ∙ ap (λ q. slug_taken x.row.repo_id q x.table) e ∙ taken)),
        other log a,
      )
        where
          differ : false ≡ true → ⊥
          differ e = ground arith
