-- ===== src/Ports/Store/Alone.antt =====
-- The table when no other process acts on it: what each operation does, also where statements fail.
use treeman.Prelude.{
  ℕ, ◌<◌, Bool, true, false, ◌||◌, List, [], ◌∷◌, Option, none, some, ltb, ◌==◌, if◌then◌else◌, ◌≡◌,
  refl, arith, All,
}
use treeman.Prelude.Text.{Bytes}
use treeman.Ports.Store.{
  Row, conflicts, insert_row, inserted, delete_slot, find_slot, find_port, port_or_zero, Turn, Db,
  acts, Error, db_error, bad_args, slot_held, port_in_use, Result, ok, err, M, ◌>>=◌, pure, fail,
  run_turn, statement, lookup_worktree_port, insert_statement, classify, allocate_worktree_port,
  slots_of, load_worktree_ports, ports_between, list_held_ports, release_worktree_port, empty_name,
}

-- Nothing happens before any statement; statements may still fail.
abbrev pub Alone : List Turn → Type 0
Alone = All (λ t. t.before ≡ [])

-- From the table `rows`, an operation that runs alone ends as `P` says.
pub record Runs {A : Type 0} (rows : List Row) (m : M A) (P : Result A → List Row → Type 0)
    : Type 0 where
  pub run :
      (ts : List Turn)
      → Alone ts
      → P (m (record { rows = rows; turns = ts })).0 (m (record { rows = rows; turns = ts })).1.rows
  pub alone : (ts : List Turn) → Alone ts → Alone (m (record { rows = rows; turns = ts })).1.turns

module _ {A : Type 0} where
  pub pure-Runs :
      (rows : List Row) (a : A) (P : Result A → List Row → Type 0)
      → P (ok a) rows
      → Runs rows (pure a) P
  pure-Runs rows a P h = record { run = λ ts q. h; alone = λ ts q. q }

  pub fail-Runs :
      (rows : List Row) (e : Error) (P : Result A → List Row → Type 0)
      → P (err e) rows
      → Runs rows (fail e) P
  fail-Runs rows e P h = record { run = λ ts q. h; alone = λ ts q. q }

  pub if-Runs :
      (rows : List Row) (b : Bool) (m k : M A) (P : Result A → List Row → Type 0)
      → (b ≡ true → Runs rows m P)
      → (b ≡ false → Runs rows k P)
      → Runs rows (if b then m else k) P
  if-Runs rows true m k P hm hk = hm refl
  if-Runs rows false m k P hm hk = hk refl

  run_turn-Alone :
      (ts : List Turn) (f : List Row → Result A × List Row) (rows : List Row)
      (P : Result A → List Row → Type 0)
      → P (err db_error) rows
      → P (f rows).0 (f rows).1
      → Alone ts
      → P (run_turn ts f rows).0 (run_turn ts f rows).1.rows × Alone (run_turn ts f rows).1.turns
  unfolding run_turn acts
  run_turn-Alone [] f rows P he hf q = (hf, tt)
  run_turn-Alone (t ∷ ts) f rows P he hf (q, qs) = rw q (flagged t.fails)
    where
      flagged :
          (b : Bool)
          → let end : Result A × Db =
              if b
              then (err db_error, record { rows = rows; turns = ts })
              else ((f rows).0, record { rows = (f rows).1; turns = ts }) in
            P end.0 end.1.rows × Alone end.1.turns
      flagged true = (he, qs)
      flagged false = (hf, qs)

  pub statement-Runs :
      (rows : List Row) (f : List Row → Result A × List Row) (P : Result A → List Row → Type 0)
      → P (err db_error) rows
      → P (f rows).0 (f rows).1
      → Runs rows (statement f) P
  unfolding statement
  statement-Runs rows f P he hf = record {
    run = λ ts q. (run_turn-Alone ts f rows P he hf q).0;
    alone = λ ts q. (run_turn-Alone ts f rows P he hf q).1;
  }

module _ {A B : Type 0} (P : Result A → List Row → Type 0) (Q : Result B → List Row → Type 0) where
  after_run :
      (f : A → M B) (r : Result A) (rows : List Row) (ts : List Turn)
      → P r rows
      → Alone ts
      → ((a : A) (now : List Row) → P (ok a) now → Runs now (f a) Q)
      → ((e : Error) (now : List Row) → P (err e) now → Q (err e) now)
      → let end = elim r as (λ x. Result B × Db) [
        | ok a ↦ f a (record { rows = rows; turns = ts })
        | err e ↦ (err e, record { rows = rows; turns = ts })
      ] in
        Q end.0 end.1.rows × Alone end.1.turns
  after_run f (ok a) rows ts p q hf he = ((hf a rows p).run ts q, (hf a rows p).alone ts q)
  after_run f (err e) rows ts p q hf he = (he e rows p, q)

  pub bind-Runs :
      (rows : List Row) (m : M A) (f : A → M B)
      → Runs rows m P
      → ((a : A) (now : List Row) → P (ok a) now → Runs now (f a) Q)
      → ((e : Error) (now : List Row) → P (err e) now → Q (err e) now)
      → Runs rows (m >>= f) Q
  bind-Runs rows m f hm hf he = record {
    run = λ ts q. (after_run f _ _ _ (hm.run ts q) (hm.alone ts q) hf he).0;
    alone = λ ts q. (after_run f _ _ _ (hm.run ts q) (hm.alone ts q) hf he).1;
  }

-- A query leaves the rows, and fails or answers.
pub query-Runs :
    {A : Type 0} (rows : List Row) (q : List Row → Result A) (P : Result A → List Row → Type 0)
    → P (err db_error) rows
    → P (q rows) rows
    → Runs rows (statement (λ now. (q now, now))) P
query-Runs rows q P he hq = statement-Runs rows (λ now. (q now, now)) P he hq

-- `LookupWorktreePort` changes nothing, and a port that it finds is the one of the slot.
abbrev pub Looked : ℕ → Bytes → List Row → Result ℕ → List Row → Type 0
Looked wt name rows (ok held) now = (now ≡ rows) × (0 < held → find_slot wt name rows ≡ some held)
Looked wt name rows (err e) now = now ≡ rows

found : (o : Option ℕ) → 0 < port_or_zero o → o ≡ some (port_or_zero o)
found none l = absurd (omega arith)
found (some p) l = refl

pub lookup_worktree_port-Runs :
    (wt : ℕ) (name : Bytes) (rows : List Row)
    → Runs rows (lookup_worktree_port wt name) (Looked wt name rows)
unfolding lookup_worktree_port
lookup_worktree_port-Runs wt name rows =
    if-Runs rows (wt == 0 || empty_name name) _ _ (Looked wt name rows)
      (λ _. pure-Runs rows 0 (Looked wt name rows) (refl, λ l. absurd (omega arith)))
      (λ _.
        statement-Runs rows (λ now. (ok (find_port wt name now), now)) (Looked wt name rows) refl
          (refl, found (find_slot wt name rows)))

-- `AllocateWorktreePort` adds the row, which clashes with none, or changes nothing.
abbrev pub Reserved : Row → List Row → Result (Unit {0}) → List Row → Type 0
Reserved r rows (ok _) now =
    (now ≡ r ∷ rows)
    × (conflicts r rows ≡ false)
    × ((r.worktree_id == 0 || empty_name r.name) ≡ false)
Reserved r rows (err e) now = now ≡ rows

abbrev Inserted : Row → List Row → Result Bool → List Row → Type 0
Inserted r rows (ok true) now = (now ≡ r ∷ rows) × (conflicts r rows ≡ false)
Inserted r rows (ok false) now = now ≡ rows
Inserted r rows (err e) now = now ≡ rows

insert_statement-Runs :
    (r : Row) (rows : List Row) → Runs rows (insert_statement r) (Inserted r rows)
unfolding insert_statement insert_row
insert_statement-Runs r rows =
    statement-Runs rows (λ now. inserted now (insert_row r now)) (Inserted r rows) refl
      (tested (conflicts r rows) refl)
  where
    tested :
        (b : Bool)
        → conflicts r rows ≡ b
        → let end = inserted rows (if b then none else some (r ∷ rows)) in
          Inserted r rows end.0 end.1
    tested true e = refl
    tested false e = (refl, e)

classify-Runs :
    (r : Row) (wt : ℕ) (name : Bytes) (rows : List Row)
    → Runs rows (classify wt name) (Reserved r rows)
unfolding classify
classify-Runs r wt name rows =
    bind-Runs (Looked wt name rows) (Reserved r rows) rows (lookup_worktree_port wt name)
      (λ held. if ltb 0 held then fail slot_held else fail port_in_use)
      (lookup_worktree_port-Runs wt name rows)
      (λ held now p.
        if-Runs now (ltb 0 held) _ _ (Reserved r rows)
          (λ _. fail-Runs now slot_held (Reserved r rows) p.0)
          (λ _. fail-Runs now port_in_use (Reserved r rows) p.0))
      (λ e now p. p)

abbrev pub row_of : ℕ → ℕ → Bytes → ℕ → Row
row_of repo wt name port = record { worktree_id = wt; repo_id = repo; name = name; port = port }

pub allocate_worktree_port-Runs :
    (repo wt : ℕ) (name : Bytes) (port : ℕ) (rows : List Row)
    → Runs rows
        (allocate_worktree_port repo wt name port)
        (Reserved (row_of repo wt name port) rows)
unfolding allocate_worktree_port
allocate_worktree_port-Runs repo wt name port rows =
    let r = row_of repo wt name port in
    if-Runs rows (repo == 0 || wt == 0 || empty_name name || port == 0) _ _ (Reserved r rows)
      (λ _. fail-Runs rows bad_args (Reserved r rows) refl)
      (λ valid.
        bind-Runs (Inserted r rows) (Reserved r rows) rows (insert_statement r)
          (λ b. if b then pure tt else classify wt name) (insert_statement-Runs r rows)
          (decided r (good (repo == 0) (wt == 0) (empty_name name) (port == 0) valid))
          (λ e now p. p))
  where
    good : (a b c d : Bool) → (a || b || c || d) ≡ false → (b || c) ≡ false
    good a b c d h = ground arith

    decided :
        (r : Row)
        → ((r.worktree_id == 0 || empty_name r.name) ≡ false)
        → (b : Bool) (now : List Row) → Inserted r rows (ok b) now
        → Runs now (if b then pure tt else classify wt name) (Reserved r rows)
    decided r valid true now p = pure-Runs now tt (Reserved r rows) (p.0, p.1, valid)
    decided r valid false now p = rw p (classify-Runs r wt name rows)

-- `ReleaseWorktreePort` removes the rows of the slot, or fails and changes nothing.
abbrev pub Released : ℕ → Bytes → List Row → Result (Unit {0}) → List Row → Type 0
Released wt name rows (ok _) now = now ≡ delete_slot wt name rows
Released wt name rows (err e) now = now ≡ rows

pub release_worktree_port-Runs :
    (wt : ℕ) (name : Bytes) (rows : List Row)
    → (wt == 0 || empty_name name) ≡ false
    → Runs rows (release_worktree_port wt name) (Released wt name rows)
unfolding release_worktree_port
release_worktree_port-Runs wt name rows valid = rw valid (
    statement-Runs rows (λ now. (ok tt, delete_slot wt name now)) (Released wt name rows) refl refl)

abbrev pub Listed : ℕ → ℕ → List Row → Result (List ℕ) → List Row → Type 0
Listed lo hi rows (ok used) now = (now ≡ rows) × (used ≡ ports_between lo hi rows)
Listed lo hi rows (err e) now = now ≡ rows

pub list_held_ports-Runs :
    (lo hi : ℕ) (rows : List Row) → Runs rows (list_held_ports lo hi) (Listed lo hi rows)
unfolding list_held_ports
list_held_ports-Runs lo hi rows =
    query-Runs rows (λ now. ok (ports_between lo hi now)) (Listed lo hi rows) refl (refl, refl)

-- `LoadWorktreePorts` gives the slots that the worktree holds.
abbrev pub Loaded : ℕ → List Row → Result (List (Bytes × ℕ)) → List Row → Type 0
Loaded wt rows (ok m) now = (now ≡ rows) × (m ≡ slots_of wt rows)
Loaded wt rows (err e) now = now ≡ rows

pub load_worktree_ports-Runs :
    (wt : ℕ) (rows : List Row)
    → (wt == 0) ≡ false
    → Runs rows (load_worktree_ports wt) (Loaded wt rows)
unfolding load_worktree_ports
load_worktree_ports-Runs wt rows z =
    rw z (query-Runs rows (λ now. ok (slots_of wt now)) (Loaded wt rows) refl (refl, refl))
