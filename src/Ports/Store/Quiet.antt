-- ===== src/Ports/Store/Quiet.antt =====
-- Operations that run undisturbed: no other process acts and no statement fails.
use treeman.Prelude.{
  ℕ, ◌≤◌, Bool, true, false, ◌||◌, List, [], ◌∷◌, none, some, ◌==◌, if◌then◌else◌, ◌≡◌, refl, ap,
  arith,
}
use treeman.Prelude.Text.{Bytes}
use treeman.Ports.Store.{
  Row, conflicts, insert_row, inserted, find_slot, Db, Result, ok, err, M, ◌>>=◌, pure, run_turn,
  statement, insert_statement, classify, allocate_worktree_port, slots_of, load_worktree_ports,
  ports_between, elem, list_held_ports, empty_name,
}
use treeman.Ports.Store.Alone.{row_of}

pub load_worktree_ports_quiet :
    (wt : ℕ) (rows : List Row)
    → (wt == 0) ≡ false
    → load_worktree_ports wt (record { rows = rows; turns = [] })
      ≡ (ok (slots_of wt rows), record { rows = rows; turns = [] })
unfolding load_worktree_ports statement run_turn
load_worktree_ports_quiet wt rows z = rw z

pub bind-ok :
    {A B : Type 0} (m : M A) (f : A → M B) (db now : Db) (a : A)
    → m db ≡ (ok a, now)
    → (m >>= f) db ≡ f a now
bind-ok {B} m f db now a h =
    ap (λ e. elim e.0 as (λ x. Result B × Db) [ ok b ↦ f b e.1 | err x ↦ (err x, e.1) ]) h

insert_statement_quiet :
    (r : Row) (rows : List Row)
    → conflicts r rows ≡ false
    → insert_statement r (record { rows = rows; turns = [] })
      ≡ (ok true, record { rows = r ∷ rows; turns = [] })
unfolding insert_statement statement run_turn
insert_statement_quiet r rows c =
    let e : insert_row r rows ≡ some (r ∷ rows) = unfold insert_row in rw c in rw (e, inserted)

pub allocate_worktree_port_quiet :
    (repo wt : ℕ) (name : Bytes) (port : ℕ) (rows : List Row)
    → (repo == 0 || wt == 0 || empty_name name || port == 0) ≡ false
    → conflicts (row_of repo wt name port) rows ≡ false
    → allocate_worktree_port repo wt name port (record { rows = rows; turns = [] })
      ≡ (ok tt, record { rows = row_of repo wt name port ∷ rows; turns = [] })
unfolding allocate_worktree_port
allocate_worktree_port_quiet repo wt name port rows valid c =
    let r = row_of repo wt name port in
    rw valid (
      bind-ok (insert_statement r) (λ b. if b then pure tt else classify wt name)
        (record { rows = rows; turns = [] }) (record { rows = r ∷ rows; turns = [] }) true
        (insert_statement_quiet r rows c))

pub list_held_ports_quiet :
    (lo hi : ℕ) (rows : List Row)
    → list_held_ports lo hi (record { rows = rows; turns = [] })
      ≡ (ok (ports_between lo hi rows), record { rows = rows; turns = [] })
unfolding list_held_ports statement run_turn
list_held_ports_quiet lo hi rows = refl

-- Some row has the port.
abbrev pub taken : ℕ → List Row → Bool
taken p [] = false
taken p (r ∷ rows) = p == r.port || taken p rows

pub elem-ports_between :
    (lo hi p : ℕ) (rows : List Row)
    → lo ≤ p
    → p ≤ hi
    → elem p (ports_between lo hi rows) ≡ taken p rows
unfolding ports_between
elem-ports_between lo hi p [] a b = refl
elem-ports_between lo hi p (r ∷ rows) a b = ground (arith, elem-ports_between lo hi p rows a b)

pub conflicts-row_of :
    (repo wt : ℕ) (name : Bytes) (p : ℕ) (rows : List Row)
    → taken p rows ≡ false
    → find_slot wt name rows ≡ none
    → conflicts (row_of repo wt name p) rows ≡ false
unfolding conflicts find_slot
conflicts-row_of repo wt name p [] t f = refl
conflicts-row_of repo wt name p (r ∷ rows) t f =
    ground (arith, conflicts-row_of repo wt name p rows)
