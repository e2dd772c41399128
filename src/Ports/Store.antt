-- ===== src/Ports/Store.antt =====
-- internal/store/worktree_ports.go: the table of port assignments. The two UNIQUE indices of the
-- schema are the test of an insert. Before each statement other processes may act on the table,
-- and the statement may fail: both come from the list of turns. An id below 1 is 0 here.
pub mod Alone
pub mod Quiet
pub mod Slots
use treeman.Prelude.{
  ℕ, ◌+◌, ◌≤◌, Bool, true, false, ◌&&◌, ◌||◌, not, List, [], ◌∷◌, Option, none, some, ltb, leb,
  ◌==◌, if◌then◌else◌, ◌≡◌, map,
}
use treeman.Prelude.Text.{Bytes, bytes_eq}

-- `WorktreePortRow`, less its time stamp.
pub record Row : Type 0 where
  pub worktree_id : ℕ
  pub repo_id : ℕ
  pub name : Bytes
  pub port : ℕ

abbrev pub same_slot : ℕ → Bytes → Row → Bool
same_slot wt name r = wt == r.worktree_id && bytes_eq name r.name

-- The indices `one_per_slot` (internal/store/migrations/0005_worktree_ports.sql) and `one_per_port`
-- (0016_ports_host_unique.sql).
abbrev pub clashes : Row → Row → Bool
clashes r s = same_slot r.worktree_id r.name s || r.port == s.port

unfoldable pub conflicts : Row → List Row → Bool
conflicts r [] = false
conflicts r (s ∷ rows) = clashes r s || conflicts r rows

-- The INSERT: `none` is a UNIQUE conflict.
unfoldable pub insert_row : Row → List Row → Option (List Row)
unfolding conflicts
insert_row r rows = if conflicts r rows then none else some (r ∷ rows)

-- `DELETE … WHERE worktree_id = ? AND name = ?`.
unfoldable pub delete_slot : ℕ → Bytes → List Row → List Row
delete_slot wt name [] = []
delete_slot wt name (r ∷ rows) =
    if same_slot wt name r then delete_slot wt name rows else r ∷ delete_slot wt name rows

-- `DELETE … WHERE worktree_id` is one that `gone` accepts.
pub delete_worktrees : (ℕ → Bool) → List Row → List Row
delete_worktrees gone [] = []
delete_worktrees gone (r ∷ rows) =
    if gone r.worktree_id then delete_worktrees gone rows else r ∷ delete_worktrees gone rows

unfoldable pub find_slot : ℕ → Bytes → List Row → Option ℕ
find_slot wt name [] = none
find_slot wt name (r ∷ rows) = if same_slot wt name r then some r.port else find_slot wt name rows

abbrev pub port_or_zero : Option ℕ → ℕ
port_or_zero none = 0
port_or_zero (some p) = p

-- `SELECT port … WHERE worktree_id = ? AND name = ?`; 0 is `sql.ErrNoRows`.
abbrev pub find_port : ℕ → Bytes → List Row → ℕ
find_port wt name rows = port_or_zero (find_slot wt name rows)

-- What another process does to the table.
pub data Foreign : Type 0 where
  inserts : Row → Foreign
  deletes_slot : ℕ → Bytes → Foreign
  deletes_worktree : ℕ → Foreign

abbrev or_same : List Row → Option (List Row) → List Row
or_same rows none = rows
or_same rows (some new) = new

pub act : Foreign → List Row → List Row
unfolding insert_row delete_slot delete_worktrees
act (inserts r) rows = or_same rows (insert_row r rows)
act (deletes_slot wt name) rows = delete_slot wt name rows
act (deletes_worktree wt) rows = delete_worktrees (λ w. w == wt) rows

pub acts : List Foreign → List Row → List Row
unfolding act
acts [] rows = rows
acts (f ∷ fs) rows = acts fs (act f rows)

-- What happens around one statement of ours.
pub record Turn : Type 0 where
  pub before : List Foreign
  pub fails : Bool

pub record Db : Type 0 where
  pub rows : List Row
  pub turns : List Turn

pub data Error : Type 0 where
  bad_args db_error slot_held port_in_use exhausted : Error

pub data Result {ℓ} (A : Type ℓ) : Type ℓ where
  ok : A → Result A
  err : Error → Result A

abbrev pub M : Type 0 → Type 0
M A = Db → Result A × Db

infixl 5 ◌>>=◌
abbrev pub ◌>>=◌ : {A B : Type 0} → M A → (A → M B) → M B
◌>>=◌ m f db = let (r, db') = m db in elim r [ ok a ↦ f a db' | err e ↦ (err e, db') ]

-- A statement: other processes act, then it fails, or runs on the rows.
run_turn : {A : Type 0} → List Turn → (List Row → Result A × List Row) → List Row → Result A × Db
unfolding acts
run_turn [] f rows = let (r, new) = f rows in (r, record { rows = new; turns = [] })
run_turn (t ∷ ts) f rows =
    let now = acts t.before rows in
    let (r, new) = f now in
    if t.fails
    then (err db_error, record { rows = now; turns = ts })
    else (r, record { rows = new; turns = ts })

pub statement : {A : Type 0} → (List Row → Result A × List Row) → M A
unfolding run_turn
statement f db = run_turn db.turns f db.rows

abbrev pub pure : {A : Type 0} → A → M A
pure a db = (ok a, db)

abbrev pub fail : {A : Type 0} → Error → M A
fail e db = (err e, db)

abbrev pub empty_name : Bytes → Bool
empty_name [] = true
empty_name (c ∷ s) = false

-- `LookupWorktreePort`.
unfoldable pub lookup_worktree_port : ℕ → Bytes → M ℕ
unfolding statement find_slot
lookup_worktree_port wt name =
    if wt == 0 || empty_name name
    then pure 0
    else statement (λ rows. (ok (find_port wt name rows), rows))

abbrev inserted : List Row → Option (List Row) → Result Bool × List Row
inserted rows none = (ok false, rows)
inserted rows (some new) = (ok true, new)

-- The INSERT as a statement: `false` is a UNIQUE conflict.
insert_statement : Row → M Bool
unfolding statement insert_row
insert_statement r = statement (λ rows. inserted rows (insert_row r rows))

-- The conflict told apart by a second query.
classify : ℕ → Bytes → M (Unit {0})
unfolding lookup_worktree_port
classify wt name = do
  held ← lookup_worktree_port wt name
  if ltb 0 held then fail slot_held else fail port_in_use

-- `AllocateWorktreePort`.
unfoldable pub allocate_worktree_port : ℕ → ℕ → Bytes → ℕ → M (Unit {0})
unfolding insert_statement classify
allocate_worktree_port repo wt name port =
    if repo == 0 || wt == 0 || empty_name name || port == 0 then fail bad_args else do
      inserted ←
          insert_statement (record { worktree_id = wt; repo_id = repo; name = name; port = port })
      if inserted then pure tt else classify wt name

pub slots_of : ℕ → List Row → List (Bytes × ℕ)
slots_of wt [] = []
slots_of wt (r ∷ rows) =
    if wt == r.worktree_id then (r.name, r.port) ∷ slots_of wt rows else slots_of wt rows

-- Indexing the map that `LoadWorktreePorts` returns.
abbrev pub lookup : Bytes → List (Bytes × ℕ) → Option ℕ
lookup k [] = none
lookup k ((j, p) ∷ m) = if bytes_eq k j then some p else lookup k m

-- `LoadWorktreePorts`.
unfoldable pub load_worktree_ports : ℕ → M (List (Bytes × ℕ))
unfolding statement slots_of
load_worktree_ports wt =
    if wt == 0 then pure [] else statement (λ rows. (ok (slots_of wt rows), rows))

pub ports_between : ℕ → ℕ → List Row → List ℕ
ports_between lo hi [] = []
ports_between lo hi (r ∷ rows) =
    if leb lo r.port && leb r.port hi
    then r.port ∷ ports_between lo hi rows
    else ports_between lo hi rows

-- A key of the set that `ListHeldPorts` returns.
abbrev pub elem : ℕ → List ℕ → Bool
elem p [] = false
elem p (q ∷ qs) = p == q || elem p qs

-- `ListHeldPorts`.
unfoldable pub list_held_ports : ℕ → ℕ → M (List ℕ)
unfolding statement ports_between
list_held_ports lo hi = statement (λ rows. (ok (ports_between lo hi rows), rows))

-- `ReleaseWorktreePorts`.
pub release_worktree_ports : ℕ → M (Unit {0})
unfolding statement delete_worktrees
release_worktree_ports wt =
    if wt == 0 then pure tt else statement (λ rows. (ok tt, delete_worktrees (λ w. w == wt) rows))

-- `ReleaseWorktreePort`.
unfoldable pub release_worktree_port : ℕ → Bytes → M (Unit {0})
unfolding statement delete_slot
release_worktree_port wt name =
    if wt == 0 || empty_name name
    then pure tt
    else statement (λ rows. (ok tt, delete_slot wt name rows))

count_worktrees : (ℕ → Bool) → List Row → ℕ
count_worktrees gone [] = 0
count_worktrees gone (r ∷ rows) =
    if gone r.worktree_id then 1 + count_worktrees gone rows else count_worktrees gone rows

-- `PurgeDeletedWorktreePorts`; `live` tells which worktrees have a row that is not soft-deleted.
pub purge_deleted_worktree_ports : (ℕ → Bool) → M ℕ
unfolding statement delete_worktrees count_worktrees
purge_deleted_worktree_ports live = statement λ rows.
    (ok (count_worktrees (λ w. not (live w)) rows), delete_worktrees (λ w. not (live w)) rows)
