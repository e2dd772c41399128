-- ===== src/Ports.antt =====
-- internal/ports/ports.go: the allocator of a port for each declared slot of a worktree. The bind
-- probe `portFree` is an argument: it tells for each slot which ports could be bound.
pub mod Store
pub mod One
pub mod Rollback
pub mod Settled
pub mod Again
pub mod Lowest
pub mod Tests
use treeman.Prelude.{
  ℕ, zero, suc, ◌+◌, ◌-◌, ◌≤◌, Bool, true, false, ◌&&◌, ◌||◌, List, [], ◌∷◌, ◌++◌, Option, none,
  some, ltb, ◌==◌, if◌then◌else◌, ◌≡◌,
}
use treeman.Prelude.Text.{Bytes, bytes_eq}
use Store.{
  Error, slot_held, port_in_use, exhausted, Result, ok, err, M, Db, ◌>>=◌, pure, fail,
  allocate_worktree_port, lookup_worktree_port, list_held_ports, load_worktree_ports,
  release_worktree_port, lookup, elem,
}

-- `config.PortSpec`, an inclusive range.
pub record PortSpec : Type 0 where
  pub min_port : ℕ
  pub max_port : ℕ

pub record Allocation : Type 0 where
  pub name : Bytes
  pub port : ℕ

-- The `ErrSlotHeld` case: the port that the other pass recorded, or the next candidate if its row
-- is gone. `next` is the rest of the loop.
reuse_port : ℕ → Bytes → M (ℕ × Bool) → M (ℕ × Bool)
reuse_port wt name next = do
  held ← lookup_worktree_port wt name
  if ltb 0 held then pure (held, true) else next

-- The switch on what `AllocateWorktreePort` returned for the candidate `p`.
after_insert : ℕ → Bytes → ℕ → M (ℕ × Bool) → Result (Unit {0}) → M (ℕ × Bool)
unfolding reuse_port
after_insert wt name p next (ok _) = pure (p, false)
after_insert wt name p next (err slot_held) = reuse_port wt name next
after_insert wt name p next (err port_in_use) = next
after_insert wt name p next (err e) = fail e

reserve : ℕ → ℕ → Bytes → ℕ → M (ℕ × Bool) → M (ℕ × Bool)
unfolding after_insert
reserve repo wt name p next db =
    let (r, db') = allocate_worktree_port repo wt name p db in after_insert wt name p next r db'

-- The loop of `allocateOne` over the candidates `p`, `p + 1`, …, as many as the first argument.
scan : ℕ → (ℕ → Bool) → ℕ → ℕ → Bytes → List ℕ → ℕ → M (ℕ × Bool)
unfolding reserve
scan zero free repo wt name used p = λ db. (err exhausted, db)
scan (suc n) free repo wt name used p =
    let next = scan n free repo wt name used (p + 1) in
    if elem p used then next else if free p then reserve repo wt name p next else next

-- `allocateOne`: the port, and whether a concurrent pass had recorded it.
pub allocate_one : (ℕ → Bool) → ℕ → ℕ → Bytes → PortSpec → M (ℕ × Bool)
unfolding scan
allocate_one free repo wt name spec = do
  used ← list_held_ports spec.min_port spec.max_port
  scan (spec.max_port + 1 - spec.min_port) free repo wt name used spec.min_port

-- A failed `Allocate`: the error of the slot that failed, and the slots of this call that could not
-- be released.
pub record Failure : Type 0 where
  pub cause : Error
  pub unreleased : List Bytes

pub data Outcome : Type 0 where
  allocated : List Allocation → Outcome
  failed : Failure → Outcome

abbrev pub note_failure : Bytes → Result (Unit {0}) → List Bytes → List Bytes
note_failure n (ok _) bad = bad
note_failure n (err _) bad = n ∷ bad

-- The rollback: each slot of this call is released, and a failure to do so is kept.
pub roll_back : ℕ → List Bytes → Db → List Bytes × Db
roll_back wt [] db = ([], db)
roll_back wt (n ∷ names) db =
    let (r, db') = release_worktree_port wt n db in
    let (bad, end) = roll_back wt names db' in (note_failure n r bad, end)

abbrev give_up : ℕ → List Bytes → Error → Db → Outcome × Db
give_up wt mine e db =
    let (bad, db') = roll_back wt mine db in (failed (record { cause = e; unreleased = bad }), db')

-- A row that another pass wrote is no part of the rollback set.
abbrev claimed : List Bytes → Bytes → Bool → List Bytes
claimed mine name true = mine
claimed mine name false = mine ++ name ∷ []

-- What follows `allocateOne` for a slot: the rollback, or the rest of the loop.
abbrev settle :
    ℕ → List Bytes → (ℕ → Bool → Db → Outcome × Db) → Result (ℕ × Bool) → Db → Outcome × Db
settle wt mine next (err e) db = give_up wt mine e db
settle wt mine next (ok (p, reused)) db = next p reused db

-- A slot that the worktree holds, or else the attempt to reserve one.
abbrev unless_held : Option ℕ → (ℕ → Db → Outcome × Db) → (Db → Outcome × Db) → Db → Outcome × Db
unless_held none keep attempt db = attempt db
unless_held (some p) keep attempt db = keep p db

-- The loop of `Allocate`: `mine` is `allocatedThisCall`.
allocate_loop :
    (Bytes → ℕ → Bool)
    → ℕ
    → ℕ
    → List (Bytes × ℕ)
    → List (Bytes × PortSpec)
    → List Allocation
    → List Bytes
    → Db
    → Outcome × Db
unfolding allocate_one roll_back
allocate_loop free repo wt existing [] out mine = λ db. (allocated out, db)
allocate_loop free repo wt existing ((name, spec) ∷ slots) out mine =
    let next = λ (p : ℕ) (now : List Bytes).
      allocate_loop free repo wt existing slots (out ++ (record { name = name; port = p }) ∷ [])
        now in
    unless_held (lookup name existing) (λ p. next p mine)
      (λ db.
        let (r, db') = allocate_one (free name) repo wt name spec db in
        settle wt mine (λ p reused. next p (claimed mine name reused)) r db')

-- What `Allocate` does with the ports that the worktree holds already.
abbrev started :
    (Bytes → ℕ → Bool)
    → ℕ
    → ℕ
    → List (Bytes × PortSpec)
    → Result (List (Bytes × ℕ))
    → Db
    → Outcome × Db
started free repo wt slots (err e) db = (failed (record { cause = e; unreleased = [] }), db)
started free repo wt slots (ok existing) db = allocate_loop free repo wt existing slots [] [] db

-- `Allocate`, over the slots in the order of `PortSlotNames`.
pub allocate : (Bytes → ℕ → Bool) → List (Bytes × PortSpec) → ℕ → ℕ → Db → Outcome × Db
unfolding allocate_loop
allocate free [] repo wt db = (allocated [], db)
allocate free (slot ∷ slots) repo wt db =
    let (r, db') = load_worktree_ports wt db in started free repo wt (slot ∷ slots) r db'
