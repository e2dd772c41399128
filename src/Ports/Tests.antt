-- ===== src/Ports/Tests.antt =====
-- Runs of the allocator, and its theorems at concrete tables.
use treeman.Prelude.{ℕ, Bool, true, false, List, [], ◌∷◌, ◌==◌, ◌≡◌, refl, arith, not}
use treeman.Prelude.Text.{Bytes, codes, bytes_eq}
use treeman.Ports.Store.{
  Db, inserts, exhausted, allocate_worktree_port, lookup_worktree_port, list_held_ports,
  load_worktree_ports, release_worktree_port, find_slot,
}
use treeman.Ports.Store.Alone.{Alone, row_of}
use treeman.Ports.Settled.{Settled, allocate-Settled}
use treeman.Ports.Again.{allocate_idem}
use treeman.Ports.Lowest.{Lowest, allocate_one-Lowest}
use treeman.Ports.{
  PortSpec, Allocation, allocated, failed, allocate, allocate_one, reserve, after_insert,
  reuse_port,
}

abbrev slots : List (Bytes × PortSpec)
slots =
    (codes "octane", record { min_port = 8000; max_port = 8002 })
    ∷ (codes "vite", record { min_port = 8001; max_port = 8001 })
    ∷ []

-- Port 8000 is bound by a foreign process.
abbrev free : Bytes → ℕ → Bool
free n p = not (p == 8000)

abbrev start : Db
start = record { rows = row_of 1 9 (codes "octane") 8001 ∷ []; turns = [] }

abbrev entries : List Allocation
entries = (record { name = codes "octane"; port = 8002 }) ∷ []

-- One slot: the first port is bound, the second is held, the third is reserved.
picks_third :
    (allocate free ((codes "octane", record { min_port = 8000; max_port = 8002 }) ∷ []) 1 7 start).0
    ≡ allocated entries
unfolding allocate load_worktree_ports list_held_ports allocate_worktree_port bytes_eq reserve
    after_insert
picks_third = refl

-- The second slot has no port left: the row of the first is taken back.
rolls_back :
    allocate free slots 1 7 start ≡ (failed (record { cause = exhausted; unreleased = [] }), start)
unfolding allocate load_worktree_ports list_held_ports allocate_worktree_port release_worktree_port
    bytes_eq reserve after_insert
rolls_back = refl

-- Another pass writes the slot just before the insert: its port is reused.
raced : Db
raced = record {
  rows = [];
  turns =
      (record { before = []; fails = false })
      ∷ (record { before = []; fails = false })
      ∷ (record { before = inserts (row_of 1 7 (codes "octane") 8002) ∷ []; fails = false })
      ∷ [];
}

reuses_raced :
    (allocate free ((codes "octane", record { min_port = 8000; max_port = 8002 }) ∷ []) 1 7 raced).0
    ≡ allocated entries
unfolding allocate load_worktree_ports list_held_ports allocate_worktree_port lookup_worktree_port
    bytes_eq reserve after_insert reuse_port raced
reuses_raced = refl

-- The second statement fails.
faulty : Db
faulty = record {
  rows = [];
  turns = (record { before = []; fails = false }) ∷ (record { before = []; fails = true }) ∷ [];
}

faulty-Alone : Alone faulty.turns
unfolding faulty
faulty-Alone = (refl, (refl, tt))

allocate-Settled_example :
    let end = allocate free slots 1 7 faulty in Settled free 1 7 slots faulty.rows end.0 end.1.rows
allocate-Settled_example = allocate-Settled free slots 1 7 faulty (omega arith) refl faulty-Alone

abbrev octane : List (Bytes × PortSpec)
octane = (codes "octane", record { min_port = 8000; max_port = 8002 }) ∷ []

allocate_idem_example :
    let rows = (allocate free octane 1 7 start).1.rows in
    allocate (λ n p. false) octane 1 7 (record { rows = rows; turns = [] })
    ≡ (allocated entries, record { rows = rows; turns = [] })
allocate_idem_example =
    allocate_idem free (λ n p. false) octane 1 7 start entries (omega arith) refl tt picks_third

allocate_one-Lowest_example :
    Lowest
      (free (codes "vite"))
      1
      7
      (codes "vite")
      (record { min_port = 8000; max_port = 8004 })
      start.rows
      (allocate_one
        (free (codes "vite"))
        1
        7
        (codes "vite")
        (record { min_port = 8000; max_port = 8004 })
        (record { rows = start.rows; turns = [] }))
unfolding find_slot bytes_eq
allocate_one-Lowest_example =
    allocate_one-Lowest (free (codes "vite")) 1 7 (codes "vite")
      (record { min_port = 8000; max_port = 8004 }) start.rows refl (omega arith) refl (omega arith)
