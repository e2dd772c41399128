-- ===== src/Ports/Settled.antt =====
-- What `Allocate` achieves when no other process acts on the table.
use treeman.Prelude.{
  ℕ, Bool, true, false, ◌≤◌, List, [], ◌∷◌, ◌++◌, map, Option, none, some, ◌==◌, ◌≡◌, ◌⊎◌, inl, inr,
  refl, All, All-append, ap, ◌∙◌, sym, append_assoc, append-nil,
}
use mathlib.Core.List.{map-append}
use treeman.Prelude.Text.{Bytes}
use treeman.Ports.Store.{Row, find_slot, Db, Turn, Error, Result, ok, err, slots_of, lookup}
use treeman.Ports.Store.Alone.{Alone, Reserved, row_of, Loaded, load_worktree_ports-Runs}
use treeman.Ports.Store.Slots.{
  in_slots, in_slots-append, in_slots-last, find_slot-insert, find_slot-row_of, lookup-slots_of,
}
use treeman.Ports.One.{One, allocate_one-Runs}
use treeman.Ports.Rollback.{IsNew, roll_back-Undone}
use treeman.Ports.{
  PortSpec, Allocation, Outcome, allocated, failed, allocate_one, allocate_loop, claimed, give_up,
  settle, unless_held, started, allocate,
}

-- A row that one of the slots was granted: in its range, and of a port that could be bound.
abbrev pub Granted : (Bytes → ℕ → Bool) → ℕ → ℕ → List (Bytes × PortSpec) → Row → Type 0
Granted free repo wt [] r = ⊥
Granted free repo wt ((n, spec) ∷ slots) r =
    ((r ≡ row_of repo wt n r.port)
      × (spec.min_port ≤ r.port)
      × (r.port ≤ spec.max_port)
      × (free n r.port ≡ true))
    ⊎ Granted free repo wt slots r

-- Every range has its ends in order.
abbrev pub Ordered : List (Bytes × PortSpec) → Type 0
Ordered = All (λ s. s.1.min_port ≤ s.1.max_port)

abbrev pub names : List Allocation → List Bytes
names = map (λ a. a.name)

abbrev pub slot_names : List (Bytes × PortSpec) → List Bytes
slot_names = map (λ s. s.0)

module _ (free : Bytes → ℕ → Bool) (repo wt : ℕ) (all_slots : List (Bytes × PortSpec))
    (rows₀ : List Row) where
  -- Success: each slot has an entry, in order, and the entry is the port that the table then gives;
  -- the table only gained rows, each granted to one of the slots. Failure: the table gained rows at
  -- most where a release failed.
  abbrev pub Settled : Outcome → List Row → Type 0
  Settled (allocated out) now =
      (added : List Row) × (now ≡ added ++ rows₀)
      × All (Granted free repo wt all_slots) added
      × (names out ≡ slot_names all_slots)
      × All (λ a. find_slot wt a.name now ≡ some a.port) out
  Settled (failed f) now =
      (extra : List Row) × (now ≡ extra ++ rows₀) × (f.unreleased ≡ [] → extra ≡ [])

  record Inv (slots : List (Bytes × PortSpec)) (out : List Allocation) (mine : List Bytes)
      (added : List Row) : Type 0 where
    written : All (λ r. in_slots wt mine r ≡ true) added
    fresh : All (IsNew wt rows₀) mine
    granted : All (Granted free repo wt all_slots) added
    kept :
        (n : Bytes) (p : ℕ)
        → find_slot wt n rows₀ ≡ some p
        → find_slot wt n (added ++ rows₀) ≡ some p
    held : All (λ a. find_slot wt a.name (added ++ rows₀) ≡ some a.port) out
    listed : names out ++ slot_names slots ≡ slot_names all_slots
    lift : (r : Row) → Granted free repo wt slots r → Granted free repo wt all_slots r

  abbrev entry : Bytes → ℕ → Allocation
  entry n p = record { name = n; port = p }

  names-next :
      (n : Bytes) (spec : PortSpec) (slots : List (Bytes × PortSpec)) (out : List Allocation)
      (p : ℕ)
      → names out ++ slot_names ((n, spec) ∷ slots) ≡ slot_names all_slots
      → names (out ++ entry n p ∷ []) ++ slot_names slots ≡ slot_names all_slots
  names-next n spec slots out p e =
      ap (λ t. t ++ slot_names slots) (map-append (λ (a : Allocation). a.name) out (entry n p ∷ []))
      ∙ append_assoc (names out) (n ∷ []) (slot_names slots)
      ∙ e

  module _ (n : Bytes) (spec : PortSpec) (slots : List (Bytes × PortSpec)) (out : List Allocation)
      (mine : List Bytes) (added : List Row) (v : Inv ((n, spec) ∷ slots) out mine added) where
    -- A slot whose port is known already.
    known :
        (p : ℕ)
        → find_slot wt n (added ++ rows₀) ≡ some p
        → Inv slots (out ++ entry n p ∷ []) mine added
    known p f = record {
      written = v.written;
      fresh = v.fresh;
      granted = v.granted;
      kept = v.kept;
      held = All-append _ out (entry n p ∷ []) v.held (f, tt);
      listed = names-next n spec slots out p v.listed;
      lift = λ r g. v.lift r (inr g);
    }

    -- A slot that a new row was written for.
    extended :
        (p : ℕ) (now : List Row)
        → Reserved (row_of repo wt n p) (added ++ rows₀) (ok tt) now
        → spec.min_port ≤ p
        → p ≤ spec.max_port
        → free n p ≡ true
        → find_slot wt n rows₀ ≡ none
        → Inv slots (out ++ entry n p ∷ []) (mine ++ n ∷ []) (row_of repo wt n p ∷ added)
    extended p now (e, c, valid) lo hi f none₀ = record {
      written = (in_slots-last repo wt mine n p, grown added v.written);
      fresh = All-append _ mine (n ∷ []) v.fresh ((valid, none₀), tt);
      granted = (v.lift _ (inl (refl, lo, hi, f)), v.granted);
      kept = λ m q g. find_slot-insert wt m r (added ++ rows₀) q c (v.kept m q g);
      held =
          All-append _ out (entry n p ∷ []) (seen out v.held)
            (find_slot-row_of repo wt n p (added ++ rows₀), tt);
      listed = names-next n spec slots out p v.listed;
      lift = λ r g. v.lift r (inr g);
    }
      where
        r : Row
        r = row_of repo wt n p

        grown :
            (rows : List Row)
            → All (λ x. in_slots wt mine x ≡ true) rows
            → All (λ x. in_slots wt (mine ++ n ∷ []) x ≡ true) rows
        grown [] h = tt
        grown (x ∷ rows) (h, hs) = (in_slots-append wt mine n x h, grown rows hs)

        seen :
            (es : List Allocation)
            → All (λ a. find_slot wt a.name (added ++ rows₀) ≡ some a.port) es
            → All (λ a. find_slot wt a.name (r ∷ (added ++ rows₀)) ≡ some a.port) es
        seen [] h = tt
        seen (a ∷ es) (h, hs) =
            (find_slot-insert wt a.name r (added ++ rows₀) a.port c h, seen es hs)

  abbrev Ends : Outcome × Db → Type 0
  Ends end = Settled end.0 end.1.rows

  give_up-Settled :
      (mine : List Bytes) (added : List Row) (e : Error) (ts : List Turn)
      → Alone ts
      → All (IsNew wt rows₀) mine
      → All (λ r. in_slots wt mine r ≡ true) added
      → Ends (give_up wt mine e (record { rows = added ++ rows₀; turns = ts }))
  give_up-Settled mine added e ts q fresh written =
      let (extra, p, exact) = roll_back-Undone wt rows₀ mine added ts q fresh in
      (extra, p, λ b. exact b written)

  -- The rest of the loop, over `slots`, is settled from every state.
  abbrev Rest : List (Bytes × PortSpec) → Type 0
  Rest slots =
      (out : List Allocation) (mine : List Bytes) (added : List Row) (ts : List Turn)
      → Alone ts
      → Inv slots out mine added
      → Ends (
          allocate_loop free repo wt (slots_of wt rows₀) slots out mine
            (record { rows = added ++ rows₀; turns = ts }))

  module _ (n : Bytes) (spec : PortSpec) (slots : List (Bytes × PortSpec)) (rest : Rest slots)
      (out : List Allocation) (mine : List Bytes) (added : List Row)
      (v : Inv ((n, spec) ∷ slots) out mine added) where
    next : ℕ → List Bytes → Db → Outcome × Db
    next p now = allocate_loop free repo wt (slots_of wt rows₀) slots (out ++ entry n p ∷ []) now

    settle-Settled :
        (r : Result (ℕ × Bool)) (now : List Row) (ts : List Turn)
        → One (free n) repo wt n spec (added ++ rows₀) r now
        → Alone ts
        → find_slot wt n rows₀ ≡ none
        → Ends (
            settle wt mine
              (λ p reused. next p (claimed mine n reused))
              r
              (record { rows = now; turns = ts }))
    unfolding next
    settle-Settled (err e) now ts h q none₀ =
        rw h (give_up-Settled mine added e ts q v.fresh v.written)
    settle-Settled (ok (p, true)) now ts (h, f) q none₀ =
        rw h (rest _ mine added ts q (known n spec slots out mine added v p f))
    settle-Settled (ok (p, false)) now ts (h, lo, hi, f) q none₀ = rw h.0 (
        rest _ (mine ++ n ∷ []) (row_of repo wt n p ∷ added) ts q
          (extended n spec slots out mine added v p now h lo hi f none₀))

    attempt : Db → Outcome × Db
    attempt db =
        let (r, db') = allocate_one (free n) repo wt n spec db in
        settle wt mine (λ p reused. next p (claimed mine n reused)) r db'

    unless_held-Settled :
        (h : Option ℕ) (ts : List Turn)
        → find_slot wt n rows₀ ≡ h
        → Alone ts
        → spec.min_port ≤ spec.max_port
        → Ends (
            unless_held h (λ p. next p mine) attempt (record { rows = added ++ rows₀; turns = ts }))
    unfolding attempt next
    unless_held-Settled (some p) ts e q o =
        rest _ mine added ts q (known n spec slots out mine added v p (v.kept n p e))
    unless_held-Settled none ts e q o =
        let a = allocate_one-Runs (free n) repo wt n spec (added ++ rows₀) o in
        settle-Settled _ _ _ (a.run ts q) (a.alone ts q) e

  loop-Settled : (slots : List (Bytes × PortSpec)) → Ordered slots → Rest slots
  unfolding allocate_loop attempt next
  loop-Settled [] o out mine added ts q v =
      (added, refl, v.granted, sym (append-nil (names out)) ∙ v.listed, v.held)
  loop-Settled ((n, spec) ∷ slots) (le, o) out mine added ts q v =
      unless_held-Settled n spec slots (loop-Settled slots o) out mine added v
        (lookup n (slots_of wt rows₀)) ts (sym (lookup-slots_of wt n rows₀)) q le

  start-Inv : Inv all_slots [] [] []
  start-Inv = record {
    written = tt;
    fresh = tt;
    granted = tt;
    kept = λ n p e. e;
    held = tt;
    listed = refl;
    lift = λ r g. g;
  }

  started-Settled :
      (r : Result (List (Bytes × ℕ))) (now : List Row) (ts : List Turn)
      → Ordered all_slots
      → Loaded wt rows₀ r now
      → Alone ts
      → Ends (started free repo wt all_slots r (record { rows = now; turns = ts }))
  started-Settled (err e) now ts o h q = ([], h, λ _. refl)
  started-Settled (ok m) now ts o (h, e) q =
      rw (h, e) (loop-Settled all_slots o [] [] [] ts q start-Inv)

-- `Allocate`, with no other process at work and whichever statements fail. If it succeeds, every
-- declared slot has an entry, in order, the entry is the port that the table then holds for the
-- slot, and the table has only gained rows, each for a declared slot, with a port of its range that
-- could be bound. If it fails, the table is as before, unless a release of the rollback failed too,
-- and no row that was there is lost in any case.
pub allocate-Settled :
    (free : Bytes → ℕ → Bool) (slots : List (Bytes × PortSpec)) (repo wt : ℕ) (db : Db)
    → Ordered slots
    → (wt == 0) ≡ false
    → Alone db.turns
    → let end = allocate free slots repo wt db in
      Settled free repo wt slots db.rows end.0 end.1.rows
unfolding allocate
allocate-Settled free [] repo wt db o z q = ([], refl, tt, refl, tt)
allocate-Settled free (s ∷ slots) repo wt db o z q =
    let a = load_worktree_ports-Runs wt db.rows z in
    started-Settled free repo wt (s ∷ slots) db.rows _ _ _ o (a.run db.turns q) (a.alone db.turns q)
