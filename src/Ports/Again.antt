-- ===== src/Ports/Again.antt =====
-- `Allocate` called again, as every finalize of a worktree does.
use treeman.Prelude.{
  ℕ, Bool, false, List, [], ◌∷◌, ◌++◌, some, ◌==◌, ◌≡◌, refl, arith, All, ap, ◌∙◌, append_assoc,
  append-nil, subst,
}
use treeman.Prelude.Text.{Bytes}
use treeman.Ports.Store.{Row, find_slot, Db, slots_of, lookup}
use treeman.Ports.Store.Alone.{Alone}
use treeman.Ports.Store.Quiet.{load_worktree_ports_quiet}
use treeman.Ports.Store.Slots.{lookup-slots_of}
use treeman.Ports.Settled.{Settled, Ordered, names, slot_names, allocate-Settled}
use treeman.Ports.{PortSpec, Allocation, Outcome, allocated, allocate_loop, allocate}

module _ (free : Bytes → ℕ → Bool) (repo wt : ℕ) (rows : List Row) where
  loop_held :
      (slots : List (Bytes × PortSpec)) (es out : List Allocation) (mine : List Bytes)
      → names es ≡ slot_names slots
      → All (λ a. find_slot wt a.name rows ≡ some a.port) es
      → allocate_loop free repo wt
          (slots_of wt rows)
          slots
          out
          mine
          (record { rows = rows; turns = [] })
        ≡ (allocated (out ++ es), record { rows = rows; turns = [] })
  unfolding allocate_loop
  loop_held [] [] out mine e h = rw append-nil
  loop_held [] (a ∷ es) out mine e h = absurd (ground (arith, e))
  loop_held (s ∷ slots) [] out mine e h = absurd (ground (arith, e))
  loop_held ((n, spec) ∷ slots) (a ∷ es) out mine e (f, h) =
      let same : n ≡ a.name = ground (arith, e) in
      let found : lookup n (slots_of wt rows) ≡ some a.port =
        lookup-slots_of wt n rows ∙ ap (λ t. find_slot wt t rows) same ∙ f in
      rw (found, same)
        (loop_held slots es (out ++ a ∷ []) mine (ground (arith, e)) h
          ∙ ap {B = Outcome × Db} (λ t. (allocated t, record { rows = rows; turns = [] }))
              (append_assoc out (a ∷ []) es))

  reload :
      (slots : List (Bytes × PortSpec)) (es : List Allocation)
      → (wt == 0) ≡ false
      → names es ≡ slot_names slots
      → All (λ a. find_slot wt a.name rows ≡ some a.port) es
      → allocate free slots repo wt (record { rows = rows; turns = [] })
        ≡ (allocated es, record { rows = rows; turns = [] })
  unfolding allocate
  reload [] [] z e h = refl
  reload [] (a ∷ es) z e h = absurd (ground (arith, e))
  reload (s ∷ slots) es z e h =
      rw (load_worktree_ports_quiet wt rows z) (loop_held (s ∷ slots) es [] [] e h)

-- `Allocate` is idempotent. After a call that succeeded, with whatever failures of statements on the
-- way, a call on the same slots that runs undisturbed returns the same ports and leaves the table as
-- it is, whatever the second call could bind.
pub allocate_idem :
    (free free' : Bytes → ℕ → Bool) (slots : List (Bytes × PortSpec)) (repo wt : ℕ) (db : Db)
    (out : List Allocation)
    → Ordered slots
    → (wt == 0) ≡ false
    → Alone db.turns
    → (allocate free slots repo wt db).0 ≡ allocated out
    → let rows = (allocate free slots repo wt db).1.rows in
      allocate free' slots repo wt (record { rows = rows; turns = [] })
      ≡ (allocated out, record { rows = rows; turns = [] })
allocate_idem free free' slots repo wt db out o z q e =
    let settled =
      subst (λ r. Settled free repo wt slots db.rows r (allocate free slots repo wt db).1.rows) e
        (allocate-Settled free slots repo wt db o z q) in
    reload free' repo wt (allocate free slots repo wt db).1.rows slots out z settled.3 settled.4
