-- ===== src/Ports/Rollback.antt =====
-- The rollback of `Allocate` when no other process acts on the table.
use treeman.Prelude.{
  ℕ, true, false, ◌||◌, List, [], ◌∷◌, ◌++◌, none, ◌==◌, ◌≡◌, refl, arith, All, ap, ◌∙◌,
}
use treeman.Prelude.Text.{Bytes}
use treeman.Ports.Store.{
  Row, delete_slot, find_slot, Db, Turn, Result, ok, err, empty_name, release_worktree_port,
}
use treeman.Ports.Store.Alone.{Alone, Released, release_worktree_port-Runs}
use treeman.Ports.Store.Slots.{in_slots, delete_slot-none, delete_slot-append, delete_slot-in_slots}
use treeman.Ports.{roll_back, note_failure}

module _ (wt : ℕ) (rows₀ : List Row) where
  -- A slot that can be written, and that the table did not hold.
  abbrev pub IsNew : Bytes → Type 0
  IsNew n = ((wt == 0 || empty_name n) ≡ false) × (find_slot wt n rows₀ ≡ none)

  -- What a rollback of `names` leaves of the rows added: nothing, if every release succeeded.
  abbrev pub Undone : List Bytes → List Row → List Bytes → List Row → Type 0
  Undone names added bad now =
      (extra : List Row) × (now ≡ extra ++ rows₀)
      × (bad ≡ [] → All (λ r. in_slots wt names r ≡ true) added → extra ≡ [])

  none_left : (added : List Row) → All (λ r. in_slots wt [] r ≡ true) added → added ≡ []
  none_left [] h = refl
  none_left (r ∷ added) (h, _) = absurd (ground arith)

  delete_new :
      (n : Bytes) (added : List Row)
      → find_slot wt n rows₀ ≡ none
      → delete_slot wt n (added ++ rows₀) ≡ delete_slot wt n added ++ rows₀
  delete_new n added f =
      delete_slot-append wt n added rows₀
      ∙ ap (λ (t : List Row). delete_slot wt n added ++ t) (delete_slot-none wt n rows₀ f)

  pub roll_back-Undone :
      (names : List Bytes) (added : List Row) (ts : List Turn)
      → Alone ts
      → All IsNew names
      → let end = roll_back wt names (record { rows = added ++ rows₀; turns = ts }) in
        Undone names added end.0 end.1.rows
  unfolding roll_back
  roll_back-Undone [] added ts q h = (added, refl, λ _ c. none_left added c)
  roll_back-Undone (n ∷ names) added ts q ((valid, fresh), h) =
      let rel = release_worktree_port-Runs wt n (added ++ rows₀) valid in
      released (release_worktree_port wt n db).0 (release_worktree_port wt n db).1.rows
        (release_worktree_port wt n db).1.turns (rel.run ts q)
        (roll_back-Undone names (delete_slot wt n added) _ (rel.alone ts q) h)
        (roll_back-Undone names added _ (rel.alone ts q) h)
    where
      db : Db
      db = record { rows = added ++ rows₀; turns = ts }

      released :
          (r : Result (Unit {0})) (now : List Row) (ts' : List Turn)
          → Released wt n (added ++ rows₀) r now
          → (let end =
                roll_back wt names
                  (record { rows = delete_slot wt n added ++ rows₀; turns = ts' }) in
              Undone names (delete_slot wt n added) end.0 end.1.rows)
          → (let end = roll_back wt names (record { rows = added ++ rows₀; turns = ts' }) in
              Undone names added end.0 end.1.rows)
          → let end = roll_back wt names (record { rows = now; turns = ts' }) in
            Undone (n ∷ names) added (note_failure n r end.0) end.1.rows
      released (ok _) now ts' e (extra, p, exact) _ =
          rw (e, delete_new n added fresh)
            (extra, p, λ b c. exact b (delete_slot-in_slots wt n names added c))
      released (err _) now ts' e _ (extra, p, exact) =
          rw e (extra, p, λ b c. absurd (ground (arith, b)))
