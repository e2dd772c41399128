-- ===== src/Worktrees/Tests.antt =====
-- The table of worktrees on concrete rows.
use treeman.Prelude.{
  ℕ, ◌+◌, true, false, [], ◌∷◌, map, Option, none, some, if◌then◌else◌, All, ◌≡◌, ◌≢◌, ◌==◌,
  Bool-cases, inl, inr, refl, arith,
}
use treeman.Prelude.Text.{Bytes, codes, is_upper, bytes_eq, member}
use treeman.Prelude.Map.{lookup, nat_key}
use treeman.Worktrees.{
  at_path, ensure_main, Row, Table, Stages, ensure_with_admin, consistent, new_row,
}
use treeman.Worktrees.Table.{Ids}
use treeman.Worktrees.Main.{Enrolled, ensure_main-Enrolled}
use treeman.Worktrees.Ensure.{Grows, NoSuccessor, Registered, ensure_with_admin-Registered}
use treeman.Worktrees.Retry.{slug_taken, retry_pending_teardowns, pending, teardown_errors}
use treeman.Slug.{Host}
use treeman.Worktrees.Repair.{repair, no_result}
use treeman.Worktrees.Repair.Again.{repair_idem}
use treeman.Worktrees.Repair.Reconciled.{Agrees, repair-Agrees}
use treeman.Worktrees.Sweep.{settled, retry_pending_teardowns-settled, ensured-spared}

-- The ASCII part of NOCASE.
abbrev lower : ℕ → ℕ
lower c = if is_upper c then c + 32 else c

abbrev nocase : Bytes → Bytes
nocase s = map lower s

abbrev gone_row : Row
gone_row = record (new_row 1 (codes "/r/a") (codes "a_1") none none false) {
  deleted = true;
  teardown_error = some (codes "down");
}

-- The process that looks first sees only a deleted worktree; then another one registers the path.
abbrev before : Table
before = (1, gone_row) ∷ []

abbrev winner : Row
winner = new_row 1 (codes "/r/B") (codes "b_1") none none false

abbrev after : Table
after = (1, gone_row) ∷ (2, winner) ∷ []

before-after : Grows before after
unfolding lookup
before-after i r h = elim (Bool-cases (i == 1)) [
  | inl e ↦ (gone_row, rw e refl, ground (arith, h, e))
  | inr e ↦ absurd (ground (arith, h, e))
]

after-Ids : Ids after
unfolding lookup
after-Ids = (refl, (refl, tt))

after-consistent : consistent after ≡ true
unfolding consistent bytes_eq
after-consistent = refl

after-NoSuccessor : NoSuccessor after
unfolding lookup
after-NoSuccessor i r h d m = absurd (ground (arith, h, m))

still : (t : Table) → Grows t t
still t i r h = (r, h, refl)

-- The path is registered between the first SELECT and the INSERT.
abbrev lost : Stages
lost = record { seen = before; inserting = after; won = after; reading = after; writing = after }

ensure_with_admin-Registered_example :
    Registered nocase
      (codes "/r/B")
      (codes "b_2")
      (codes "main")
      []
      lost
      (ensure_with_admin nocase 1 (codes "/r/B") (codes "b_2") (codes "main") [] lost)
unfolding lookup
ensure_with_admin-Registered_example =
    ensure_with_admin-Registered nocase 1 (codes "/r/B") (codes "b_2") (codes "main") [] lost
      (refl, tt) after-Ids after-Ids before-after (still after) (still after) (still after)
      after-consistent after-consistent after-consistent after-NoSuccessor

-- The server answers for every slug but one.
abbrev server : ℕ → Bytes → Option Bytes
server port slug = if bytes_eq slug (codes "a_1") then none else some (codes "refused")

retry_pending_teardowns-settled_example :
    lookup 1 (retry_pending_teardowns server (λ p. false) (λ i. false) (3306 ∷ 5432 ∷ []) 1 after).0
    ≡ some (
        if pending 1 after gone_row
        then settled server (λ p. false) (λ i. false) (3306 ∷ 5432 ∷ []) gone_row
        else gone_row)
unfolding lookup
retry_pending_teardowns-settled_example =
    retry_pending_teardowns-settled server (λ p. false) (λ i. false) (3306 ∷ 5432 ∷ []) 1 0 gone_row
      after (λ i. refl) refl after-Ids refl

-- It is pending, and its databases are dropped.
settled_row :
    settled server (λ p. false) (λ i. false) (3306 ∷ 5432 ∷ []) gone_row
    ≡ record gone_row { teardown_error = none }
unfolding settled teardown_errors bytes_eq
settled_row = refl

pending_row : pending 1 after gone_row ≡ true
unfolding pending slug_taken bytes_eq
pending_row = refl

-- The worktree that the deleted one had is registered again.
again :
    Registered nocase
      (codes "/r/A")
      (codes "a_1")
      []
      []
      lost
      (ensure_with_admin nocase 1 (codes "/r/A") (codes "a_1") [] [] lost)
unfolding lookup
again =
    ensure_with_admin-Registered nocase 1 (codes "/r/A") (codes "a_1") [] [] lost (refl, tt)
      after-Ids after-Ids before-after (still after) (still after) (still after) after-consistent
      after-consistent after-consistent after-NoSuccessor

ensured-spared_example :
    All
      (λ s. s ≢ codes "a_1")
      (retry_pending_teardowns server
        (λ p. false)
        (λ i. false)
        (3306 ∷ 5432 ∷ [])
        again.row.repo_id
        again.table).1
ensured-spared_example =
    ensured-spared server (λ p. false) (λ i. false) (3306 ∷ 5432 ∷ []) nocase 1 (codes "/r/A")
      (codes "a_1") [] [] lost again

abbrev host : Host
host = record { sum256 = λ s. s; slug_suffix = []; abs = λ p. some p; to_lower = λ s. s }

-- Git lists a worktree that is deleted in the table and a new one, and no longer the other.
repair-Agrees_example :
    (let x =
        repair host
          (λ p. codes "main")
          7
          true
          1
          (codes "/r")
          (codes "/r/a" ∷ codes "/r/c" ∷ [])
          after in
      (x.1.errors ≡ []) × Agrees true 1 (codes "/r") (codes "/r/a" ∷ codes "/r/c" ∷ []) after x.0)
unfolding lookup
repair-Agrees_example =
    repair-Agrees host (λ p. codes "main") 7 true 1 (codes "/r") (codes "/r/a" ∷ codes "/r/c" ∷ [])
      after after-Ids after-consistent (λ j r h d m. absurd (ground (arith, h, m)))

repair_run :
    (repair host
      (λ p. codes "main")
      7
      true
      1
      (codes "/r")
      (codes "/r/a" ∷ codes "/r/c" ∷ [])
      after).1
    ≡ record {
      registered = codes "/r/a" ∷ codes "/r/c" ∷ [];
      unregistered = codes "/r/B" ∷ [];
      errors = [];
    }
unfolding repair bytes_eq
repair_run = refl

-- The root is enrolled beside the two worktrees.
ensure_main-Enrolled_example :
    Enrolled nocase 1
      (codes "/r")
      (codes "main_x")
      after
      (ensure_main nocase 1 (codes "/r") (codes "main_x") (codes "x") after)
unfolding lookup bytes_eq
ensure_main-Enrolled_example =
    ensure_main-Enrolled nocase 1 (codes "/r") (codes "main_x") (codes "x") after after-Ids
      after-consistent (refl, (refl, tt)) at_root
  where
    at_root :
        (i : ℕ) (s : Row)
        → lookup i after ≡ some s
        → at_path nocase (codes "/r") s ≡ true
        → s.repo_id ≡ 1
    at_root i s h p = ground (arith, h)

repair_idem_example :
    (let u =
        (repair host
          (λ p. codes "main")
          7
          true
          1
          (codes "/r")
          (codes "/r/a" ∷ codes "/r/c" ∷ [])
          after).0 in
      repair host (λ p. []) 9 true 1 (codes "/r") (codes "/r/a" ∷ codes "/r/c" ∷ []) u
      ≡ (u, no_result))
unfolding lookup
repair_idem_example =
    repair_idem host (λ p. codes "main") (λ p. []) 7 9 true 1 (codes "/r")
      (codes "/r/a" ∷ codes "/r/c" ∷ []) after after-Ids after-consistent
      (λ j r h d m. absurd (ground (arith, h, m))) own
  where
    own :
        (j : ℕ) (r : Row)
        → lookup j after ≡ some r
        → member r.path (codes "/r/a" ∷ codes "/r/c" ∷ []) ≡ true
        → r.repo_id ≡ 1
    own j r h m = ground (arith, h)
